-- ===== src/JsmnWrapper/Calls.antt =====
-- jsmn/cc_jsmnWrapper.c: the functions that make values of the tokens, delete them and print them.
use libcc.Base.{
  ℕ, zero, suc, ◌+◌, ◌-◌, ◌^◌, Bool, false, Option, none, some, List, [], ◌∷◌, ◌++◌, if◌then◌else◌,
  length, ◌==◌, ◌&&◌,
}
use libcc.Int.{ℤ, pos, negsuc}
use libcc.JsmnStream.{JsmnType, object, array, Text}
use libcc.JsmnWrapper.{
  Token, Val, obj, array_of, text, Vals, no_val, val, Keyvals, no_keyval, keyval, Wrapper, Outcome,
  out_of_fuel, failed, made, after, release, give_up, is_object, is_array, is_string, alloc, step,
  wrap_list,
}

-- cc_jsmnVal_delete, cc_jsmnArray_delete, cc_jsmnObject_delete and cc_jsmnKeyval_delete. Each round of
-- the loops of the lists removes an iterator.
unfoldable mutual
  pub val_delete : Val → Wrapper → Wrapper
  val_delete (obj kvs) jw = release 1 (release 2 (keyvals_delete kvs jw))
  val_delete (array_of vs) jw = release 1 (release 2 (vals_delete vs jw))
  val_delete (text type t) jw = release 1 (release 1 jw)

  pub vals_delete : Vals → Wrapper → Wrapper
  vals_delete no_val jw = jw
  vals_delete (val v vs) jw = vals_delete vs (val_delete v (release 1 jw))

  pub keyvals_delete : Keyvals → Wrapper → Wrapper
  keyvals_delete no_keyval jw = jw
  keyvals_delete (keyval key v kvs) jw =
      keyvals_delete kvs (release 2 (val_delete v (release 1 jw)))

-- What is freed when a call fails: the list of the values before it, from its head on.
abbrev pub keyval_delete : Text × Val → Wrapper → Wrapper
keyval_delete kv jw = release 2 (val_delete kv.1 jw)

-- cc_jsmnKeyval_wrap, over cc_jsmnVal_wrap.
abbrev pub key_and_val :
    (Wrapper → Outcome Val) → Token × Option Text → Wrapper → Outcome (Text × Val)
key_and_val wrap (t, none) jw = give_up 1 jw
key_and_val wrap (t, some key) jw =
    if is_string t.type
    then after (wrap jw) (give_up 2) (λ v jw. made (key, v) jw)
    else give_up 2 jw

-- The text of a value that is not an object or an array.
unfoldable pub wrap_text : Token × Option Text → Wrapper → Outcome Val
wrap_text (t, none) jw = give_up 1 jw
wrap_text (t, some data_of) jw = made (text t.type data_of) jw

module _ (calloc : ℕ → Bool) (str : Text) where
  unfoldable pub keyval_wrap : (Wrapper → Outcome Val) → Wrapper → Outcome (Text × Val)
  keyval_wrap wrap jw =
      after (alloc calloc jw) failed
        λ _ jw. after (step calloc str jw) (give_up 1) λ r jw. key_and_val wrap r jw

  -- The loops of cc_jsmnObject_wrap and cc_jsmnArray_wrap. When a round fails, the rounds before it
  -- delete what they have put in the list.
  unfoldable pub members : (Wrapper → Outcome Val) → ℕ → Wrapper → Outcome Keyvals
  members wrap zero jw = made no_keyval jw
  members wrap (suc n) jw = after (keyval_wrap wrap jw) failed λ kv jw.
      after (alloc calloc jw) (λ jw. failed (keyval_delete kv jw))
        λ _ jw.
          after (members wrap n jw) (λ jw. failed (keyval_delete kv (release 1 jw)))
            λ kvs jw. made (keyval kv.0 kv.1 kvs) jw

  unfoldable pub elements : (Wrapper → Outcome Val) → ℕ → Wrapper → Outcome Vals
  elements wrap zero jw = made no_val jw
  elements wrap (suc n) jw = after (wrap jw) failed λ v jw.
      after (alloc calloc jw) (λ jw. failed (val_delete v jw))
        λ _ jw.
          after (elements wrap n jw) (λ jw. failed (val_delete v (release 1 jw)))
            λ vs jw. made (val v vs) jw

  unfoldable pub object_wrap : (Wrapper → Outcome Val) → Wrapper → Outcome Keyvals
  object_wrap wrap jw = wrap_list calloc str is_object jw (members wrap)

  unfoldable pub array_wrap : (Wrapper → Outcome Val) → Wrapper → Outcome Vals
  array_wrap wrap jw = wrap_list calloc str is_array jw (elements wrap)

  -- cc_jsmnVal_wrap, over its calls of itself: the token that cc_jsmnWrapper_peek returns says which
  -- value it is.
  unfoldable pub wrap_typed : (Wrapper → Outcome Val) → Wrapper → JsmnType → Outcome Val
  wrap_typed wrap jw object = after (object_wrap wrap jw) (give_up 1) (λ kvs jw. made (obj kvs) jw)
  wrap_typed wrap jw array = after (array_wrap wrap jw) (give_up 1) (λ vs jw. made (array_of vs) jw)
  wrap_typed wrap jw _ = after (step calloc str jw) (give_up 1) wrap_text

  unfoldable pub wrap_at : (Wrapper → Outcome Val) → Wrapper → List Token → Outcome Val
  wrap_at wrap jw [] = give_up 1 jw
  wrap_at wrap jw (t ∷ ts) = wrap_typed wrap jw t.type

  -- The fuel bounds how deep the values nest.
  unfoldable pub val_wrap : (fuel : ℕ) → Wrapper → Outcome Val
  val_wrap zero jw = out_of_fuel
  val_wrap (suc fuel) jw =
      after (alloc calloc jw) failed λ _ jw. wrap_at (val_wrap fuel) jw jw.tokens

  -- cc_jsmnWrapper_new. The first run of the parser only counts the tokens, the second fills an array
  -- of that many, and also returns a count.
  module _ (count_tokens : Text → ℤ) (jsmn_parse : Text → ℕ → ℤ × List Token) where
    abbrev pub is_count : ℤ → ℕ → Bool
    is_count (pos m) n = m == n
    is_count (negsuc m) n = false

    abbrev pub parsed : ℕ → ℤ × List Token → Wrapper → Outcome (Unit {0})
    parsed n (count, tokens) jw =
        if is_count count n then made tt (record jw { tokens = tokens }) else give_up 2 jw

    abbrev pub counted : ℤ → Wrapper → Outcome (Unit {0})
    counted (negsuc n) jw = give_up 1 jw
    counted (pos zero) jw = give_up 1 jw
    counted (pos (suc n)) jw =
        after (alloc calloc jw) (give_up 1) (λ _ jw. parsed (suc n) (jsmn_parse str (suc n)) jw)

    unfoldable pub wrapper_new : Wrapper → Outcome (Unit {0})
    wrapper_new jw = after (alloc calloc jw) failed λ _ jw. counted (count_tokens str) jw

    -- cc_jsmnWrapper_delete
    abbrev pub wrapper_delete : Wrapper → Wrapper
    wrapper_delete jw = release 1 (release 1 jw)

    -- cc_jsmnVal_new
    unfoldable pub val_new : Wrapper → Outcome Val
    val_new jw = after (wrapper_new jw) failed λ _ jw.
        after (val_wrap (length jw.tokens + 1) jw) (λ jw. failed (wrapper_delete jw))
          λ v jw. made v (wrapper_delete jw)

-- What the calls of cc_jsmnVal_import on its file return: fopen, fseek to the end and back, ftell, `none`
-- for its -1, and fread of one block of so many bytes, with the bytes that it reads.
pub record File : Type 0 where
  pub opens : Bool
  pub seeks_end : Bool
  pub tells : Option ℕ
  pub rewinds : Bool
  pub reads : ℕ → Option Text

-- `size_t size = ftell(f)`, which is not checked.
abbrev pub size_of : Option ℕ → ℕ
size_of none = 2 ^ 64 - 1
size_of (some n) = n

module _ (calloc : ℕ → Bool) (count_tokens : Text → ℤ)
    (jsmn_parse : Text → ℕ → ℤ × List Token) where
  unfoldable pub val_read : Option Text → Wrapper → Outcome Val
  val_read none jw = give_up 2 jw
  val_read (some str) jw =
      after (val_new calloc str count_tokens jsmn_parse jw) (give_up 2)
        λ v jw. made v (release 1 (release 1 jw))

  -- cc_jsmnVal_import. The open file counts as a block until fclose.
  unfoldable pub val_import : File → Wrapper → Outcome Val
  val_import file jw =
      if file.opens
      then (let jw = record jw { live = jw.live + 1 } in
          if file.seeks_end && file.rewinds
          then after (alloc calloc jw) (give_up 1)
              (λ _ jw. val_read (file.reads (size_of file.tells)) jw)
          else give_up 1 jw)
      else failed jw

-- What cc_jsmn_indent and the functions of cc_jsmnVal_print send to printf.
unfoldable pub indent : ℕ → Text
indent zero = []
indent (suc n) = b'\t' ∷ indent n

abbrev pub line : ℕ → Text → Text
line depth t = indent depth ++ (t ++ (b'\n' ∷ []))

unfoldable mutual
  pub val_printd : Val → ℕ → Text
  val_printd (obj kvs) depth =
      line depth (b'{' ∷ []) ++ (object_printd kvs (depth + 1) ++ line depth (b'}' ∷ []))
  val_printd (array_of vs) depth =
      line depth (b'[' ∷ []) ++ (array_printd vs (depth + 1) ++ line depth (b']' ∷ []))
  val_printd (text type t) depth = line depth t

  pub object_printd : Keyvals → ℕ → Text
  object_printd no_keyval depth = []
  object_printd (keyval key v kvs) depth =
      line depth (key ++ (b':' ∷ [])) ++ (val_printd v (depth + 1) ++ object_printd kvs depth)

  pub array_printd : Vals → ℕ → Text
  array_printd no_val depth = []
  array_printd (val v vs) depth = val_printd v depth ++ array_printd vs depth

unfoldable pub val_print : Val → Text
val_print v = val_printd v 0
