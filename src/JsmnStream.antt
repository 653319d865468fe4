-- ===== src/JsmnStream.antt =====
-- jsmn/cc_jsmnStream.h and jsmn/cc_jsmnStream.c: the stream that writes JSON text. Characters are
-- numbers, and `realloc` answers for each size whether the buffer can have it.
pub mod Json
pub mod Steps
pub mod Values
pub mod Write
pub mod Root
pub mod Errors
pub mod Tests
use libcc.Base.{
  ℕ, zero, suc, ◌+◌, ◌-◌, ◌*◌, ◌%◌, ◌^◌, Bool, true, false, Option, none, some, List, [], ◌∷◌, ◌++◌,
  ◌==◌, if◌then◌else◌, ltb, length, not,
}

-- cc_jsmnType_e
pub data JsmnType : Type 0 where
  undefined object array string primitive : JsmnType

-- cc_jsmnState_t
pub record JsmnState : Type 0 where
  pub type : JsmnType
  pub has_key : Bool
  pub has_end : Bool
  pub count : ℕ

-- CC_JSMN_STREAM_MAX_DEPTH
abbrev pub max_depth : ℕ
max_depth = 32

abbrev pub Text : Type 0
Text = List ℕ

-- cc_jsmnStream_t. `text` is the buffer without its final zero, `len` of the source its length, and
-- `size` the size of the buffer, MEMSIZEPTR. The array `state` is a function of the index.
pub record JsmnStream : Type 0 where
  pub text : Text
  pub size : ℕ
  pub err : Bool
  pub depth : ℕ
  pub state : ℕ → JsmnState

-- cc_jsmnStream_new, where the allocation succeeds.
unfoldable pub new : JsmnStream
new = record {
  text = [];
  size = 0;
  err = false;
  depth = 0;
  state = λ i. record { type = undefined; has_key = false; has_end = false; count = 0 };
}

-- cc_jsmnStream_state
abbrev pub current : JsmnStream → JsmnState
current s = s.state s.depth

abbrev pub set_at : (ℕ → JsmnState) → ℕ → JsmnState → ℕ → JsmnState
set_at f i x j = if j == i then x else f j

abbrev pub set_current : JsmnStream → JsmnState → JsmnStream
set_current s x = record s { state = set_at s.state s.depth x }

-- cc_jsmnStream_error
abbrev pub fail : JsmnStream → JsmnStream
fail s = record s { err = true }

-- `++state->count` on a uint32_t
abbrev pub next_count : ℕ → ℕ
next_count c = (c + 1) % 2 ^ 32

-- A call's result, 0 or 1, and the stream.
abbrev pub Result : Type 0
Result = Bool × JsmnStream

-- `while(size < size2)`: the size, a size_t, is doubled until it fits. The fuel is the size wanted.
unfoldable pub grow : (fuel size size2 : ℕ) → ℕ
grow zero size size2 = size
grow (suc fuel) size size2 = if ltb size size2 then grow fuel (size * 2 % 2 ^ 64) size2 else size

unfoldable pub buffer_size : (size size2 : ℕ) → ℕ
unfolding grow
buffer_size size size2 = grow size2 (if size == 0 then 256 else size) size2

-- `a && b` on two calls, where the second is made if the first succeeds.
infixl 5 ◌&>◌
abbrev pub ◌&>◌ : Result → (JsmnStream → Result) → Result
(true, s) &> k = k s
(false, s) &> k = (false, s)

abbrev pub is_container : JsmnType → Bool
is_container object = true
is_container array = true
is_container _ = false

-- `if(inc_depth)`
unfoldable pub open_depth : JsmnStream → JsmnType → Result
open_depth s type =
    let depth = s.depth + 1 in
    if ltb depth max_depth
    then (
      true,
      record s {
        depth = depth;
        state =
            set_at s.state depth
              (record { type = type; has_key = false; has_end = false; count = 0 });
      },
    )
    else (false, fail s)

-- cc_jsmnStream_end: the state of the current depth, whether its end can be written, and by what.
abbrev pub closer : JsmnState → Option Text
closer st = elim st.type [
  | object ↦ if st.has_key then none else if st.has_end then none else some (b'}' ∷ [])
  | array ↦ if st.has_end then none else some (b']' ∷ [])
  | _ ↦ none
]

abbrev pub close : JsmnStream → JsmnStream
close s =
    let s' = set_current s (record (current s) { has_end = true }) in
    record s' { depth = s.depth - 1 }

-- What vsnprintf leaves of a text in the local buffer of CC_JSMN_STREAM_STRING_SIZE bytes, the last of
-- which is zero: its first 255 characters.
abbrev pub first_chars : ℕ → Text → Text
first_chars zero t = []
first_chars (suc n) [] = []
first_chars (suc n) (c ∷ t) = c ∷ first_chars n t

unfoldable pub formatted : Text → Text
formatted t = first_chars 255 t

-- cc_jsmnStream_key: whether a key is taken.
abbrev pub takes_key : JsmnState → Bool
takes_key st = elim st.type [ object ↦ if st.has_key then false else not st.has_end | _ ↦ false ]

abbrev pub count_key : JsmnStream → JsmnStream
count_key s = let st = current s in set_current s (record st { count = next_count st.count })

module _ (realloc : ℕ → Bool) where
  -- cc_jsmnStream_cat
  unfoldable pub cat : JsmnStream → Text → Result
  unfolding buffer_size
  cat s str =
      let size2 = length s.text + length str + 1 in
      if ltb s.size size2
      then (if realloc (buffer_size s.size size2)
          then (true, record s { text = s.text ++ str; size = buffer_size s.size size2 })
          else (false, fail s))
      else (true, record s { text = s.text ++ str })

  -- What cc_jsmnStream_val does to the state in which it finds the stream: whether the value is
  -- taken, with a comma in front where one is due, and whether it opens a new depth.
  unfoldable pub enter : JsmnStream → JsmnType → JsmnState → Bool × Bool × JsmnStream
  unfolding cat
  enter s type (st) = elim st.type [
    | undefined ↦ (
      true,
      false,
      set_current s
          (record { type = type; has_key = false; has_end = not (is_container type); count = 0 }),
    )
    | object ↦
        if st.has_key
        then (if st.has_end
            then (false, false, fail s)
            else (true, is_container type, set_current s (record st { has_key = false })))
        else (false, false, fail s)
    | array ↦
        if st.has_end
        then (false, false, fail s)
        else let (ok, s') = if st.count == 0 then (true, s) else cat s (b',' ∷ []) in
          if ok
          then (true, is_container type, set_current s' (record st { count = next_count st.count }))
          else (false, false, s')
    | _ ↦ (false, false, fail s)
  ]

  unfoldable pub append_val : JsmnStream → JsmnType → Text → Result
  unfolding cat
  append_val s string str = cat s (b'"' ∷ []) &> (λ s. cat s str) &> λ s. cat s (b'"' ∷ [])
  append_val s type str = cat s str

  -- cc_jsmnStream_val, once the value is taken or refused.
  unfoldable pub val_entered : JsmnType → Text → Bool × Bool × JsmnStream → Result
  unfolding open_depth append_val
  val_entered type str (false, _, s) = (false, s)
  val_entered type str (true, true, s) = open_depth s type &> λ s'. append_val s' type str
  val_entered type str (true, false, s) = append_val s type str

  -- cc_jsmnStream_val
  unfoldable pub val : JsmnStream → JsmnType → Text → Result
  unfolding enter val_entered
  val s type str = val_entered type str (enter s type (current s))

  unfoldable pub begin_object : JsmnStream → Result
  unfolding val
  begin_object s = val s object (b'{' ∷ [])

  unfoldable pub begin_array : JsmnStream → Result
  unfolding val
  begin_array s = val s array (b'[' ∷ [])

  unfoldable pub end_with : JsmnStream → Option Text → Result
  unfolding cat
  end_with s none = (false, fail s)
  end_with s (some str) = cat s str &> λ s'. (true, close s')

  unfoldable pub end : JsmnStream → Result
  unfolding end_with
  end s = end_with s (closer (current s))

  -- cc_jsmnStream_key: `text` is what the format and its arguments stand for.
  unfoldable pub key : JsmnStream → (text : Text) → Result
  unfolding cat
  key s text =
      let str = formatted text in
      let st = current s in
      let s' = set_current s (record st { has_key = true }) in
      if takes_key st
      then ((if st.count == 0 then (true, s') else cat s' (b',' ∷ []))
          &> (λ s. cat (count_key s) (b'"' ∷ []))
          &> (λ s. cat s str)
          &> (λ s. cat s (b'"' ∷ []))
          &> λ s. cat s (b':' ∷ []))
      else (false, fail s)

  -- cc_jsmnStream_string: `text` is what the format and its arguments stand for.
  unfoldable pub put_string : JsmnStream → (text : Text) → Result
  unfolding val
  put_string s text = val s string (formatted text)

  -- cc_jsmnStream_true, _false and _null, and the numbers, whose text snprintf makes.
  unfoldable pub put_primitive : JsmnStream → Text → Result
  unfolding val
  put_primitive s str = val s primitive str

-- cc_jsmnStream_buffer: whether the stream is complete.
abbrev pub is_complete : JsmnStream → Bool
is_complete s =
    let st = current s in
    if s.err
    then false
    else if s.depth == 0
    then (elim st.type [ undefined ↦ false | _ ↦ if st.has_key then false else st.has_end ])
    else false

-- cc_jsmnStream_buffer: the text, or none, which marks the stream as failed.
unfoldable pub buffer : JsmnStream → Option Text × JsmnStream
buffer s = if is_complete s then (some s.text, s) else (none, fail s)
