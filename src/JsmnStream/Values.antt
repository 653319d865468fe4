-- ===== src/JsmnStream/Values.antt =====
-- What the calls of jsmn/cc_jsmnStream.c for a string or a primitive, for a key, and for the beginning
-- and the end of an object or an array write, where the buffer can have every size.
use libcc.Base.{
  ℕ, zero, suc, ◌+◌, ◌<◌, ◌≡◌, refl, Bool, true, false, some, [], ◌∷◌, ◌++◌, arith, ◌==◌,
  if◌then◌else◌, ltb, length, sym, ◌∙◌, ap, ==_refl, append_assoc, append-nil,
}
use libcc.JsmnStream.{
  JsmnType, undefined, object, array, string, primitive, JsmnState, JsmnStream, Text, max_depth,
  set_current, next_count, cat, is_container, open_depth, append_val, val, val_entered, closer,
  close, end_with, end, count_key, key, put_string, put_primitive, begin_object, begin_array,
  first_chars, formatted,
}
use libcc.JsmnStream.Json.{separator, quoted}
use libcc.JsmnStream.Steps.{
  Ok, ok, Ok-bind, Ok-mono, At, Wrote, Wrote-trans, retext, current-At, set_current-Wrote,
  cat-Wrote, then_cat, array_state, object_state, Context, before, after, lead, Entered, entered,
  enter-Entered,
}

-- The state of an object or an array that has just begun.
abbrev pub begun : JsmnType → JsmnState
begun type = record { type = type; has_key = false; has_end = false; count = 0 }

-- The stream stands in a new depth, inside a value that stands in the context.
pub record Inside (s : JsmnStream) (d : ℕ) (ctx : Context) (t : Text) (st : JsmnState)
    (s' : JsmnStream) : Type 0 where
  pub outer : JsmnStream
  pub around : Wrote s d (lead ctx) (after ctx) outer
  pub inner : Wrote outer (d + 1) t st s'

open_depth-Wrote :
    (s : JsmnStream) (d : ℕ) (type : JsmnType)
    → s.depth ≡ d
    → d + 1 < max_depth
    → Ok (Wrote s (d + 1) [] (begun type)) (open_depth s type)
unfolding open_depth
open_depth-Wrote s d type e room =
    let fits : ltb (d + 1) max_depth ≡ true = ground arith in
    rw (e, fits)
      (ok record {
        text = sym (append-nil s.text);
        err = refl;
        place = (refl, rw (==_refl (d + 1)) refl);
        below = λ i lt. ground arith;
      })

first_chars-short : (n : ℕ) (t : Text) → length t < n + 1 → first_chars n t ≡ t
first_chars-short zero [] lt = refl
first_chars-short zero (c ∷ t) lt = absurd (omega (arith, lt))
first_chars-short (suc n) [] lt = refl
first_chars-short (suc n) (c ∷ t) lt = ap (◌∷◌ c) (first_chars-short n t (omega (arith, lt)))

-- A text of at most 255 characters is not cut.
pub formatted-short : (t : Text) → length t < 256 → formatted t ≡ t
unfolding formatted
formatted-short t lt = first_chars-short 255 t lt

module _ (realloc : ℕ → Bool) (total : (n : ℕ) → realloc n ≡ true) where
  Entered-string :
      (s : JsmnStream) (d : ℕ) (ctx : Context) (t : Text) (e : Bool × Bool × JsmnStream)
      → Entered s d ctx string e
      → Ok (Wrote s d (lead ctx ++ quoted t) (after ctx)) (val_entered realloc string t e)
  unfolding val_entered append_val
  Entered-string s d ctx t _ (entered w) =
      Ok-mono
        (then_cat realloc total (b'"' ∷ [])
          (then_cat realloc total t (cat-Wrote realloc total _ (b'"' ∷ []) w.place)))
        λ s' w'. Wrote-trans w w'

  Entered-primitive :
      (s : JsmnStream) (d : ℕ) (ctx : Context) (t : Text) (e : Bool × Bool × JsmnStream)
      → Entered s d ctx primitive e
      → Ok (Wrote s d (lead ctx ++ t) (after ctx)) (val_entered realloc primitive t e)
  unfolding val_entered append_val
  Entered-primitive s d ctx t _ (entered w) =
      Ok-mono (cat-Wrote realloc total _ t w.place) λ s' w'. Wrote-trans w w'

  module _ (s : JsmnStream) (d : ℕ) (ctx : Context) (here : At s d (before ctx)) where
    -- A string or a primitive where it may stand.
    pub string-Wrote :
        (t : Text)
        → Ok (Wrote s d (lead ctx ++ quoted (formatted t)) (after ctx)) (put_string realloc s t)
    unfolding put_string val
    string-Wrote t =
        Entered-string s d ctx (formatted t) _ (enter-Entered realloc total s d ctx string here)

    pub primitive-Wrote :
        (t : Text) → Ok (Wrote s d (lead ctx ++ t) (after ctx)) (put_primitive realloc s t)
    unfolding put_primitive val
    primitive-Wrote t =
        Entered-primitive s d ctx t _ (enter-Entered realloc total s d ctx primitive here)

    Entered-container :
        (type : JsmnType) (c : ℕ) (e : Bool × Bool × JsmnStream)
        → is_container type ≡ true
        → d + 1 < max_depth
        → Entered s d ctx type e
        → Ok (Inside s d ctx (c ∷ []) (begun type)) (val_entered realloc type (c ∷ []) e)
    unfolding val_entered append_val
    Entered-container object c _ is_object room (entered w) =
        Ok-mono (then_cat realloc total (c ∷ []) (open_depth-Wrote _ d object w.place.0 room))
          λ s' w'. record { outer = _; around = w; inner = w' }
    Entered-container array c _ is_array room (entered w) =
        Ok-mono (then_cat realloc total (c ∷ []) (open_depth-Wrote _ d array w.place.0 room))
          λ s' w'. record { outer = _; around = w; inner = w' }
    Entered-container undefined c _ e room w = absurd (ground arith)
    Entered-container string c _ e room w = absurd (ground arith)
    Entered-container primitive c _ e room w = absurd (ground arith)

    -- An object or an array that begins where a value may stand.
    pub begin_object-Inside :
        d + 1 < max_depth
        → Ok (Inside s d ctx (b'{' ∷ []) (object_state false 0)) (begin_object realloc s)
    unfolding begin_object val
    begin_object-Inside room =
        Entered-container object b'{' _ refl room (enter-Entered realloc total s d ctx object here)

    pub begin_array-Inside :
        d + 1 < max_depth → Ok (Inside s d ctx (b'[' ∷ []) (array_state 0)) (begin_array realloc s)
    unfolding begin_array val
    begin_array-Inside room =
        Entered-container array b'[' _ refl room (enter-Entered realloc total s d ctx array here)

  -- The end of what is written inside of a value: the stream is at the depth around it.
  close-Wrote :
      (s : JsmnStream) (d : ℕ) (ctx : Context) (t : Text) (st : JsmnState) (s' : JsmnStream)
      → Inside s d ctx t st s'
      → Wrote s d (lead ctx ++ t) (after ctx) (close s')
  close-Wrote s d ctx t st s' w = record {
    text = w.inner.text ∙ ap (λ x. x ++ t) w.around.text ∙ append_assoc s.text (lead ctx) t;
    err = w.inner.err ∙ w.around.err;
    place = (
      ground (arith, w.inner.place.0),
      rw w.inner.place.0 (ground (arith, w.inner.below d, w.around.place.1)),
    );
    below = λ i lt. rw w.inner.place.0 (ground (arith, w.inner.below i, w.around.below i lt));
  }

  pub end-Wrote :
      (s : JsmnStream) (d : ℕ) (ctx : Context) (t : Text) (st : JsmnState) (str : Text)
      (s' : JsmnStream)
      → Inside s d ctx t st s'
      → closer st ≡ some str
      → Ok (Wrote s d (lead ctx ++ (t ++ str)) (after ctx)) (end realloc s')
  unfolding end end_with
  end-Wrote s d ctx t st str s' w e =
      rw (current-At s' w.inner.place, e)
        (Ok-bind (cat-Wrote realloc total s' str w.inner.place) λ s'' w'. ok (
          close-Wrote s d ctx (t ++ str) st s''
            (record { outer = w.outer; around = w.around; inner = Wrote-trans w.inner w' })))

  key_comma :
      (s : JsmnStream) (d c : ℕ)
      → At s d (object_state false c)
      → Ok (Wrote s d (separator c) (object_state true c)) (
          let s' = set_current s (object_state true c) in
          if c == 0 then (true, s') else cat realloc s' (b',' ∷ []))
  key_comma s d zero here = ok (set_current-Wrote s here (object_state true 0))
  key_comma s d (suc c) here =
      let nonzero : (suc c == 0) ≡ false = ground arith in
      let w = set_current-Wrote s here (object_state true (suc c)) in
      rw nonzero (Ok-mono (cat-Wrote realloc total _ (b',' ∷ []) w.place) λ s' w'. Wrote-trans w w')

  counted :
      (s : JsmnStream) (d c : ℕ)
      → At s d (object_state true c)
      → Wrote s d [] (object_state true (next_count c)) (count_key s)
  counted s d c here =
      rw (current-At s here) (set_current-Wrote s here (object_state true (next_count c)))

  -- A key where one may stand.
  pub key-Wrote :
      (s : JsmnStream) (d c : ℕ) (k : Text)
      → At s d (object_state false c)
      → Ok
          (Wrote s d
            (separator c ++ (quoted (formatted k) ++ b':' ∷ []))
            (object_state true (next_count c)))
          (key realloc s k)
  unfolding key
  key-Wrote s d c k here =
      let start = Ok-bind (key_comma s d c here) λ s' w.
        let w' = counted s' d c w.place in
        Ok-mono (cat-Wrote realloc total _ (b'"' ∷ []) w'.place)
          λ s'' w''. Wrote-trans w (Wrote-trans w' w'') in
      let all =
        then_cat realloc total (b':' ∷ [])
          (then_cat realloc total (b'"' ∷ []) (then_cat realloc total (formatted k) start)) in
      let regroup : separator c ++ b'"' ∷ [] ++ formatted k ++ b'"' ∷ [] ++ b':' ∷ []
          ≡ separator c ++ (quoted (formatted k) ++ b':' ∷ []) =
        simp append_assoc in
      rw (current-At s here) (retext regroup all)
