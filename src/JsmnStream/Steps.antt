-- ===== src/JsmnStream/Steps.antt =====
-- What one call of jsmn/cc_jsmnStream.c writes, and the state that it leaves, where the buffer can
-- have every size.
use libcc.Base.{
  ℕ, zero, suc, ◌+◌, ◌<◌, ◌≡◌, refl, Bool, true, false, [], ◌∷◌, ◌++◌, arith, ◌==◌, if◌then◌else◌,
  ltb, inl, inr, length, Bool-cases, sym, subst, ◌∙◌, ap, ==_refl, append_assoc, append-nil,
}
use libcc.JsmnStream.{
  JsmnType, undefined, object, array, JsmnState, JsmnStream, Text, Result, current, set_current,
  next_count, ◌&>◌, cat, is_container, enter,
}
use libcc.JsmnStream.Json.{separator}

-- A call that returns 1, with a property of the stream.
pub data Ok (P : JsmnStream → Type 0) : Result → Type 0 where
  ok : {s : JsmnStream} → P s → Ok P (true, s)

pub Ok-bind :
    {P Q : JsmnStream → Type 0} {r : Result} {k : JsmnStream → Result}
    → Ok P r
    → ((s : JsmnStream) → P s → Ok Q (k s))
    → Ok Q (r &> k)
Ok-bind (ok p) next = next _ p

pub Ok-mono :
    {P Q : JsmnStream → Type 0} {r : Result} → Ok P r → ((s : JsmnStream) → P s → Q s) → Ok Q r
Ok-mono (ok p) weaken = ok (weaken _ p)

-- The stream is at depth `d`, where its state is `st`.
abbrev pub At : JsmnStream → ℕ → JsmnState → Type 0
At s d st = (s.depth ≡ d) × (s.state d ≡ st)

-- From `s` to `s'` the text `t` was written, no error came up, and nothing changed at the depths
-- below `d`, at which the stream is now, in the state `st`.
pub record Wrote (s : JsmnStream) (d : ℕ) (t : Text) (st : JsmnState) (s' : JsmnStream)
    : Type 0 where
  pub text : s'.text ≡ s.text ++ t
  pub err : s'.err ≡ s.err
  pub place : At s' d st
  pub below : (i : ℕ) → i < d → s'.state i ≡ s.state i

pub Wrote-trans :
    {s s' s'' : JsmnStream} {d : ℕ} {t u : Text} {st st' : JsmnState}
    → Wrote s d t st s'
    → Wrote s' d u st' s''
    → Wrote s d (t ++ u) st' s''
Wrote-trans {s} {s'} {s''} {d} {t} {u} w w' = record {
  text = w'.text ∙ ap (λ x. x ++ u) w.text ∙ append_assoc s.text t u;
  err = w'.err ∙ w.err;
  place = w'.place;
  below = λ i lt. w'.below i lt ∙ w.below i lt;
}

pub retext :
    {s : JsmnStream} {d : ℕ} {t u : Text} {st : JsmnState} {r : Result}
    → t ≡ u
    → Ok (Wrote s d t st) r
    → Ok (Wrote s d u st) r
retext {s} {d} {t} {u} {st} {r} e = subst (λ x. Ok (Wrote s d x st) r) e

module _ (s : JsmnStream) {d : ℕ} {st : JsmnState} (here : At s d st) where
  pub current-At : current s ≡ st
  current-At = ap s.state here.0 ∙ here.1

  pub set_current-Wrote : (st' : JsmnState) → Wrote s d [] st' (set_current s st')
  set_current-Wrote st' = record {
    text = sym (append-nil s.text);
    err = refl;
    place = (here.0, rw (here.0, ==_refl d));
    below = λ i lt. rw here.0 (ground arith);
  }

module _ (realloc : ℕ → Bool) (total : (n : ℕ) → realloc n ≡ true) where
  pub cat-Wrote :
      (s : JsmnStream) {d : ℕ} {st : JsmnState} (str : Text)
      → At s d st
      → Ok (Wrote s d str st) (cat realloc s str)
  unfolding cat
  cat-Wrote s {d} {st} str here =
      let written : (size : ℕ)
          → Ok (Wrote s d str st) (true, record s { text = s.text ++ str; size = size }) =
        λ size. ok (record { text = refl; err = refl; place = here; below = λ i lt. refl }) in
      elim (Bool-cases (ltb s.size (length s.text + length str + 1))) [
        | inl more ↦ rw (more, total _) (written _)
        | inr fits ↦ rw fits (written s.size)
      ]

  -- The text after another.
  pub then_cat :
      {s : JsmnStream} {d : ℕ} {t : Text} {st : JsmnState} {r : Result} (str : Text)
      → Ok (Wrote s d t st) r
      → Ok (Wrote s d (t ++ str) st) (r &> λ s'. cat realloc s' str)
  then_cat str o = Ok-bind o λ s' w. Ok-mono (cat-Wrote s' str w.place) λ s'' w'. Wrote-trans w w'

-- The states of an array and of an object that are not ended.
abbrev pub array_state : ℕ → JsmnState
array_state c = record { type = array; has_key = false; has_end = false; count = c }

abbrev pub object_state : Bool → ℕ → JsmnState
object_state k c = record { type = object; has_key = k; has_end = false; count = c }

abbrev pub undefined_state : JsmnState
undefined_state = record { type = undefined; has_key = false; has_end = false; count = 0 }

-- Where a value may stand, with the number of elements or members so far: the state that it finds,
-- the state that it leaves, and what is written in front of it.
pub data Context : Type 0 where
  in_array in_object : ℕ → Context

abbrev pub before : Context → JsmnState
before (in_array c) = array_state c
before (in_object c) = object_state true c

abbrev pub after : Context → JsmnState
after (in_array c) = array_state (next_count c)
after (in_object c) = object_state false c

abbrev pub lead : Context → Text
lead (in_array c) = separator c
lead (in_object c) = []

pub data Entered (s : JsmnStream) (d : ℕ) (ctx : Context) (type : JsmnType)
    : Bool × Bool × JsmnStream → Type 0 where
  entered :
      {s' : JsmnStream}
      → Wrote s d (lead ctx) (after ctx) s'
      → Entered s d ctx type (true, is_container type, s')

after_comma :
    (s : JsmnStream) (d c : ℕ) (type : JsmnType) (r : Result)
    → Ok (Wrote s d (b',' ∷ []) (array_state (suc c))) r
    → Entered s d (in_array (suc c)) type (
        let (passed, s') = r in
        if passed
        then (true, is_container type, set_current s' (array_state (next_count (suc c))))
        else (false, false, s'))
after_comma s d c type _ (ok w) =
    entered (Wrote-trans w (set_current-Wrote _ w.place (array_state (next_count (suc c)))))

module _ (realloc : ℕ → Bool) (total : (n : ℕ) → realloc n ≡ true) where
  pub enter-Entered :
      (s : JsmnStream) (d : ℕ) (ctx : Context) (type : JsmnType)
      → At s d (before ctx)
      → Entered s d ctx type (enter realloc s type (current s))
  unfolding enter
  enter-Entered s d (in_array zero) type here =
      rw (current-At s here) (entered (set_current-Wrote s here (array_state 1)))
  enter-Entered s d (in_array (suc c)) type here =
      let nonzero : (suc c == 0) ≡ false = ground arith in
      rw (current-At s here, nonzero)
        (after_comma s d c type _ (cat-Wrote realloc total s (b',' ∷ []) here))
  enter-Entered s d (in_object c) type here =
      rw (current-At s here) (entered (set_current-Wrote s here (object_state false c)))
