-- ===== src/JsmnStream/Write.antt =====
-- The text that jsmn/cc_jsmnStream.c writes for a JSON value, where the buffer can have every size.
use libcc.Base.{
  ℕ, zero, suc, ◌+◌, ◌<◌, ◌^◌, ◌≡◌, refl, Bool, true, false, [], ◌∷◌, ◌++◌, arith, sym, subst, ◌∙◌,
  ap, append_assoc, append-nil,
}
use libcc.JsmnStream.{JsmnState, JsmnStream, Text, Result, max_depth, next_count}
use libcc.JsmnStream.Json.{
  Json, quoted, separator, jstring, jprimitive, jarray, jobject, Elements, no_element, element,
  Members, no_member, member, print, print_elements, print_members, write, write_elements,
  write_members, count_elements, count_members, Fits, AllFit, MembersFit,
}
use libcc.JsmnStream.Steps.{
  Ok, ok, Ok-bind, Ok-mono, At, Wrote, Wrote-trans, retext, array_state, object_state, Context,
  in_array, in_object, before, after, lead,
}
use libcc.JsmnStream.Values.{
  Inside, string-Wrote, primitive-Wrote, begin_object-Inside, begin_array-Inside, end-Wrote,
  key-Wrote, formatted-short,
}

next_count-suc : (c n : ℕ) → c + (n + 1) < 2 ^ 32 → next_count c ≡ c + 1
next_count-suc c n lt = omega arith

Inside-Wrote :
    {s : JsmnStream} {d : ℕ} {ctx : Context} {t u : Text} {st st' : JsmnState} {s' s'' : JsmnStream}
    → Inside s d ctx t st s'
    → Wrote s' (d + 1) u st' s''
    → Inside s d ctx (t ++ u) st' s''
Inside-Wrote i w = record { outer = i.outer; around = i.around; inner = Wrote-trans i.inner w }

stay :
    (s : JsmnStream) {d : ℕ} {st st' : JsmnState}
    → At s d st
    → st ≡ st'
    → Ok (Wrote s d [] st') (true, s)
stay s here e = ok record {
  text = sym (append-nil s.text);
  err = refl;
  place = (here.0, here.1 ∙ e);
  below = λ i lt. refl;
}

restate :
    {s : JsmnStream} {d : ℕ} {t : Text} {st st' : JsmnState} {r : Result}
    → st ≡ st'
    → Ok (Wrote s d t st) r
    → Ok (Wrote s d t st') r
restate {s} {d} {t} {st} {st'} {r} e = subst (λ x. Ok (Wrote s d t x) r) e

module _ (realloc : ℕ → Bool) (total : (n : ℕ) → realloc n ≡ true) where
  mutual
    unfolding write print count_elements Fits

    pub write-Wrote :
        (j : Json) (room : ℕ) (s : JsmnStream) (d : ℕ) (ctx : Context)
        → Fits room j
        → d + room < max_depth
        → At s d (before ctx)
        → Ok (Wrote s d (lead ctx ++ print j) (after ctx)) (write realloc j s)
    write-Wrote (jstring t) room s d ctx fits deep here =
        retext (ap (λ u. lead ctx ++ quoted u) (formatted-short t fits))
          (string-Wrote realloc total s d ctx here t)
    write-Wrote (jprimitive t) room s d ctx fits deep here =
        primitive-Wrote realloc total s d ctx here t
    write-Wrote (jarray js) zero s d ctx fits deep here = absurd fits
    write-Wrote (jarray js) (suc room) s d ctx fits deep here =
        Ok-bind
          (Ok-bind (begin_array-Inside realloc total s d ctx here (omega arith)) λ s' i.
            Ok-mono
              (write_elements-Wrote js room s' (d + 1) 0 fits.1 (omega (arith, fits.0))
                (omega arith) i.inner.place)
              λ s'' w. Inside-Wrote i w)
          λ s'' i. end-Wrote realloc total s d ctx _ _ (b']' ∷ []) s'' i refl
    write-Wrote (jobject ms) zero s d ctx fits deep here = absurd fits
    write-Wrote (jobject ms) (suc room) s d ctx fits deep here =
        Ok-bind
          (Ok-bind (begin_object-Inside realloc total s d ctx here (omega arith)) λ s' i.
            Ok-mono
              (write_members-Wrote ms room s' (d + 1) 0 fits.1 (omega (arith, fits.0)) (omega arith)
                i.inner.place)
              λ s'' w. Inside-Wrote i w)
          λ s'' i. end-Wrote realloc total s d ctx _ _ (b'}' ∷ []) s'' i refl

    pub write_elements-Wrote :
        (js : Elements) (room : ℕ) (s : JsmnStream) (d c : ℕ)
        → AllFit room js
        → c + count_elements js < 2 ^ 32
        → d + room < max_depth
        → At s d (array_state c)
        → Ok
            (Wrote s d (print_elements c js) (array_state (c + count_elements js)))
            (write_elements realloc js s)
    write_elements-Wrote no_element room s d c fits small deep here =
        stay s here (ap array_state (omega arith))
    write_elements-Wrote (element j js) room s d c fits small deep here =
        let once : next_count c ≡ c + 1 = next_count-suc c (count_elements js) small in
        restate (ap array_state (omega arith)) (
          Ok-bind (write-Wrote j room s d (in_array c) fits.0 deep here) λ s' w.
            let here' : At s' d (array_state (c + 1)) =
              (w.place.0, w.place.1 ∙ ap array_state once) in
            Ok-mono (write_elements-Wrote js room s' d (c + 1) fits.1 (omega arith) deep here')
              λ s'' w'. Wrote-trans w w')

    pub write_members-Wrote :
        (ms : Members) (room : ℕ) (s : JsmnStream) (d c : ℕ)
        → MembersFit room ms
        → c + count_members ms < 2 ^ 32
        → d + room < max_depth
        → At s d (object_state false c)
        → Ok
            (Wrote s d (print_members c ms) (object_state false (c + count_members ms)))
            (write_members realloc ms s)
    write_members-Wrote no_member room s d c fits small deep here =
        stay s here (ap (object_state false) (omega arith))
    write_members-Wrote (member k j ms) room s d c fits small deep here =
        let once : next_count c ≡ c + 1 = next_count-suc c (count_members ms) small in
        let key_cut = ap (λ u. separator c ++ (quoted u ++ b':' ∷ [])) (formatted-short k fits.0) in
        let wrote_one = Ok-bind (retext key_cut (key-Wrote realloc total s d c k here)) λ s' w.
          Ok-mono (write-Wrote j room s' d (in_object (next_count c)) fits.1 deep w.place)
            λ s'' w'. Wrote-trans w w' in
        restate (ap (object_state false) (omega arith)) (
          Ok-bind wrote_one λ s' w.
            let here' : At s' d (object_state false (c + 1)) =
              (w.place.0, w.place.1 ∙ ap (object_state false) once) in
            retext (simp append_assoc) (
              Ok-mono (write_members-Wrote ms room s' d (c + 1) fits.2 (omega arith) deep here')
                λ s'' w'. Wrote-trans w w'))
