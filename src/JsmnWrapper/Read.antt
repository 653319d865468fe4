-- ===== src/JsmnWrapper/Read.antt =====
-- jsmn/cc_jsmnWrapper.c: what cc_jsmnVal_wrap makes of the tokens of a JSON value.
use libcc.Base.{
  ℕ, zero, suc, ◌+◌, ◌≤◌, ◌≡◌, refl, Bool, true, List, [], ◌∷◌, ◌++◌, length, length-append, arith,
  ap, subst, ◌∙◌, append_assoc,
}
use libcc.JsmnStream.{object, array, string, primitive, Text}
use libcc.JsmnStream.Json.{
  Json, jstring, jprimitive, jarray, jobject, Elements, no_element, element, Members, no_member,
  member, separator, quoted, print, print_elements, print_members, count_elements, count_members,
}
use libcc.JsmnWrapper.{Token, obj, array_of, text, Wrapper, is_object, is_array}
use libcc.JsmnWrapper.Calls.{
  keyval_wrap, members, elements, object_wrap, array_wrap, wrap_typed, val_wrap,
}
use libcc.JsmnWrapper.Tokens.{
  token, tokens, tokens_elements, tokens_members, val_of, vals_of, keyvals_of, StandsAt,
  first-StandsAt, second-StandsAt,
}
use libcc.JsmnWrapper.Steps.{
  Reads, reads, after-Reads, alloc-Reads, wrap_list-Reads, wrap_text-Reads, val_wrap-Reads,
  keyval_wrap-Reads,
}

module _ (calloc : ℕ → Bool) (total : (n : ℕ) → calloc n ≡ true) (str : Text) where
  member_assoc :
      (s k v t : Text) → s ++ k ++ (b':' ∷ []) ++ v ++ t ≡ s ++ (k ++ ((b':' ∷ []) ++ (v ++ t)))
  member_assoc s k v t =
      append_assoc (s ++ k ++ (b':' ∷ [])) v t
      ∙ (append_assoc (s ++ k) (b':' ∷ []) (v ++ t) ∙ append_assoc s k (b':' ∷ (v ++ t)))

  add_one : (n : ℕ) → n + 1 ≡ suc n
  add_one n = omega arith

  pub one-le-length : (at : ℕ) (j : Json) → 1 ≤ length (tokens at j)
  unfolding tokens
  one-le-length at (jstring t) = omega arith
  one-le-length at (jprimitive t) = omega arith
  one-le-length at (jarray js) = omega arith
  one-le-length at (jobject ms) = omega arith

  mutual
    unfolding print tokens val_of count_elements wrap_typed object_wrap array_wrap members elements
        keyval_wrap

    -- The tokens of a value's text, and others behind them: cc_jsmnVal_wrap makes the value and leaves
    -- the others.
    pub print-Reads :
        (j : Json) (fuel at : ℕ) (rest : List Token) (jw : Wrapper)
        → StandsAt str at (print j)
        → length (tokens at j) ≤ fuel
        → jw.tokens ≡ tokens at j ++ rest
        → Reads (val_of j) rest (val_wrap calloc str fuel jw)
    print-Reads j zero at rest jw here le e = absurd (omega (arith, le, one-le-length at j))
    print-Reads (jstring t) (suc fuel) at rest jw here le e =
        val_wrap-Reads calloc total str fuel jw (token string (at + 1) t 0) rest (text string t)
          rest e
          λ jw1 e1.
            wrap_text-Reads calloc total str jw1 string (at + 1) t rest refl
              (first-StandsAt str (at + 1) t (b'"' ∷ [])
                (second-StandsAt str at (b'"' ∷ []) (t ++ (b'"' ∷ [])) here))
              e1
    print-Reads (jprimitive t) (suc fuel) at rest jw here le e =
        val_wrap-Reads calloc total str fuel jw (token primitive at t 0) rest (text primitive t)
          rest e λ jw1 e1. wrap_text-Reads calloc total str jw1 primitive at t rest refl here e1
    print-Reads (jarray js) (suc fuel) at rest jw here le e =
        val_wrap-Reads calloc total str fuel jw
          (token array at (print (jarray js)) (count_elements js))
          (tokens_elements (at + 1) 0 js ++ rest) (array_of (vals_of js)) rest e
          λ jw1 e1.
            after-Reads _ _
              (wrap_list-Reads calloc total str (vals_of js) is_array jw1 _ _ _ rest refl refl e1
                λ jw2 e2.
                  elements-Reads js fuel (at + 1) 0 rest jw2
                    (first-StandsAt str (at + 1) (print_elements 0 js) (b']' ∷ []) (
                      second-StandsAt str at (b'[' ∷ []) (print_elements 0 js ++ (b']' ∷ [])) here))
                    (omega (arith, le)) e2)
              λ jw3 e3. reads e3
    print-Reads (jobject ms) (suc fuel) at rest jw here le e =
        val_wrap-Reads calloc total str fuel jw
          (token object at (print (jobject ms)) (count_members ms))
          (tokens_members (at + 1) 0 ms ++ rest) (obj (keyvals_of ms)) rest e
          λ jw1 e1.
            after-Reads _ _
              (wrap_list-Reads calloc total str (keyvals_of ms) is_object jw1 _ _ _ rest refl refl
                e1
                λ jw2 e2.
                  members-Reads ms fuel (at + 1) 0 rest jw2
                    (first-StandsAt str (at + 1) (print_members 0 ms) (b'}' ∷ [])
                      (second-StandsAt str at (b'{' ∷ []) (print_members 0 ms ++ (b'}' ∷ [])) here))
                    (omega (arith, le)) e2)
              λ jw3 e3. reads e3

    elements-Reads :
        (js : Elements) (fuel at c : ℕ) (rest : List Token) (jw : Wrapper)
        → StandsAt str at (print_elements c js)
        → length (tokens_elements at c js) ≤ fuel
        → jw.tokens ≡ tokens_elements at c js ++ rest
        → Reads
            (vals_of js)
            rest
            (elements calloc str (val_wrap calloc str fuel) (count_elements js) jw)
    elements-Reads no_element fuel at c rest jw here le e = reads e
    elements-Reads (element j js) fuel at c rest jw here le e =
        let at_j = at + length (separator c) in
        let at_js = at_j + length (print j) in
        let here_j =
          second-StandsAt str at (separator c) (print j ++ print_elements (c + 1) js)
            (subst (StandsAt str at) (append_assoc (separator c) (print j) _) here) in
        let lengths = length-append (tokens at_j j) (tokens_elements at_js (c + 1) js) in
        rw (add_one (count_elements js)) (
          after-Reads _ _
            (print-Reads j fuel at_j (tokens_elements at_js (c + 1) js ++ rest) jw
              (first-StandsAt str at_j (print j) (print_elements (c + 1) js) here_j)
              (omega (arith, le, lengths)) (e ∙ append_assoc (tokens at_j j) _ rest))
            λ jw1 e1. after-Reads _ _ (alloc-Reads calloc total str jw1) λ jw2 e2.
              after-Reads _ _
                (elements-Reads js fuel at_js (c + 1) rest jw2
                  (second-StandsAt str at_j (print j) (print_elements (c + 1) js) here_j)
                  (omega (arith, le, lengths)) (e2 ∙ e1))
                λ jw3 e3. reads e3)

    members-Reads :
        (ms : Members) (fuel at c : ℕ) (rest : List Token) (jw : Wrapper)
        → StandsAt str at (print_members c ms)
        → length (tokens_members at c ms) ≤ fuel
        → jw.tokens ≡ tokens_members at c ms ++ rest
        → Reads
            (keyvals_of ms)
            rest
            (members calloc str (val_wrap calloc str fuel) (count_members ms) jw)
    members-Reads no_member fuel at c rest jw here le e = reads e
    members-Reads (member k j ms) fuel at c rest jw here le e =
        let at_k = at + length (separator c) in
        let at_j = at_k + length (quoted k) + 1 in
        let at_ms = at_j + length (print j) in
        let after_key = (b':' ∷ []) ++ (print j ++ print_members (c + 1) ms) in
        let here_k = second-StandsAt str at (separator c) (quoted k ++ after_key) (
          subst (StandsAt str at)
            (member_assoc (separator c) (quoted k) (print j) (print_members (c + 1) ms)) here) in
        let here_j =
          second-StandsAt str (at_k + length (quoted k)) (b':' ∷ [])
            (print j ++ print_members (c + 1) ms)
            (second-StandsAt str at_k (quoted k) after_key here_k) in
        let lengths = length-append (tokens at_j j) (tokens_members at_ms (c + 1) ms) in
        rw (add_one (count_members ms)) (
          after-Reads _ _
            (keyval_wrap-Reads calloc total str (val_wrap calloc str fuel) jw (at_k + 1) k 1
              (tokens at_j j ++ (tokens_members at_ms (c + 1) ms ++ rest))
              (tokens_members at_ms (c + 1) ms ++ rest) (val_of j)
              (first-StandsAt str (at_k + 1) k (b'"' ∷ []) (
                second-StandsAt str at_k (b'"' ∷ []) (k ++ (b'"' ∷ []))
                  (first-StandsAt str at_k (quoted k) after_key here_k)))
              (e
                ∙ ap (λ ts. token string (at_k + 1) k 1 ∷ ts) (append_assoc (tokens at_j j) _ rest))
              λ jw1 e1.
                print-Reads j fuel at_j _ jw1
                  (first-StandsAt str at_j (print j) (print_members (c + 1) ms) here_j)
                  (omega (arith, le, lengths)) e1)
            λ jw1 e1. after-Reads _ _ (alloc-Reads calloc total str jw1) λ jw2 e2.
              after-Reads _ _
                (members-Reads ms fuel at_ms (c + 1) rest jw2
                  (second-StandsAt str at_j (print j) (print_members (c + 1) ms) here_j)
                  (omega (arith, le, lengths)) (e2 ∙ e1))
                λ jw3 e3. reads e3)
