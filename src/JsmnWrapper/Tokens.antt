-- ===== src/JsmnWrapper/Tokens.antt =====
-- The tokens that jsmn, by its documentation, makes of the text of a JSON value: each object, array,
-- string and primitive in the order of the text, with the place of its characters, a string's without
-- its quotes, and the number of its direct children. A key is a string whose one child is its value.
use libcc.Base.{
  ℕ, zero, suc, ◌+◌, ◌-◌, ◌≤◌, ◌≡◌, refl, List, [], ◌∷◌, ◌++◌, length, length-append, arith, sym,
  ◌∙◌, ap, append_assoc,
}
use libcc.JsmnStream.{JsmnType, array, object, string, primitive, Text}
use libcc.JsmnStream.Json.{
  Json, jstring, jprimitive, jarray, jobject, Elements, no_element, element, Members, no_member,
  member, separator, quoted, print, count_elements, count_members,
}
use libcc.JsmnWrapper.{
  Token, Val, obj, array_of, text, Vals, no_val, val, Keyvals, no_keyval, keyval, take, skip,
}

-- The token of a text that stands at a place.
abbrev pub token : JsmnType → ℕ → Text → ℕ → Token
token type at t size = record { type = type; start = at; end = at + length t; size = size }

-- The tokens of `print j`, which stands at a place of a larger text.
unfoldable mutual
  pub tokens : ℕ → Json → List Token
  tokens at (jstring t) = token string (at + 1) t 0 ∷ []
  tokens at (jprimitive t) = token primitive at t 0 ∷ []
  tokens at (jarray js) =
      token array at (print (jarray js)) (count_elements js) ∷ tokens_elements (at + 1) 0 js
  tokens at (jobject ms) =
      token object at (print (jobject ms)) (count_members ms) ∷ tokens_members (at + 1) 0 ms

  pub tokens_elements : ℕ → ℕ → Elements → List Token
  tokens_elements at c no_element = []
  tokens_elements at c (element j js) =
      let at_j = at + length (separator c) in
      tokens at_j j ++ tokens_elements (at_j + length (print j)) (c + 1) js

  pub tokens_members : ℕ → ℕ → Members → List Token
  tokens_members at c no_member = []
  tokens_members at c (member k j ms) =
      let at_k = at + length (separator c) in
      let at_j = at_k + length (quoted k) + 1 in
      token string (at_k + 1) k 1
      ∷ (tokens at_j j ++ tokens_members (at_j + length (print j)) (c + 1) ms)

-- The value of jsmn/cc_jsmnWrapper.h that stands for a JSON value.
unfoldable mutual
  pub val_of : Json → Val
  val_of (jstring t) = text string t
  val_of (jprimitive t) = text primitive t
  val_of (jarray js) = array_of (vals_of js)
  val_of (jobject ms) = obj (keyvals_of ms)

  pub vals_of : Elements → Vals
  vals_of no_element = no_val
  vals_of (element j js) = val (val_of j) (vals_of js)

  pub keyvals_of : Members → Keyvals
  keyvals_of no_member = no_keyval
  keyvals_of (member k j ms) = keyval k (val_of j) (keyvals_of ms)

skip_empty : (n : ℕ) → skip n [] ≡ []
skip_empty zero = refl
skip_empty (suc n) = refl

skip_add : (n m : ℕ) (t : Text) → skip (n + m) t ≡ skip m (skip n t)
skip_add zero m t = ap (λ k. skip k t) (omega arith)
skip_add (suc n) m [] = skip_empty (suc n + m) ∙ sym (skip_empty m)
skip_add (suc n) m (c ∷ t) = ap (λ k. skip k (c ∷ t)) (suc_add n m) ∙ skip_add n m t
  where
    suc_add : (n m : ℕ) → suc n + m ≡ suc (n + m)
    suc_add n m = omega arith

skip-append : (t u : Text) → skip (length t) (t ++ u) ≡ u
skip-append [] u = refl
skip-append (c ∷ t) u = skip-append t u

take-append : (t u : Text) → take (length t) (t ++ u) ≡ t
take-append [] u = refl
take-append (c ∷ t) u = ap (λ v. c ∷ v) (take-append t u)

length-skip : (n : ℕ) (t : Text) → n ≤ length t → length (skip n t) + n ≡ length t
length-skip zero t le = omega arith
length-skip (suc n) [] le = absurd (omega (arith, le))
length-skip (suc n) (c ∷ t) le = omega (arith, length-skip n t (omega (arith, le)))

-- A text stands at a place of a larger one.
abbrev pub StandsAt : Text → ℕ → Text → Type 0
StandsAt str at t = (rest : Text) × (skip at str ≡ t ++ rest) × (at ≤ length str)

pub first-StandsAt :
    (str : Text) (at : ℕ) (t u : Text) → StandsAt str at (t ++ u) → StandsAt str at t
first-StandsAt str at t u (rest, e, le) = (u ++ rest, e ∙ append_assoc t u rest, le)

-- A text that stands in a larger one ends in it.
pub end-StandsAt : (str : Text) (at : ℕ) (t : Text) → StandsAt str at t → at + length t ≤ length str
end-StandsAt str at t (rest, e, le) =
    omega (arith, length-skip at str le, ap length e, length-append t rest)

pub second-StandsAt :
    (str : Text) (at : ℕ) (t u : Text) → StandsAt str at (t ++ u) → StandsAt str (at + length t) u
second-StandsAt str at t u (rest, e, le) = (
  rest,
  skip_add at (length t) str
      ∙ (ap (skip (length t)) (e ∙ append_assoc t u rest) ∙ skip-append t (u ++ rest)),
  end-StandsAt str at t (u ++ rest, e ∙ append_assoc t u rest, le),
)

-- The copy of a token's text that cc_jsmnWrapper_step makes.
pub take-StandsAt :
    (str : Text) (at : ℕ) (t : Text)
    → StandsAt str at t
    → take (at + length t - at) (skip at str) ≡ t
take-StandsAt str at t (rest, e, le) = rw (the_length, e) (take-append t rest)
  where
    the_length : at + length t - at ≡ length t
    the_length = omega arith
