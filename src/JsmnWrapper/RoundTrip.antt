-- ===== src/JsmnWrapper/RoundTrip.antt =====
-- jsmn/cc_jsmnStream.c and jsmn/cc_jsmnWrapper.c together: a value that the stream writes is what the
-- wrapper reads.
use libcc.Base.{
  ℕ, ◌+◌, ◌≤◌, ◌≡◌, refl, Bool, true, List, [], ◌∷◌, length, arith, sym, ◌∙◌, ap, append-nil,
  ==_refl,
}
use libcc.Int.{ℤ, pos}
use libcc.JsmnStream.{Text}
use libcc.JsmnStream.Json.{Json, print}
use libcc.JsmnWrapper.{Token, Wrapper}
use libcc.JsmnWrapper.Calls.{counted, wrapper_new, val_new}
use libcc.JsmnWrapper.Tokens.{tokens, val_of}
use libcc.JsmnWrapper.Steps.{Reads, reads, after-Reads, alloc-Reads}
use libcc.JsmnWrapper.Read.{one-le-length, print-Reads}

module _ (calloc : ℕ → Bool) (total : (n : ℕ) → calloc n ≡ true) (count_tokens : Text → ℤ)
    (jsmn_parse : Text → ℕ → ℤ × List Token) where
  counted-Reads :
      (str : Text) (ts : List Token) (jw : Wrapper)
      → 1 ≤ length ts
      → jsmn_parse str (length ts) ≡ (pos (length ts), ts)
      → Reads tt ts (counted calloc str count_tokens jsmn_parse (pos (length ts)) jw)
  counted-Reads str [] jw le e = absurd (omega (arith, le))
  counted-Reads str (t ∷ ts) jw le e =
      after-Reads _ _ (alloc-Reads calloc total str jw)
        λ jw1 e1. rw (e, ==_refl (length (t ∷ ts))) (reads refl)

  wrapper_new-Reads :
      (str : Text) (ts : List Token) (jw : Wrapper)
      → 1 ≤ length ts
      → count_tokens str ≡ pos (length ts)
      → jsmn_parse str (length ts) ≡ (pos (length ts), ts)
      → Reads tt ts (wrapper_new calloc str count_tokens jsmn_parse jw)
  unfolding wrapper_new
  wrapper_new-Reads str ts jw le c e =
      after-Reads _ _ (alloc-Reads calloc total str jw)
        λ jw1 e1. rw c (counted-Reads str ts jw1 le e)

  -- Where each request for memory succeeds, and both runs of jsmn_parse over the text of a JSON value
  -- find the tokens of the value, cc_jsmnVal_new makes just that value, and no token is left over.
  pub val_new-print :
      (j : Json) (jw : Wrapper)
      → count_tokens (print j) ≡ pos (length (tokens 0 j))
      → jsmn_parse (print j) (length (tokens 0 j)) ≡ (pos (length (tokens 0 j)), tokens 0 j)
      → Reads (val_of j) [] (val_new calloc (print j) count_tokens jsmn_parse jw)
  unfolding val_new
  val_new-print j jw c e =
      after-Reads _ _
        (wrapper_new-Reads (print j) (tokens 0 j) jw (one-le-length calloc total (print j) 0 j) c e)
        λ jw1 e1.
          after-Reads _ _
            (print-Reads calloc total (print j) j (length jw1.tokens + 1) 0 [] jw1
              ([], sym (append-nil (print j)), omega arith) (omega (arith, ap length e1))
              (e1 ∙ sym (append-nil (tokens 0 j))))
            λ jw2 e2. reads e2
