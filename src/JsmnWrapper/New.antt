-- ===== src/JsmnWrapper/New.antt =====
-- jsmn/cc_jsmnWrapper.c: how cc_jsmnVal_new ends, whatever jsmn_parse returns and whichever requests for
-- memory fail.
use libcc.Base.{ℕ, zero, suc, ◌+◌, ◌≡◌, Bool, List, length, arith, inl, inr, Bool-cases}
use libcc.Int.{ℤ, pos, negsuc}
use libcc.JsmnStream.{Text}
use libcc.JsmnWrapper.{Token, Wrapper, Outcome}
use libcc.JsmnWrapper.Calls.{val_delete, is_count, parsed, counted, wrapper_new, val_new}
use libcc.JsmnWrapper.Ends.{
  val_blocks, live-val_delete, Ends, fails, makes, after-Ends, Ends-mono, AllInText, alloc-Ends,
}
use libcc.JsmnWrapper.Wrap.{val_wrap-Keeps}

module _ (calloc : ℕ → Bool) (str : Text) (count_tokens : Text → ℤ)
    (jsmn_parse : Text → ℕ → ℤ × List Token) where
  abbrev Opened : ℕ → Outcome (Unit {0}) → Type 0
  Opened live o =
      Ends (λ jw. jw.live ≡ live) (λ u jw. (jw.live ≡ live + 2) × AllInText str jw.tokens) o

  parsed-Opened :
      (n live : ℕ) (r : ℤ × List Token) (jw : Wrapper)
      → jw.live ≡ live + 2
      → AllInText str r.1
      → Opened live (parsed calloc str count_tokens jsmn_parse n r jw)
  parsed-Opened n live (count, ts) jw e inside =
      elim (Bool-cases (is_count calloc str count_tokens jsmn_parse count n)) [
        | inl c ↦ rw c (makes (e, inside))
        | inr c ↦ rw c (fails (omega (arith, e)))
      ]

  counted-Opened :
      ((n : ℕ) → AllInText str (jsmn_parse str n).1)
      → (count : ℤ) (live : ℕ) (jw : Wrapper) → jw.live ≡ live + 1
      → Opened live (counted calloc str count_tokens jsmn_parse count jw)
  counted-Opened inside (negsuc n) live jw e = fails (omega (arith, e))
  counted-Opened inside (pos zero) live jw e = fails (omega (arith, e))
  counted-Opened inside (pos (suc n)) live jw e =
      after-Ends (alloc-Ends calloc jw) (λ jw1 f1. fails (omega (arith, f1, e)))
        λ _ jw1 m1.
          parsed-Opened (suc n) live (jsmn_parse str (suc n)) jw1 (omega (arith, m1.0, e))
            (inside (suc n))

  wrapper_new-Opened :
      ((n : ℕ) → AllInText str (jsmn_parse str n).1)
      → (jw : Wrapper) → Opened jw.live (wrapper_new calloc str count_tokens jsmn_parse jw)
  unfolding wrapper_new
  wrapper_new-Opened inside jw =
      after-Ends (alloc-Ends calloc jw) (λ jw1 f1. fails f1)
        λ _ jw1 m1. counted-Opened inside (count_tokens str) jw.live jw1 m1.0

  pub val_new-Keeps :
      ((n : ℕ) → AllInText str (jsmn_parse str n).1)
      → (jw : Wrapper)
      → Ends
          (λ jw'. jw'.live ≡ jw.live)
          (λ v jw'. jw'.live ≡ jw.live + val_blocks v)
          (val_new calloc str count_tokens jsmn_parse jw)
  unfolding val_new
  val_new-Keeps inside jw =
      after-Ends (wrapper_new-Opened inside jw) (λ jw1 f1. fails f1)
        λ _ jw1 m1.
          after-Ends (val_wrap-Keeps calloc str (length jw1.tokens + 1) jw1 (omega arith) m1.1)
            (λ jw2 f2. fails (omega (arith, f2, m1.0)))
            λ v jw2 m2. makes (omega (arith, m2.0, m1.0))

  -- Where the characters of the tokens that jsmn_parse finds are in the text, as jsmn documents it,
  -- cc_jsmnVal_new ends, without a read outside of the text, whatever else jsmn_parse returns and
  -- whichever requests for memory fail. Where it returns null, as many blocks and iterators of lists are
  -- in use as before it. Where it returns a value, they are so again once cc_jsmnVal_delete has deleted
  -- the value.
  pub val_new-val_delete :
      ((n : ℕ) → AllInText str (jsmn_parse str n).1)
      → (jw : Wrapper)
      → Ends
          (λ jw'. jw'.live ≡ jw.live)
          (λ v jw'. (val_delete v jw').live ≡ jw.live)
          (val_new calloc str count_tokens jsmn_parse jw)
  val_new-val_delete inside jw =
      Ends-mono (val_new-Keeps inside jw) (λ jw1 f1. f1)
        λ v jw1 m1. omega (arith, live-val_delete v jw1, m1)
