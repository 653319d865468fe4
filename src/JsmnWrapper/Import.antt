-- ===== src/JsmnWrapper/Import.antt =====
-- jsmn/cc_jsmnWrapper.c: how cc_jsmnVal_import ends, whatever its file and its memory do.
use libcc.Base.{ℕ, ◌≡◌, Bool, List}
use libcc.Int.{ℤ}
use libcc.JsmnStream.{Text}
use libcc.JsmnWrapper.{Token, Val, Outcome}
use libcc.JsmnWrapper.Calls.{val_delete}
use libcc.JsmnWrapper.Ends.{Ends}

module _ (calloc : ℕ → Bool) (count_tokens : Text → ℤ)
    (jsmn_parse : Text → ℕ → ℤ × List Token) where
  abbrev Restored : ℕ → Outcome Val → Type 0
  Restored live o = Ends (λ jw. jw.live ≡ live) (λ v jw. (val_delete v jw).live ≡ live) o
