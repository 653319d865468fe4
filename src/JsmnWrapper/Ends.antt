-- ===== src/JsmnWrapper/Ends.antt =====
-- How the calls of jsmn/cc_jsmnWrapper.c end: the blocks that a value holds, and the lemmas on a call
-- that follows another.
use libcc.Base.{
  ℕ, ◌+◌, ◌-◌, ◌≤◌, ◌<◌, ◌≡◌, refl, Bool, true, false, sym, ap, subst, Option, List, [], ◌∷◌,
  length, arith, inl, inr, Bool-cases,
}
use libcc.JsmnStream.{Text}
use libcc.JsmnWrapper.{
  Token, Val, obj, array_of, text, Vals, no_val, val, Keyvals, no_keyval, keyval, Wrapper, Outcome,
  failed, made, after, release, has_data, block, in_text, alloc, step_from, step,
}
use libcc.JsmnWrapper.Calls.{val_delete, vals_delete, keyvals_delete}

-- The blocks and iterators that a value holds.
unfoldable mutual
  pub val_blocks : Val → ℕ
  val_blocks (obj kvs) = 3 + keyvals_blocks kvs
  val_blocks (array_of vs) = 3 + vals_blocks vs
  val_blocks (text type t) = 2

  pub vals_blocks : Vals → ℕ
  vals_blocks no_val = 0
  vals_blocks (val v vs) = 1 + val_blocks v + vals_blocks vs

  pub keyvals_blocks : Keyvals → ℕ
  keyvals_blocks no_keyval = 0
  keyvals_blocks (keyval key v kvs) = 3 + val_blocks v + keyvals_blocks kvs

mutual
  unfolding val_blocks val_delete

  pub live-val_delete : (v : Val) (jw : Wrapper) → (val_delete v jw).live ≡ jw.live - val_blocks v
  live-val_delete (obj kvs) jw = omega (arith, live-keyvals_delete kvs jw)
  live-val_delete (array_of vs) jw = omega (arith, live-vals_delete vs jw)
  live-val_delete (text type t) jw = omega arith

  live-vals_delete :
      (vs : Vals) (jw : Wrapper) → (vals_delete vs jw).live ≡ jw.live - vals_blocks vs
  live-vals_delete no_val jw = omega arith
  live-vals_delete (val v vs) jw =
      omega
        (arith, live-vals_delete vs (val_delete v (release 1 jw)), live-val_delete v (release 1 jw))

  live-keyvals_delete :
      (kvs : Keyvals) (jw : Wrapper) → (keyvals_delete kvs jw).live ≡ jw.live - keyvals_blocks kvs
  live-keyvals_delete no_keyval jw = omega arith
  live-keyvals_delete (keyval key v kvs) jw = omega (
    arith,
    live-keyvals_delete kvs (release 2 (val_delete v (release 1 jw))),
    live-val_delete v (release 1 jw),
  )

-- A call ends, with null and `F`, or with a result and `M`.
pub data Ends {A : Type 0} (F : Wrapper → Type 0) (M : A → Wrapper → Type 0)
    : Outcome A → Type 0 where
  fails : {jw : Wrapper} → F jw → Ends F M (failed jw)
  makes : {a : A} {jw : Wrapper} → M a jw → Ends F M (made a jw)

pub after-Ends :
    {A B : Type 0} {F F' : Wrapper → Type 0} {M : A → Wrapper → Type 0} {M' : B → Wrapper → Type 0}
    {o : Outcome A} {fail : Wrapper → Outcome B} {next : A → Wrapper → Outcome B}
    → Ends F M o
    → ((jw : Wrapper) → F jw → Ends F' M' (fail jw))
    → ((a : A) (jw : Wrapper) → M a jw → Ends F' M' (next a jw))
    → Ends F' M' (after o fail next)
after-Ends (fails f) on_fail on_made = on_fail _ f
after-Ends (makes m) on_fail on_made = on_made _ _ m

pub Ends-mono :
    {A : Type 0} {F F' : Wrapper → Type 0} {M M' : A → Wrapper → Type 0} {o : Outcome A}
    → Ends F M o
    → ((jw : Wrapper) → F jw → F' jw)
    → ((a : A) (jw : Wrapper) → M a jw → M' a jw)
    → Ends F' M' o
Ends-mono (fails f) on_fail on_made = fails (on_fail _ f)
Ends-mono (makes m) on_fail on_made = makes (on_made _ _ m)

-- The characters of the tokens are in the text, as jsmn documents it.
abbrev pub AllInText : Text → List Token → Type 0
AllInText str [] = Unit {0}
AllInText str (t ∷ ts) = (in_text str t ≡ true) × AllInText str ts

-- A call gives back all it allocated when it fails, else the result owns what is allocated since; the
-- tokens that are left are in the text.
abbrev pub Keeps : (str : Text) {A : Type 0} → (A → ℕ) → (live count : ℕ) → Outcome A → Type 0
Keeps str owned live count o =
    Ends (λ jw. jw.live ≡ live)
      (λ a jw. (jw.live ≡ live + owned a) × (length jw.tokens ≤ count) × AllInText str jw.tokens) o

pub Keeps-mono :
    (str : Text) {A : Type 0} (owned : A → ℕ) {live n m : ℕ} {o : Outcome A}
    → n ≤ m
    → Keeps str owned live n o
    → Keeps str owned live m o
Keeps-mono str owned le (fails f) = fails f
Keeps-mono str owned le (makes m) = makes (m.0, omega (arith, m.1, le), m.2)

module _ (calloc : ℕ → Bool) where
  pub alloc-Ends :
      (jw : Wrapper)
      → Ends
          (λ jw'. jw'.live ≡ jw.live)
          (λ u jw'. (jw'.live ≡ jw.live + 1) × (jw'.tokens ≡ jw.tokens))
          (alloc calloc jw)
  unfolding alloc
  alloc-Ends jw = elim (Bool-cases (calloc jw.requests)) [
    | inl e ↦ rw e (makes (refl, refl))
    | inr e ↦ rw e (fails refl)
  ]

  pub alloc-Keeps :
      (str : Text) (jw : Wrapper)
      → AllInText str jw.tokens
      → Keeps str (λ u. 1) jw.live (length jw.tokens) (alloc calloc jw)
  alloc-Keeps str jw ok =
      Ends-mono (alloc-Ends jw) (λ jw1 f. f)
        λ u jw1 m. (m.0, omega (arith, ap length m.1), subst (AllInText str) (sym m.1) ok)

  -- A step that succeeds takes a token, and copies its text where it has one.
  abbrev pub Stepped : Text → ℕ → ℕ → Token × Option Text → Wrapper → Type 0
  Stepped str live count r jw =
      (jw.live ≡ live + block r.1)
      × (length jw.tokens < count)
      × (has_data r.0.type ≡ false → block r.1 ≡ 0)
      × AllInText str jw.tokens

  step_from-Stepped :
      (str : Text) (jw : Wrapper) (ts : List Token)
      → AllInText str ts
      → Ends
          (λ jw'. jw'.live ≡ jw.live)
          (Stepped str jw.live (length ts))
          (step_from calloc str jw ts)
  unfolding step_from
  step_from-Stepped str jw [] ok = fails refl
  step_from-Stepped str jw (t ∷ ts) ok = elim (Bool-cases (has_data t.type)) [
    | inl e ↦
        rw (e, ok.0)
          (after-Ends (alloc-Ends jw) (λ jw' f. fails f)
            λ a jw' m. makes (m.0, omega arith, (λ n. absurd (ground (arith, e, n))), ok.1))
    | inr e ↦ rw e (makes (omega arith, omega arith, (λ n. refl), ok.1))
  ]

  pub step-Stepped :
      (str : Text) (jw : Wrapper)
      → AllInText str jw.tokens
      → Ends
          (λ jw'. jw'.live ≡ jw.live)
          (Stepped str jw.live (length jw.tokens))
          (step calloc str jw)
  unfolding step
  step-Stepped str jw ok = step_from-Stepped str jw jw.tokens ok
