-- ===== src/JsmnWrapper/Wrap.antt =====
-- jsmn/cc_jsmnWrapper.c: how the calls that make a value end, whichever requests for memory fail.
use libcc.Base.{
  ℕ, zero, suc, ◌+◌, ◌≤◌, ◌<◌, ◌≡◌, refl, Bool, true, false, Option, none, some, List, [], ◌∷◌,
  length, arith, inl, inr, Bool-cases,
}
use libcc.JsmnStream.{JsmnType, undefined, object, array, string, primitive, Text}
use libcc.JsmnWrapper.{
  Token, Val, Wrapper, Outcome, after, release, give_up, has_data, block, is_object, is_array,
  is_string, step, wrap_list,
}
use libcc.JsmnWrapper.Calls.{
  key_and_val, keyval_wrap, members, elements, object_wrap, array_wrap, wrap_text, wrap_typed,
  wrap_at, val_wrap,
}
use libcc.JsmnWrapper.Ends.{
  val_blocks, vals_blocks, keyvals_blocks, live-val_delete, fails, makes, after-Ends, AllInText,
  Keeps, Keeps-mono, alloc-Keeps, step-Stepped,
}

module _ (calloc : ℕ → Bool) (str : Text) where
  -- An object or an array: its struct, its list and what the loop puts into it.
  wrap_list-Keeps :
      {A : Type 0} (owned : A → ℕ) (is_type : JsmnType → Bool) (jw : Wrapper)
      (loop : ℕ → Wrapper → Outcome A)
      → ((type : JsmnType) → is_type type ≡ true → has_data type ≡ false)
      → ((n : ℕ) (jw' : Wrapper)
          → length jw'.tokens < length jw.tokens
          → AllInText str jw'.tokens
          → Keeps str owned jw'.live (length jw'.tokens) (loop n jw'))
      → AllInText str jw.tokens
      → Keeps str
          (λ a. 2 + owned a)
          jw.live
          (length jw.tokens)
          (wrap_list calloc str is_type jw loop)
  unfolding wrap_list
  wrap_list-Keeps owned is_type jw loop no_data loops ok =
      after-Ends (alloc-Keeps calloc str jw ok) (λ jw1 f1. fails f1)
        λ _ jw1 m1.
          after-Ends (alloc-Keeps calloc str jw1 m1.2) (λ jw2 f2. fails (omega (arith, f2, m1.0)))
            λ _ jw2 m2.
              after-Ends (step-Stepped calloc str jw2 m2.2)
                (λ jw3 f3. fails (omega (arith, f3, m2.0, m1.0)))
                λ r jw3 m3. elim (Bool-cases (is_type r.0.type)) [
                  | inl e ↦ rw e (
                      after-Ends (loops r.0.size jw3 (omega (arith, m3.1, m2.1, m1.1)) m3.3)
                        (λ jw4 f4.
                          fails (omega (arith, f4, m3.0, m3.2 (no_data r.0.type e), m2.0, m1.0)))
                        λ a jw4 m4. makes (
                          omega (arith, m4.0, m3.0, m3.2 (no_data r.0.type e), m2.0, m1.0),
                          omega (arith, m4.1, m3.1, m2.1, m1.1),
                          m4.2,
                        ))
                  | inr e ↦ rw e (fails (omega (arith, m3.0, m2.0, m1.0)))
                ]

  object-no_data : (type : JsmnType) → is_object type ≡ true → has_data type ≡ false
  object-no_data object e = refl
  object-no_data undefined e = absurd (ground arith)
  object-no_data array e = absurd (ground arith)
  object-no_data string e = absurd (ground arith)
  object-no_data primitive e = absurd (ground arith)

  array-no_data : (type : JsmnType) → is_array type ≡ true → has_data type ≡ false
  array-no_data array e = refl
  array-no_data undefined e = absurd (ground arith)
  array-no_data object e = absurd (ground arith)
  array-no_data string e = absurd (ground arith)
  array-no_data primitive e = absurd (ground arith)

  wrap_text-Keeps :
      (r : Token × Option Text) (live n : ℕ) (jw : Wrapper)
      → jw.live ≡ live + 1 + block r.1
      → length jw.tokens ≤ n
      → AllInText str jw.tokens
      → Keeps str val_blocks live n (wrap_text r jw)
  unfolding wrap_text val_blocks
  wrap_text-Keeps (t, none) live n jw e le ok = fails (omega (arith, e))
  wrap_text-Keeps (t, some d) live n jw e le ok = makes (omega (arith, e), le, ok)

  step_text-Keeps :
      (jw : Wrapper) (live : ℕ)
      → jw.live ≡ live + 1
      → AllInText str jw.tokens
      → Keeps str val_blocks live
          (length jw.tokens)
          (after (step calloc str jw) (give_up 1) wrap_text)
  step_text-Keeps jw live e ok =
      after-Ends (step-Stepped calloc str jw ok) (λ jw1 f1. fails (omega (arith, f1, e)))
        λ r jw1 m1.
          wrap_text-Keeps r live (length jw.tokens) jw1 (omega (arith, m1.0, e))
            (omega (arith, m1.1)) m1.3

  -- What follows is about a call of cc_jsmnVal_wrap where fewer tokens are left than `count`.
  module _ (wrap : Wrapper → Outcome Val) (count : ℕ)
      (wraps : (jw : Wrapper)
        → length jw.tokens < count
        → AllInText str jw.tokens
        → Keeps str val_blocks jw.live (length jw.tokens) (wrap jw)) where
    key_and_val-Keeps :
        (r : Token × Option Text) (live n : ℕ) (jw : Wrapper)
        → jw.live ≡ live + 1 + block r.1
        → length jw.tokens < count
        → length jw.tokens ≤ n
        → AllInText str jw.tokens
        → Keeps str (λ kv. 2 + val_blocks kv.1) live n (key_and_val wrap r jw)
    key_and_val-Keeps (t, none) live n jw e lt le ok = fails (omega (arith, e))
    key_and_val-Keeps (t, some key) live n jw e lt le ok = elim (Bool-cases (is_string t.type)) [
      | inl s ↦ rw s (
          after-Ends (wraps jw lt ok) (λ jw' f. fails (omega (arith, f, e)))
            λ v jw' m. makes (omega (arith, m.0, e), omega (arith, m.1, le), m.2))
      | inr s ↦ rw s (fails (omega (arith, e)))
    ]

    keyval_wrap-Keeps :
        (jw : Wrapper)
        → length jw.tokens < count
        → AllInText str jw.tokens
        → Keeps str
            (λ kv. 2 + val_blocks kv.1)
            jw.live
            (length jw.tokens)
            (keyval_wrap calloc str wrap jw)
    unfolding keyval_wrap
    keyval_wrap-Keeps jw lt ok =
        after-Ends (alloc-Keeps calloc str jw ok) (λ jw1 f1. fails f1)
          λ _ jw1 m1.
            after-Ends (step-Stepped calloc str jw1 m1.2)
              (λ jw2 f2. fails (omega (arith, f2, m1.0)))
              λ r jw2 m2.
                key_and_val-Keeps r jw.live (length jw.tokens) jw2 (omega (arith, m2.0, m1.0))
                  (omega (arith, m2.1, m1.1, lt)) (omega (arith, m2.1, m1.1)) m2.3

    members-Keeps :
        (n : ℕ) (jw : Wrapper)
        → length jw.tokens < count
        → AllInText str jw.tokens
        → Keeps str keyvals_blocks jw.live (length jw.tokens) (members calloc str wrap n jw)
    unfolding members val_blocks
    members-Keeps zero jw lt ok = makes (omega arith, omega arith, ok)
    members-Keeps (suc n) jw lt ok =
        after-Ends (keyval_wrap-Keeps jw lt ok) (λ jw1 f1. fails f1)
          λ kv jw1 m1.
            after-Ends (alloc-Keeps calloc str jw1 m1.2)
              (λ jw2 f2. fails (omega (arith, live-val_delete kv.1 jw2, f2, m1.0)))
              λ _ jw2 m2.
                after-Ends (members-Keeps n jw2 (omega (arith, m2.1, m1.1, lt)) m2.2)
                  (λ jw3 f3.
                    fails (omega (arith, live-val_delete kv.1 (release 1 jw3), f3, m2.0, m1.0)))
                  λ kvs jw3 m3.
                    makes (omega (arith, m3.0, m2.0, m1.0), omega (arith, m3.1, m2.1, m1.1), m3.2)

    elements-Keeps :
        (n : ℕ) (jw : Wrapper)
        → length jw.tokens < count
        → AllInText str jw.tokens
        → Keeps str vals_blocks jw.live (length jw.tokens) (elements calloc str wrap n jw)
    unfolding elements val_blocks
    elements-Keeps zero jw lt ok = makes (omega arith, omega arith, ok)
    elements-Keeps (suc n) jw lt ok =
        after-Ends (wraps jw lt ok) (λ jw1 f1. fails f1)
          λ v jw1 m1.
            after-Ends (alloc-Keeps calloc str jw1 m1.2)
              (λ jw2 f2. fails (omega (arith, live-val_delete v jw2, f2, m1.0)))
              λ _ jw2 m2.
                after-Ends (elements-Keeps n jw2 (omega (arith, m2.1, m1.1, lt)) m2.2)
                  (λ jw3 f3.
                    fails (omega (arith, live-val_delete v (release 1 jw3), f3, m2.0, m1.0)))
                  λ vs jw3 m3.
                    makes (omega (arith, m3.0, m2.0, m1.0), omega (arith, m3.1, m2.1, m1.1), m3.2)

    wrap_typed-Keeps :
        (jw : Wrapper) (live : ℕ) (type : JsmnType)
        → jw.live ≡ live + 1
        → length jw.tokens ≤ count
        → AllInText str jw.tokens
        → Keeps str val_blocks live (length jw.tokens) (wrap_typed calloc str wrap jw type)
    unfolding wrap_typed object_wrap array_wrap val_blocks
    wrap_typed-Keeps jw live object e le ok =
        after-Ends
          (wrap_list-Keeps keyvals_blocks is_object jw (members calloc str wrap) object-no_data
            (λ n jw' lt in_str. members-Keeps n jw' (omega (arith, lt, le)) in_str) ok)
          (λ jw1 f1. fails (omega (arith, f1, e)))
          λ kvs jw1 m1. makes (omega (arith, m1.0, e), m1.1, m1.2)
    wrap_typed-Keeps jw live array e le ok =
        after-Ends
          (wrap_list-Keeps vals_blocks is_array jw (elements calloc str wrap) array-no_data
            (λ n jw' lt in_str. elements-Keeps n jw' (omega (arith, lt, le)) in_str) ok)
          (λ jw1 f1. fails (omega (arith, f1, e)))
          λ vs jw1 m1. makes (omega (arith, m1.0, e), m1.1, m1.2)
    wrap_typed-Keeps jw live undefined e le ok = step_text-Keeps jw live e ok
    wrap_typed-Keeps jw live string e le ok = step_text-Keeps jw live e ok
    wrap_typed-Keeps jw live primitive e le ok = step_text-Keeps jw live e ok

  wrap_at-Keeps :
      (fuel : ℕ) (jw : Wrapper) (live : ℕ) (ts : List Token)
      → ((jw' : Wrapper)
          → length jw'.tokens < fuel
          → AllInText str jw'.tokens
          → Keeps str val_blocks jw'.live (length jw'.tokens) (val_wrap calloc str fuel jw'))
      → jw.live ≡ live + 1
      → length jw.tokens ≤ fuel
      → AllInText str jw.tokens
      → Keeps str val_blocks live
          (length jw.tokens)
          (wrap_at calloc str (val_wrap calloc str fuel) jw ts)
  unfolding wrap_at
  wrap_at-Keeps fuel jw live [] wraps e le ok = fails (omega (arith, e))
  wrap_at-Keeps fuel jw live (t ∷ ts) wraps e le ok =
      wrap_typed-Keeps (val_wrap calloc str fuel) fuel wraps jw live t.type e le ok

  -- Whatever tokens are left, fewer than the fuel and all in the text, and whichever requests for memory fail,
  -- cc_jsmnVal_wrap ends: with null, and then each block it allocated is freed, or with a value, and
  -- then the blocks allocated since are the value's.
  pub val_wrap-Keeps :
      (fuel : ℕ) (jw : Wrapper)
      → length jw.tokens < fuel
      → AllInText str jw.tokens
      → Keeps str val_blocks jw.live (length jw.tokens) (val_wrap calloc str fuel jw)
  unfolding val_wrap
  val_wrap-Keeps zero jw lt ok = absurd (omega arith)
  val_wrap-Keeps (suc fuel) jw lt ok =
      after-Ends (alloc-Keeps calloc str jw ok) (λ jw1 f1. fails f1)
        λ _ jw1 m1. Keeps-mono str val_blocks m1.1 (
          wrap_at-Keeps fuel jw1 jw.live jw1.tokens (val_wrap-Keeps fuel) m1.0
            (omega (arith, m1.1, lt)) m1.2)
