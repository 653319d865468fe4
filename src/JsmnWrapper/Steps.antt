-- ===== src/JsmnWrapper/Steps.antt =====
-- jsmn/cc_jsmnWrapper.c: what each step of the calls makes of the tokens in front, where there is memory.
use libcc.Base.{ℕ, suc, ◌≡◌, refl, Bool, true, false, none, some, List, ◌∷◌, ◌∙◌, arith}
use libcc.JsmnStream.{JsmnType, string, Text}
use libcc.JsmnWrapper.{
  Token, Val, text, Wrapper, Outcome, made, after, give_up, has_data, in_text, alloc, step_from,
  step, wrap_list,
}
use libcc.JsmnWrapper.Calls.{keyval_wrap, wrap_text, wrap_typed, wrap_at, val_wrap}
use libcc.JsmnWrapper.Tokens.{token, StandsAt, take-StandsAt, end-StandsAt}

-- A call makes a value and leaves these tokens.
pub data Reads {A : Type 0} (a : A) (ts : List Token) : Outcome A → Type 0 where
  reads : {jw : Wrapper} → jw.tokens ≡ ts → Reads a ts (made a jw)

pub after-Reads :
    {A B : Type 0} {a : A} {b : B} {ts ts' : List Token} {o : Outcome A}
    (fail : Wrapper → Outcome B) (next : A → Wrapper → Outcome B)
    → Reads a ts o
    → ((jw : Wrapper) → jw.tokens ≡ ts → Reads b ts' (next a jw))
    → Reads b ts' (after o fail next)
after-Reads fail next (reads e) k = k _ e

-- What follows is about calls that get all the memory they ask for.
module _ (calloc : ℕ → Bool) (total : (n : ℕ) → calloc n ≡ true) (str : Text) where
  pub alloc-Reads : (jw : Wrapper) → Reads tt jw.tokens (alloc calloc jw)
  unfolding alloc
  alloc-Reads jw = rw (total jw.requests) (reads refl)

  -- A step over the token of a text that stands at a place copies the text.
  step_from-Reads :
      (jw : Wrapper) (type : JsmnType) (at : ℕ) (t : Text) (size : ℕ) (ts ts' : List Token)
      → has_data type ≡ true
      → StandsAt str at t
      → ts' ≡ token type at t size ∷ ts
      → Reads (token type at t size, some t) ts (step_from calloc str jw ts')
  unfolding step_from
  step_from-Reads jw type at t size ts ts' e here e' =
      let inside : in_text str (token type at t size) ≡ true =
        ground (arith, end-StandsAt str at t here) in
      rw (e', e, inside, take-StandsAt str at t here)
        (after-Reads _ _ (alloc-Reads jw) λ jw' _. reads refl)

  step_text-Reads :
      (jw : Wrapper) (type : JsmnType) (at : ℕ) (t : Text) (size : ℕ) (ts : List Token)
      → has_data type ≡ true
      → StandsAt str at t
      → jw.tokens ≡ token type at t size ∷ ts
      → Reads (token type at t size, some t) ts (step calloc str jw)
  unfolding step
  step_text-Reads jw type at t size ts e here e' =
      step_from-Reads jw type at t size ts jw.tokens e here e'

  step_container-Reads :
      (jw : Wrapper) (t : Token) (ts : List Token)
      → has_data t.type ≡ false
      → jw.tokens ≡ t ∷ ts
      → Reads (t, none) ts (step calloc str jw)
  unfolding step step_from
  step_container-Reads jw t ts e e' = rw (e', e) (reads refl)

  pub wrap_list-Reads :
      {A : Type 0} (a : A) (is_type : JsmnType → Bool) (jw : Wrapper)
      (loop : ℕ → Wrapper → Outcome A) (t : Token) (ts rest : List Token)
      → has_data t.type ≡ false
      → is_type t.type ≡ true
      → jw.tokens ≡ t ∷ ts
      → ((jw' : Wrapper) → jw'.tokens ≡ ts → Reads a rest (loop t.size jw'))
      → Reads a rest (wrap_list calloc str is_type jw loop)
  unfolding wrap_list
  wrap_list-Reads a is_type jw loop t ts rest no_data its e loops =
      after-Reads _ _ (alloc-Reads jw) λ jw1 e1. after-Reads _ _ (alloc-Reads jw1) λ jw2 e2.
        after-Reads _ _ (step_container-Reads jw2 t ts no_data (e2 ∙ (e1 ∙ e)))
          λ jw3 e3. rw its (after-Reads _ _ (loops jw3 e3) λ jw4 e4. reads e4)

  wrap_at-Reads :
      (wrap : Wrapper → Outcome Val) (jw : Wrapper) (t : Token) (ts : List Token) (ts' : List Token)
      (v : Val) (rest : List Token)
      → ts' ≡ t ∷ ts
      → Reads v rest (wrap_typed calloc str wrap jw t.type)
      → Reads v rest (wrap_at calloc str wrap jw ts')
  unfolding wrap_at
  wrap_at-Reads wrap jw t ts ts' v rest e typed = rw e typed

  -- The text of a value that is neither an object nor an array.
  pub wrap_text-Reads :
      (jw : Wrapper) (type : JsmnType) (at : ℕ) (t : Text) (rest : List Token)
      → has_data type ≡ true
      → StandsAt str at t
      → jw.tokens ≡ token type at t 0 ∷ rest
      → Reads (text type t) rest (after (step calloc str jw) (give_up 1) wrap_text)
  unfolding wrap_text
  wrap_text-Reads jw type at t rest e here e' =
      after-Reads _ _ (step_text-Reads jw type at t 0 rest e here e') λ jw2 e2. reads e2

  pub val_wrap-Reads :
      (fuel : ℕ) (jw : Wrapper) (t : Token) (ts : List Token) (v : Val) (rest : List Token)
      → jw.tokens ≡ t ∷ ts
      → ((jw' : Wrapper)
          → jw'.tokens ≡ t ∷ ts
          → Reads v rest (wrap_typed calloc str (val_wrap calloc str fuel) jw' t.type))
      → Reads v rest (val_wrap calloc str (suc fuel) jw)
  unfolding val_wrap
  val_wrap-Reads fuel jw t ts v rest e typed =
      after-Reads _ _ (alloc-Reads jw)
        λ jw1 e1. wrap_at-Reads _ jw1 t ts jw1.tokens v rest (e1 ∙ e) (typed jw1 (e1 ∙ e))

  pub keyval_wrap-Reads :
      (wrap : Wrapper → Outcome Val) (jw : Wrapper) (at : ℕ) (key : Text) (size : ℕ)
      (ts rest : List Token) (v : Val)
      → StandsAt str at key
      → jw.tokens ≡ token string at key size ∷ ts
      → ((jw' : Wrapper) → jw'.tokens ≡ ts → Reads v rest (wrap jw'))
      → Reads {A = Text × Val} (key, v) rest (keyval_wrap calloc str wrap jw)
  unfolding keyval_wrap
  keyval_wrap-Reads wrap jw at key size ts rest v here e wraps =
      after-Reads _ _ (alloc-Reads jw) λ jw1 e1.
        after-Reads _ _ (step_text-Reads jw1 string at key size ts refl here (e1 ∙ e))
          λ jw2 e2. after-Reads _ _ (wraps jw2 e2) λ jw3 e3. reads e3
