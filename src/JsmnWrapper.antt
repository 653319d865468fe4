-- ===== src/JsmnWrapper.antt =====
-- jsmn/cc_jsmnWrapper.h and jsmn/cc_jsmnWrapper.c: JSON values made of the tokens of the jsmn parser.
-- The parser is not part of the repository: `jsmn_parse` is a parameter. `calloc` answers each request
-- for memory, a CALLOC or the iterator of a cc_list_append, by its number, and `live` counts what is
-- held: the blocks, where a list is one, and the iterators in lists, which go back to the pool of the
-- lists; the blocks of that pool are not counted.
pub mod Calls
pub mod Ends
pub mod Wrap
pub mod New
pub mod Import
pub mod Tokens
pub mod Steps
pub mod Read
pub mod RoundTrip
pub mod Tests
use libcc.Base.{
  ℕ, zero, suc, ◌+◌, ◌-◌, Bool, true, false, Option, none, some, List, [], ◌∷◌, if◌then◌else◌, leb,
  ◌&&◌, length,
}
use libcc.JsmnStream.{JsmnType, undefined, object, array, string, primitive, Text}

-- jsmntok_t
pub record Token : Type 0 where
  pub type : JsmnType
  pub start : ℕ
  pub end : ℕ
  pub size : ℕ

-- cc_jsmnVal_t, with cc_jsmnArray_t, cc_jsmnObject_t and cc_jsmnKeyval_t: the lists they hold.
mutual
  pub data Val : Type 0 where
    obj : Keyvals → Val
    array_of : Vals → Val
    text : JsmnType → Text → Val

  pub data Vals : Type 0 where
    no_val : Vals
    val : Val → Vals → Vals

  pub data Keyvals : Type 0 where
    no_keyval : Keyvals
    keyval : Text → Val → Keyvals → Keyvals

-- cc_jsmnWrapper_t from `pos` on, the number of requests for memory up to now, and the live blocks.
pub record Wrapper : Type 0 where
  pub tokens : List Token
  pub requests : ℕ
  pub live : ℕ

-- How a call ends: with null, or with what it made. A call on fuel may run out of it, and one may read
-- outside of the text.
pub data Outcome (A : Type 0) : Type 0 where
  out_of_fuel : Outcome A
  out_of_bounds : Outcome A
  failed : Wrapper → Outcome A
  made : A → Wrapper → Outcome A

-- A call, and what is done after each way it ends.
abbrev pub after :
    {A B : Type 0} → Outcome A → (Wrapper → Outcome B) → (A → Wrapper → Outcome B) → Outcome B
after out_of_fuel fail next = out_of_fuel
after out_of_bounds fail next = out_of_bounds
after (failed jw) fail next = fail jw
after (made a jw) fail next = next a jw

-- FREE of so many blocks, and the end of a call that then returns null.
abbrev pub release : ℕ → Wrapper → Wrapper
release n jw = record jw { live = jw.live - n }

abbrev pub give_up : {A : Type 0} → ℕ → Wrapper → Outcome A
give_up n jw = failed (release n jw)

-- The `n` characters from a place on.
abbrev pub take : ℕ → Text → Text
take zero t = []
take (suc n) [] = []
take (suc n) (c ∷ t) = c ∷ take n t

abbrev pub skip : ℕ → Text → Text
skip zero t = t
skip (suc n) [] = []
skip (suc n) (c ∷ t) = skip n t

-- The characters of the token are in the text. Else `end - start` wraps to a large size_t, or the loop
-- of cc_jsmnWrapper_step reads outside of the text.
abbrev pub in_text : Text → Token → Bool
in_text str t = leb t.start t.end && leb t.end (length str)

-- The tokens that cc_jsmnWrapper_step copies the text of.
abbrev pub has_data : JsmnType → Bool
has_data object = false
has_data array = false
has_data _ = true

-- The blocks of a text: one, or none for null.
abbrev pub block : Option Text → ℕ
block none = 0
block (some t) = 1

abbrev pub is_object : JsmnType → Bool
is_object object = true
is_object _ = false

abbrev pub is_array : JsmnType → Bool
is_array array = true
is_array _ = false

abbrev pub is_string : JsmnType → Bool
is_string string = true
is_string _ = false

module _ (calloc : ℕ → Bool) where
  unfoldable pub alloc : Wrapper → Outcome (Unit {0})
  alloc jw =
      if calloc jw.requests
      then made tt (record jw { requests = jw.requests + 1; live = jw.live + 1 })
      else failed (record jw { requests = jw.requests + 1 })

  module _ (str : Text) where
    -- cc_jsmnWrapper_step: the token, and the copy of its text.
    unfoldable pub step_from : Wrapper → List Token → Outcome (Token × Option Text)
    unfolding alloc
    step_from jw [] = failed jw
    step_from jw (t ∷ ts) =
        if has_data t.type
        then after (alloc jw) failed (λ _ jw.
          if in_text str t
          then made (t, some (take (t.end - t.start) (skip t.start str)))
              (record jw { tokens = ts })
          else out_of_bounds)
        else made (t, none) (record jw { tokens = ts })

    unfoldable pub step : Wrapper → Outcome (Token × Option Text)
    unfolding step_from
    step jw = step_from jw jw.tokens

    -- cc_jsmnObject_wrap and cc_jsmnArray_wrap up to their loops, which get the size of the token. A
    -- failure in front of the loop frees the struct, its list and the text.
    unfoldable pub wrap_list :
        {A : Type 0} → (JsmnType → Bool) → Wrapper → (ℕ → Wrapper → Outcome A) → Outcome A
    unfolding alloc step
    wrap_list is_type jw loop = after (alloc jw) failed λ _ jw. after (alloc jw) (give_up 1) λ _ jw.
        after (step jw) (give_up 2) λ r jw.
          if is_type r.0.type
          then after (loop r.0.size jw) (give_up 2) made
          else give_up (2 + block r.1) jw
