-- ===== src/JsmnWrapper/Tests.antt =====
-- jsmn/cc_jsmnWrapper.c on a concrete text: the theorems at work.
use libcc.Base.{
  ℕ, ◌≡◌, refl, Bool, true, some, none, List, [], ◌∷◌, length, not, ◌==◌, if◌then◌else◌, Bool-cases,
  inl, inr, ==→≡, arith,
}
use libcc.Int.{ℤ, pos, negsuc}
use libcc.JsmnStream.{Text, string, primitive}
use libcc.JsmnStream.Json.{
  Json, jstring, jprimitive, jarray, jobject, no_element, element, no_member, member, print,
  count_elements,
}
use libcc.JsmnWrapper.{
  Token, obj, array_of, text, no_val, val, no_keyval, keyval, Wrapper, failed, made, alloc, step,
  wrap_list,
}
use libcc.JsmnWrapper.Calls.{
  File, val_delete, keyval_wrap, members, elements, object_wrap, array_wrap, wrap_text, wrap_typed,
  wrap_at, val_wrap, wrapper_new, val_new, val_print, val_printd, indent,
}
use libcc.JsmnWrapper.Ends.{Ends, AllInText}
use libcc.JsmnWrapper.New.{val_new-val_delete}
use libcc.JsmnWrapper.Tokens.{tokens, val_of}

-- {"k":["v",1]}
abbrev document : Json
document = jobject (
    member (b'k' ∷ [])
      (jarray (element (jstring (b'v' ∷ [])) (element (jprimitive (b'1' ∷ [])) no_element)))
      no_member)

abbrev endless : ℕ → Bool
endless n = true

-- Every request but one succeeds.
abbrev all_but : ℕ → ℕ → Bool
all_but n m = not (m == n)

-- The parser, on this text.
abbrev count_tokens : Text → ℤ
count_tokens t = pos 5

abbrev jsmn_parse : Text → ℕ → ℤ × List Token
jsmn_parse t n =
    if length t == length (print document) then (pos 5, tokens 0 document) else (negsuc 0, [])

jsmn_parse-AllInText : (str : Text) (n : ℕ) → AllInText str (jsmn_parse str n).1
unfolding tokens print count_elements
jsmn_parse-AllInText str n = elim (Bool-cases (length str == length (print document))) [
  | inl e ↦ rw e (ground (arith, ==→≡ (length str) (length (print document)) e))
  | inr e ↦ rw e tt
]

abbrev empty : Wrapper
empty = record { tokens = []; requests = 0; live = 0 }

abbrev opened : Wrapper
opened = record { tokens = tokens 0 document; requests = 0; live = 0 }

-- A file with the text.
abbrev a_file : File
a_file = record {
  opens = true;
  seeks_end = true;
  tells = some (length (print document));
  rewinds = true;
  reads = λ size. if size == length (print document) then some (print document) else none;
}

-- The blocks: a value, an object and its list, the iterator, the struct and the key of its member, and
-- in the same way those of the array and of its two texts.
document_runs :
    val_new endless (print document) count_tokens jsmn_parse empty
    ≡ made
        (obj (
          keyval
            (b'k' ∷ [])
            (array_of (val (text string (b'v' ∷ [])) (val (text primitive (b'1' ∷ [])) no_val)))
            no_keyval))
        (record { tokens = []; requests = 17; live = 15 })
unfolding val_new wrapper_new val_wrap wrap_at wrap_typed wrap_text object_wrap array_wrap members
    elements keyval_wrap wrap_list step alloc tokens print count_elements
document_runs = refl

-- Without memory for the iterator of the array's first element.
document_without_memory :
    val_new (all_but 13) (print document) count_tokens jsmn_parse empty
    ≡ failed (record { tokens = tokens 10 (jprimitive (b'1' ∷ [])); requests = 14; live = 0 })
unfolding val_new wrapper_new val_wrap wrap_at wrap_typed wrap_text object_wrap array_wrap members
    elements keyval_wrap wrap_list step alloc tokens print count_elements val_delete
document_without_memory = refl

document_printed :
    val_print (val_of document)
    ≡ b'{' ∷ b'\n' ∷ b'\t' ∷ b'k' ∷ b':' ∷ b'\n' ∷ b'\t' ∷ b'\t' ∷ b'[' ∷ b'\n' ∷ b'\t' ∷ b'\t'
      ∷ b'\t' ∷ b'v' ∷ b'\n' ∷ b'\t' ∷ b'\t' ∷ b'\t' ∷ b'1' ∷ b'\n' ∷ b'\t' ∷ b'\t' ∷ b']' ∷ b'\n'
      ∷ b'}' ∷ b'\n' ∷ []
unfolding val_print val_printd indent val_of
document_printed = refl

val_new-val_delete_example :
    Ends
      (λ jw. jw.live ≡ 0)
      (λ v jw. (val_delete v jw).live ≡ 0)
      (val_new (all_but 13) (print document) count_tokens jsmn_parse empty)
val_new-val_delete_example =
    val_new-val_delete (all_but 13) (print document) count_tokens jsmn_parse
      (jsmn_parse-AllInText (print document)) empty
