-- ===== src/JsmnStream/Tests.antt =====
-- jsmn/cc_jsmnStream.c on a concrete document: the theorems at work.
use libcc.Base.{ℕ, ◌<◌, ◌≡◌, refl, Bool, true, none, [], ◌∷◌, ◌++◌, ltb, length, arith}
use libcc.JsmnStream.{new, cat, buffer, begin_array, key}
use libcc.JsmnStream.Json.{
  Json, jstring, jprimitive, jarray, jobject, no_element, element, no_member, member, print,
}
use libcc.JsmnStream.Errors.{cat-fits, ends, begins_array, puts_key, calls, calls-buffer}

-- {"k":[1,"v"]}
abbrev document : Json
document = jobject (
    member (b'k' ∷ [])
      (jarray (element (jprimitive (b'1' ∷ [])) (element (jstring (b'v' ∷ [])) no_element)))
      no_member)

abbrev endless : ℕ → Bool
endless n = true

abbrev small : ℕ → Bool
small n = ltb n 1000

document_text :
    print document
    ≡ b'{' ∷ b'"' ∷ b'k' ∷ b'"' ∷ b':' ∷ b'[' ∷ b'1' ∷ b',' ∷ b'"' ∷ b'v' ∷ b'"' ∷ b']' ∷ b'}' ∷ []
unfolding print
document_text = refl

cat-fits_example :
    ((cat small new (b'1' ∷ [])).1.text ≡ new.text ++ b'1' ∷ [])
    × (length (cat small new (b'1' ∷ [])).1.text < (cat small new (b'1' ∷ [])).1.size)
unfolding new cat
cat-fits_example = cat-fits small new (b'1' ∷ []) (omega arith) refl

-- A key does not belong in an array.
calls-buffer_example :
    (buffer (calls small (begins_array ∷ puts_key (b'k' ∷ []) ∷ ends ∷ []) new).1).0 ≡ none
unfolding new calls begin_array key
calls-buffer_example = calls-buffer small (begins_array ∷ puts_key (b'k' ∷ []) ∷ ends ∷ []) new refl
