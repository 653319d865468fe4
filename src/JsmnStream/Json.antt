-- ===== src/JsmnStream/Json.antt =====
-- JSON values, their text, and the calls of jsmn/cc_jsmnStream.c by which a client writes them.
use libcc.Base.{ℕ, ◌+◌, ◌<◌, ◌^◌, Bool, true, length, [], ◌∷◌, ◌++◌, zero, suc}
use libcc.JsmnStream.{
  Text, JsmnStream, Result, ◌&>◌, begin_object, begin_array, end, key, put_string, put_primitive,
}

mutual
  pub data Json : Type 0 where
    jstring jprimitive : Text → Json
    jarray : Elements → Json
    jobject : Members → Json

  pub data Elements : Type 0 where
    no_element : Elements
    element : Json → Elements → Elements

  pub data Members : Type 0 where
    no_member : Members
    member : Text → Json → Members → Members

-- A comma, but for the first.
abbrev pub separator : ℕ → Text
separator zero = []
separator (suc _) = b',' ∷ []

abbrev pub quoted : Text → Text
quoted t = b'"' ∷ [] ++ t ++ b'"' ∷ []

-- The text of a value; `c` elements or members stand in front of the others.
unfoldable mutual
  pub print : Json → Text
  print (jstring t) = quoted t
  print (jprimitive t) = t
  print (jarray js) = b'[' ∷ [] ++ print_elements 0 js ++ b']' ∷ []
  print (jobject ms) = b'{' ∷ [] ++ print_members 0 ms ++ b'}' ∷ []

  pub print_elements : ℕ → Elements → Text
  print_elements c no_element = []
  print_elements c (element j js) = separator c ++ print j ++ print_elements (c + 1) js

  pub print_members : ℕ → Members → Text
  print_members c no_member = []
  print_members c (member k j ms) =
      separator c ++ quoted k ++ b':' ∷ [] ++ print j ++ print_members (c + 1) ms

module _ (realloc : ℕ → Bool) where
  -- The calls that write a value.
  unfoldable mutual
    pub write : Json → JsmnStream → Result
    write (jstring t) s = put_string realloc s t
    write (jprimitive t) s = put_primitive realloc s t
    write (jarray js) s = begin_array realloc s &> write_elements js &> end realloc
    write (jobject ms) s = begin_object realloc s &> write_members ms &> end realloc

    pub write_elements : Elements → JsmnStream → Result
    write_elements no_element s = (true, s)
    write_elements (element j js) s = write j s &> write_elements js

    pub write_members : Members → JsmnStream → Result
    write_members no_member s = (true, s)
    write_members (member k j ms) s = key realloc s k &> write j &> write_members ms

-- How many elements or members there are.
unfoldable mutual
  pub count_elements : Elements → ℕ
  count_elements no_element = 0
  count_elements (element j js) = count_elements js + 1

  pub count_members : Members → ℕ
  count_members no_member = 0
  count_members (member k j ms) = count_members ms + 1

-- A value fits where `room` depths are left, no object or array has 2^32 members, and no string and no
-- key has more than 255 characters.
unfoldable mutual
  pub Fits : ℕ → Json → Type 0
  Fits room (jstring t) = length t < 256
  Fits room (jprimitive t) = Unit {0}
  Fits zero (jarray js) = ⊥
  Fits (suc room) (jarray js) = (count_elements js < 2 ^ 32) × AllFit room js
  Fits zero (jobject ms) = ⊥
  Fits (suc room) (jobject ms) = (count_members ms < 2 ^ 32) × MembersFit room ms

  pub AllFit : ℕ → Elements → Type 0
  AllFit room no_element = Unit {0}
  AllFit room (element j js) = Fits room j × AllFit room js

  pub MembersFit : ℕ → Members → Type 0
  MembersFit room no_member = Unit {0}
  MembersFit room (member k j ms) = (length k < 256) × Fits room j × MembersFit room ms
