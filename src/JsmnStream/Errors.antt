-- ===== src/JsmnStream/Errors.antt =====
-- The size of the buffer and the error mark of jsmn/cc_jsmnStream.c.
use libcc.Base.{
  ℕ, zero, suc, ◌+◌, ◌*◌, ◌≤◌, ◌<◌, ◌%◌, ◌^◌, ◌≡◌, refl, Bool, true, false, Option, none, some,
  List, [], ◌∷◌, ◌++◌, arith, ◌==◌, if◌then◌else◌, ltb, inl, inr, Bool-cases, length, length-append,
}
use libcc.JsmnStream.{
  JsmnType, undefined, object, array, string, primitive, JsmnState, JsmnStream, Text, Result,
  current, grow, buffer_size, ◌&>◌, enter, open_depth, val, val_entered, append_val, cat,
  begin_object, begin_array, end, end_with, closer, key, count_key, takes_key, put_string,
  put_primitive, formatted, buffer,
}

doubles : (size : ℕ) → size < 2 ^ 63 → size * 2 % 2 ^ 64 ≡ size * 2
doubles size lt = omega arith

-- Enough fuel: each round adds one at least.
grow-enough :
    (fuel size size2 : ℕ)
    → 1 ≤ size
    → size2 ≤ size + fuel
    → size2 ≤ 2 ^ 63
    → size2 ≤ grow fuel size size2
unfolding grow
grow-enough zero size size2 pos enough small = omega arith
grow-enough (suc fuel) size size2 pos enough small = elim (Bool-cases (ltb size size2)) [
  | inl less ↦
      let same = doubles size (ground arith) in
      rw (less, same) (grow-enough fuel (size * 2) size2 (omega arith) (omega arith) small)
  | inr fits ↦ rw fits (ground arith)
]

buffer_size-enough : (size size2 : ℕ) → size2 ≤ 2 ^ 63 → size2 ≤ buffer_size size size2
unfolding buffer_size
buffer_size-enough size size2 small = elim (Bool-cases (size == 0)) [
  | inl e ↦ rw e (grow-enough size2 256 size2 (omega arith) (omega arith) small)
  | inr e ↦ rw e (grow-enough size2 size size2 (ground arith) (omega arith) small)
]

-- A call that marks the stream where it fails, and that keeps an earlier mark.
record Marks (s : JsmnStream) (r : Result) : Type 0 where
  failed : r.0 ≡ false → r.1.err ≡ true
  kept : s.err ≡ true → r.1.err ≡ true

module _ (realloc : ℕ → Bool) where
  -- Where the new text has fewer than 2^63 bytes, cc_jsmnStream_cat that succeeds has written the
  -- text and its final zero inside of the buffer.
  pub cat-fits :
      (s : JsmnStream) (str : Text)
      → length s.text + length str + 1 ≤ 2 ^ 63
      → (cat realloc s str).0 ≡ true
      → ((cat realloc s str).1.text ≡ s.text ++ str)
        × (length (cat realloc s str).1.text < (cat realloc s str).1.size)
  unfolding cat
  cat-fits s str small passed =
      let size2 = length s.text + length str + 1 in
      let enough = buffer_size-enough s.size size2 small in
      let len = length-append s.text str in ground (arith, enough, len)

  cat-Marks : (s : JsmnStream) (str : Text) → Marks s (cat realloc s str)
  unfolding cat
  cat-Marks s str = record { failed = λ e. ground arith; kept = λ e. ground arith }

  Marks-bind :
      (s : JsmnStream) (r : Result) (k : JsmnStream → Result)
      → Marks s r
      → ((s' : JsmnStream) → Marks s' (k s'))
      → Marks s (r &> k)
  Marks-bind s (true, s') k m next = record {
    failed = λ e. (next s').failed e;
    kept = λ e. (next s').kept (m.kept e);
  }
  Marks-bind s (false, s') k m next = m

  enter-Marks :
      (s : JsmnStream) (type : JsmnType) (st : JsmnState)
      → Marks s ((enter realloc s type st).0, (enter realloc s type st).2)
  unfolding enter
  enter-Marks s type st =
      let comma = cat-Marks s (b',' ∷ []) in
      record { failed = λ e. ground arith; kept = λ e. ground arith }

  open_depth-Marks : (s : JsmnStream) (type : JsmnType) → Marks s (open_depth s type)
  unfolding open_depth
  open_depth-Marks s type = record { failed = λ e. ground arith; kept = λ e. ground arith }

  append_val-Marks :
      (s : JsmnStream) (type : JsmnType) (str : Text) → Marks s (append_val realloc s type str)
  unfolding append_val
  append_val-Marks s string str =
      Marks-bind s _ _ (Marks-bind s _ _ (cat-Marks s (b'"' ∷ [])) λ s'. cat-Marks s' str)
        λ s'. cat-Marks s' (b'"' ∷ [])
  append_val-Marks s undefined str = cat-Marks s str
  append_val-Marks s object str = cat-Marks s str
  append_val-Marks s array str = cat-Marks s str
  append_val-Marks s primitive str = cat-Marks s str

  val_entered-Marks :
      (s : JsmnStream) (type : JsmnType) (str : Text) (e : Bool × Bool × JsmnStream)
      → Marks s (e.0, e.2)
      → Marks s (val_entered realloc type str e)
  unfolding val_entered
  val_entered-Marks s type str (false, _, s') m = m
  val_entered-Marks s type str (true, true, s') m =
      Marks-bind s (true, s') _ m
        λ s''. Marks-bind s'' _ _ (open_depth-Marks s'' type) λ t. append_val-Marks t type str
  val_entered-Marks s type str (true, false, s') m =
      Marks-bind s (true, s') _ m λ s''. append_val-Marks s'' type str

  val-Marks : (s : JsmnStream) (type : JsmnType) (str : Text) → Marks s (val realloc s type str)
  unfolding val
  val-Marks s type str = val_entered-Marks s type str _ (enter-Marks s type (current s))

  end_with-Marks : (s : JsmnStream) (o : Option Text) → Marks s (end_with realloc s o)
  unfolding end_with
  end_with-Marks s none = record { failed = λ e. refl; kept = λ e. refl }
  end_with-Marks s (some str) =
      Marks-bind s _ _ (cat-Marks s str)
        λ s'. record { failed = λ e. absurd (ground arith); kept = λ e. e }

  comma-Marks :
      (s s' : JsmnStream) (c : ℕ)
      → (s.err ≡ true → s'.err ≡ true)
      → Marks s (if c == 0 then (true, s') else cat realloc s' (b',' ∷ []))
  comma-Marks s s' c same =
      let comma = cat-Marks s' (b',' ∷ []) in
      record { failed = λ e. ground arith; kept = λ e. ground arith }

  key-Marks : (s : JsmnStream) (str : Text) → Marks s (key realloc s str)
  unfolding key
  key-Marks s str = elim (Bool-cases (takes_key (current s))) [
    | inr e ↦ rw e record { failed = λ e. refl; kept = λ e. refl }
    | inl e ↦ rw e (
        Marks-bind s _ _
          (Marks-bind s _ _
            (Marks-bind s _ _
              (Marks-bind s _ _ (comma-Marks s _ (current s).count λ e. e) λ s'.
                let m = cat-Marks (count_key s') (b'"' ∷ []) in
                record { failed = m.failed; kept = m.kept })
              λ s'. cat-Marks s' (formatted str))
            λ s'. cat-Marks s' (b'"' ∷ []))
          λ s'. cat-Marks s' (b':' ∷ []))
  ]

-- The calls of a client, in any order.
pub data Call : Type 0 where
  begins_object begins_array ends : Call
  puts_key puts_string puts_primitive : Text → Call

module _ (realloc : ℕ → Bool) where
  unfoldable pub call : Call → JsmnStream → Result
  call begins_object s = begin_object realloc s
  call begins_array s = begin_array realloc s
  call ends s = end realloc s
  call (puts_key str) s = key realloc s str
  call (puts_string str) s = put_string realloc s str
  call (puts_primitive str) s = put_primitive realloc s str

  -- The calls one after the other, whatever they return: whether all succeeded, and the stream.
  unfoldable pub calls : List Call → JsmnStream → Result
  unfolding call
  calls [] s = (true, s)
  calls (c ∷ cs) s =
      let (passed, s') = call c s in
      let (all, s'') = calls cs s' in (if passed then all else false, s'')

  call-Marks : (c : Call) (s : JsmnStream) → Marks s (call c s)
  unfolding call begin_object begin_array end put_string put_primitive
  call-Marks begins_object s = val-Marks realloc s object (b'{' ∷ [])
  call-Marks begins_array s = val-Marks realloc s array (b'[' ∷ [])
  call-Marks ends s = end_with-Marks realloc s (closer (current s))
  call-Marks (puts_key str) s = key-Marks realloc s str
  call-Marks (puts_string str) s = val-Marks realloc s string (formatted str)
  call-Marks (puts_primitive str) s = val-Marks realloc s primitive str

  calls-Marks : (cs : List Call) (s : JsmnStream) → Marks s (calls cs s)
  unfolding calls
  calls-Marks [] s = record { failed = λ e. absurd (ground arith); kept = λ e. e }
  calls-Marks (c ∷ cs) s =
      let m = call-Marks c s in
      let ms = calls-Marks cs (call c s).1 in
      record {
        failed = λ e. ground (arith, m.failed, ms.failed, ms.kept);
        kept = λ e. ms.kept (m.kept e);
      }

  -- If any of a sequence of calls fails, cc_jsmnStream_buffer returns null at its end, whatever
  -- calls came after the one that failed.
  pub calls-buffer :
      (cs : List Call) (s : JsmnStream) → (calls cs s).0 ≡ false → (buffer (calls cs s).1).0 ≡ none
  unfolding buffer
  calls-buffer cs s refused = let marked = (calls-Marks cs s).failed refused in simp marked
