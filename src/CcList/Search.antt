-- ===== src/CcList/Search.antt =====
-- cc_list_find, cc_list_findSorted, cc_list_get, cc_list_peekIndex, cc_list_peekHead and
-- cc_list_peekTail against the sequence that a list stands for.
use libcc.Base.{
  ℕ, zero, suc, ◌+◌, ◌-◌, ◌<◌, ◌≡◌, refl, true, false, some, [], ◌∷◌, arith, ◌==◌, inl, inr,
  Bool-cases, if◌then◌else◌, length, ◌∙◌, sym,
}
use libcc.CcList.Store.{Ptr, null, Heap, load-some}
use libcc.CcList.Chain.{Cells, first, Distinct, Chain}
use libcc.CcList.Links.{CcList}
use libcc.CcList.Refine.{IsList}
use libcc.CcList.Ops.{
  Compare, is_eq, is_lt, find, find_loop, find_sorted, find_sorted_loop, get, get_loop,
}
use libcc.CcList.Sorted.{NoneBelow, IsSorted, IsOrder}

-- The address of the first cell with such data, or null.
unfoldable pub find_cell : Compare → Ptr → Cells → Ptr
find_cell compare val [] = null
find_cell compare val ((p, v) ∷ xs) = if is_eq (compare v val) then p else find_cell compare val xs

-- The address, and the data, of the cell with this index, or null.
unfoldable pub cell_at : Cells → ℕ → Ptr
cell_at [] i = null
cell_at ((p, v) ∷ xs) zero = p
cell_at ((p, v) ∷ xs) (suc i) = cell_at xs i

unfoldable pub val_at : Cells → ℕ → Ptr
val_at [] i = null
val_at ((p, v) ∷ xs) zero = v
val_at ((p, v) ∷ xs) (suc i) = val_at xs i

-- Data that stand below `v` are not among cells that do not.
find_cell_below :
    {compare : Compare} (o : IsOrder compare) (val v : Ptr) (xs : Cells)
    → is_lt (compare val v) ≡ true
    → NoneBelow compare v xs
    → find_cell compare val xs ≡ null
unfolding find_cell
find_cell_below o val v [] lt none_below = refl
find_cell_below {compare} o val v ((q, w) ∷ xs) lt none_below =
    elim (Bool-cases (is_eq (compare w val))) [
      | inl e ↦ absurd (ground (arith, o.eq_lt w val v e lt))
      | inr e ↦ rw e (find_cell_below o val v xs lt none_below.1)
    ]

module _ (h : Heap) where
  find_loop-find_cell :
      (compare : Compare) (val : Ptr) (fuel : ℕ) (before : Ptr) (xs : Cells)
      → length xs < fuel
      → Distinct xs
      → Chain h before xs null
      → find_loop compare val fuel (first xs null) h ≡ some (find_cell compare val xs, h)
  unfolding find_loop find_cell
  find_loop-find_cell compare val zero before xs more d c = absurd (omega arith)
  find_loop-find_cell compare val (suc fuel) before [] more d c = refl
  find_loop-find_cell compare val (suc fuel) before ((p, v) ∷ xs) more d c =
      rw (d.0, load-some h p c.0)
        (elim (Bool-cases (is_eq (compare v val))) [
          | inl e ↦ rw e
          | inr e ↦ rw e (find_loop-find_cell compare val fuel p xs (omega arith) d.2 c.1)
        ])

  find_sorted_loop-find_cell :
      {compare : Compare} (o : IsOrder compare) (val : Ptr) (fuel : ℕ) (before : Ptr) (xs : Cells)
      → length xs < fuel
      → Distinct xs
      → IsSorted compare xs
      → Chain h before xs null
      → find_sorted_loop compare val fuel (first xs null) h ≡ some (find_cell compare val xs, h)
  unfolding find_sorted_loop find_cell
  find_sorted_loop-find_cell o val zero before xs more d s c = absurd (omega arith)
  find_sorted_loop-find_cell o val (suc fuel) before [] more d s c = refl
  find_sorted_loop-find_cell {compare} o val (suc fuel) before ((p, v) ∷ xs) more d s c =
      rw (d.0, load-some h p c.0, ← o.eq_sym val v)
        (elim (Bool-cases (is_eq (compare val v))) [
          | inl e ↦ rw e
          | inr e ↦ rw e (elim (Bool-cases (is_lt (compare val v))) [
            | inl lt ↦ rw (lt, find_cell_below o val v xs lt s.0)
            | inr ge ↦ rw ge (find_sorted_loop-find_cell o val fuel p xs (omega arith) d.2 s.1 c.1)
          ])
        ])

  get_loop-cell_at :
      (fuel : ℕ) (before : Ptr) (xs : Cells) (idx : ℕ)
      → length xs < fuel
      → Distinct xs
      → Chain h before xs null
      → get_loop fuel (first xs null) idx h ≡ some (cell_at xs idx, h)
  unfolding get_loop cell_at
  get_loop-cell_at zero before xs idx more d c = absurd (omega arith)
  get_loop-cell_at (suc fuel) before [] idx more d c = refl
  get_loop-cell_at (suc fuel) before ((p, v) ∷ xs) zero more d c = rw d.0
  get_loop-cell_at (suc fuel) before ((p, v) ∷ xs) (suc idx) more d c =
      let pred_suc : suc idx - 1 ≡ idx = omega arith in
      let not_zero : (suc idx == 0) ≡ false = ground arith in
      rw (d.0, not_zero, load-some h p c.0, pred_suc)
        (get_loop-cell_at fuel p xs idx (omega arith) d.2 c.1)

  module _ (l : CcList) (xs : Cells) (is : IsList h l xs) where
    -- cc_list_find ends, and returns the first iterator whose data compare equal, or null.
    pub find-find_cell :
        (val : Ptr) (compare : Compare) → find l val compare h ≡ some (find_cell compare val xs, h)
    unfolding find
    find-find_cell val compare = simp is.head (
        find_loop-find_cell compare val (l.size + 1) null xs (omega (arith, is.size)) is.distinct
          is.chain)

    -- cc_list_get ends, and returns the iterator with that index, or null behind the end.
    pub get-cell_at : (idx : ℕ) → get l idx h ≡ some (cell_at xs idx, h)
    unfolding get
    get-cell_at idx =
        simp is.head
          (get_loop-cell_at (l.size + 1) null xs idx (omega (arith, is.size)) is.distinct is.chain)

    -- On a sorted list cc_list_findSorted, which may stop early, returns what cc_list_find returns.
    pub find_sorted-find :
        (val : Ptr) (compare : Compare)
        → IsOrder compare
        → IsSorted compare xs
        → find_sorted l val compare h ≡ find l val compare h
    unfolding find_sorted
    find_sorted-find val compare o s =
        simp is.head (
          find_sorted_loop-find_cell o val (l.size + 1) null xs (omega (arith, is.size)) is.distinct
            s is.chain)
        ∙ sym (find-find_cell val compare)
