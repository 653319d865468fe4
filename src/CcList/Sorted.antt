-- ===== src/CcList/Sorted.antt =====
-- cc_list_insertSorted and cc_list_findSorted on a list that a comparison orders.
use libcc.Base.{
  ℕ, zero, suc, ◌+◌, ◌<◌, ◌≡◌, true, false, [], ◌∷◌, ◌++◌, arith, ◌==◌, sym, subst, append_assoc,
  append-nil, inl, inr, Bool-cases, if◌then◌else◌, length,
}
use libcc.CcList.Store.{Ptr, null, Heap, load-some, Ends, Ends-mono}
use libcc.CcList.Chain.{Cells, has, first, Distinct-erase}
use libcc.CcList.Links.{CcList}
use libcc.CcList.Refine.{IsList, Chain-mid}
use libcc.CcList.Pool.{Pool}
use libcc.CcList.Ops.{Compare, is_eq, is_lt, peek_iter, insert_sorted, insert_sorted_loop}
use libcc.CcList.Insert.{Source, Inserted, insert-IsList, append-null-IsList}

module _ (compare : Compare) where
  -- In front of the first cell whose data the new data stand below.
  unfoldable pub place : (self val : Ptr) → Cells → Cells
  place self val [] = (self, val) ∷ []
  place self val ((p, v) ∷ xs) =
      if is_lt (compare val v) then (self, val) ∷ (p, v) ∷ xs else (p, v) ∷ place self val xs

  -- No data of the cells stand below `v`.
  abbrev pub NoneBelow : Ptr → Cells → Type 0
  NoneBelow v [] = Unit {0}
  NoneBelow v ((q, w) ∷ xs) = (is_lt (compare w v) ≡ false) × NoneBelow v xs

  abbrev pub IsSorted : Cells → Type 0
  IsSorted [] = Unit {0}
  IsSorted ((p, v) ∷ xs) = NoneBelow v xs × IsSorted xs

-- A comparison function that orders its arguments.
pub record IsOrder (compare : Compare) : Type 0 where
  pub asym : (a b : Ptr) → is_lt (compare a b) ≡ true → is_lt (compare b a) ≡ false
  pub trans :
      (a b c : Ptr)
      → is_lt (compare a b) ≡ true
      → is_lt (compare b c) ≡ true
      → is_lt (compare a c) ≡ true
  pub eq_sym : (a b : Ptr) → is_eq (compare a b) ≡ is_eq (compare b a)
  pub eq_lt :
      (a b c : Ptr)
      → is_eq (compare a b) ≡ true
      → is_lt (compare b c) ≡ true
      → is_lt (compare a c) ≡ true

module _ {compare : Compare} (o : IsOrder compare) (self val : Ptr) where
  below_all :
      (v : Ptr) (xs : Cells)
      → is_lt (compare val v) ≡ true
      → NoneBelow compare v xs
      → NoneBelow compare val xs
  below_all v [] lt none_below = tt
  below_all v ((q, w) ∷ xs) lt none_below = (
    elim (Bool-cases (is_lt (compare w val))) [
      | inl lt' ↦ absurd (ground (arith, o.trans w val v lt' lt))
      | inr ge ↦ ge
    ],
    below_all v xs lt none_below.1,
  )

  NoneBelow-place :
      (v : Ptr) (xs : Cells)
      → is_lt (compare val v) ≡ false
      → NoneBelow compare v xs
      → NoneBelow compare v (place compare self val xs)
  unfolding place
  NoneBelow-place v [] ge none_below = (ge, tt)
  NoneBelow-place v ((q, w) ∷ xs) ge none_below =
      ground (arith, NoneBelow-place v xs ge none_below.1)

  place-IsSorted : (xs : Cells) → IsSorted compare xs → IsSorted compare (place compare self val xs)
  unfolding place
  place-IsSorted [] s = (tt, tt)
  place-IsSorted ((p, v) ∷ xs) s = elim (Bool-cases (is_lt (compare val v))) [
    | inl lt ↦ rw lt ((o.asym val v lt, below_all v xs lt s.0), s)
    | inr ge ↦ rw ge (NoneBelow-place v xs ge s.0, place-IsSorted xs s.1)
  ]

module _ (h : Heap) (l : CcList) (pool : Pool) (compare : Compare) (fresh self val : Ptr)
    (source : Source h l fresh self) (ne : (self == null) ≡ false) where
  insert_sorted_loop-IsList :
      (fuel : ℕ) (front rest : Cells)
      → length rest < fuel
      → IsList h l (front ++ rest)
      → has self (front ++ rest) ≡ false
      → Ends
          (Inserted h l pool self (front ++ place compare self val rest))
          (insert_sorted_loop fresh l pool compare val fuel (first rest null) h)
  unfolding insert_sorted_loop place peek_iter
  insert_sorted_loop-IsList zero front rest more is out = absurd (omega arith)
  insert_sorted_loop-IsList (suc fuel) front [] more is out =
      append-null-IsList h l pool fresh self val front (subst (IsList h l) (append-nil front) is)
        source ne (subst (λ zs. has self zs ≡ false) (append-nil front) out)
  insert_sorted_loop-IsList (suc fuel) front ((p, v) ∷ rest) more is out =
      let (ne_p, _, _) = Distinct-erase p v front rest is.distinct in
      let at = load-some h p (Chain-mid h p v front rest is.chain) in
      let regroup = append_assoc front ((p, v) ∷ []) rest in
      rw (ne_p, at)
        (elim (Bool-cases (is_lt (compare val v))) [
          | inl lt ↦ rw lt (insert-IsList h l pool fresh self p v val front rest is source ne out)
          | inr ge ↦
              rw (ge, at)
                (subst
                  (λ zs.
                    Ends (Inserted h l pool self zs)
                      (insert_sorted_loop fresh l pool compare val fuel (first rest null) h))
                  (append_assoc front ((p, v) ∷ []) (place compare self val rest))
                  (insert_sorted_loop-IsList fuel (front ++ (p, v) ∷ []) rest (omega arith)
                    (subst (IsList h l) (sym regroup) is)
                    (subst (λ zs. has self zs ≡ false) (sym regroup) out)))
        ])

  -- Where the new iterator is from calloc, or is the first of the local free iterators, and is no part of
  -- the list, and the comparison is an order, cc_list_insertSorted ends, and keeps a sorted list sorted:
  -- the new data stand in front of the first data that they are below, and the rest of the list is as
  -- it was; a local free iterator leaves the free ones; and neither the other free iterators, nor the
  -- pool, nor the memory outside the list change.
  pub insert_sorted-IsSorted :
      IsOrder compare
      → (xs : Cells) → IsList h l xs
      → IsSorted compare xs
      → has self xs ≡ false
      → Ends
          (λ r g.
            Inserted h l pool self (place compare self val xs) r g
            × IsSorted compare (place compare self val xs))
          (insert_sorted fresh l pool compare val h)
  unfolding insert_sorted
  insert_sorted-IsSorted o xs is s out = simp is.head (
      Ends-mono (insert_sorted_loop-IsList (l.size + 1) [] xs (omega (arith, is.size)) is out)
        λ r g inserted. (inserted, place-IsSorted o self val xs s))
