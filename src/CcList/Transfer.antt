-- ===== src/CcList/Transfer.antt =====
-- cc_list.c: cc_list_swap and cc_list_swapn with a target, an iterator of the other list.
use libcc.Base.{
  ◌≡◌, refl, true, false, some, [], ◌∷◌, ◌++◌, arith, ◌==◌, ◌∙◌, ◌||◌, Bool-cases, inl, inr, ==→≡,
  sym, subst, ==_refl, append_assoc,
}
use libcc.CcList.Store.{Ptr, null, iter, Heap, Ends, ends, Ends-chain, chain, pure, load-some}
use libcc.CcList.Chain.{Cells, has, first, last, has-append, last-append, Distinct-erase}
use libcc.CcList.Links.{CcList, iter_add}
use libcc.CcList.Refine.{IsList, Keeps, iter_add-IsList, iter_remove-IsList, Chain-mid}
use libcc.CcList.Insert.{IsList-iters}
use libcc.CcList.Ops.{swap, swapn}
use libcc.CcList.Swap.{Apart, Apart-sym}

-- The two lists after an iterator went from the first to the second, and the heap outside of them.
abbrev pub Swapped : Heap → (before after xs ys : Cells) → CcList × CcList → Heap → Type 0
Swapped h before after xs ys (l, m) g =
    IsList g l xs
    × IsList g m ys
    × ((a : Ptr) → has a before ≡ false → has a after ≡ false → g a ≡ h a)

has-insert :
    (a p v : Ptr) (xs ys : Cells) → has a (xs ++ (p, v) ∷ ys) ≡ ((a == p) || has a (xs ++ ys))
has-insert a p v [] ys = refl
has-insert a p v ((q, w) ∷ xs) ys = ground (arith, has-insert a p v xs ys)

has-ne : (a p : Ptr) (xs : Cells) → has a xs ≡ true → has p xs ≡ false → (a == p) ≡ false
has-ne a p xs here out = elim (Bool-cases (a == p)) [
  | inl e ↦ absurd (cc (here, out, ==→≡ a p e))
  | inr e ↦ e
]

module _ (a p v : Ptr) (xs ys : Cells) where
  has_self : has p (xs ++ (p, v) ∷ ys) ≡ true
  has_self = ground (arith, has-insert p p v xs ys, ==_refl p)

  has-more : has a (xs ++ ys) ≡ true → has a (xs ++ (p, v) ∷ ys) ≡ true
  has-more here = ground (arith, has-insert a p v xs ys)

  not-has-insert : (a == p) ≡ false → has a (xs ++ ys) ≡ false → has a (xs ++ (p, v) ∷ ys) ≡ false
  not-has-insert other out = ground (arith, has-insert a p v xs ys)

  not-has_self : has a (xs ++ (p, v) ∷ ys) ≡ false → (a == p) ≡ false
  not-has_self out = ground (arith, has-insert a p v xs ys)

module _ (h : Heap) (l m : CcList) (p v : Ptr) (xs ys fs bs : Cells)
    (is : IsList h l (xs ++ (p, v) ∷ ys)) (is' : IsList h m (fs ++ bs))
    (apart : Apart (fs ++ bs) (xs ++ (p, v) ∷ ys)) where
  added :
      (l' : CcList) (g : Heap)
      → IsList g l' (xs ++ ys)
      → g p ≡ some (iter null null v)
      → Keeps h l (xs ++ (p, v) ∷ ys) l' g
      → Ends
          (Swapped h (xs ++ (p, v) ∷ ys) (fs ++ bs) (xs ++ ys) (fs ++ (p, v) ∷ bs))
          (chain (iter_add p m (last null fs) (first bs null) g) λ m'. pure (l', m'))
  added l' g isl at keeps =
      let (ne, out, _) = Distinct-erase p v xs ys is.distinct in
      let back = Apart-sym (fs ++ bs) (xs ++ (p, v) ∷ ys) apart in
      let not_there = back p (has_self p p v xs ys) in
      Ends-chain
        (iter_add-IsList g p fs bs at ne not_there
          (IsList-iters h g m m (fs ++ bs) refl (λ a i. keeps.2 a (apart a i)) is'))
        λ m' g' (ism, keeps'). ends (
          IsList-iters g g' l' l' (xs ++ ys) refl
              (λ a i. keeps'.2 a (
                not-has-insert a p v fs bs (has-ne a p (xs ++ ys) i out)
                  (back a (has-more a p v xs ys i))))
              isl,
          ism,
          λ a i j.
              keeps'.2 a (not-has-insert a p v fs bs (not-has_self a p v xs ys i) j) ∙ keeps.2 a i,
        )

module _ (h : Heap) (l m : CcList) (p v q w : Ptr) (xs ys fs bs : Cells)
    (is : IsList h l (xs ++ (p, v) ∷ ys)) (is' : IsList h m (fs ++ (q, w) ∷ bs))
    (apart : Apart (fs ++ (q, w) ∷ bs) (xs ++ (p, v) ∷ ys)) where
  in_second : has q (fs ++ (q, w) ∷ bs) ≡ true
  in_second = ground (arith, has-append q fs ((q, w) ∷ bs), ==_refl q)

  -- On two lists without a common iterator, cc_list_swap takes an iterator out of the first list
  -- and puts it in front of the target in the second, and changes nothing else of the heap.
  pub swap-Swapped :
      Ends
        (Swapped h (xs ++ (p, v) ∷ ys) (fs ++ (q, w) ∷ bs) (xs ++ ys) (fs ++ (p, v) ∷ (q, w) ∷ bs))
        (swap l m p q h)
  unfolding swap
  swap-Swapped =
      let (ne_q, _, _) = Distinct-erase q w fs bs is'.distinct in
      Ends-chain (iter_remove-IsList h p v xs ys is) λ l' g (isl, at, keeps).
        let same = keeps.2 q (apart q in_second) in
        rw (ne_q, load-some g q (same ∙ Chain-mid h q w fs bs is'.chain))
          (added h l m p v xs ys fs ((q, w) ∷ bs) is is' apart l' g isl at keeps)

  -- On two lists without a common iterator, cc_list_swapn takes an iterator out of the first list
  -- and puts it behind the target in the second, and changes nothing else of the heap.
  pub swapn-Swapped :
      Ends
        (Swapped h
          (xs ++ (p, v) ∷ ys)
          (fs ++ (q, w) ∷ [] ++ bs)
          (xs ++ ys)
          (fs ++ (q, w) ∷ [] ++ (p, v) ∷ bs))
        (swapn l m p q h)
  unfolding swapn
  swapn-Swapped =
      let (ne_q, _, _) = Distinct-erase q w fs bs is'.distinct in
      let front : Cells = fs ++ (q, w) ∷ [] in
      let regroup : fs ++ (q, w) ∷ bs ≡ front ++ bs = sym (append_assoc fs ((q, w) ∷ []) bs) in
      let is'' = subst (IsList h m) regroup is' in
      let apart' = subst (λ zs. Apart zs (xs ++ (p, v) ∷ ys)) regroup apart in
      let at_q : last null front ≡ q = last-append null fs ((q, w) ∷ []) in
      Ends-chain (iter_remove-IsList h p v xs ys is) λ l' g (isl, at, keeps).
        let same = keeps.2 q (apart q in_second) in
        rw (ne_q, load-some g q (same ∙ Chain-mid h q w fs bs is'.chain))
          (rw at_q at (added h l m p v xs ys front bs is is'' apart' l' g isl at keeps))
