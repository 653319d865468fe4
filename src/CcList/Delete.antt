-- ===== src/CcList/Delete.antt =====
-- cc_listIter_delete, cc_list_remove and cc_list_discard against the sequence that a list stands
-- for.
use libcc.Base.{
  ℕ, zero, suc, ◌+◌, ◌<◌, ◌≡◌, refl, Bool, ==_refl, true, false, none, some, [], ◌∷◌, ◌++◌, arith,
  ◌==◌, ◌∙◌, sym, ap, subst, if◌then◌else◌, length,
}
use libcc.CcList.Store.{
  Ptr, null, iter, Heap, pure, ◌>>◌, free, set_next, clear, free-some, load-some, store-some,
  update_self, update_ne, Ends, ends, Ends-chain, Ends-mono,
}
use libcc.CcList.Chain.{Cells, first, SameOutside, has-append, Distinct-erase}
use libcc.CcList.Links.{CcList}
use libcc.CcList.Refine.{IsList, Chain-mid, iter_remove-IsList}
use libcc.CcList.Alloc.{dispose, iter_delete}
use libcc.CcList.Ops.{remove, discard, discard_loop}
use libcc.CcList.Insert.{IsList-iters, replace-IsList}

-- Where the iterator `p` of a list went: back to the allocator, or to the local free iterators,
-- which began at `iters`.
abbrev pub Disposed : (cmalloc : Bool) (iters p : Ptr) → CcList → Heap → Type 0
Disposed true iters p l' g = (g p ≡ none) × (l'.iters ≡ iters)
Disposed false iters p l' g = (g p ≡ some (iter iters null null)) × (l'.iters ≡ p)

-- The outcome of `dispose`.
abbrev IsDisposed : Heap → CcList → Bool → Ptr → CcList → Heap → Type 0
IsDisposed h l cmalloc p l' g =
    (l' ≡ record l { iters = l'.iters })
    × Disposed cmalloc l.iters p l' g
    × ((a : Ptr) → (a == p) ≡ false → g a ≡ h a)

dispose-IsDisposed :
    (h : Heap) (l : CcList) (cmalloc : Bool) (p : Ptr)
    → l.cmalloc ≡ cmalloc
    → h p ≡ some (iter null null null)
    → Ends (IsDisposed h l cmalloc p) (dispose p l h)
unfolding dispose set_next clear
dispose-IsDisposed h l true p e at =
    subst
      (λ b. Ends (IsDisposed h l true p) (
        (if b then (free p >> pure l) else (set_next p l.iters >> pure (record l { iters = p })))
          h))
      (sym e) (rw (free-some h p at) (ends (refl, (rw (==_refl p), refl), λ a ne. rw ne)))
dispose-IsDisposed h l false p e at =
    subst
      (λ b. Ends (IsDisposed h l false p) (
        (if b then (free p >> pure l) else (set_next p l.iters >> pure (record l { iters = p })))
          h))
      (sym e)
      (rw (load-some h p at, store-some h p at (iter l.iters null null))
        (ends (refl, (update_self h p _, refl), λ a. update_ne h p a _)))

-- On an iterator of a list cc_list_remove takes that one out and nothing else, returns its data and
-- the iterator behind it, and gives the iterator back to calloc's heap, or puts it in front of the
-- local free iterators.
pub remove-IsList :
    (h : Heap) (l : CcList) (p v : Ptr) (xs ys : Cells)
    → IsList h l (xs ++ (p, v) ∷ ys)
    → Ends
        (λ (val, next, l') g.
          (val ≡ v)
          × (next ≡ first ys null)
          × IsList g l' (xs ++ ys)
          × (l'.cmalloc ≡ l.cmalloc)
          × SameOutside (xs ++ (p, v) ∷ ys) h g
          × Disposed l.cmalloc l.iters p l' g)
        (remove l p h)
unfolding remove iter_delete
remove-IsList h l p v xs ys is =
    let (ne, out, _) = Distinct-erase p v xs ys is.distinct in
    rw (ne, load-some h p (Chain-mid h p v xs ys is.chain))
      (Ends-chain (replace-IsList h l p v null xs ys is) λ _ g (_, is', same).
        Ends-chain (iter_remove-IsList g p null xs ys is')
          λ l' g' (is'', at, (same_iters, same_flag, same')).
            Ends-chain (dispose-IsDisposed g' l' l.cmalloc p same_flag at)
              λ l'' g'' (same_list, disposed, same''). ends (
                refl,
                refl,
                IsList-iters g' g'' l' l'' (xs ++ ys) same_list (λ a i. same'' a (ground arith))
                    is'',
                ap (λ (m : CcList). m.cmalloc) same_list ∙ same_flag,
                λ a i.
                    let split = has-append a xs ((p, v) ∷ ys) in
                    let split' = has-append a xs ((p, null) ∷ ys) in
                    same'' a (ground arith) ∙ same' a (ground arith) ∙ same a (ground arith),
                subst (λ q. Disposed l.cmalloc q p l'' g'') same_iters disposed,
              ))

discard_loop-IsList :
    (fuel : ℕ) (h : Heap) (l : CcList) (xs : Cells)
    → length xs < fuel
    → IsList h l xs
    → Ends (λ l' g. IsList g l' [] × SameOutside xs h g) (discard_loop fuel l (first xs null) h)
unfolding discard_loop
discard_loop-IsList zero h l xs more is = absurd (omega arith)
discard_loop-IsList (suc fuel) h l [] more is = ends (is, λ a i. refl)
discard_loop-IsList (suc fuel) h l ((p, v) ∷ xs) more is = rw is.distinct.0 (
    Ends-chain (remove-IsList h l p v [] xs is) λ (val, next, l') g (_, at_next, is', _, same, _).
      rw at_next (
        Ends-mono (discard_loop-IsList fuel g l' xs (omega arith) is')
          λ l'' g' (is'', same'). (is'', λ a i. same' a (ground arith) ∙ same a (ground arith))))

-- On a list cc_list_discard ends with the empty list, and writes to no iterator but those of the list.
pub discard-IsList :
    (h : Heap) (l : CcList) (xs : Cells)
    → IsList h l xs
    → Ends (λ l' g. IsList g l' [] × SameOutside xs h g) (discard l h)
unfolding discard
discard-IsList h l xs is =
    simp is.head (discard_loop-IsList (l.size + 1) h l xs (omega (arith, is.size)) is)
