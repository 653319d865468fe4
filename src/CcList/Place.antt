-- ===== src/CcList/Place.antt =====
-- cc_list.c: cc_list_move and cc_list_moven, which put an iterator in front of another one of its
-- list, and behind it.
use libcc.Base.{◌≡◌, ◌≢◌, false, [], ◌∷◌, ◌++◌, arith, ◌==◌, sym, subst, ◌∙◌, append_assoc}
use libcc.CcList.Store.{Ptr, null, Heap, Ends, Ends-mono, load-some}
use libcc.CcList.Links.{CcList, iter_move}
use libcc.CcList.Ops.{move, moven}
use libcc.CcList.Chain.{Cells, has, first, last, has-append, last-append, Distinct-erase}
use libcc.CcList.Refine.{IsList, Keeps, Chain-mid, last-ne}
use libcc.CcList.Move.{iter_move-IsList}

-- The list holds the cells `zs` now, and what is outside of the cells `xs` is as it was.
abbrev pub Moved : Heap → CcList → (xs zs : Cells) → CcList → Heap → Type 0
Moved h l xs zs l' g = IsList g l' zs × Keeps h l xs l' g

append-cons-ne : (xs ys : Cells) (c : Ptr × Ptr) → xs ++ c ∷ ys ≢ []
append-cons-ne [] ys c e = absurd (ground arith)
append-cons-ne (x ∷ xs) ys c e = absurd (ground arith)

last-null-ne :
    (p : Ptr) (xs : Cells) → (p == null) ≡ false → has p xs ≡ false → (p == last null xs) ≡ false
last-null-ne p [] ne out = ne
last-null-ne p ((q, w) ∷ xs) ne out = last-ne p q w xs out

first-null-ne :
    (p : Ptr) (xs : Cells) → (p == null) ≡ false → has p xs ≡ false → (p == first xs null) ≡ false
first-null-ne p [] ne out = ne
first-null-ne p ((q, w) ∷ xs) ne out = ground arith

module _ (h : Heap) (l : CcList) (p v q w : Ptr) (fs ms bs : Cells) where
  -- On a list cc_list_move takes an iterator from behind another one to the place in front of it,
  -- keeps the rest of the list in its order, and changes no iterator outside the list.
  pub move-IsList :
      IsList h l (fs ++ (q, w) ∷ ms ++ (p, v) ∷ bs)
      → Ends
          (Moved h l (fs ++ (q, w) ∷ ms ++ (p, v) ∷ bs) (fs ++ (p, v) ∷ (q, w) ∷ ms ++ bs))
          (move l p q h)
  unfolding move
  move-IsList is =
      let xs : Cells = fs ++ (q, w) ∷ ms in
      let rest : Cells = (q, w) ∷ ms ++ bs in
      let (ne, out, _) = Distinct-erase p v xs bs is.distinct in
      let regroup : xs ++ (p, v) ∷ bs ≡ fs ++ (q, w) ∷ (ms ++ (p, v) ∷ bs) =
        append_assoc fs ((q, w) ∷ ms) ((p, v) ∷ bs) in
      let is' = subst (IsList h l) regroup is in
      let (ne_q, _, _) = Distinct-erase q w fs (ms ++ (p, v) ∷ bs) is'.distinct in
      let same_rest : xs ++ bs ≡ fs ++ rest = append_assoc fs ((q, w) ∷ ms) bs in
      let out' : has p (fs ++ rest) ≡ false = subst (λ zs. has p zs ≡ false) same_rest out in
      let split = has-append p fs rest in
      let other : (p == q) ≡ false = ground arith in
      let not_before : (p == last null fs) ≡ false = last-null-ne p fs ne (ground arith) in
      rw (ne_q, load-some h q (Chain-mid h q w fs (ms ++ (p, v) ∷ bs) is'.chain), other, not_before)
        (Ends-mono
          (iter_move-IsList h p v xs bs fs rest is
            (subst (λ zs. zs ≢ []) (sym same_rest) (append-cons-ne fs (ms ++ bs) (q, w))) same_rest)
          λ l' g (moved, keeps).
            (subst (IsList g l') (sym (append_assoc fs ((p, v) ∷ (q, w) ∷ ms) bs)) moved, keeps))

  -- On a list cc_list_moven takes an iterator from in front of another one to the place behind it,
  -- keeps the rest of the list in its order, and changes no iterator outside the list.
  pub moven-IsList :
      IsList h l (fs ++ (p, v) ∷ (ms ++ (q, w) ∷ bs))
      → Ends
          (Moved h l (fs ++ (p, v) ∷ (ms ++ (q, w) ∷ bs)) (fs ++ ms ++ (q, w) ∷ [] ++ (p, v) ∷ bs))
          (moven l p q h)
  unfolding moven
  moven-IsList is =
      let ys : Cells = ms ++ (q, w) ∷ bs in
      let front : Cells = fs ++ ms ++ (q, w) ∷ [] in
      let (ne, out, _) = Distinct-erase p v fs ys is.distinct in
      let regroup : fs ++ (p, v) ∷ ys ≡ (fs ++ (p, v) ∷ ms) ++ (q, w) ∷ bs =
        sym (append_assoc fs ((p, v) ∷ ms) ((q, w) ∷ bs)) in
      let is' = subst (IsList h l) regroup is in
      let (ne_q, _, _) = Distinct-erase q w (fs ++ (p, v) ∷ ms) bs is'.distinct in
      let same_rest : fs ++ ys ≡ front ++ bs =
        sym (append_assoc fs ms ((q, w) ∷ bs)) ∙ sym (append_assoc (fs ++ ms) ((q, w) ∷ []) bs) in
      let nonempty =
        subst (λ zs. zs ≢ []) (append_assoc fs ms ((q, w) ∷ bs))
          (append-cons-ne (fs ++ ms) bs (q, w)) in
      let at_q : last null front ≡ q = last-append null (fs ++ ms) ((q, w) ∷ []) in
      let in_fs = has-append p fs ys in
      let in_ms = has-append p ms ((q, w) ∷ bs) in
      let other : (p == q) ≡ false = ground arith in
      let not_behind : (p == first bs null) ≡ false = first-null-ne p bs ne (ground arith) in
      rw (ne_q, load-some h q (Chain-mid h q w (fs ++ (p, v) ∷ ms) bs is'.chain), other, not_behind)
        (subst
          (λ prev.
            Ends (Moved h l (fs ++ (p, v) ∷ ys) (front ++ (p, v) ∷ bs))
              (iter_move p l prev (first bs null) h))
          at_q (iter_move-IsList h p v fs ys front bs is nonempty same_rest))
