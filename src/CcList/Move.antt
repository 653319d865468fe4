-- ===== src/CcList/Move.antt =====
-- cc_listIter_move against the sequence that a list stands for.
use libcc.Base.{◌≡◌, refl, false, [], ◌∷◌, ◌++◌, arith, ◌∙◌, ap, subst, length, length-append, ◌≢◌}
use libcc.CcList.Store.{Ptr, null, Iter, iter, Heap, load-some, Ends, ends, Ends-chain}
use libcc.CcList.Chain.{
  Cells, has, first, last, Distinct, Chain, has-append, last-append, Chain-split, Distinct-split,
  Distinct-insert, Distinct-erase, last-ne-null,
}
use libcc.CcList.Links.{CcList, cut, paste, iter_move}
use libcc.CcList.Refine.{IsList, Keeps, connect-Chain, disconnect-Chain, Chain-mid, last-ne}

-- The list has these two ends.
abbrev HasEnds : CcList → Cells → Type 0
HasEnds l xs = (l.head ≡ first xs null) × (l.tail ≡ last null xs)

-- One of at least two iterators is taken out.
cut_ends :
    (l : CcList) (p v : Ptr) (xs ys : Cells)
    → xs ++ ys ≢ []
    → has p (xs ++ ys) ≡ false
    → HasEnds l (xs ++ (p, v) ∷ ys)
    → HasEnds (cut p l (iter (first ys null) (last null xs) v)) (xs ++ ys)
cut_ends l p v [] [] rest out e = absurd (rest refl)
cut_ends l p v [] ((q, w) ∷ ys) rest out e = ground arith
cut_ends l p v ((q, w) ∷ xs) [] rest out e =
    ground (arith, last-append q xs ((p, v) ∷ []), last-append q xs [])
cut_ends l p v ((q, w) ∷ xs) ((r, u) ∷ ys) rest out e = ground (
  arith,
  last-append q xs ((p, v) ∷ (r, u) ∷ ys),
  last-append q xs ((r, u) ∷ ys),
  has-append p xs ((r, u) ∷ ys),
  last-ne p r u ys,
)

-- An iterator comes to stand among at least one other.
paste_ends :
    (l : CcList) (p v : Ptr) (xs ys : Cells)
    → xs ++ ys ≢ []
    → Distinct (xs ++ ys)
    → HasEnds l (xs ++ ys)
    → HasEnds (paste p l (last null xs) (first ys null)) (xs ++ (p, v) ∷ ys)
paste_ends l p v [] [] rest d e = absurd (rest refl)
paste_ends l p v [] ((q, w) ∷ ys) rest d e = (refl, e.1)
paste_ends l p v ((q, w) ∷ xs) [] rest d e =
    rw (last-ne-null q w xs (Distinct-split ((q, w) ∷ xs) [] d).0)
      (ground (arith, last-append q xs ((p, v) ∷ []), last-append q xs []))
paste_ends l p v ((q, w) ∷ xs) ((r, u) ∷ ys) rest d e =
    let (dx, dy, _) = Distinct-split ((q, w) ∷ xs) ((r, u) ∷ ys) d in
    rw (last-ne-null q w xs dx, dy.0)
      (ground (arith, last-append q xs ((p, v) ∷ (r, u) ∷ ys), last-append q xs ((r, u) ∷ ys)))

-- A move changes the two ends of the struct at most.
move_keeps :
    (l : CcList) (p prev next : Ptr) (n : Iter)
    → ((paste p (cut p l n) prev next).size ≡ l.size)
      × ((paste p (cut p l n) prev next).iters ≡ l.iters)
      × ((paste p (cut p l n) prev next).cmalloc ≡ l.cmalloc)
move_keeps l p prev next n = ground arith

-- On an iterator of a list that has others, cc_listIter_move, given two neighbours among the others,
-- puts the iterator between them, keeps the rest of the list in its order, and changes no iterator
-- outside the list.
pub iter_move-IsList :
    (h : Heap) (p v : Ptr) {l : CcList} (xs ys fs bs : Cells)
    → IsList h l (xs ++ (p, v) ∷ ys)
    → xs ++ ys ≢ []
    → xs ++ ys ≡ fs ++ bs
    → Ends
        (λ l' g. IsList g l' (fs ++ (p, v) ∷ bs) × Keeps h l (xs ++ (p, v) ∷ ys) l' g)
        (iter_move p l (last null fs) (first bs null) h)
unfolding iter_move
iter_move-IsList h p v {l} xs ys fs bs is rest same_rest =
    let (ne, out, d) = Distinct-erase p v xs ys is.distinct in
    let mid = Chain-mid h p v xs ys is.chain in
    let out' : has p (fs ++ bs) ≡ false = subst (λ zs. has p zs ≡ false) same_rest out in
    let d' : Distinct (fs ++ bs) = subst Distinct same_rest d in
    let n : Iter = iter (first ys null) (last null xs) v in
    let ends' =
      subst (HasEnds (cut p l n)) same_rest (cut_ends l p v xs ys rest out (is.head, is.tail)) in
    let ends'' = paste_ends (cut p l n) p v fs bs (subst (λ zs. zs ≢ []) same_rest rest) d' ends' in
    rw (load-some h p mid) (
      Ends-chain (disconnect-Chain h p v xs ys is.distinct is.chain) λ _ g (c, same).
        let c' = subst (λ zs. Chain g null zs null) same_rest c in
        let (cf, cb) = Chain-split g null fs bs null c' in
        Ends-chain
          (connect-Chain g p fs bs (first bs null) (last null fs) (same p out ∙ mid) out' d' cf cb)
          λ _ g' (joined, same'). ends (
            record {
              chain = joined;
              distinct = Distinct-insert p v fs bs ne out' d';
              head = ends''.0;
              tail = ends''.1;
              size = omega (
                arith,
                move_keeps l p (last null fs) (first bs null) n,
                is.size,
                ap length same_rest,
                length-append xs ys,
                length-append fs bs,
                length-append xs ((p, v) ∷ ys),
                length-append fs ((p, v) ∷ bs),
              );
            },
            (
              (move_keeps l p (last null fs) (first bs null) n).1,
              (move_keeps l p (last null fs) (first bs null) n).2,
              λ a i.
                  let out_xs = has-append a xs ((p, v) ∷ ys) in
                  let out_rest = has-append a xs ys in
                  let out_fs = has-append a fs ((p, v) ∷ bs) in
                  let out_rest' = has-append a fs bs in
                  let moved = ap (has a) same_rest in
                  same' a (ground arith) ∙ same a (ground arith),
            ),
          ))
