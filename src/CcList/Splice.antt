-- ===== src/CcList/Splice.antt =====
-- cc_list.c: cc_list_insertList.
use libcc.Base.{refl, [], ◌∷◌, ◌++◌, arith, sym, subst, ◌∙◌, append-nil, length-append}
use libcc.CcList.Store.{Ptr, null, Heap, Ends, ends, Ends-chain}
use libcc.CcList.Links.{CcList}
use libcc.CcList.Chain.{
  Cells, last, has-append, last-append, Chain-frame, Chain-append, last-ne-null, link_next-Chain,
  link_prev-Chain,
}
use libcc.CcList.Refine.{IsList}
use libcc.CcList.Ops.{insert_list}
use libcc.CcList.Swap.{
  Apart, Spliced, set_next-link, set_prev-link, Distinct-append, Apart-sym, ne_zero,
}

insert_list_cons :
    (h : Heap) (l m : CcList) (p v q w : Ptr) (xs ys : Cells)
    → IsList h l ((p, v) ∷ xs)
    → IsList h m ((q, w) ∷ ys)
    → Apart ((q, w) ∷ ys) ((p, v) ∷ xs)
    → Ends (Spliced h ((q, w) ∷ ys ++ (p, v) ∷ xs)) (insert_list l m h)
unfolding insert_list
insert_list_cons h l m p v q w xs ys is is' apart =
    simp
      (
        ne_zero l.size is.size,
        ne_zero m.size is'.size,
        is.head,
        is'.tail,
        set_prev-link p (last q ys) h is.distinct.0,
      )
      (Ends-chain (link_prev-Chain h null ((p, v) ∷ xs) (last q ys) is.distinct is.chain)
        λ _ g (cx, same). simp (set_next-link (last q ys) p g (last-ne-null q w ys is'.distinct)) (
          Ends-chain
            (link_next-Chain g ((q, w) ∷ ys) null p is'.distinct
              (Chain-frame h g null ((q, w) ∷ ys) null is'.chain λ a i. same a (apart a i)))
            λ _ g' (cy, same'). ends (
              record {
                chain = Chain-append g' null ((q, w) ∷ ys) ((p, v) ∷ xs) null cy (
                    Chain-frame g g' (last q ys) ((p, v) ∷ xs) null cx
                      λ a i. same' a (Apart-sym ((q, w) ∷ ys) ((p, v) ∷ xs) apart a i));
                distinct =
                    Distinct-append ((q, w) ∷ ys) ((p, v) ∷ xs) is'.distinct is.distinct apart;
                head = is'.head;
                tail = is.tail ∙ sym (last-append q ys ((p, v) ∷ xs));
                size = omega (arith, is.size, is'.size, length-append ys ((p, v) ∷ xs));
              },
              record { chain = tt; distinct = tt; head = refl; tail = refl; size = refl },
              λ a i.
                  let here = has-append a ys ((p, v) ∷ xs) in
                  same' a (ground arith) ∙ same a (ground arith),
            )))

-- On two lists without a common iterator, cc_list_insertList puts the iterators of the second list
-- in front of those of the first, leaves the second list empty, and changes nothing else of the
-- heap.
pub insert_list-IsList :
    (h : Heap) (l m : CcList) (xs ys : Cells)
    → IsList h l xs
    → IsList h m ys
    → Apart ys xs
    → Ends (Spliced h (ys ++ xs)) (insert_list l m h)
unfolding insert_list
insert_list-IsList h l m xs [] is is' apart = simp is'.size (ends (is, is', λ a i. refl))
insert_list-IsList h l m [] ((q, w) ∷ ys) is is' apart =
    let whole = sym (append-nil ((q, w) ∷ ys)) in
    simp (ne_zero m.size is'.size, is.size)
      (ends (
        subst (IsList h (record l { head = m.head; tail = m.tail; size = m.size })) whole (record {
          chain = is'.chain;
          distinct = is'.distinct;
          head = is'.head;
          tail = is'.tail;
          size = is'.size;
        }),
        record { chain = tt; distinct = tt; head = refl; tail = refl; size = refl },
        λ a i. refl,
      ))
insert_list-IsList h l m ((p, v) ∷ xs) ((q, w) ∷ ys) is is' apart =
    insert_list_cons h l m p v q w xs ys is is' apart
