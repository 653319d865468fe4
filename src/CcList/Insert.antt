-- ===== src/CcList/Insert.antt =====
-- cc_listIter_new, cc_list_insert, cc_list_append and cc_list_replace against the sequence that a
-- list stands for.
use mathlib.Core.Path.{subst₂}
use libcc.Base.{
  Option, ◌≡◌, refl, true, false, none, some, [], ◌∷◌, ◌++◌, arith, ◌==◌, ◌∙◌, sym, ap, subst,
  append_assoc, append-nil, length-append, ltb,
}
use libcc.CcList.Store.{
  Ptr, null, Iter, iter, Heap, calloc, load-some, store-some, update_self, update_ne, Ends, ends,
  Ends-chain,
}
use libcc.CcList.Chain.{
  Cells, has, first, last, Chain, SameOutside, has-append, first-append, last-append, Chain-frame,
  Chain-append, Chain-split, Distinct-insert, Distinct-erase,
}
use libcc.CcList.Links.{CcList}
use libcc.CcList.Refine.{IsList, Chain-mid, iter_add-IsList}
use libcc.CcList.Pool.{Pool, pool_get, set_size}
use libcc.CcList.Alloc.{acquire, replace, iter_new, take_from_pool}
use libcc.CcList.Ops.{insert, append}

-- The data of one cell are of no account to the ends, the addresses and the size.
IsList-val :
    (h g : Heap) (l : CcList) (p v w : Ptr) (xs ys : Cells)
    → Chain g null (xs ++ (p, w) ∷ ys) null
    → IsList h l (xs ++ (p, v) ∷ ys)
    → IsList g l (xs ++ (p, w) ∷ ys)
IsList-val h g l p v w xs ys c is =
    let (ne, out, d) = Distinct-erase p v xs ys is.distinct in
    record {
      chain = c;
      distinct = Distinct-insert p w xs ys ne out d;
      head =
          is.head ∙ first-append xs ((p, v) ∷ ys) null ∙ sym (first-append xs ((p, w) ∷ ys) null);
      tail = is.tail ∙ last-append null xs ((p, v) ∷ ys) ∙ sym (last-append null xs ((p, w) ∷ ys));
      size = omega (arith, is.size, length-append xs ((p, v) ∷ ys), length-append xs ((p, w) ∷ ys));
    }

-- On an iterator of a list cc_list_replace puts new data in the place of the old data, which it
-- returns, and changes nothing else of the list, nor of the heap.
pub replace-IsList :
    (h : Heap) (l : CcList) (p v w : Ptr) (xs ys : Cells)
    → IsList h l (xs ++ (p, v) ∷ ys)
    → Ends
        (λ old g. (old ≡ v) × IsList g l (xs ++ (p, w) ∷ ys) × SameOutside ((p, v) ∷ []) h g)
        (replace p w h)
unfolding replace
replace-IsList h l p v w xs ys is =
    let mid = Chain-mid h p v xs ys is.chain in
    let (ne, out, d) = Distinct-erase p v xs ys is.distinct in
    let (cx, cp) = Chain-split h null xs ((p, v) ∷ ys) null is.chain in
    let same = λ (a : Ptr). update_ne h p a (iter (first ys null) (last null xs) w) in
    rw (load-some h p mid, store-some h p mid (iter (first ys null) (last null xs) w))
      (ends (
        refl,
        IsList-val h _ l p v w xs ys
            (Chain-append _ null xs ((p, w) ∷ ys) null
              (Chain-frame h _ null xs p cx λ a i. same a (ground (arith, has-append p xs ys)))
              (
                update_self h p _,
                Chain-frame h _ p ys null cp.1 λ a i. same a (ground (arith, has-append p xs ys)),
              ))
            is,
        λ a i. same a (ground arith),
      ))

-- Where a list has its next iterator `self` from: calloc, or the local free iterators.
pub data Source (h : Heap) (l : CcList) (fresh self : Ptr) : Type 0 where
  allocated : l.cmalloc ≡ true → self ≡ fresh → h fresh ≡ none → Source h l fresh self
  recycled :
      l.cmalloc ≡ false → self ≡ l.iters → (n : Iter) → h self ≡ some n → Source h l fresh self

abbrev next_of : Option Iter → Ptr
next_of none = null
next_of (some n) = n.next

-- What is left of the local free iterators: all of them where the iterator is from calloc, and those
-- behind it where it was the first of them.
abbrev pub Supplied : Heap → CcList → (self : Ptr) → CcList → Type 0
Supplied h l self l' =
    (l'.cmalloc ≡ l.cmalloc)
    × (l.cmalloc ≡ true → l'.iters ≡ l.iters)
    × (l.cmalloc ≡ false → (n : Iter) → h self ≡ some n → l'.iters ≡ n.next)

-- The outcome of `acquire`: only the cell of `self` and the free iterators may have changed.
abbrev Acquired : Heap → CcList → Pool → Ptr → Ptr × CcList × Pool → Heap → Type 0
Acquired h l pool self (p, l', pool') g =
    (p ≡ self)
    × (l' ≡ record l { iters = l'.iters })
    × (pool' ≡ pool)
    × ((n : Iter) × (g self ≡ some n))
    × ((a : Ptr) → (a == self) ≡ false → g a ≡ h a)
    × Supplied h l self l'

acquire-Acquired :
    (h : Heap) (l : CcList) (pool : Pool) (fresh self : Ptr)
    → (self == null) ≡ false
    → Source h l fresh self
    → Ends (Acquired h l pool self) (acquire fresh l pool h)
unfolding acquire calloc
acquire-Acquired h l pool fresh self ne (allocated cm e unused) =
    let ne' : (fresh == null) ≡ false = ground arith in
    rw (cm, e, ne')
      (ends (
        refl,
        refl,
        refl,
        (iter 0 0 0, update_self h fresh _),
        (λ a. update_ne h fresh a _),
        (refl, (λ c. refl), λ c. absurd (ground (arith, c))),
      ))
acquire-Acquired h l pool fresh self ne (recycled cm e n at) =
    let ne' : (l.iters == null) ≡ false = ground arith in
    let at' : h l.iters ≡ some n = ground arith in
    rw (cm, ne', load-some h l.iters at')
      (ends (
        sym e,
        refl,
        refl,
        (n, at),
        (λ a i. refl),
        (refl, (λ c. absurd (ground (arith, c))), λ c m at_m. ap next_of (sym at ∙ at_m)),
      ))

-- The list, the heap outside it, the pool and the local free iterators, after `self` went into the list.
abbrev pub Inserted : Heap → CcList → Pool → Ptr → Cells → Ptr × CcList × Pool → Heap → Type 0
Inserted h l pool self zs (p, l', pool') g =
    (p ≡ self) × IsList g l' zs × (pool' ≡ pool) × SameOutside zs h g × Supplied h l self l'

-- A struct that differs in its free iterators holds the same list.
pub IsList-iters :
    (h g : Heap) (l l' : CcList) (xs : Cells)
    → l' ≡ record l { iters = l'.iters }
    → ((a : Ptr) → has a xs ≡ true → g a ≡ h a)
    → IsList h l xs
    → IsList g l' xs
IsList-iters h g l l' xs e same is = record {
  chain = Chain-frame h g null xs null is.chain same;
  distinct = is.distinct;
  head = ap (λ (m : CcList). m.head) e ∙ is.head;
  tail = ap (λ (m : CcList). m.tail) e ∙ is.tail;
  size = ap (λ (m : CcList). m.size) e ∙ is.size;
}

-- cc_listIter_new between `xs` and `ys`.
pub iter_new-IsList :
    (h : Heap) (l : CcList) (pool : Pool) (fresh self val : Ptr) (xs ys : Cells)
    → IsList h l (xs ++ ys)
    → Source h l fresh self
    → (self == null) ≡ false
    → has self (xs ++ ys) ≡ false
    → Ends
        (Inserted h l pool self (xs ++ (self, val) ∷ ys))
        (iter_new fresh l pool (last null xs) (first ys null) val h)
unfolding iter_new
iter_new-IsList h l pool fresh self val xs ys is source ne out =
    Ends-chain (acquire-Acquired h l pool fresh self ne source)
      λ (p, l', pool') g (e, same_list, same_pool, (n, at), same, supplied).
        rw (e, ne)
          (Ends-chain
            (iter_add-IsList g self xs ys at ne out
              (IsList-iters h g l l' (xs ++ ys) same_list (λ a i. same a (ground arith)) is))
            λ l'' g' (is', keeps).
              Ends-chain (replace-IsList g' l'' self n.val val xs ys is') λ _ g'' (_, is'', same'').
                ends (
                  refl,
                  is'',
                  same_pool,
                  (λ a i.
                      let at_self = has-append a xs ((self, val) ∷ ys) in
                      let at_self' = has-append a xs ((self, n.val) ∷ ys) in
                      same'' a (ground arith) ∙ keeps.2 a (ground arith) ∙ same a (ground arith)),
                  (
                    keeps.1 ∙ supplied.0,
                    (λ c. keeps.0 ∙ supplied.1 c),
                    λ c m at_m. keeps.0 ∙ supplied.2 c m at_m,
                  ),
                ))

-- Where the new iterator is from calloc, or is the first of the local free iterators, and is no part of
-- the list, cc_list_insert puts it, with the new data, in front of the iterator that it is given, and
-- returns it; a local free iterator leaves the free ones; and neither the other free iterators, nor the
-- pool, nor the memory outside the list change.
pub insert-IsList :
    (h : Heap) (l : CcList) (pool : Pool) (fresh self p v val : Ptr) (xs ys : Cells)
    → IsList h l (xs ++ (p, v) ∷ ys)
    → Source h l fresh self
    → (self == null) ≡ false
    → has self (xs ++ (p, v) ∷ ys) ≡ false
    → Ends (Inserted h l pool self (xs ++ (self, val) ∷ (p, v) ∷ ys)) (insert fresh l pool p val h)
unfolding insert
insert-IsList h l pool fresh self p v val xs ys is source ne out =
    let (ne_p, _, _) = Distinct-erase p v xs ys is.distinct in
    rw (ne_p, load-some h p (Chain-mid h p v xs ys is.chain))
      (iter_new-IsList h l pool fresh self val xs ((p, v) ∷ ys) is source ne out)

-- Where a new iterator can be had, and is no part of the list, cc_list_append puts it, with the new
-- data, behind the iterator that it is given, returns it, and changes nothing else.
pub append-IsList :
    (h : Heap) (l : CcList) (pool : Pool) (fresh self p v val : Ptr) (xs ys : Cells)
    → IsList h l (xs ++ (p, v) ∷ ys)
    → Source h l fresh self
    → (self == null) ≡ false
    → has self (xs ++ (p, v) ∷ ys) ≡ false
    → Ends (Inserted h l pool self (xs ++ (p, v) ∷ (self, val) ∷ ys)) (append fresh l pool p val h)
unfolding append
append-IsList h l pool fresh self p v val xs ys is source ne out =
    let (ne_p, _, _) = Distinct-erase p v xs ys is.distinct in
    let zs : Cells = xs ++ (p, v) ∷ [] in
    let regroup : zs ++ ys ≡ xs ++ (p, v) ∷ ys = append_assoc xs ((p, v) ∷ []) ys in
    rw (ne_p, load-some h p (Chain-mid h p v xs ys is.chain))
      (subst₂
        (λ ws q. Ends (Inserted h l pool self ws) (iter_new fresh l pool q (first ys null) val h))
        (append_assoc xs ((p, v) ∷ []) ((self, val) ∷ ys)) (last-append null xs ((p, v) ∷ []))
        (iter_new-IsList h l pool fresh self val zs ys (subst (IsList h l) (sym regroup) is) source
          ne (subst (λ ws. has self ws ≡ false) (sym regroup) out)))

module _ (h : Heap) (l : CcList) (pool : Pool) (fresh self val : Ptr) (xs : Cells)
    (is : IsList h l xs) (source : Source h l fresh self) (ne : (self == null) ≡ false)
    (out : has self xs ≡ false) where
  -- With no iterator given, cc_list_insert puts the data at the head.
  pub insert-null-IsList :
      Ends (Inserted h l pool self ((self, val) ∷ xs)) (insert fresh l pool null val h)
  unfolding insert
  insert-null-IsList = simp is.head (iter_new-IsList h l pool fresh self val [] xs is source ne out)

  -- With no iterator given, cc_list_append puts the data at the tail.
  pub append-null-IsList :
      Ends (Inserted h l pool self (xs ++ (self, val) ∷ [])) (append fresh l pool null val h)
  unfolding append
  append-null-IsList = simp is.tail (
      iter_new-IsList h l pool fresh self val xs [] (subst (IsList h l) (sym (append-nil xs)) is)
        source ne (subst (λ ws. has self ws ≡ false) (sym (append-nil xs)) out))

-- Where a list gets no iterator: calloc fails, or the pool is short and its new block fails.
pub data Exhausted (l : CcList) (pool : Pool) : Type 0 where
  no_iter : l.cmalloc ≡ true → Exhausted l pool
  no_block : l.cmalloc ≡ false → l.iters ≡ null → ltb pool.count set_size ≡ true → Exhausted l pool

-- Where calloc fails, or the pool is short of a set and its new block fails, cc_listIter_new returns
-- null and changes neither the list, nor the pool, nor the heap.
pub iter_new-Exhausted :
    (h : Heap) (l : CcList) (pool : Pool) (prev next val : Ptr)
    → Exhausted l pool
    → iter_new null l pool prev next val h ≡ some ((null, l, pool), h)
unfolding iter_new acquire calloc take_from_pool pool_get
iter_new-Exhausted h l pool prev next val (no_iter cm) = rw cm
iter_new-Exhausted h l pool prev next val (no_block cm none_left short) = rw (cm, none_left, short)
