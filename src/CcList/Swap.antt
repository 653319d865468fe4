-- ===== src/CcList/Swap.antt =====
-- cc_list.c: cc_list_swapn and cc_list_appendList, by which iterators go from one list to another.
use libcc.Base.{
  ℕ, ◌≡◌, refl, true, false, [], ◌∷◌, ◌++◌, arith, ◌==◌, ◌∙◌, sym, subst, ==_refl, append-nil,
  length-append, suc,
}
use libcc.CcList.Store.{
  Ptr, null, Heap, set_next, set_prev, link_next, link_prev, Ends, ends, Ends-chain,
}
use libcc.CcList.Chain.{
  Cells, has, last, Distinct, SameOutside, has-append, last-append, Chain-frame, Chain-append,
  Distinct-erase, link_next-Chain, link_prev-Chain, last-ne-null,
}
use libcc.CcList.Links.{CcList}
use libcc.CcList.Refine.{IsList, iter_add-IsList, iter_remove-IsList}
use libcc.CcList.Insert.{IsList-iters}
use libcc.CcList.Ops.{swapn, append_list}

-- Two lists have no iterator in common.
abbrev pub Apart : Cells → Cells → Type 0
Apart xs ys = (a : Ptr) → has a xs ≡ true → has a ys ≡ false

IsList-frame :
    (h g : Heap) (l : CcList) (xs : Cells)
    → ((a : Ptr) → has a xs ≡ true → g a ≡ h a)
    → IsList h l xs
    → IsList g l xs
IsList-frame h g l xs = IsList-iters h g l l xs refl

module _ (h : Heap) (l m : CcList) (p v : Ptr) (xs ys fs : Cells)
    (is : IsList h l (xs ++ (p, v) ∷ ys)) where
  -- On two lists without a common iterator, cc_list_swapn with no target takes an iterator out of
  -- the first list and puts it at the tail of the second, and changes nothing else of the heap.
  pub swapn-null-IsList :
      IsList h m fs
      → Apart fs (xs ++ (p, v) ∷ ys)
      → Ends
          (λ (l', m') g.
            IsList g l' (xs ++ ys)
            × IsList g m' (fs ++ (p, v) ∷ [])
            × ((a : Ptr) → has a (xs ++ (p, v) ∷ ys) ≡ false → has a fs ≡ false → g a ≡ h a))
          (swapn l m p null h)
  unfolding swapn
  swapn-null-IsList is' apart =
      let (ne, out, _) = Distinct-erase p v xs ys is.distinct in
      let not_there : has p fs ≡ false =
        ground (arith, apart p, has-append p xs ((p, v) ∷ ys), ==_refl p) in
      Ends-chain (iter_remove-IsList h p v xs ys is) λ l' g (isl, at, keeps). simp is'.tail (
        Ends-chain
          (iter_add-IsList g p fs [] at ne
            (subst (λ zs. has p zs ≡ false) (sym (append-nil fs)) not_there)
            (subst (IsList g m) (sym (append-nil fs))
              (IsList-frame h g m fs (λ a i. keeps.2 a (apart a i)) is')))
          λ m' g' (ism, keeps'). ends (
            IsList-frame g g' l' (xs ++ ys)
                (λ a i.
                  let here = has-append a xs ((p, v) ∷ ys) in
                  let here' = has-append a xs ys in
                  keeps'.2 a (ground (arith, has-append a fs ((p, v) ∷ []), apart a)))
                isl,
            ism,
            λ a i j.
                let here = has-append a xs ((p, v) ∷ ys) in
                keeps'.2 a (ground (arith, has-append a fs ((p, v) ∷ [])))
                ∙ keeps.2 a (ground arith),
          ))

-- `p->next = q` and `p->prev = q` are the guarded writes where `p` is an address.
pub set_next-link : (p q : Ptr) (h : Heap) → (p == null) ≡ false → set_next p q h ≡ link_next p q h
unfolding link_next
set_next-link p q h ne = rw ne

pub set_prev-link : (p q : Ptr) (h : Heap) → (p == null) ≡ false → set_prev p q h ≡ link_prev p q h
unfolding link_prev
set_prev-link p q h ne = rw ne

pub Distinct-append :
    (xs ys : Cells) → Distinct xs → Distinct ys → Apart xs ys → Distinct (xs ++ ys)
Distinct-append [] ys dx dy apart = dy
Distinct-append ((p, v) ∷ xs) ys dx dy apart = (
  dx.0,
  ground (arith, has-append p xs ys, apart p, ==_refl p),
  Distinct-append xs ys dx.2 dy λ a i. apart a (ground arith),
)

pub Apart-sym : (xs ys : Cells) → Apart xs ys → Apart ys xs
Apart-sym xs ys apart a i = ground (arith, apart a)

pub ne_zero : (n : ℕ) {k : ℕ} → n ≡ suc k → (n == 0) ≡ false
ne_zero n e = ground arith

-- What cc_list_appendList leaves: one list that holds both sequences, and an empty one.
abbrev pub Spliced : Heap → Cells → CcList × CcList → Heap → Type 0
Spliced h zs (l, m) g = IsList g l zs × IsList g m [] × SameOutside zs h g

append_list_cons :
    (h : Heap) (l m : CcList) (p v q w : Ptr) (xs ys : Cells)
    → IsList h l ((p, v) ∷ xs)
    → IsList h m ((q, w) ∷ ys)
    → Apart ((p, v) ∷ xs) ((q, w) ∷ ys)
    → Ends (Spliced h ((p, v) ∷ xs ++ (q, w) ∷ ys)) (append_list l m h)
unfolding append_list
append_list_cons h l m p v q w xs ys is is' apart =
    let nonempty = ne_zero l.size is.size in
    let nonempty' = ne_zero m.size is'.size in
    let d = Distinct-append ((p, v) ∷ xs) ((q, w) ∷ ys) is.distinct is'.distinct apart in
    simp
      (
        nonempty,
        nonempty',
        is.tail,
        is'.head,
        set_next-link (last p xs) q h (last-ne-null p v xs is.distinct),
      )
      (Ends-chain (link_next-Chain h ((p, v) ∷ xs) null q is.distinct is.chain) λ _ g (cx, same).
        simp (set_prev-link q (last p xs) g is'.distinct.0) (
          Ends-chain
            (link_prev-Chain g null ((q, w) ∷ ys) (last p xs) is'.distinct (
              Chain-frame h g null ((q, w) ∷ ys) null is'.chain
                λ a i. same a (Apart-sym ((p, v) ∷ xs) ((q, w) ∷ ys) apart a i)))
            λ _ g' (cy, same'). ends (
              record {
                chain =
                    Chain-append g' null ((p, v) ∷ xs) ((q, w) ∷ ys) null
                      (Chain-frame g g' null ((p, v) ∷ xs) q cx λ a i. same' a (apart a i)) cy;
                distinct = d;
                head = is.head;
                tail = is'.tail ∙ sym (last-append p xs ((q, w) ∷ ys));
                size = omega (arith, is.size, is'.size, length-append xs ((q, w) ∷ ys));
              },
              record { chain = tt; distinct = tt; head = refl; tail = refl; size = refl },
              λ a i.
                  let here = has-append a xs ((q, w) ∷ ys) in
                  same' a (ground arith) ∙ same a (ground arith),
            )))

-- On two lists without a common iterator, cc_list_appendList puts the iterators of the second list
-- behind those of the first, leaves the second list empty, and changes nothing else of the heap.
pub append_list-IsList :
    (h : Heap) (l m : CcList) (xs ys : Cells)
    → IsList h l xs
    → IsList h m ys
    → Apart xs ys
    → Ends (Spliced h (xs ++ ys)) (append_list l m h)
unfolding append_list
append_list-IsList h l m xs [] is is' apart =
    simp is'.size (ends (subst (IsList h l) (sym (append-nil xs)) is, is', λ a i. refl))
append_list-IsList h l m [] ((q, w) ∷ ys) is is' apart =
    simp (ne_zero m.size is'.size, is.size)
      (ends (
        record {
          chain = is'.chain;
          distinct = is'.distinct;
          head = is'.head;
          tail = is'.tail;
          size = is'.size;
        },
        record { chain = tt; distinct = tt; head = refl; tail = refl; size = refl },
        λ a i. refl,
      ))
append_list-IsList h l m ((p, v) ∷ xs) ((q, w) ∷ ys) is is' apart =
    append_list_cons h l m p v q w xs ys is is' apart
