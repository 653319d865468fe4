-- ===== src/CcList/Chain.antt =====
-- What a list of cc_list.c stands for: the addresses and the data of its iterators, in order, and
-- how the `next` and `prev` fields link them.
use mathlib.Core.Bool.{or_assoc}
use libcc.Base.{
  ◌≡◌, refl, Bool, true, false, ◌||◌, Option, some, List, [], ◌∷◌, ◌++◌, arith, ◌==◌, ◌∙◌,
}
use libcc.CcList.Store.{
  Ptr, null, iter, Heap, link_next, link_prev, link_next-some, link_prev-some, update_self,
  update_ne, Ends, ends, Ends-mono,
}

abbrev pub Cells : Type 0
Cells = List (Ptr × Ptr)

abbrev pub has : Ptr → Cells → Bool
has p [] = false
has p ((q, v) ∷ cells) = (p == q) || has p cells

-- The first address of the cells, and the last one; `d` where there is none.
abbrev pub first : Cells → Ptr → Ptr
first [] d = d
first ((p, _) ∷ xs) d = p

abbrev pub last : Ptr → Cells → Ptr
last d [] = d
last d ((p, _) ∷ xs) = last p xs

-- No address is null, and none stands twice.
abbrev pub Distinct : Cells → Type 0
Distinct [] = Unit {0}
Distinct ((p, _) ∷ xs) = ((p == null) ≡ false) × (has p xs ≡ false) × Distinct xs

-- Each cell points at its neighbours: `before` stands in front of the cells, `after` behind them.
abbrev pub Chain : Heap → Ptr → Cells → Ptr → Type 0
Chain h before [] after = Unit {0}
Chain h before ((p, v) ∷ xs) after =
    (h p ≡ some (iter (first xs after) before v)) × Chain h p xs after

-- Outside the cells the second heap is as the first.
abbrev pub SameOutside : Cells → Heap → Heap → Type 0
SameOutside cells h g = (a : Ptr) → has a cells ≡ false → g a ≡ h a

pub has-append :
    (p : Ptr) (front back : Cells) → has p (front ++ back) ≡ (has p front || has p back)
has-append p [] back = refl
has-append p ((q, v) ∷ front) back = rw (has-append p front back, or_assoc)

pub first-append : (xs ys : Cells) (d : Ptr) → first (xs ++ ys) d ≡ first xs (first ys d)
first-append [] ys d = refl
first-append (x ∷ xs) ys d = refl

pub last-append : (d : Ptr) (xs ys : Cells) → last d (xs ++ ys) ≡ last (last d xs) ys
last-append d [] ys = refl
last-append d ((p, v) ∷ xs) ys = last-append p xs ys

-- A chain survives a change that spares its addresses.
pub Chain-frame :
    (h g : Heap) (before : Ptr) (xs : Cells) (after : Ptr)
    → Chain h before xs after
    → ((a : Ptr) → has a xs ≡ true → g a ≡ h a)
    → Chain g before xs after
Chain-frame h g before [] after c same = tt
Chain-frame h g before ((p, v) ∷ xs) after c same =
    (same p (ground arith) ∙ c.0, Chain-frame h g p xs after c.1 λ a i. same a (ground arith))

pub Chain-append :
    (h : Heap) (before : Ptr) (xs ys : Cells) (after : Ptr)
    → Chain h before xs (first ys after)
    → Chain h (last before xs) ys after
    → Chain h before (xs ++ ys) after
Chain-append h before [] ys after c d = d
Chain-append h before ((p, v) ∷ xs) ys after c d =
    (rw (first-append xs ys after) c.0, Chain-append h p xs ys after c.1 d)

pub Chain-split :
    (h : Heap) (before : Ptr) (xs ys : Cells) (after : Ptr)
    → Chain h before (xs ++ ys) after
    → Chain h before xs (first ys after) × Chain h (last before xs) ys after
Chain-split h before [] ys after c = (tt, c)
Chain-split h before ((p, v) ∷ xs) ys after c =
    let rest = Chain-split h p xs ys after c.1 in
    ((rw (first-append xs ys after) at c.0, rest.0), rest.1)

-- The run changes nothing but the cells `xs`, and gives the heap the property `P`.
abbrev pub Relinks : Heap → Cells → (Heap → Type 0) → Option (Unit {0} × Heap) → Type 0
Relinks h xs P = Ends (λ _ g. P g × SameOutside xs h g)

-- `last->next = q` on a chain that is not empty.
link_next_cons :
    (h : Heap) (before p v : Ptr) (xs : Cells) (after q : Ptr)
    → Distinct ((p, v) ∷ xs)
    → Chain h before ((p, v) ∷ xs) after
    → Relinks h ((p, v) ∷ xs) (λ g. Chain g before ((p, v) ∷ xs) q) (link_next (last p xs) q h)
link_next_cons h before p v [] after q d c =
    rw (link_next-some h p c.0 q d.0)
      (ends ((update_self h p _, tt), λ a out. update_ne h p a _ (ground arith)))
link_next_cons h before p v ((p', v') ∷ xs) after q d c =
    Ends-mono (link_next_cons h p p' v' xs after q d.2 c.1)
      λ _ g (c', same). ((same p d.1 ∙ c.0, c'), λ a i. same a (ground arith))

-- `if(last) last->next = q` on a chain that nothing stands in front of.
pub link_next-Chain :
    (h : Heap) (xs : Cells) (after q : Ptr)
    → Distinct xs
    → Chain h null xs after
    → Relinks h xs (λ g. Chain g null xs q) (link_next (last null xs) q h)
unfolding link_next
link_next-Chain h [] after q d c = ends (tt, λ a out. refl)
link_next-Chain h ((p, v) ∷ xs) after q d c = link_next_cons h null p v xs after q d c

-- `if(first) first->prev = q` on a chain that nothing stands behind.
pub link_prev-Chain :
    (h : Heap) (before : Ptr) (xs : Cells) (q : Ptr)
    → Distinct xs
    → Chain h before xs null
    → Relinks h xs (λ g. Chain g q xs null) (link_prev (first xs null) q h)
unfolding link_prev
link_prev-Chain h before [] q d c = ends (tt, λ a out. refl)
link_prev-Chain h before ((p, v) ∷ xs) q d c = rw (link_prev-some h p c.0 q d.0) (
    ends (
      (update_self h p _, Chain-frame h _ p xs null c.1 λ a i. update_ne h p a _ (ground arith)),
      λ a out. update_ne h p a _ (ground arith),
    ))

pub Distinct-split :
    (xs ys : Cells)
    → Distinct (xs ++ ys)
    → Distinct xs × Distinct ys × ((a : Ptr) → has a ys ≡ true → has a xs ≡ false)
Distinct-split [] ys d = (tt, d, λ a i. refl)
Distinct-split ((p, v) ∷ xs) ys d =
    let (dx, dy, apart) = Distinct-split xs ys d.2 in
    let out = has-append p xs ys in ((d.0, ground arith, dx), dy, λ a i. ground (arith, apart a i))

pub Distinct-insert :
    (p v : Ptr) (xs ys : Cells)
    → (p == null) ≡ false
    → has p (xs ++ ys) ≡ false
    → Distinct (xs ++ ys)
    → Distinct (xs ++ (p, v) ∷ ys)
Distinct-insert p v [] ys ne out d = (ne, out, d)
Distinct-insert p v ((q, w) ∷ xs) ys ne out d = (
  d.0,
  ground (arith, has-append q xs ys, has-append q xs ((p, v) ∷ ys)),
  Distinct-insert p v xs ys ne (ground arith) d.2,
)

pub Distinct-erase :
    (p v : Ptr) (xs ys : Cells)
    → Distinct (xs ++ (p, v) ∷ ys)
    → ((p == null) ≡ false) × (has p (xs ++ ys) ≡ false) × Distinct (xs ++ ys)
Distinct-erase p v [] ys d = d
Distinct-erase p v ((q, w) ∷ xs) ys d =
    let (ne, out, d') = Distinct-erase p v xs ys d.2 in
    let split = has-append q xs ((p, v) ∷ ys) in
    let join = has-append q xs ys in (ne, ground arith, (d.0, ground arith, d'))

-- The last cell of a chain has an address.
pub last-ne-null : (p v : Ptr) (xs : Cells) → Distinct ((p, v) ∷ xs) → (last p xs == null) ≡ false
last-ne-null p v [] d = d.0
last-ne-null p v ((q, w) ∷ xs) d = last-ne-null q w xs d.2
