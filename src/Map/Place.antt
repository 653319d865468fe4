-- ===== src/Map/Place.antt =====
-- Where cc_map_addp of cc_map.c puts a new node: in front of the first node that is above it.
use Prim.Native.Nat.{Ordering}
use libcc.Base.{
  ℕ, zero, suc, ◌+◌, ◌/◌, ◌≤◌, ◌<◌, ◌≡◌, refl, ◌⊎◌, inl, inr, true, false, Bool-cases, List, [],
  ◌∷◌, arith, ◌==◌, if◌then◌else◌, ltb, sym, ap,
}
use libcc.CcList.Store.{null}
use libcc.Murmur.{mumurhash3, mumurhash3-lt}
use libcc.Map.{Node, Entry, Map, idx, cmp_node, head}
use libcc.Map.Calls.{taken, before, place_loop, next_bucket}
use libcc.Map.Order.{IsBytes, Ordering-cases, cmp_node-apart, cmp_node-swap, hash-Less}
use libcc.Map.Sorted.{All, All-map, Sorted, Distinct, Hashed, skip, Inv, From, From-All}
use libcc.Map.Find.{
  lookup, same_bytes_refl, not-same_bytes, key-ne, lookup-Absent, later_Absent, elements-pos,
  idx-lt, same_bytes,
}
use libcc.Map.Grow.{later-none}

-- The nodes from the first one on that is not in front of this one.
unfoldable pub above : Node → List Entry → List Entry
above q [] = []
above q (e ∷ es) = elim (cmp_node e.node q.hash q.key) [
  | Ordering.lt ↦ above q es
  | Ordering.eq ↦ e ∷ es
  | Ordering.gt ↦ e ∷ es
]

-- The nodes from the first one on whose index is not below this one.
unfoldable pub upto : (elements i : ℕ) → List Entry → List Entry
upto elements i [] = []
upto elements i (e ∷ es) = if ltb (idx elements e) i then upto elements i es else e ∷ es

-- A node with a larger index than a node's is above it.
idx-gt :
    (elements : ℕ) (q : Node) (e : Entry)
    → 0 < elements
    → q.hash / elements < idx elements e
    → cmp_node e.node q.hash q.key ≡ Ordering.gt
idx-gt elements q e pos lt =
    let less : q.hash < e.node.hash = grind arith in
    (cmp_node-swap q e.node).0 (hash-Less q e.node less)

pub above-beyond :
    (elements : ℕ) (q : Node) (es : List Entry)
    → 0 < elements
    → All (From elements (q.hash / elements + 1)) es
    → above q es ≡ es
unfolding above
above-beyond elements q [] pos all = refl
above-beyond elements q (e ∷ es) pos all =
    rw (above, idx-gt elements q e pos (omega (arith, all.0)))

pub above-upto :
    (elements : ℕ) (q : Node) (es : List Entry)
    → above q (upto elements (q.hash / elements) es) ≡ above q es
unfolding above upto
above-upto elements q [] = refl
above-upto elements q (e ∷ es) = elim (Bool-cases (ltb (idx elements e) (q.hash / elements))) [
  | inl lower ↦
      let less : e.node.hash < q.hash = smaller e.node.hash q.hash elements (ground arith) in
      rw (lower, above, hash-Less e.node q less) (above-upto elements q es)
  | inr not_lower ↦ rw not_lower
]
  where
    smaller : (a b c : ℕ) → a / c < b / c → a < b
    smaller a b c lt = ground (arith, mono a b c)
      where
        mono : (a b c : ℕ) → b ≤ a → b / c ≤ a / c
        mono a b zero le = omega arith
        mono a b (suc c) le = grind arith

-- A bucket in use begins where the nodes of its index or a larger one begin, and for an empty one
-- those are the nodes of a larger index.
pub upto-skip :
    (elements i : ℕ) (es : List Entry)
    → 0 < elements
    → Sorted es
    → Distinct es
    → ((skip elements i es ≡ upto elements i es) × ((head (upto elements i es) == null) ≡ false))
      ⊎ ((skip elements i es ≡ []) × (upto elements i es ≡ upto elements (i + 1) es))
unfolding skip upto
upto-skip elements i [] pos s d = inr (refl, refl)
upto-skip elements i (e ∷ es) pos s d = elim (Bool-cases (idx elements e == i)) [
  | inl here ↦
      let not_lower : ltb (idx elements e) i ≡ false = ground arith in
      rw (here, not_lower) (inl (refl, d.0))
  | inr other ↦ rw other (elim (Bool-cases (ltb (idx elements e) i)) [
    | inl lower ↦
        let lower' : ltb (idx elements e) (i + 1) ≡ true = ground arith in
        rw (lower, lower') (upto-skip elements i es pos s.1 d.2)
    | inr not_lower ↦
        let lt : i < idx elements e = ground arith in
        let beyond : ltb (idx elements e) (i + 1) ≡ false = ground arith in
        rw (not_lower, beyond) (inr (later-none elements i e es pos lt s.0, refl))
  ])
]

pub From-upto :
    (elements i : ℕ) (es : List Entry)
    → 0 < elements
    → Sorted es
    → All (From elements i) (upto elements i es)
unfolding upto
From-upto elements i [] pos s = tt
From-upto elements i (e ∷ es) pos s = elim (Bool-cases (ltb (idx elements e) i)) [
  | inl lower ↦ rw lower (From-upto elements i es pos s.1)
  | inr not_lower ↦
      let le : i ≤ idx elements e = ground arith in
      rw not_lower (le, From-All elements i e es pos le s.0)
]

upto-none :
    (elements i : ℕ) (es : List Entry) → All (λ e. idx elements e < i) es → upto elements i es ≡ []
unfolding upto
upto-none elements i [] all = refl
upto-none elements i (e ∷ es) all = ground (arith, all.0, upto-none elements i es all.1)

-- The first bucket in use from an index on.
pub next_bucket-upto :
    (m : Map) (n i : ℕ)
    → Inv m
    → i + n ≡ m.capacity
    → next_bucket n m.buckets i ≡ head (upto m.elements i m.nodes)
unfolding next_bucket
next_bucket-upto m zero i inv total =
    let within : All (λ e. idx m.elements e < i) m.nodes =
      All-map (Hashed m.seed) _ m.nodes
        (λ e h.
          let lt = idx-lt m (mumurhash3 m.seed e.node.key) inv (mumurhash3-lt m.seed e.node.key) in
          let same = ap (λ n. n / m.elements) h.1 in omega arith)
        inv.hashed in
    sym (ap head (upto-none m.elements i m.nodes within))
next_bucket-upto m (suc n) i inv total =
    let rest = next_bucket-upto m n (i + 1) inv (omega arith) in
    let bucket = inv.buckets i (omega arith) in
    elim (upto-skip m.elements i m.nodes (elements-pos m inv) inv.sorted inv.distinct) [
      | inl (used, ne) ↦ ground (arith, ap head used)
      | inr (empty, later) ↦ ground (arith, ap head empty, ap head later)
    ]

-- The loop over the nodes of a bucket in use.
pub place_loop-above :
    (seed elements : ℕ) (q : Node) (es : List Entry)
    → 0 < elements
    → IsBytes q.key
    → q.hash ≡ mumurhash3 seed q.key
    → Sorted es
    → Distinct es
    → All (Hashed seed) es
    → All (From elements (q.hash / elements)) es
    → place_loop elements (q.hash / elements) q.hash q.key es
      ≡ (if lookup q.key es == null then before (head (above q es)) else taken)
unfolding place_loop lookup above
place_loop-above seed elements q [] pos bytes hash s d hs le = refl
place_loop-above seed elements q (e ∷ es) pos bytes hash s d hs le =
    let absent : (o : cmp_node e.node q.hash q.key ≡ Ordering.gt) → lookup q.key (e ∷ es) ≡ null =
      λ o. lookup-Absent q.key (e ∷ es) (
        key-ne seed q bytes hash e Ordering.gt hs.0 o (λ o. absurd (ground arith)),
        later_Absent seed q bytes hash e es o s.0 hs.1,
      ) in
    elim (Bool-cases (idx elements e == q.hash / elements)) [
      | inr other ↦
          let later : q.hash / elements < idx elements e = ground (arith, le.0) in
          let gt = idx-gt elements q e pos later in
          let gone : (if same_bytes e.node.key q.key then e.iter else lookup q.key es) ≡ null =
            absent gt in
          rw (above, other, gone, gt)
      | inl here ↦ rw here (elim (Ordering-cases (cmp_node e.node q.hash q.key)) [
        | inl less ↦
            let ne =
              key-ne seed q bytes hash e Ordering.lt hs.0 less (λ o. absurd (ground arith)) in
            rw (above, less, not-same_bytes e.node.key q.key ne)
              (place_loop-above seed elements q es pos bytes hash s.1 d.2 hs.1 le.1)
        | inr (inl same) ↦
            let key = cmp_node-apart e.node q.hash q.key hs.0.0.0 bytes same in
            let found : same_bytes e.node.key q.key ≡ true = rw key (same_bytes_refl q.key) in
            rw (same, found, d.0)
        | inr (inr more) ↦
            let gone : (if same_bytes e.node.key q.key then e.iter else lookup q.key es) ≡ null =
              absent more in
            rw (above, gone, more)
      ])
    ]
