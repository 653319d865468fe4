-- ===== src/Map/Grow.antt =====
-- cc_map_grow of cc_map.c.
use native.Mathlib.Nat.{div-div-eq-div-mul, div-eq_of_eq-mul_right}
use libcc.Base.{
  ℕ, zero, suc, ◌+◌, ◌*◌, ◌/◌, ◌^◌, ◌≤◌, ◌<◌, ◌≡◌, refl, inl, inr, Bool, false, Bool-cases, List,
  [], ◌∷◌, arith, ◌==◌, ltb, leb, length, sym, ◌∙◌, ap,
}
use libcc.CcList.Store.{Ptr}
use libcc.Map.{
  Entry, Map, idx, from, head, bucket_head, odd_bucket, split_bucket, split_buckets, grow,
}
use libcc.Map.Order.{Less}
use libcc.Map.Sorted.{
  All, All-map, Sorted, skip, Inv, from-skip, From, From-All, From-skip, Sorted-skip, Distinct,
}
use libcc.Map.Find.{elements-pos}

div_twice : (a c : ℕ) → a / (2 * c) ≡ a / c / 2
div_twice a c =
    let swap : c * 2 ≡ 2 * c = omega arith in rw swap at (sym (div-div-eq-div-mul a c 2))

-- No node from here on has the index.
skip-none :
    (elements i : ℕ) (es : List Entry) → All (λ e. i < idx elements e) es → skip elements i es ≡ []
unfolding skip
skip-none elements i [] all = refl
skip-none elements i (e ∷ es) all = ground (arith, all.0, skip-none elements i es all.1)

pub later-none :
    (elements i : ℕ) (e : Entry) (es : List Entry)
    → 0 < elements
    → i < idx elements e
    → All (λ f. Less e.node f.node) es
    → skip elements i es ≡ []
later-none elements i e es pos lt less = skip-none elements i es (
    All-map _ _ es (λ f le. omega (arith, le))
      (From-All elements (i + 1) e es pos (omega arith) less))

pub bucket_head-skip :
    (elements i : ℕ) (es : List Entry)
    → 0 < elements
    → Sorted es
    → All (From elements i) es
    → bucket_head elements i es ≡ head (skip elements i es)
unfolding bucket_head skip
bucket_head-skip elements i [] pos s le = refl
bucket_head-skip elements i (e ∷ es) pos s le = elim (Bool-cases (idx elements e == i)) [
  | inl here ↦ rw here
  | inr other ↦
      let beyond : i < idx elements e = ground (arith, le.0) in
      rw (other, later-none elements i e es pos beyond s.0)
]

odd_bucket-skip :
    (elements j : ℕ) (es : List Entry)
    → 0 < elements
    → Sorted es
    → odd_bucket elements j es ≡ head (skip elements j es)
unfolding odd_bucket skip
odd_bucket-skip elements j [] pos s = refl
odd_bucket-skip elements j (e ∷ es) pos s = elim (Bool-cases (idx elements e == j)) [
  | inl here ↦ rw here
  | inr other ↦ rw other (elim (Bool-cases (ltb j (idx elements e))) [
    | inl beyond ↦ rw (beyond, later-none elements j e es pos (ground arith) s.0)
    | inr before ↦ rw before (odd_bucket-skip elements j es pos s.1)
  ])
]

-- The nodes of an index are among those of half the index, with half as many buckets.
skip-skip :
    (half j : ℕ) (es : List Entry)
    → 0 < half
    → skip half j (skip (2 * half) (j / 2) es) ≡ skip half j es
unfolding skip
skip-skip half j [] pos = refl
skip-skip half j (e ∷ es) pos = elim (Bool-cases (idx (2 * half) e == j / 2)) [
  | inl here ↦ rw here
  | inr other ↦
      let ne : (idx half e == j) ≡ false = ground (arith, div_twice e.node.hash half) in
      rw (other, ne) (skip-skip half j es pos)
]

module _ (half : ℕ) (nodes : List Entry) (pos : 0 < half) (s : Sorted nodes)
    (d : Distinct nodes) where
  From-half : (k : ℕ) → All (From half (2 * k)) (skip (2 * half) k nodes)
  From-half k =
      All-map (From (2 * half) k) (From half (2 * k)) (skip (2 * half) k nodes)
        (λ e le. omega (arith, le, div_twice e.node.hash half))
        (From-skip (2 * half) k nodes (omega arith) s)

  split_bucket-even :
      (k : ℕ) → bucket_head half (2 * k) (skip (2 * half) k nodes) ≡ head (skip half (2 * k) nodes)
  split_bucket-even k =
      let halved : 2 * k / 2 ≡ k = omega arith in
      bucket_head-skip half (2 * k) _ pos (Sorted-skip (2 * half) k nodes s) (From-half k)
      ∙ rw halved at (ap head (skip-skip half (2 * k) nodes pos))

  split_bucket-odd :
      (k : ℕ)
      → odd_bucket half (2 * k + 1) (skip (2 * half) k nodes) ≡ head (skip half (2 * k + 1) nodes)
  split_bucket-odd k =
      let halved : (2 * k + 1) / 2 ≡ k = omega arith in
      odd_bucket-skip half (2 * k + 1) _ pos (Sorted-skip (2 * half) k nodes s)
      ∙ rw halved at (ap head (skip-skip half (2 * k + 1) nodes pos))

  -- The loop from the last of the first `k` old buckets to the first: those are old, and those from
  -- 2 * k on are new.
  split_buckets-skip :
      (k n : ℕ) (buckets : ℕ → Ptr)
      → k ≤ n
      → ((i : ℕ) → i < k → buckets i ≡ head (skip (2 * half) i nodes))
      → ((i : ℕ) → 2 * k ≤ i → i < 2 * n → buckets i ≡ head (skip half i nodes))
      → (i : ℕ) → i < 2 * n
      → split_buckets half nodes k buckets i ≡ head (skip half i nodes)
  unfolding split_buckets split_bucket
  split_buckets-skip zero n buckets le old new i lt = new i (omega arith) lt
  split_buckets-skip (suc k) n buckets le old new i lt =
      let same : from (buckets k) nodes ≡ skip (2 * half) k nodes =
        rw (old k (omega arith)) (from-skip (2 * half) k nodes d) in
      rw same (
        split_buckets-skip k n _ (omega arith) (λ i lt. ground (arith, old i (omega arith)))
          (λ i le lt. ground (arith, new i, split_bucket-even k, split_bucket-odd k)) i lt)

few_elements : (a b : ℕ) → a * b ≡ 2 ^ 32 → a ≤ 2 ^ 30 → 1 < b
few_elements a zero e le = absurd (omega arith)
few_elements a (suc zero) e le = absurd (omega arith)
few_elements a (suc (suc b)) e le = omega arith

doubled : (a b c : ℕ) → a * b ≡ 2 ^ 32 → b ≡ 2 * c → 2 ^ 32 ≡ 2 * a * c
doubled a b c e twice =
    let swapped : a * (2 * c) ≡ 2 * a * c = grind arith in sym e ∙ ap (λ b. a * b) twice ∙ swapped

-- The number of elements of a bucket can be halved.
halved : (m : Map) → Inv m → (half : ℕ) × (s : ℕ) × (m.elements ≡ 2 * half) × (half ≡ 2 ^ s)
halved m inv = halved_power inv.shift m.elements inv.elements (large m inv)
  where
    large : (m : Map) → Inv m → 1 < m.elements
    large m inv = few_elements m.capacity m.elements inv.hashes inv.small

    halved_power :
        (shift elements : ℕ)
        → elements ≡ 2 ^ shift
        → 1 < elements
        → (half : ℕ) × (s : ℕ) × (elements ≡ 2 * half) × (half ≡ 2 ^ s)
    halved_power zero elements e lt = absurd (omega arith)
    halved_power (suc s) elements e lt = (2 ^ s, s, omega arith, refl)

-- The map with twice as many buckets.
abbrev pub regrown : Map → Map
regrown m =
    let elements = 2 ^ 32 / (2 * m.capacity) in
    record m {
      capacity = 2 * m.capacity;
      elements = elements;
      buckets = split_buckets elements m.nodes m.capacity m.buckets;
    }

regrown-Inv : (m : Map) → Inv m → 2 * m.capacity ≤ 2 ^ 30 → Inv (regrown m)
regrown-Inv m inv small =
    let (half, s, twice, power) = halved m inv in
    let pos : 0 < half = omega (arith, elements-pos m inv) in
    let wide : 0 < m.capacity = ground (arith, inv.hashes) in
    let product : 2 ^ 32 ≡ 2 * m.capacity * half =
      doubled m.capacity m.elements half inv.hashes twice in
    let fewer : 2 ^ 32 / (2 * m.capacity) ≡ half = div-eq_of_eq-mul_right (omega arith) product in
    rw fewer (record {
      shift = s;
      elements = power;
      hashes = sym product;
      wide = omega (arith, inv.wide);
      small = small;
      sorted = inv.sorted;
      distinct = inv.distinct;
      hashed = inv.hashed;
      buckets =
          split_buckets-skip half m.nodes pos inv.sorted inv.distinct m.capacity m.capacity
            m.buckets (omega arith)
            (λ i lt. inv.buckets i lt ∙ ap (λ e. head (skip e i m.nodes)) twice)
            (λ i le lt. absurd (omega arith));
      sizes = inv.sizes;
    })

-- Where a map with the invariant has at most 2^29 nodes, cc_map_grow keeps the invariant and the
-- nodes, whether the larger array can be had or not.
pub grow-Inv :
    (realloc_ok : Bool) (m : Map)
    → Inv m
    → length m.nodes ≤ 2 ^ 29
    → Inv (grow realloc_ok m)
      × ((grow realloc_ok m).nodes ≡ m.nodes)
      × ((grow realloc_ok m).seed ≡ m.seed)
unfolding grow
grow-Inv realloc_ok m inv few = elim (Bool-cases (leb (length m.nodes) m.capacity)) [
  | inl room ↦ rw room (inv, refl, refl)
  | inr full ↦ rw full (elim (Bool-cases realloc_ok) [
    | inl got ↦ rw got (regrown-Inv m inv (ground arith), refl, refl)
    | inr denied ↦ rw denied (inv, refl, refl)
  ])
]
