-- ===== src/Map/Find.antt =====
-- cc_map_findp of cc_map.c against a search of all the nodes for the key.
use Prim.Native.Nat.{Ordering}
use libcc.Base.{
  ℕ, zero, suc, ◌+◌, ◌*◌, ◌/◌, ◌^◌, ◌≤◌, ◌<◌, ◌≡◌, ◌≢◌, refl, inl, inr, Bool, true, false,
  Bool-cases, List, [], ◌∷◌, arith, ◌==◌, if◌then◌else◌, ==_refl, sym, ◌∙◌, ap, Option, none, some,
  ltb, length,
}
use libcc.CcList.Store.{Ptr, null}
use libcc.Murmur.{Bytes, mumurhash3, mumurhash3-lt}
use libcc.Map.{Node, Entry, Map, idx, cmp_node, from}
use libcc.Map.Calls.{
  Key, bytes_at, pointer, bytes_of, key_bytes, find_loop, find_key, find_in, findp,
}
use libcc.Map.Order.{
  IsBytes, Less, Ordering-cases, cmp_node-same, cmp_node-apart, cmp_node-swap, Less-trans,
}
use libcc.Map.Sorted.{
  All, All-map, Sorted, Fits, Hashed, skip, Inv, from-skip, From, From-All, From-skip, Sorted-skip,
  All-skip,
}

abbrev pub same_bytes : Bytes → Bytes → Bool
same_bytes [] [] = true
same_bytes (x ∷ a) (y ∷ b) = if x == y then same_bytes a b else false
same_bytes _ _ = false

-- The iterator of the first node with this key, or null.
unfoldable pub lookup : Bytes → List Entry → Ptr
lookup key [] = null
lookup key (e ∷ es) = if same_bytes e.node.key key then e.iter else lookup key es

pub same_bytes_refl : (a : Bytes) → same_bytes a a ≡ true
same_bytes_refl [] = refl
same_bytes_refl (x ∷ a) = ground (arith, ==_refl x, same_bytes_refl a)

pub same_bytes→≡ : (a b : Bytes) → same_bytes a b ≡ true → a ≡ b
same_bytes→≡ [] [] e = refl
same_bytes→≡ [] (y ∷ b) e = absurd (ground arith)
same_bytes→≡ (x ∷ a) [] e = absurd (ground arith)
same_bytes→≡ (x ∷ a) (y ∷ b) e =
    let first : x ≡ y = ground arith in
    let more = same_bytes→≡ a b (ground arith) in cc (first, more)

pub not-same_bytes : (a b : Bytes) → a ≢ b → same_bytes a b ≡ false
not-same_bytes a b ne = elim (Bool-cases (same_bytes a b)) [
  | inl e ↦ absurd (ne (same_bytes→≡ a b e))
  | inr e ↦ e
]

-- No node has the key.
abbrev pub Absent : Bytes → List Entry → Type 0
Absent key = All (λ e. e.node.key ≢ key)

pub lookup-Absent : (key : Bytes) (es : List Entry) → Absent key es → lookup key es ≡ null
unfolding lookup
lookup-Absent key [] all = refl
lookup-Absent key (e ∷ es) all =
    rw (not-same_bytes e.node.key key all.0) (lookup-Absent key es all.1)

module _ (seed : ℕ) (q : Node) (bytes : IsBytes q.key) (hash : q.hash ≡ mumurhash3 seed q.key) where
  -- A node with the key has its hash, and compares equal.
  pub key_found :
      (e : Entry) → Hashed seed e → e.node.key ≡ q.key → cmp_node e.node q.hash q.key ≡ Ordering.eq
  key_found e h same =
      let same_hash : e.node.hash ≡ q.hash = h.1 ∙ ap (mumurhash3 seed) same ∙ sym hash in
      rw (← same_hash, ← same) (cmp_node-same e.node)

  pub key-ne :
      (e : Entry) (o : Ordering)
      → Hashed seed e
      → cmp_node e.node q.hash q.key ≡ o
      → o ≢ Ordering.eq
      → e.node.key ≢ q.key
  key-ne e o h c ne same = ne (sym c ∙ key_found e h same)

  -- Nodes of another index have another key.
  pub idx-key_ne :
      (elements : ℕ) (e : Entry)
      → Hashed seed e
      → idx elements e ≢ q.hash / elements
      → e.node.key ≢ q.key
  idx-key_ne elements e h ne same =
      ne (ap (λ n. n / elements) (h.1 ∙ ap (mumurhash3 seed) same ∙ sym hash))

  pub later_Absent :
      (e : Entry) (es : List Entry)
      → cmp_node e.node q.hash q.key ≡ Ordering.gt
      → All (λ f. Less e.node f.node) es
      → All (Hashed seed) es
      → Absent q.key es
  later_Absent e [] gt all hs = tt
  later_Absent e (f ∷ es) gt all hs =
      let less = Less-trans q e.node f.node ((cmp_node-swap e.node q).1 gt) all.0 in
      let after = (cmp_node-swap q f.node).0 less in
      (
        key-ne f Ordering.gt hs.0 after (λ e. absurd (ground arith)),
        later_Absent e es gt all.1 hs.1,
      )

  beyond_Absent :
      (elements : ℕ) (es : List Entry)
      → All (λ e. q.hash / elements < idx elements e) es
      → All (Hashed seed) es
      → Absent q.key es
  beyond_Absent elements [] all hs = tt
  beyond_Absent elements (e ∷ es) all hs =
      (idx-key_ne elements e hs.0 (omega arith), beyond_Absent elements es all.1 hs.1)

  find_loop-lookup :
      (elements : ℕ) (es : List Entry)
      → 0 < elements
      → Sorted es
      → All (Hashed seed) es
      → All (From elements (q.hash / elements)) es
      → find_loop elements (q.hash / elements) q.hash q.key es ≡ lookup q.key es
  unfolding find_loop lookup
  find_loop-lookup elements [] pos s hs le = refl
  find_loop-lookup elements (e ∷ es) pos s hs le =
      elim (Bool-cases (idx elements e == q.hash / elements)) [
        | inr other ↦
            let later : q.hash / elements + 1 ≤ idx elements e = ground (arith, le.0) in
            let beyond = From-All elements (q.hash / elements + 1) e es pos later s.0 in
            let gone =
              beyond_Absent elements (e ∷ es)
                (omega arith, All-map _ _ es (λ f h. omega (arith, h)) beyond) hs in
            rw other (sym (lookup-Absent q.key (e ∷ es) gone))
        | inl here ↦ rw here (elim (Ordering-cases (cmp_node e.node q.hash q.key)) [
          | inl less ↦
              let ne = key-ne e Ordering.lt hs.0 less (λ o. absurd (ground arith)) in
              rw (less, not-same_bytes e.node.key q.key ne)
                (find_loop-lookup elements es pos s.1 hs.1 le.1)
          | inr (inl same) ↦
              let key = cmp_node-apart e.node q.hash q.key hs.0.0.0 bytes same in
              let found : same_bytes e.node.key q.key ≡ true = rw key (same_bytes_refl q.key) in
              rw (same, found)
          | inr (inr more) ↦
              let ne = key-ne e Ordering.gt hs.0 more (λ o. absurd (ground arith)) in
              rw (more, not-same_bytes e.node.key q.key ne)
                (sym (lookup-Absent q.key es (later_Absent e es more s.0 hs.1)))
        ])
      ]

  pub lookup-skip :
      (elements : ℕ) (es : List Entry)
      → All (Hashed seed) es
      → lookup q.key (skip elements (q.hash / elements) es) ≡ lookup q.key es
  unfolding lookup skip
  lookup-skip elements [] hs = refl
  lookup-skip elements (e ∷ es) hs = elim (Bool-cases (idx elements e == q.hash / elements)) [
    | inl here ↦ rw here
    | inr other ↦
        let ne = idx-key_ne elements e hs.0 (λ same. absurd (ground arith)) in
        rw (other, not-same_bytes e.node.key q.key ne) (lookup-skip elements es hs.1)
  ]

pub elements-pos : (m : Map) → Inv m → 0 < m.elements
elements-pos m inv = ground (arith, inv.hashes)

div-lt : (a b c : ℕ) → 0 < c → a < b * c → a / c < b
div-lt a b c pos lt = grind arith

-- An index is that of a bucket.
pub idx-lt : (m : Map) (hash : ℕ) → Inv m → hash < 2 ^ 32 → hash / m.elements < m.capacity
idx-lt m hash inv lt =
    div-lt hash m.capacity m.elements (elements-pos m inv) (omega (arith, inv.hashes))

pub bucket-from :
    (m : Map) (i : ℕ)
    → Inv m
    → i < m.capacity
    → from (m.buckets i) m.nodes ≡ skip m.elements i m.nodes
bucket-from m i inv lt = rw (inv.buckets i lt) (from-skip m.elements i m.nodes inv.distinct)

find_key-lookup :
    (m : Map) (key : Bytes) → Inv m → IsBytes key → find_key m key ≡ lookup key m.nodes
unfolding find_key
find_key-lookup m key inv bytes =
    let q : Node = record { val = null; hash = mumurhash3 m.seed key; key = key } in
    let i = q.hash / m.elements in
    let pos = elements-pos m inv in
    rw (bucket-from m i inv (idx-lt m q.hash inv (mumurhash3-lt m.seed key))) (
      find_loop-lookup m.seed q bytes refl m.elements (skip m.elements i m.nodes) pos
        (Sorted-skip m.elements i m.nodes inv.sorted) (All-skip _ m.elements i m.nodes inv.hashed)
        (From-skip m.elements i m.nodes pos inv.sorted)
      ∙ lookup-skip m.seed q bytes refl m.elements m.nodes inv.hashed)

-- The bytes of a key are bytes.
abbrev pub IsKey : Key → Type 0
IsKey (bytes_at bytes) = IsBytes bytes
IsKey (pointer p) = Unit {0}

abbrev pub AreBytes : Option Bytes → Type 0
AreBytes none = Unit {0}
AreBytes (some key) = Fits key

bytes_of-IsBytes : (n p : ℕ) → IsBytes (bytes_of n p)
unfolding bytes_of
bytes_of-IsBytes zero p = tt
bytes_of-IsBytes (suc n) p = (omega arith, bytes_of-IsBytes n (p / 256))

length-bytes_of : (n p : ℕ) → length (bytes_of n p) ≡ n
unfolding bytes_of
length-bytes_of zero p = refl
length-bytes_of (suc n) p = omega (arith, length-bytes_of n (p / 256))

pub key_bytes-AreBytes : (k : Key) → IsKey k → AreBytes (key_bytes k)
unfolding key_bytes
key_bytes-AreBytes (bytes_at bytes) ok = elim (Bool-cases (ltb 256 (length bytes))) [
  | inl long ↦ rw long tt
  | inr fits ↦ rw fits (ok, ground arith)
]
key_bytes-AreBytes (pointer p) ok = (bytes_of-IsBytes 8 p, omega (arith, length-bytes_of 8 p))

-- The iterator of the first of all nodes with the key; null for a key that is too long.
abbrev pub search : Option Bytes → List Entry → Ptr
search none nodes = null
search (some key) nodes = lookup key nodes

pub find_in-search :
    (m : Map) (o : Option Bytes) → Inv m → AreBytes o → find_in m o ≡ search o m.nodes
unfolding find_in
find_in-search m none inv ok = refl
find_in-search m (some key) inv ok = find_key-lookup m key inv ok.0

-- On a map with the invariant cc_map_findp, which looks at one bucket and stops early, returns the
-- iterator that a search of all the nodes for the key returns: that of the first node with the key,
-- or null where there is none or the key is too long.
pub findp-search : (m : Map) (k : Key) → Inv m → IsKey k → findp m k ≡ search (key_bytes k) m.nodes
unfolding findp
findp-search m k inv ok = find_in-search m (key_bytes k) inv (key_bytes-AreBytes k ok)
