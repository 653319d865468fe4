-- ===== src/Map/Add.antt =====
-- cc_map_addp of cc_map.c: what it does to the nodes, and what later calls find.
use libcc.Base.{
  ℕ, ◌+◌, ◌-◌, ◌/◌, ◌%◌, ◌^◌, ◌≤◌, ◌<◌, ◌≡◌, refl, inl, inr, Bool, true, false, Bool-cases, List,
  [], ◌∷◌, arith, ◌==◌, if◌then◌else◌, length, sym, ◌∙◌, ap, subst, Option, none, some, ==_refl,
}
use libcc.CcList.Store.{Ptr, null}
use libcc.CcList.Pool.{sub_size}
use libcc.Murmur.{Bytes, mumurhash3, mumurhash3-lt}
use libcc.Map.{Node, Entry, Map, node_size, idx, head, Answers, add_at, add_size}
use libcc.Map.Calls.{taken, before, place, add_place, add_key, add_in}
use libcc.Map.Order.{IsBytes}
use libcc.Map.Sorted.{Distinct, skip, bytes_of_nodes, Inv, From-skip, Sorted-skip, All-skip}
use libcc.Map.Find.{
  lookup, same_bytes, same_bytes_refl, Absent, lookup-Absent, lookup-skip, elements-pos, idx-lt,
  bucket-from, AreBytes,
}
use libcc.Map.Place.{
  above, above-upto, above-beyond, upto, upto-skip, next_bucket-upto, place_loop-above, From-upto,
}
use libcc.Map.Insert.{ordered_insert}

Distinct-skip : (elements i : ℕ) (es : List Entry) → Distinct es → Distinct (skip elements i es)
unfolding skip
Distinct-skip elements i [] d = d
Distinct-skip elements i (e ∷ es) d = elim (Bool-cases (idx elements e == i)) [
  | inl here ↦ rw here d
  | inr other ↦ rw other (Distinct-skip elements i es d.2)
]

-- The place that is found for a key.
pub place-above :
    (m : Map) (q : Node)
    → Inv m
    → IsBytes q.key
    → q.hash ≡ mumurhash3 m.seed q.key
    → place m (q.hash / m.elements) q.hash q.key
      ≡ (if lookup q.key m.nodes == null then before (head (above q m.nodes)) else taken)
unfolding place
place-above m q inv bytes hash =
    let i = q.hash / m.elements in
    let pos = elements-pos m inv in
    let lt : i < m.capacity =
      idx-lt m q.hash inv (subst (λ h. h < 2 ^ 32) (sym hash) (mumurhash3-lt m.seed q.key)) in
    let same = lookup-skip m.seed q bytes hash m.elements m.nodes inv.hashed in
    elim (upto-skip m.elements i m.nodes pos inv.sorted inv.distinct) [
      | inl (used, ne) ↦
          let in_use : (m.buckets i == null) ≡ false =
            ap (λ p. p == null) (inv.buckets i lt ∙ ap head used) ∙ ne in
          let nodes_above : above q (skip m.elements i m.nodes) ≡ above q m.nodes =
            ap (above q) used ∙ above-upto m.elements q m.nodes in
          rw (in_use, bucket-from m i inv lt)
            (rw (same, nodes_above) at
              (place_loop-above m.seed m.elements q (skip m.elements i m.nodes) pos bytes hash
                (Sorted-skip m.elements i m.nodes inv.sorted)
                (Distinct-skip m.elements i m.nodes inv.distinct)
                (All-skip _ m.elements i m.nodes inv.hashed)
                (From-skip m.elements i m.nodes pos inv.sorted)))
      | inr (empty, later) ↦
          let unused : (m.buckets i == null) ≡ true =
            ap (λ p. p == null) (inv.buckets i lt ∙ ap head empty) ∙ ==_refl null in
          let absent : lookup q.key m.nodes ≡ null =
            sym same ∙ ap (lookup q.key) empty ∙ lookup-Absent q.key [] tt in
          let next = next_bucket-upto m (m.capacity - (i + 1)) (i + 1) inv (omega arith) in
          let beyond =
            above-beyond m.elements q (upto m.elements (i + 1) m.nodes) pos
              (From-upto m.elements (i + 1) m.nodes pos inv.sorted) in
          let nodes_above : upto m.elements (i + 1) m.nodes ≡ above q m.nodes =
            sym beyond ∙ ap (above q) (sym later) ∙ above-upto m.elements q m.nodes in
          rw (unused, absent) (ap before (next ∙ ap head nodes_above))
    ]

-- A search that returns null has seen all the nodes.
pub null-Absent :
    (key : Bytes) (es : List Entry) → Distinct es → (lookup key es == null) ≡ true → Absent key es
unfolding lookup
null-Absent key [] d e = tt
null-Absent key (e ∷ es) d e' = elim (Bool-cases (same_bytes e.node.key key)) [
  | inl same ↦ absurd (ground (arith, d.0))
  | inr other ↦ (
    λ same. absurd (ground (arith, ap (same_bytes e.node.key) same, same_bytes_refl e.node.key)),
    null-Absent key es d.2 (ground arith),
  )
]

-- Whether a key or the allocators keep the node out.
abbrev pub refuses : Answers → Option Bytes → List Entry → Bool
refuses a none nodes = true
refuses a (some key) nodes =
    if lookup key nodes == null then (if a.node_ok then a.iter == null else true) else true

-- The node of a key.
abbrev pub new_node : ℕ → Ptr → Bytes → Node
new_node seed val key = record { val = val; hash = mumurhash3 seed key; key = key }

-- The nodes after a node was added.
abbrev pub with_node : Answers → (seed : ℕ) → Option Bytes → (val : Ptr) → List Entry → List Entry
with_node a seed none val nodes = nodes
with_node a seed (some key) val nodes =
    ordered_insert (record { iter = a.iter; node = new_node seed val key }) nodes

restored : (m : Map) (n : ℕ) → Inv m → n ≤ 272 → sub_size (add_size m.nodes_size n) n ≡ m.nodes_size
restored m n inv le =
    let total = bytes_of_nodes m.nodes in
    let small : m.nodes_size ≡ total % 2 ^ 64 = inv.sizes in omega arith

-- A map from which a node was kept out is what it was.
pub add_in_refused :
    (a : Answers) (m : Map) (o : Option Bytes) (val : Ptr)
    → Inv m
    → AreBytes o
    → refuses a o m.nodes ≡ true
    → add_in a m o val ≡ (null, m)
unfolding add_in add_key add_place add_at node_size
add_in_refused a m none val inv ok out = refl
add_in_refused a m (some key) val inv ok out =
    let node = new_node m.seed val key in
    rw (place-above m node inv ok.0 refl) (elim (Bool-cases (lookup key m.nodes == null)) [
      | inr found ↦ rw found
      | inl absent ↦ rw absent (elim (Bool-cases a.node_ok) [
        | inr no_node ↦ rw no_node
        | inl node_made ↦
            let no_iter : (a.iter == null) ≡ true = ground arith in
            rw (node_made, no_iter)
              (ap (λ n. (null, record m { nodes_size = n }))
                (restored m (16 + length key) inv (omega (arith, ok.1))))
      ])
    ])
