-- ===== src/Map/Erase.antt =====
-- A node taken out of the nodes: `pre` are those in front of it, and `rest` those behind it.
use libcc.Base.{
  ℕ, ◌+◌, ◌<◌, ◌≡◌, refl, inl, inr, true, false, Bool-cases, List, [], ◌∷◌, ◌++◌, arith, ◌==◌,
  if◌then◌else◌, sym, ◌∙◌, ap, ==_refl, ==→≡, subst,
}
use libcc.CcList.Store.{Ptr, null}
use libcc.Murmur.{Bytes}
use libcc.Map.{Entry, node_size, idx, from, head, bucket_head}
use libcc.Map.Calls.{erase}
use libcc.Map.Order.{Less, cmp_node-swap}
use libcc.Map.Sorted.{All, Sorted, Distinct, Hashed, skip, has, bytes_of_nodes, From-All}
use libcc.Map.Find.{lookup, same_bytes, same_bytes→≡, not-same_bytes, Absent, lookup-Absent, key-ne}
use libcc.Map.Grow.{bucket_head-skip}

-- An iterator of the list is that of a node.
pub has-split :
    (it : Ptr) (es : List Entry)
    → has it es ≡ true
    → (pre : List Entry) × (e : Entry) × (rest : List Entry) × (es ≡ pre ++ e ∷ rest)
      × (e.iter ≡ it)
      × (has it pre ≡ false)
has-split it [] h = absurd (ground arith)
has-split it (f ∷ fs) h = elim (Bool-cases (f.iter == it)) [
  | inl here ↦ ([], f, fs, refl, ==→≡ f.iter it here, refl)
  | inr other ↦
      let (pre, e, rest, split, same, out) = has-split it fs (ground arith) in
      (f ∷ pre, e, rest, ap (λ es. f ∷ es) split, same, rw (other, out))
]

pub All-erase :
    (P : Entry → Type 0) (pre : List Entry) (e : Entry) (rest : List Entry)
    → All P (pre ++ e ∷ rest)
    → P e × All P (pre ++ rest)
All-erase P [] e rest all = all
All-erase P (f ∷ pre) e rest all =
    let more = All-erase P pre e rest all.1 in (more.0, (all.0, more.1))

pub Sorted-erase :
    (pre : List Entry) (e : Entry) (rest : List Entry)
    → Sorted (pre ++ e ∷ rest)
    → Sorted (pre ++ rest)
Sorted-erase [] e rest s = s.1
Sorted-erase (f ∷ pre) e rest s = ((All-erase _ pre e rest s.0).1, Sorted-erase pre e rest s.1)

has-erase :
    (it : Ptr) (pre : List Entry) (e : Entry) (rest : List Entry)
    → has it (pre ++ e ∷ rest) ≡ false
    → has it (pre ++ rest) ≡ false
has-erase it [] e rest out = ground arith
has-erase it (f ∷ pre) e rest out = ground (arith, has-erase it pre e rest)

pub Distinct-erase :
    (pre : List Entry) (e : Entry) (rest : List Entry)
    → Distinct (pre ++ e ∷ rest)
    → Distinct (pre ++ rest)
Distinct-erase [] e rest d = d.2
Distinct-erase (f ∷ pre) e rest d =
    (d.0, has-erase f.iter pre e rest d.1, Distinct-erase pre e rest d.2)

pub bytes_of_nodes-erase :
    (pre : List Entry) (e : Entry) (rest : List Entry)
    → bytes_of_nodes (pre ++ e ∷ rest) ≡ node_size e.node.key + bytes_of_nodes (pre ++ rest)
unfolding bytes_of_nodes
bytes_of_nodes-erase [] e rest = refl
bytes_of_nodes-erase (f ∷ pre) e rest = omega (arith, bytes_of_nodes-erase pre e rest)

pub from-erase :
    (pre : List Entry) (e : Entry) (rest : List Entry)
    → has e.iter pre ≡ false
    → (from e.iter (pre ++ e ∷ rest) ≡ e ∷ rest) × (erase e.iter (pre ++ e ∷ rest) ≡ pre ++ rest)
unfolding from erase
from-erase [] e rest out = rw (==_refl e.iter) (refl, refl)
from-erase (f ∷ pre) e rest out =
    let ne : (f.iter == e.iter) ≡ false = ground arith in
    let more = from-erase pre e rest (ground arith) in rw ne (more.0, ap (λ es. f ∷ es) more.1)

-- The first node of another bucket stays.
pub skip-erase :
    (elements j : ℕ) (pre : List Entry) (e : Entry) (rest : List Entry)
    → (idx elements e == j) ≡ false
    → head (skip elements j (pre ++ rest)) ≡ head (skip elements j (pre ++ e ∷ rest))
unfolding skip
skip-erase elements j [] e rest ne = rw ne
skip-erase elements j (f ∷ pre) e rest ne = ground (arith, skip-erase elements j pre e rest ne)

-- The first node of the bucket that the node was in.
pub bucket-erase :
    (elements : ℕ) (pre : List Entry) (e : Entry) (rest : List Entry)
    → 0 < elements
    → Sorted (pre ++ e ∷ rest)
    → has e.iter pre ≡ false
    → (if head (skip elements (idx elements e) (pre ++ e ∷ rest)) == e.iter
        then bucket_head elements (idx elements e) rest
        else head (skip elements (idx elements e) (pre ++ e ∷ rest)))
      ≡ head (skip elements (idx elements e) (pre ++ rest))
unfolding skip
bucket-erase elements [] e rest pos s out =
    let i = idx elements e in
    rw (==_refl i, ==_refl e.iter)
      (bucket_head-skip elements i rest pos s.1 (From-All elements i e rest pos (omega arith) s.0))
bucket-erase elements (f ∷ pre) e rest pos s out =
    let ne : (f.iter == e.iter) ≡ false = ground arith in
    elim (Bool-cases (idx elements f == idx elements e)) [
      | inl here ↦ rw (here, ne)
      | inr other ↦ rw other (bucket-erase elements pre e rest pos s.1 (ground arith))
    ]

-- A search no longer finds the node's key, and finds any other as before.
pub lookup-erase :
    (seed : ℕ) (key : Bytes) (pre : List Entry) (e : Entry) (rest : List Entry)
    → Sorted (pre ++ e ∷ rest)
    → All (Hashed seed) (pre ++ e ∷ rest)
    → lookup key (pre ++ rest)
      ≡ (if same_bytes e.node.key key then null else lookup key (pre ++ e ∷ rest))
unfolding lookup
lookup-erase seed key [] e rest s hs = elim (Bool-cases (same_bytes e.node.key key)) [
  | inr other ↦ rw other
  | inl same ↦
      let gone = behind seed e rest hs.0 s.0 hs.1 in
      rw same (
        lookup-Absent key rest (subst (λ k. Absent k rest) (same_bytes→≡ e.node.key key same) gone))
]
  where
    behind :
        (seed : ℕ) (e : Entry) (es : List Entry)
        → Hashed seed e
        → All (λ f. Less e.node f.node) es
        → All (Hashed seed) es
        → Absent e.node.key es
    behind seed e [] h less hs = tt
    behind seed e (f ∷ es) h less hs =
        let after = (cmp_node-swap e.node f.node).0 less.0 in
        let ne = key-ne seed e.node h.0.0 h.1 f _ hs.0 after (λ o. absurd (ground arith)) in
        (ne, behind seed e es h less.1 hs.1)
lookup-erase seed key (f ∷ pre) e rest s hs =
    let later = All-erase _ pre e rest s.0 in
    let h = (All-erase _ pre e rest hs.1).0 in
    let ne = key-ne seed e.node h.0.0 h.1 f _ hs.0 later.0 (λ o. absurd (ground arith)) in
    let other : same_bytes e.node.key key ≡ true → same_bytes f.node.key key ≡ false = λ same.
      not-same_bytes f.node.key key (λ also. ne (also ∙ sym (same_bytes→≡ e.node.key key same))) in
    ground (arith, lookup-erase seed key pre e rest s.1 hs.1, other)

-- The keys of the other nodes are others.
pub Absent-erase :
    (seed : ℕ) (pre : List Entry) (e : Entry) (rest : List Entry)
    → Sorted (pre ++ e ∷ rest)
    → All (Hashed seed) (pre ++ e ∷ rest)
    → Absent e.node.key (pre ++ rest)
Absent-erase seed [] e [] s hs = tt
Absent-erase seed [] e (f ∷ rest) s hs =
    let after = (cmp_node-swap e.node f.node).0 s.0.0 in
    let h = hs.0 in
    let ne = key-ne seed e.node h.0.0 h.1 f _ hs.1.0 after (λ o. absurd (ground arith)) in
    (ne, Absent-erase seed [] e rest (s.0.1, s.1.1) (hs.0, hs.1.1))
Absent-erase seed (f ∷ pre) e rest s hs =
    let later = All-erase _ pre e rest s.0 in
    let h = (All-erase _ pre e rest hs.1).0 in
    let ne = key-ne seed e.node h.0.0 h.1 f _ hs.0 later.0 (λ o. absurd (ground arith)) in
    (ne, Absent-erase seed pre e rest s.1 hs.1)
