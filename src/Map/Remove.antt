-- ===== src/Map/Remove.antt =====
-- cc_map_remove, cc_map_discard and cc_map_newFlags of cc_map.c.
use libcc.Base.{
  ℕ, ◌+◌, ◌%◌, ◌^◌, ◌<◌, ◌≡◌, refl, inl, inr, true, false, Bool-cases, List, [], ◌∷◌, ◌++◌, arith,
  ◌==◌, if◌then◌else◌, length, sym, ◌∙◌, ap, subst, Option, none, some, ==→≡, ==_refl,
}
use libcc.CcList.Store.{Ptr, null}
use libcc.CcList.Pool.{sub_size}
use libcc.Murmur.{Bytes}
use libcc.Map.{Entry, Map, node_size, idx, from, head, new}
use libcc.Map.Calls.{
  Key, key_bytes, findp, erase, remove_entry, remove_from, remove, discard_nodes, discard, val_of,
  val_first, key_of, key_first,
}
use libcc.Map.Sorted.{All, Sorted, Distinct, Hashed, skip, has, bytes_of_nodes, Inv}
use libcc.Map.Find.{lookup, same_bytes, elements-pos, IsKey, search, findp-search}
use libcc.Map.Added.{same_key}
use libcc.Map.Erase.{
  has-split, All-erase, Sorted-erase, Distinct-erase, bytes_of_nodes-erase, from-erase, skip-erase,
  bucket-erase, lookup-erase,
}

module _ (m : Map) (inv : Inv m) (pre : List Entry) (e : Entry) (rest : List Entry)
    (split : m.nodes ≡ pre ++ e ∷ rest) (out : has e.iter pre ≡ false) where
  erased : erase e.iter m.nodes ≡ pre ++ rest
  erased = ap (erase e.iter) split ∙ (from-erase pre e rest out).1

  sorted : Sorted (pre ++ e ∷ rest)
  sorted = subst Sorted split inv.sorted

  bucket_at : (j : ℕ) → j < m.capacity → m.buckets j ≡ head (skip m.elements j (pre ++ e ∷ rest))
  bucket_at j lt = inv.buckets j lt ∙ ap (λ es. head (skip m.elements j es)) split

  removed-bucket :
      (j : ℕ)
      → j < m.capacity
      → (remove_entry m e rest).buckets j ≡ head (skip m.elements j (pre ++ rest))
  unfolding remove_entry
  removed-bucket j lt =
      let i = idx m.elements e in
      elim (Bool-cases (j == i)) [
        | inr other ↦
            let other' : (i == j) ≡ false = ground arith in
            let same = bucket_at j lt ∙ sym (skip-erase m.elements j pre e rest other') in
            ground (arith, same)
        | inl here ↦
            let within : i < m.capacity = ground arith in
            let first = bucket-erase m.elements pre e rest (elements-pos m inv) sorted out in
            let first' = rw (← bucket_at i within) at first in
            subst (λ j. (remove_entry m e rest).buckets j ≡ head (skip m.elements j (pre ++ rest)))
              (sym (==→≡ j i here)) (ground (arith, first', ==_refl i))
      ]

  remove_entry-Inv : Inv (remove_entry m e rest)
  unfolding remove_entry node_size
  remove_entry-Inv =
      let hashed =
        All-erase (Hashed m.seed) pre e rest (subst (All (Hashed m.seed)) split inv.hashed) in
      let total = ap bytes_of_nodes split ∙ bytes_of_nodes-erase pre e rest in
      let before : m.nodes_size ≡ bytes_of_nodes m.nodes % 2 ^ 64 = inv.sizes in
      record {
        shift = inv.shift;
        elements = inv.elements;
        hashes = inv.hashes;
        wide = inv.wide;
        small = inv.small;
        sorted = subst Sorted (sym erased) (Sorted-erase pre e rest sorted);
        distinct =
            subst Distinct (sym erased)
              (Distinct-erase pre e rest (subst Distinct split inv.distinct));
        hashed = subst (All (Hashed m.seed)) (sym erased) hashed.1;
        buckets = λ j lt. removed-bucket j lt ∙ ap (λ es. head (skip m.elements j es)) (sym erased);
        sizes =
            subst
              (λ es. sub_size m.nodes_size (16 + length e.node.key) ≡ bytes_of_nodes es % 2 ^ 64)
              (sym erased) (omega (arith, before, total, hashed.0.0.1));
      }

  remove_entry-search :
      (o : Option Bytes)
      → search o (remove_entry m e rest).nodes
        ≡ (if same_key (some e.node.key) o then null else search o m.nodes)
  unfolding remove_entry
  remove_entry-search none = refl
  remove_entry-search (some key) =
      ap (lookup key) erased
      ∙ lookup-erase m.seed key pre e rest sorted (subst (All (Hashed m.seed)) split inv.hashed)
      ∙ ap (λ es. if same_bytes e.node.key key then null else lookup key es) (sym split)

-- What cc_map_remove of an iterator gives: its node's value, a map without the node and with the
-- invariant, and in it what cc_map_findp finds.
pub data RemovedFrom (m : Map) (it : Ptr) : Option (Ptr × Ptr × Map) → Type 0 where
  removed :
      (e : Entry) (after : Ptr) (m' : Map)
      → e.iter ≡ it
      → val_of m it ≡ some e.node.val
      → key_of m it ≡ some e.node.key
      → Inv m'
      → m'.nodes ≡ erase it m.nodes
      → ((k : Key)
          → IsKey k
          → findp m' k ≡ (if same_key (some e.node.key) (key_bytes k) then null else findp m k))
      → RemovedFrom m it (some (e.node.val, after, m'))

-- On a map with the invariant cc_map_remove of an iterator of the map returns the value of its node
-- and leaves a map with the invariant, the bucket and the sizes included, whose nodes are the others:
-- cc_map_findp no longer finds the node's key, and finds any other key as before.
pub remove-RemovedFrom :
    (m : Map) (it : Ptr) → Inv m → has it m.nodes ≡ true → RemovedFrom m it (remove m it)
unfolding remove remove_from val_of key_of remove_entry
remove-RemovedFrom m it inv h =
    let (pre, e, rest, split, same, out) = has-split it m.nodes h in
    let out' : has e.iter pre ≡ false = ap (λ p. has p pre) same ∙ out in
    let at : from it m.nodes ≡ e ∷ rest =
      ap (λ p. from p m.nodes) (sym same)
      ∙ ap (from e.iter) split
      ∙ (from-erase pre e rest out').0 in
    let kept = remove_entry-Inv m inv pre e rest split out' in
    let others : (remove_entry m e rest).nodes ≡ erase it m.nodes =
      ap (λ p. erase p m.nodes) same in
    rw at (
      removed e (head rest) (remove_entry m e rest) same (ap val_first at) (ap key_first at) kept
        others
        (λ k ok.
          findp-search (remove_entry m e rest) k kept ok
          ∙ remove_entry-search m inv pre e rest split out' (key_bytes k)
          ∙ ap (λ p. if same_key (some e.node.key) (key_bytes k) then null else p)
              (sym (findp-search m k inv ok))))

-- cc_map_newFlags makes an empty map with the invariant.
pub new-Inv : (seed : ℕ) → Inv (new seed)
unfolding new bytes_of_nodes skip
new-Inv seed = record {
  shift = 28;
  elements = refl;
  hashes = refl;
  wide = omega arith;
  small = omega arith;
  sorted = tt;
  distinct = tt;
  hashed = tt;
  buckets = λ i lt. refl;
  sizes = refl;
}

discard_nodes-bytes_of_nodes :
    (seed size : ℕ) (es : List Entry)
    → All (Hashed seed) es
    → size ≡ bytes_of_nodes es % 2 ^ 64
    → discard_nodes es size ≡ 0
unfolding discard_nodes bytes_of_nodes node_size
discard_nodes-bytes_of_nodes seed size [] hs e = e
discard_nodes-bytes_of_nodes seed size (f ∷ fs) hs e =
    discard_nodes-bytes_of_nodes seed (sub_size size (16 + length f.node.key)) fs hs.1
      (omega (arith, hs.0.0.1))

-- On a map with the invariant cc_map_discard leaves a map with the invariant and no node, which has
-- as many buckets as before and whose nodes take no memory.
pub discard-Inv :
    (m : Map)
    → Inv m
    → Inv (discard m)
      × ((discard m).nodes ≡ [])
      × ((discard m).nodes_size ≡ 0)
      × ((discard m).capacity ≡ m.capacity)
unfolding discard bytes_of_nodes skip
discard-Inv m inv =
    let freed = discard_nodes-bytes_of_nodes m.seed m.nodes_size m.nodes inv.hashed inv.sizes in
    let kept : Inv (discard m) = record {
      shift = inv.shift;
      elements = inv.elements;
      hashes = inv.hashes;
      wide = inv.wide;
      small = inv.small;
      sorted = tt;
      distinct = tt;
      hashed = tt;
      buckets = λ i lt. ground arith;
      sizes = freed;
    } in
    (kept, refl, freed, refl)
