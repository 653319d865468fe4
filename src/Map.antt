-- ===== src/Map.antt =====
-- cc_map.h and cc_map.c: a hash map. Its nodes stand in one list, sorted by their hashes, and a
-- bucket is the iterator of the first node with the bucket's index. A list of cc_list.c is here the
-- sequence that it stands for, and an iterator in it stands for the rest of the list from there.
pub mod Calls
pub mod Order
pub mod Sorted
pub mod Find
pub mod Lookup
pub mod Grow
pub mod Place
pub mod Insert
pub mod Add
pub mod Added
pub mod Erase
pub mod Remove
pub mod Steps
pub mod Tests
use Prim.Native.Nat.{compare, Ordering}
use libcc.Base.{
  ℕ, zero, suc, ◌+◌, ◌-◌, ◌*◌, ◌/◌, ◌%◌, ◌^◌, Bool, true, false, not, Option, none, some, List, [],
  ◌∷◌, ◌++◌, ◌||◌, ◌==◌, if◌then◌else◌, ltb, leb, length,
}
use libcc.CcList.Store.{Ptr, null}
use libcc.CcList.Pool.{sub_size}
use libcc.Murmur.{Bytes, drop, little_endian, mumurhash3}

-- cc_mapNode_t. The length of the key is that of its bytes.
pub record Node : Type 0 where
  pub val : Ptr
  pub hash : ℕ
  pub key : Bytes

pub record Entry : Type 0 where
  pub iter : Ptr
  pub node : Node

-- cc_map_t. The array of buckets is a function of the index.
pub record Map : Type 0 where
  pub seed : ℕ
  pub capacity : ℕ
  pub elements : ℕ
  pub buckets : ℕ → Ptr
  pub nodes_size : ℕ
  pub nodes : List Entry

-- cc_mapNode_sizeof, on a machine with 64-bit pointers
unfoldable pub node_size : Bytes → ℕ
node_size key = 16 + length key

-- CC_MAP_IDX
abbrev pub idx : ℕ → Entry → ℕ
idx elements e = e.node.hash / elements

-- The comparison of `cnt` blocks of `width` bytes, and then of the rest.
unfoldable pub cmp_words : (width cnt : ℕ) → Bytes → Bytes → (Bytes → Bytes → Ordering) → Ordering
unfolding little_endian
cmp_words width zero a b rest = rest a b
cmp_words width (suc cnt) a b rest =
    elim (compare (little_endian width a) (little_endian width b)) [
      | Ordering.gt ↦ Ordering.gt
      | Ordering.lt ↦ Ordering.lt
      | Ordering.eq ↦ cmp_words width cnt (drop width a) (drop width b) rest
    ]

-- 8 bytes at a time, then 4, then one.
unfoldable pub cmp_key : (len : ℕ) → Bytes → Bytes → Ordering
unfolding cmp_words
cmp_key len a b =
    cmp_words 8 (len / 8) a b
      λ a b. cmp_words 4 (len % 8 / 4) a b λ a b. cmp_words 1 (len % 8 % 4) a b λ a b. Ordering.eq

-- cc_mapNode_cmp
unfoldable pub cmp_node : Node → ℕ → Bytes → Ordering
unfolding cmp_key
cmp_node n hash key = elim (compare n.hash hash) [
  | Ordering.gt ↦ Ordering.gt
  | Ordering.lt ↦ Ordering.lt
  | Ordering.eq ↦ elim (compare (length n.key) (length key)) [
    | Ordering.gt ↦ Ordering.gt
    | Ordering.lt ↦ Ordering.lt
    | Ordering.eq ↦ cmp_key (length key) n.key key
  ]
]

-- The map of cc_map_newFlags: `seed` is what random returns.
unfoldable pub new : ℕ → Map
new seed = record {
  seed = seed;
  capacity = 16;
  elements = 2 ^ 32 / 16;
  buckets = λ i. null;
  nodes_size = 0;
  nodes = [];
}

-- cc_map_newFlags: whether the struct, its array and its list can be allocated. A map that cannot be
-- made whole is freed.
unfoldable pub new_flags : (self_ok buckets_ok nodes_ok : Bool) → ℕ → Option Map
unfolding new
new_flags self_ok buckets_ok nodes_ok seed =
    if not self_ok
    then none
    else if not buckets_ok
    then none
    else if not nodes_ok
    then none
    else some (new seed)

-- `self->buckets[i] = it`
abbrev pub set_bucket : (ℕ → Ptr) → ℕ → Ptr → ℕ → Ptr
set_bucket buckets i it j = if j == i then it else buckets j

-- The nodes from an iterator on: none for null.
unfoldable pub from : Ptr → List Entry → List Entry
from it [] = []
from it (e ∷ es) = if e.iter == it then e ∷ es else from it es

abbrev pub head : List Entry → Ptr
head [] = null
head (e ∷ es) = e.iter

-- The iterator of the first of these nodes, where it has the index.
unfoldable pub bucket_head : (elements i : ℕ) → List Entry → Ptr
bucket_head elements i [] = null
bucket_head elements i (e ∷ es) = if idx elements e == i then e.iter else null

-- The new bucket of an odd index: the loop over the old one.
unfoldable pub odd_bucket : (elements j : ℕ) → List Entry → Ptr
odd_bucket elements j [] = null
odd_bucket elements j (e ∷ es) =
    let rest = odd_bucket elements j es in
    if idx elements e == j then e.iter else if ltb j (idx elements e) then null else rest

-- cc_map_grow: the round for the old bucket `k`, whose nodes these are.
unfoldable pub split_bucket : (elements k : ℕ) → List Entry → (ℕ → Ptr) → ℕ → Ptr
unfolding bucket_head odd_bucket
split_bucket elements k es buckets =
    set_bucket (set_bucket buckets (2 * k) (bucket_head elements (2 * k) es)) (2 * k + 1)
      (odd_bucket elements (2 * k + 1) es)

-- The loop over the old buckets, from the last one to the first.
unfoldable pub split_buckets : (elements : ℕ) → List Entry → (k : ℕ) → (ℕ → Ptr) → ℕ → Ptr
unfolding split_bucket from
split_buckets elements nodes zero buckets = buckets
split_buckets elements nodes (suc k) buckets =
    split_buckets elements nodes k (split_bucket elements k (from (buckets k) nodes) buckets)

-- cc_map_grow: `realloc_ok` says whether the array of buckets can be had.
unfoldable pub grow : (realloc_ok : Bool) → Map → Map
unfolding split_buckets
grow realloc_ok m =
    if leb (length m.nodes) m.capacity
    then m
    else if not realloc_ok
    then m
    else let capacity2 = 2 * m.capacity in
      let elements = 2 ^ 32 / capacity2 in
      record m {
        capacity = capacity2;
        elements = elements;
        buckets = split_buckets elements m.nodes m.capacity m.buckets;
      }

-- What the allocators answer when a node is added: the node, the iterator (null where there is none)
-- and the larger array.
pub record Answers : Type 0 where
  pub node_ok : Bool
  pub iter : Ptr
  pub realloc_ok : Bool

-- cc_list_insert in front of an iterator of the list, and cc_list_append at the end of the list.
unfoldable pub insert_before : Ptr → Entry → List Entry → List Entry
insert_before at e [] = []
insert_before at e (f ∷ fs) = if f.iter == at then e ∷ f ∷ fs else f ∷ insert_before at e fs

unfoldable pub insert_node : Ptr → Entry → List Entry → List Entry
unfolding insert_before
insert_node at e nodes = if at == null then nodes ++ e ∷ [] else insert_before at e nodes

-- Whether the new node becomes the first one of its bucket.
unfoldable pub replaces : (bucket at : Ptr) → Bool
replaces bucket at = if at == null then bucket == null else ((bucket == null) || (bucket == at))

-- `map->nodes_size += size`
abbrev pub add_size : ℕ → ℕ → ℕ
add_size a b = (a + b) % 2 ^ 64

-- cc_mapNode_new: the map with the bytes of the node, unless the node cannot be allocated.
unfoldable pub node_new : (node_ok : Bool) → Node → Map → Option Map
unfolding node_size
node_new node_ok node m =
    if node_ok
    then some (record m { nodes_size = add_size m.nodes_size (node_size node.key) })
    else none

-- cc_mapNode_delete
unfoldable pub node_delete : Node → Map → Map
unfolding node_size
node_delete node m = record m { nodes_size = sub_size m.nodes_size (node_size node.key) }

-- cc_map_addAt
unfoldable pub add_at : Answers → Map → (at : Ptr) → (i : ℕ) → Node → Ptr × Map
unfolding insert_node replaces grow node_new node_delete
add_at a m at i node = elim (node_new a.node_ok node m) [
  | none ↦ (null, m)
  | some m ↦ if a.iter == null then (null, node_delete node m) else (
    a.iter,
    grow a.realloc_ok (record m {
      nodes = insert_node at (record { iter = a.iter; node = node }) m.nodes;
      buckets = if replaces (m.buckets i) at then set_bucket m.buckets i a.iter else m.buckets;
    }),
  )
]
