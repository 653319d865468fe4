-- ===== src/Map/Calls.antt =====
-- cc_map.c: the public functions. What the allocators answer is an argument.
use Prim.Native.Nat.{Ordering}
use libcc.Base.{
  ℕ, zero, suc, ◌+◌, ◌-◌, ◌*◌, ◌/◌, ◌%◌, Option, none, some, List, [], ◌∷◌, ◌++◌, ◌==◌,
  if◌then◌else◌, ltb, length,
}
use libcc.CcList.Store.{Ptr, null}
use libcc.CcList.Pool.{sub_size}
use libcc.Murmur.{Bytes, mumurhash3}
use libcc.Map.{
  Node, Entry, Map, node_size, node_delete, idx, cmp_node, set_bucket, from, head, bucket_head,
  Answers, add_at,
}

-- The arguments `len` and `key`: the bytes at a pointer, or, where `len` is 0, the pointer itself.
pub data Key : Type 0 where
  bytes_at : Bytes → Key
  pointer : Ptr → Key

-- The `n` lowest bytes of a number.
unfoldable pub bytes_of : ℕ → ℕ → Bytes
bytes_of zero p = []
bytes_of (suc n) p = p % 256 ∷ bytes_of n (p / 256)

-- The bytes that are hashed and compared, unless there are more than CC_MAP_KEYLEN of them.
unfoldable pub key_bytes : Key → Option Bytes
unfolding bytes_of
key_bytes (bytes_at bytes) = if ltb 256 (length bytes) then none else some bytes
key_bytes (pointer p) = some (bytes_of 8 p)

unfoldable pub find_loop : (elements i hash : ℕ) → Bytes → List Entry → Ptr
find_loop elements i hash key [] = null
find_loop elements i hash key (e ∷ es) =
    if idx elements e == i
    then (elim (cmp_node e.node hash key) [
      | Ordering.eq ↦ e.iter
      | Ordering.gt ↦ null
      | Ordering.lt ↦ find_loop elements i hash key es
    ])
    else null

unfoldable pub find_key : Map → Bytes → Ptr
unfolding find_loop from
find_key m key =
    let hash = mumurhash3 m.seed key in
    let i = hash / m.elements in find_loop m.elements i hash key (from (m.buckets i) m.nodes)

unfoldable pub find_in : Map → Option Bytes → Ptr
unfolding find_key
find_in m none = null
find_in m (some key) = find_key m key

-- cc_map_findp
unfoldable pub findp : Map → Key → Ptr
unfolding find_in key_bytes
findp m k = find_in m (key_bytes k)

-- cc_map_find, and cc_map_findf on the text that vsnprintf makes: the final zero is in the key.
unfoldable pub find : Map → Bytes → Ptr
unfolding findp
find m str = findp m (bytes_at (str ++ 0 ∷ []))

-- Where a new key goes: nowhere, as it is there already, or in front of an iterator, where null is
-- the end of the list.
pub data Place : Type 0 where
  taken : Place
  before : Ptr → Place

unfoldable pub place_loop : (elements i hash : ℕ) → Bytes → List Entry → Place
place_loop elements i hash key [] = before null
place_loop elements i hash key (e ∷ es) =
    if idx elements e == i
    then (elim (cmp_node e.node hash key) [
      | Ordering.eq ↦ taken
      | Ordering.gt ↦ before e.iter
      | Ordering.lt ↦ place_loop elements i hash key es
    ])
    else before e.iter

-- `for(i = idx + 1; i < self->capacity; ++i)`: the first bucket in use among `n`.
unfoldable pub next_bucket : (n : ℕ) → (ℕ → Ptr) → (i : ℕ) → Ptr
next_bucket zero buckets i = null
next_bucket (suc n) buckets i =
    let rest = next_bucket n buckets (i + 1) in if buckets i == null then rest else buckets i

unfoldable pub place : Map → (i hash : ℕ) → Bytes → Place
unfolding place_loop next_bucket from
place m i hash key =
    if m.buckets i == null
    then before (next_bucket (m.capacity - (i + 1)) m.buckets (i + 1))
    else place_loop m.elements i hash key (from (m.buckets i) m.nodes)

unfoldable pub add_place : Answers → Map → Place → (i : ℕ) → Node → Ptr × Map
add_place a m taken i node = (null, m)
add_place a m (before at) i node = add_at a m at i node

unfoldable pub add_key : Answers → Map → Bytes → Ptr → Ptr × Map
unfolding place add_place
add_key a m key val =
    let hash = mumurhash3 m.seed key in
    let i = hash / m.elements in
    add_place a m (place m i hash key) i (record { val = val; hash = hash; key = key })

unfoldable pub add_in : Answers → Map → Option Bytes → Ptr → Ptr × Map
unfolding add_key
add_in a m none val = (null, m)
add_in a m (some key) val = add_key a m key val

-- cc_map_addp
unfoldable pub addp : Answers → Map → Key → Ptr → Ptr × Map
unfolding add_in key_bytes
addp a m k val = add_in a m (key_bytes k) val

-- cc_map_add, and cc_map_addf on the text that vsnprintf makes.
unfoldable pub add : Answers → Map → Bytes → Ptr → Ptr × Map
unfolding addp
add a m str val = addp a m (bytes_at (str ++ 0 ∷ [])) val

-- cc_list_remove
unfoldable pub erase : Ptr → List Entry → List Entry
erase it [] = []
erase it (e ∷ es) = if e.iter == it then es else e ∷ erase it es

-- cc_map_remove on the node that the iterator holds, with those behind it.
unfoldable pub remove_entry : Map → Entry → List Entry → Map
unfolding bucket_head erase node_delete
remove_entry m e es =
    let i = idx m.elements e in
    node_delete e.node (record m {
      buckets =
          if m.buckets i == e.iter
          then set_bucket m.buckets i (bucket_head m.elements i es)
          else m.buckets;
      nodes = erase e.iter m.nodes;
    })

-- cc_map_remove: the value, the next iterator, which `*_miter` gets, and the map. `none` is an
-- iterator that is not in the list.
unfoldable pub remove_from : Map → List Entry → Option (Ptr × Ptr × Map)
unfolding remove_entry
remove_from m [] = none
remove_from m (e ∷ es) = some (e.node.val, head es, remove_entry m e es)

unfoldable pub remove : Map → Ptr → Option (Ptr × Ptr × Map)
unfolding remove_from from
remove m it = remove_from m (from it m.nodes)

-- cc_map_discard: the loop over the nodes.
unfoldable pub discard_nodes : List Entry → ℕ → ℕ
unfolding node_size
discard_nodes [] nodes_size = nodes_size
discard_nodes (e ∷ es) nodes_size = discard_nodes es (sub_size nodes_size (node_size e.node.key))

unfoldable pub discard : Map → Map
unfolding discard_nodes
discard m = record m {
  buckets = λ i. if ltb i m.capacity then null else m.buckets i;
  nodes = [];
  nodes_size = discard_nodes m.nodes m.nodes_size;
}

-- cc_map_size
abbrev pub size : Map → ℕ
size m = length m.nodes

-- cc_map_sizeof, over the sizes of the structs and of a pointer.
unfoldable pub size_of : (map_size ptr_size list_size iter_size : ℕ) → Map → ℕ
size_of map_size ptr_size list_size iter_size m =
    map_size + m.nodes_size + m.capacity * ptr_size + (list_size + length m.nodes * iter_size)

-- cc_map_val and cc_map_key
abbrev pub val_first : List Entry → Option Ptr
val_first [] = none
val_first (e ∷ es) = some e.node.val

unfoldable pub val_of : Map → Ptr → Option Ptr
unfolding from
val_of m it = val_first (from it m.nodes)

abbrev pub key_first : List Entry → Option Bytes
key_first [] = none
key_first (e ∷ es) = some e.node.key

unfoldable pub key_of : Map → Ptr → Option Bytes
unfolding from
key_of m it = key_first (from it m.nodes)

-- cc_map_next
unfoldable pub next : Map → Ptr → Option Ptr
unfolding from
next m it = elim (from it m.nodes) [ [] ↦ none | e ∷ es ↦ some (head es) ]
