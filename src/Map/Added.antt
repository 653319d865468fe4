-- ===== src/Map/Added.antt =====
-- A map after cc_map_addp of cc_map.c put a node in.
use libcc.Base.{
  ℕ, ◌%◌, ◌^◌, ◌≤◌, ◌<◌, ◌≡◌, refl, inl, inr, Bool, true, false, Bool-cases, List, [], ◌∷◌, arith,
  ◌==◌, if◌then◌else◌, length, sym, ◌∙◌, ap, subst, Option, none, some, ==_refl, ==→≡,
}
use libcc.CcList.Store.{Ptr, null}
use libcc.Murmur.{Bytes, mumurhash3-lt}
use libcc.Map.{
  Node, Entry, Map, node_size, idx, head, Answers, add_at, add_size, set_bucket, replaces,
  insert_node,
}
use libcc.Map.Calls.{Key, key_bytes, add_place, add_key, add_in, addp, findp}
use libcc.Map.Order.{IsBytes, cmp_node-apart}
use libcc.Map.Sorted.{All, Sorted, Distinct, Hashed, skip, has, bytes_of_nodes, Inv}
use libcc.Map.Find.{
  lookup, same_bytes, Absent, elements-pos, idx-lt, IsKey, AreBytes, key_bytes-AreBytes, search,
  findp-search,
}
use libcc.Map.Grow.{grow-Inv}
use libcc.Map.Place.{above}
use libcc.Map.Insert.{
  ordered_insert, insert_node-ordered, All-ordered_insert, Apart, Sorted-ordered_insert,
  Distinct-ordered_insert, length-ordered_insert, bytes_of_nodes-ordered_insert,
  skip-ordered_insert, replaces-ordered_insert, lookup-ordered_insert,
}
use libcc.Map.Add.{place-above, null-Absent, refuses, new_node, with_node, add_in_refused}

-- A key that no node has compares unequal to all.
Absent-Apart :
    (seed : ℕ) (q : Node) (es : List Entry)
    → IsBytes q.key
    → All (Hashed seed) es
    → Absent q.key es
    → Apart q es
Absent-Apart seed q [] bytes hs out = tt
Absent-Apart seed q (e ∷ es) bytes hs out = (
  λ same. out.0 (cmp_node-apart e.node q.hash q.key hs.0.0.0 bytes same),
  Absent-Apart seed q es bytes hs.1 out.1,
)

-- The map with the node, before it grows.
abbrev inserted : Map → Entry → Map
inserted m e =
    let at = head (above e.node m.nodes) in
    let i = idx m.elements e in
    record m {
      nodes_size = add_size m.nodes_size (node_size e.node.key);
      nodes = insert_node at e m.nodes;
      buckets = if replaces (m.buckets i) at then set_bucket m.buckets i e.iter else m.buckets;
    }

set_bucket_here :
    (r : Bool) (buckets : ℕ → Ptr) (i : ℕ) (it : Ptr)
    → (if r then set_bucket buckets i it else buckets) i ≡ (if r then it else buckets i)
set_bucket_here true buckets i it = rw (==_refl i)
set_bucket_here false buckets i it = refl

set_bucket_there :
    (r : Bool) (buckets : ℕ → Ptr) (i j : ℕ) (it : Ptr)
    → (j == i) ≡ false
    → (if r then set_bucket buckets i it else buckets) j ≡ buckets j
set_bucket_there true buckets i j it ne = rw ne
set_bucket_there false buckets i j it ne = refl

module _ (m : Map) (e : Entry) (inv : Inv m) (hashed : Hashed m.seed e)
    (out : Absent e.node.key m.nodes) where
  inserted-bucket :
      (j : ℕ)
      → j < m.capacity
      → idx m.elements e < m.capacity
      → (inserted m e).buckets j ≡ head (skip m.elements j (ordered_insert e m.nodes))
  inserted-bucket j lt within =
      let i = idx m.elements e in
      let at = head (above e.node m.nodes) in
      let r = replaces (m.buckets i) at in
      elim (Bool-cases (j == i)) [
        | inl here ↦
            let apart = Absent-Apart m.seed e.node m.nodes hashed.0.0 inv.hashed out in
            let first =
              replaces-ordered_insert m.elements e m.nodes (elements-pos m inv) apart inv.sorted
                inv.distinct in
            let moved =
              set_bucket_here r m.buckets i e.iter ∙ (rw (← inv.buckets i within) at first) in
            subst
              (λ j. (inserted m e).buckets j ≡ head (skip m.elements j (ordered_insert e m.nodes)))
              (sym (==→≡ j i here)) moved
        | inr other ↦
            let other' : (i == j) ≡ false = ground arith in
            set_bucket_there r m.buckets i j e.iter other
            ∙ inv.buckets j lt
            ∙ sym (skip-ordered_insert m.elements j e m.nodes other')
      ]

  inserted-Inv :
      (e.iter == null) ≡ false
      → has e.iter m.nodes ≡ false
      → idx m.elements e < m.capacity
      → Inv (inserted m e)
  inserted-Inv ne fresh within =
      let ordered = insert_node-ordered e m.nodes inv.distinct in
      let apart = Absent-Apart m.seed e.node m.nodes hashed.0.0 inv.hashed out in
      let total = bytes_of_nodes-ordered_insert e m.nodes in
      let before : m.nodes_size ≡ bytes_of_nodes m.nodes % 2 ^ 64 = inv.sizes in
      record {
        shift = inv.shift;
        elements = inv.elements;
        hashes = inv.hashes;
        wide = inv.wide;
        small = inv.small;
        sorted = subst Sorted (sym ordered) (Sorted-ordered_insert e m.nodes apart inv.sorted);
        distinct =
            subst Distinct (sym ordered) (Distinct-ordered_insert e m.nodes ne fresh inv.distinct);
        hashed =
            subst (All (Hashed m.seed)) (sym ordered)
              (All-ordered_insert (Hashed m.seed) e m.nodes hashed inv.hashed);
        buckets = λ j lt.
            inserted-bucket j lt within ∙ ap (λ es. head (skip m.elements j es)) (sym ordered);
        sizes =
            subst (λ es. add_size m.nodes_size (node_size e.node.key) ≡ bytes_of_nodes es % 2 ^ 64)
              (sym ordered) (omega (arith, before, total));
      }

-- What is true of the result when a node was added to `m`.
abbrev pub AddedTo : Answers → Map → Option Bytes → (val : Ptr) → Ptr × Map → Type 0
AddedTo a m o val r =
    (r.0 ≡ a.iter) × Inv r.1 × (r.1.nodes ≡ with_node a m.seed o val m.nodes) × (r.1.seed ≡ m.seed)

add_in-AddedTo :
    (a : Answers) (m : Map) (o : Option Bytes) (val : Ptr)
    → Inv m
    → AreBytes o
    → refuses a o m.nodes ≡ false
    → has a.iter m.nodes ≡ false
    → length m.nodes < 2 ^ 29
    → AddedTo a m o val (add_in a m o val)
unfolding add_in add_key add_place add_at
add_in-AddedTo a m none val inv ok free fresh few = absurd (ground arith)
add_in-AddedTo a m (some key) val inv ok free fresh few =
    let node = new_node m.seed val key in
    let e : Entry = record { iter = a.iter; node = node } in
    let absent : (lookup key m.nodes == null) ≡ true = ground arith in
    let made : a.node_ok ≡ true = ground arith in
    let ne : (a.iter == null) ≡ false = ground arith in
    let within = idx-lt m node.hash inv (mumurhash3-lt m.seed key) in
    let whole =
      inserted-Inv m e inv (ok, refl) (null-Absent key m.nodes inv.distinct absent) ne fresh
        within in
    let ordered = insert_node-ordered e m.nodes inv.distinct in
    let fewer : length (inserted m e).nodes ≤ 2 ^ 29 =
      omega (arith, ap length ordered, length-ordered_insert e m.nodes) in
    let grown = grow-Inv a.realloc_ok (inserted m e) whole fewer in
    subst (λ p. AddedTo a m (some key) val (add_place a m p (idx m.elements e) node))
      (sym (rw absent at (place-above m node inv ok.0 refl)))
      (rw (made, ne) (refl, grown.0, grown.1 ∙ ordered, grown.2))

-- On a map with the invariant cc_map_addp returns null and leaves the map as it is, its sizes
-- included, where the key is too long, a node has it already, or the node or its iterator cannot be
-- allocated.
pub addp_refused :
    (a : Answers) (m : Map) (k : Key) (val : Ptr)
    → Inv m
    → IsKey k
    → refuses a (key_bytes k) m.nodes ≡ true
    → addp a m k val ≡ (null, m)
unfolding addp
addp_refused a m k val inv ok out =
    add_in_refused a m (key_bytes k) val inv (key_bytes-AreBytes k ok) out

-- On a map with the invariant and fewer than 2^29 nodes cc_map_addp, where nothing keeps the node out
-- and its iterator is new, returns the iterator, keeps the invariant, the growth of the buckets
-- included, whether the larger array can be had or not, and puts the node in its place in the order.
pub addp-AddedTo :
    (a : Answers) (m : Map) (k : Key) (val : Ptr)
    → Inv m
    → IsKey k
    → refuses a (key_bytes k) m.nodes ≡ false
    → has a.iter m.nodes ≡ false
    → length m.nodes < 2 ^ 29
    → AddedTo a m (key_bytes k) val (addp a m k val)
unfolding addp
addp-AddedTo a m k val inv ok free fresh few =
    add_in-AddedTo a m (key_bytes k) val inv (key_bytes-AreBytes k ok) free fresh few

-- Two keys with the same bytes, neither too long.
abbrev pub same_key : Option Bytes → Option Bytes → Bool
same_key none o = false
same_key (some a) none = false
same_key (some a) (some b) = same_bytes a b

search-with_node :
    (a : Answers) (seed : ℕ) (o o' : Option Bytes) (val : Ptr) (nodes : List Entry)
    → Distinct nodes
    → refuses a o nodes ≡ false
    → search o' (with_node a seed o val nodes) ≡ (if same_key o o' then a.iter else search o' nodes)
search-with_node a seed none o' val nodes d free = absurd (ground arith)
search-with_node a seed (some key) none val nodes d free = refl
search-with_node a seed (some key) (some key') val nodes d free =
    lookup-ordered_insert key' (record { iter = a.iter; node = new_node seed val key }) nodes
      (null-Absent key nodes d (ground arith))

-- On a map with the invariant and fewer than 2^29 nodes, where nothing keeps the node out and its
-- iterator is not in use, after cc_map_addp added it cc_map_findp finds its iterator for its key, and
-- for any other key what it found before, the growth of the buckets included.
pub findp-addp :
    (a : Answers) (m : Map) (k k' : Key) (val : Ptr)
    → Inv m
    → IsKey k
    → IsKey k'
    → refuses a (key_bytes k) m.nodes ≡ false
    → has a.iter m.nodes ≡ false
    → length m.nodes < 2 ^ 29
    → findp (addp a m k val).1 k'
      ≡ (if same_key (key_bytes k) (key_bytes k') then a.iter else findp m k')
findp-addp a m k k' val inv ok ok' free fresh few =
    let added = addp-AddedTo a m k val inv ok free fresh few in
    findp-search (addp a m k val).1 k' added.1 ok'
    ∙ ap (search (key_bytes k')) added.2
    ∙ search-with_node a m.seed (key_bytes k) (key_bytes k') val m.nodes inv.distinct free
    ∙ ap (λ r. if same_key (key_bytes k) (key_bytes k') then a.iter else r)
        (sym (findp-search m k' inv ok'))
