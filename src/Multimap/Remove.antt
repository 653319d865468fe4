-- ===== src/Multimap/Remove.antt =====
-- cc_multimap_remove of cc_multimap.c: the lists that the keys have afterwards.
use libcc.Base.{
  ◌≡◌, refl, ◌⊎◌, true, false, ◌||◌, ◌==◌, Option, some, List, [], ◌∷◌, ◌++◌, arith, subst,
}
use libcc.CcList.Store.{Ptr, null}
use libcc.CcList.Chain.{Cells}
use libcc.Murmur.{Bytes}
use libcc.Map.{Entry, Map}
use libcc.Map.Calls.{Key, key_bytes, key_of, erase}
use libcc.Map.Sorted.{Sorted}
use libcc.Map.Find.{IsKey}
use libcc.Map.Added.{same_key}
use libcc.Multimap.{Multimap, Position, erase_cell, set_list, list_at}
use libcc.Multimap.Vals.{has_val, Owned}
use libcc.Multimap.Add.{WellFormed, cells_of}

has_val-split :
    (v : Ptr) (pre : List Entry) (e : Entry) (rest : List Entry)
    → has_val v (pre ++ e ∷ rest) ≡ ((e.node.val == v) || has_val v (pre ++ rest))
has_val-split v [] e rest = refl
has_val-split v (f ∷ pre) e rest = ground (arith, has_val-split v pre e rest)

Owned-split :
    (pre : List Entry) (e : Entry) (rest : List Entry)
    → Owned (pre ++ e ∷ rest)
    → ((e.node.val == null) ≡ false)
      × (has_val e.node.val (pre ++ rest) ≡ false)
      × Owned (pre ++ rest)
Owned-split [] e rest own = own
Owned-split (f ∷ pre) e rest own =
    let more = Owned-split pre e rest own.2 in
    let apart : (f.node.val == e.node.val) ≡ false =
      ground (arith, has_val-split f.node.val pre e rest, own.1) in
    let out : has_val f.node.val (pre ++ rest) ≡ false =
      ground (arith, has_val-split f.node.val pre e rest, own.1) in
    (more.0, rw apart more.1, (own.0, out, more.2))

-- The nodes of the map, where these cells are left of the list of a node.
abbrev pub nodes_left : Cells → Ptr → List Entry → List Entry
nodes_left [] it nodes = erase it nodes
nodes_left (c ∷ cells) it nodes = nodes

-- The list holds no cell with the iterator.
abbrev pub NoCell : Ptr → Cells → Type 0
NoCell it [] = Unit {0}
NoCell it ((p, v) ∷ cells) = ((p == it) ≡ false) × NoCell it cells

-- `after` is `before` less the first cell with the iterator, or `before` where it has no such cell.
abbrev pub Without : Ptr → (before after : Cells) → Type 0
Without it before after =
    ((pre : Cells) × (val : Ptr) × (post : Cells) × (before ≡ pre ++ (it, val) ∷ post)
      × (after ≡ pre ++ post)
      × NoCell it pre)
    ⊎ (NoCell it before × (after ≡ before))

-- How cc_multimap_remove ends: the key of the position has lost the cell, and no other key has lost any.
pub data RemovedItem (mm : Multimap) (pos : Position)
    : Option (Option Position × Multimap) → Type 0 where
  lost :
      (key : Bytes) (after : Option Position) (mm' : Multimap) (cells : Cells)
      → key_of mm.map pos.miter ≡ some key
      → WellFormed mm'
      → Without pos.iter (mm.lists (list_at mm.map pos.miter)) cells
      → mm'.map.nodes ≡ nodes_left cells pos.miter mm.map.nodes
      → ((k : Key)
          → IsKey k
          → same_key (some key) (key_bytes k) ≡ true
          → Without pos.iter (cells_of mm k) (cells_of mm' k))
      → ((k : Key)
          → IsKey k
          → same_key (some key) (key_bytes k) ≡ false
          → cells_of mm' k ≡ cells_of mm k)
      → RemovedItem mm pos (some (after, mm'))

module _ (mm : Multimap) (pos : Position) (w : WellFormed mm) (pre : List Entry) (e : Entry)
    (rest : List Entry) (split : mm.map.nodes ≡ pre ++ e ∷ rest)
    (here : list_at mm.map pos.miter ≡ e.node.val) where
  owned :
      ((e.node.val == null) ≡ false)
      × (has_val e.node.val (pre ++ rest) ≡ false)
      × Owned (pre ++ rest)
  owned = Owned-split pre e rest (subst Owned split w.owned)

  -- The list of `e` has lost its cell; `es` are the nodes afterwards, without `e` where the list is
  -- empty.
  abbrev lists' : Ptr → Cells
  lists' = set_list mm.lists e.node.val (erase_cell pos.iter (mm.lists e.node.val))

  apart : (null == e.node.val) ≡ false
  apart = ground (arith, owned.0)
