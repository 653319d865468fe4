-- ===== src/Multimap.antt =====
-- cc_multimap.h and cc_multimap.c: a map from keys to lists, over cc_map.c and cc_list.c. The value of
-- a node of the map is the address of a list, and `lists` gives the cells that the list at an address
-- stands for, each an iterator and its data.
pub mod Vals
pub mod Add
pub mod Added
pub mod Remove
pub mod Tests
use libcc.Base.{
  ℕ, ◌+◌, ◌==◌, if◌then◌else◌, Bool, true, false, Option, none, some, List, [], ◌∷◌, ◌++◌, length,
}
use libcc.CcList.Store.{Ptr, null}
use libcc.CcList.Chain.{Cells}
use libcc.CcList.Ops.{Compare}
use libcc.CcList.Sorted.{place}
use libcc.Murmur.{Bytes}
use libcc.Map.{Entry, Map, Answers, head}
use libcc.Map.Calls.{Key, bytes_at, remove, remove_entry, val_of, next, addp, findp, size}

-- cc_multimap_t
pub record Multimap : Type 0 where
  pub map : Map
  pub compare : Option Compare
  pub lists : Ptr → Cells

-- cc_multimapIter_t
pub record Position : Type 0 where
  pub miter : Ptr
  pub iter : Ptr

-- What the allocators answer to cc_list_new, to the list for an iterator, and to the map.
pub record AddAnswers : Type 0 where
  pub list : Ptr
  pub iter : Ptr
  pub map : Answers

-- cc_multimap_new, over the map that cc_map_new returns.
unfoldable pub new : (self_ok : Bool) → Option Map → Option Compare → Option Multimap
new self_ok none compare = none
new self_ok (some map) compare =
    if self_ok then some (record { map = map; compare = compare; lists = λ p. [] }) else none

abbrev pub or_null : Option Ptr → Ptr
or_null none = null
or_null (some p) = p

-- cc_map_val, and null for no iterator.
unfoldable pub list_at : Map → Ptr → Ptr
unfolding val_of
list_at map miter = if miter == null then null else or_null (val_of map miter)

-- cc_list_head
abbrev pub head_cell : Cells → Ptr
head_cell [] = null
head_cell ((p, v) ∷ cells) = p

-- cc_list_next and cc_list_peekIter
abbrev pub next_cell : Ptr → Cells → Ptr
next_cell it [] = null
next_cell it ((p, v) ∷ cells) = if p == it then head_cell cells else next_cell it cells

abbrev pub data_at : Ptr → Cells → Ptr
data_at it [] = null
data_at it ((p, v) ∷ cells) = if p == it then v else data_at it cells

abbrev pub erase_cell : Ptr → Cells → Cells
erase_cell it [] = []
erase_cell it ((p, v) ∷ cells) = if p == it then cells else (p, v) ∷ erase_cell it cells

-- A map's iterator, and the head of its list.
unfoldable pub enter : Multimap → Ptr → Option Position
unfolding list_at
enter mm miter =
    if miter == null
    then none
    else some (record { miter = miter; iter = head_cell (mm.lists (list_at mm.map miter)) })

-- cc_multimap_size, cc_multimap_sizeof, cc_multimap_key, cc_multimap_val and cc_multimap_list
abbrev pub multimap_size : Multimap → ℕ
multimap_size mm = size mm.map

unfoldable pub item : Multimap → Position → Ptr
unfolding list_at
item mm pos = data_at pos.iter (mm.lists (list_at mm.map pos.miter))

-- cc_multimap_head
unfoldable pub first : Multimap → Option Position
unfolding enter
first mm = enter mm (head mm.map.nodes)

-- cc_multimap_nextList
unfoldable pub next_list : Multimap → Position → Option Position
unfolding enter next
next_list mm pos = enter mm (or_null (next mm.map pos.miter))

-- cc_multimap_nextItem
unfoldable pub next_item : Multimap → Position → Option Position
unfolding list_at
next_item mm pos =
    let it = next_cell pos.iter (mm.lists (list_at mm.map pos.miter)) in
    if it == null then none else some (record { miter = pos.miter; iter = it })

-- cc_multimap_next
unfoldable pub next_position : Multimap → Position → Option Position
unfolding next_item next_list
next_position mm pos = elim (next_item mm pos) [ none ↦ next_list mm pos | some pos' ↦ some pos' ]

-- cc_multimap_findp: the list, and the position that `*mmiter` gets.
unfoldable pub find_list : Multimap → Key → Ptr × Option Position
unfolding findp list_at enter
find_list mm k = let miter = findp mm.map k in (list_at mm.map miter, enter mm miter)

-- cc_multimap_find, and cc_multimap_findf on the text that vsnprintf makes.
unfoldable pub find_text : Multimap → Bytes → Ptr × Option Position
unfolding find_list
find_text mm str = find_list mm (bytes_at (str ++ 0 ∷ []))

-- cc_list_append, or cc_list_insertSorted where there is a comparison.
unfoldable pub insert_val : Option Compare → (iter val : Ptr) → Cells → Cells
unfolding place
insert_val none iter val cells = cells ++ (iter, val) ∷ []
insert_val (some compare) iter val cells = place compare iter val cells

abbrev pub set_list : (Ptr → Cells) → Ptr → Cells → Ptr → Cells
set_list lists list cells p = if p == list then cells else lists p

-- cc_multimap_addp where the key has a list.
unfoldable pub add_to_list : AddAnswers → Multimap → (list val : Ptr) → Bool × Multimap
unfolding insert_val
add_to_list a mm list val = if a.iter == null then (false, mm) else (
  true,
  record mm { lists = set_list mm.lists list (insert_val mm.compare a.iter val (mm.lists list)) },
)

-- The new list is freed where the map does not take it.
abbrev pub keep_list : AddAnswers → Multimap → (val : Ptr) → Ptr × Map → Bool × Multimap
keep_list a mm val r =
    if r.0 == null
    then (false, record mm { map = r.1 })
    else (true, record mm { map = r.1; lists = set_list mm.lists a.list ((a.iter, val) ∷ []) })

unfoldable pub add_new_list : AddAnswers → Multimap → Key → (val : Ptr) → Bool × Multimap
unfolding addp
add_new_list a mm k val =
    if a.list == null
    then (false, mm)
    else if a.iter == null
    then (false, mm)
    else keep_list a mm val (addp a.map mm.map k a.list)

-- cc_multimap_addp
unfoldable pub add_val : AddAnswers → Multimap → Key → (val : Ptr) → Bool × Multimap
unfolding find_list add_to_list add_new_list
add_val a mm k val =
    let list = list_at mm.map (findp mm.map k) in
    if list == null then add_new_list a mm k val else add_to_list a mm list val

-- cc_multimap_add, and cc_multimap_addf on the text that vsnprintf makes.
unfoldable pub add_text : AddAnswers → Multimap → Bytes → (val : Ptr) → Bool × Multimap
unfolding add_val
add_text a mm str val = add_val a mm (bytes_at (str ++ 0 ∷ [])) val

-- The list at the position has lost its last cell: its key leaves the map.
unfoldable pub remove_key :
    Multimap → (list : Ptr) → Option (Ptr × Ptr × Map) → Option (Option Position × Multimap)
unfolding enter
remove_key mm list none = none
remove_key mm list (some (v, miter, map)) =
    let mm' = record mm { map = map; lists = set_list mm.lists list [] } in
    some (enter mm' miter, mm')

unfoldable pub remove_cell :
    Multimap → Position → (list iter : Ptr) → Cells → Option (Option Position × Multimap)
unfolding remove_key remove enter next
remove_cell mm pos list iter [] = remove_key mm list (remove mm.map pos.miter)
remove_cell mm pos list iter (c ∷ cells) =
    let mm' = record mm { lists = set_list mm.lists list (c ∷ cells) } in
    if iter == null
    then some (enter mm' (or_null (next mm.map pos.miter)), mm')
    else some (some (record { miter = pos.miter; iter = iter }), mm')

-- cc_multimap_remove: the data are those of `item`. `none` is a position outside of the map, and no
-- position the end of the walk.
unfoldable pub remove_item : Multimap → Position → Option (Option Position × Multimap)
unfolding remove_cell list_at
remove_item mm pos =
    let list = list_at mm.map pos.miter in
    let cells = mm.lists list in
    remove_cell mm pos list (next_cell pos.iter cells) (erase_cell pos.iter cells)

-- cc_multimap_discard: the loop removes the first node until there is none.
unfoldable pub discard_lists : List Entry → Multimap → Multimap
unfolding remove_entry
discard_lists [] mm = mm
discard_lists (e ∷ es) mm =
    discard_lists es
      (record mm { map = remove_entry mm.map e es; lists = set_list mm.lists e.node.val [] })

unfoldable pub discard : Multimap → Multimap
unfolding discard_lists
discard mm = discard_lists mm.map.nodes mm
