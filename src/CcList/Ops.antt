-- ===== src/CcList/Ops.antt =====
-- cc_list.c: the public functions. The pool and the address that the allocator returns, `fresh`,
-- are arguments of those that need a new iterator. A loop runs on fuel, one round for each iterator
-- and one more. A comparison counts by its sign alone.
use Prim.Native.Nat.{Ordering}
use libcc.Base.{ℕ, zero, suc, ◌+◌, ◌-◌, ◌*◌, Bool, true, false, ◌==◌, if◌then◌else◌, none}
use libcc.CcList.Store.{Ptr, null, Cmd, pure, ◌>>=◌, ◌>>◌, load, set_next, set_prev}
use libcc.CcList.Links.{CcList, iter_add, iter_remove, iter_move}
use libcc.CcList.Pool.{Pool}
use libcc.CcList.Alloc.{iter_new, iter_delete}

-- cc_listcmp_fn: the sign of the number that it returns.
abbrev pub Compare : Type 0
Compare = Ptr → Ptr → Ordering

abbrev pub is_eq : Ordering → Bool
is_eq Ordering.eq = true
is_eq _ = false

abbrev pub is_lt : Ordering → Bool
is_lt Ordering.lt = true
is_lt _ = false

-- cc_list_new and cc_list_newCMalloc, where the allocation succeeds.
pub new_flags : Bool → CcList
new_flags cmalloc = record { cmalloc = cmalloc; size = 0; head = null; tail = null; iters = null }

-- cc_list_sizeof, over the sizes of the two structs.
unfoldable pub size_of : (list_size iter_size : ℕ) → CcList → ℕ
size_of list_size iter_size l = list_size + l.size * iter_size

-- cc_list_peekIter
unfoldable pub peek_iter : Ptr → Cmd Ptr
peek_iter it = do n ← load it; pure n.val

unfoldable pub peek_head : CcList → Cmd Ptr
unfolding peek_iter
peek_head l = if l.size == 0 then pure null else peek_iter l.head

unfoldable pub peek_tail : CcList → Cmd Ptr
unfolding peek_iter
peek_tail l = if l.size == 0 then pure null else peek_iter l.tail

-- cc_list_get, for an index that is not negative.
unfoldable pub get_loop : ℕ → Ptr → ℕ → Cmd Ptr
get_loop zero it idx = λ _. none
get_loop (suc fuel) it idx =
    if it == null
    then pure null
    else if idx == 0
    then pure it
    else do n ← load it; get_loop fuel n.next (idx - 1)

unfoldable pub get : CcList → ℕ → Cmd Ptr
unfolding get_loop
get l idx = get_loop (l.size + 1) l.head idx

-- cc_list_peekIndex, for an index that is not negative.
unfoldable pub peek_index_loop : ℕ → Ptr → ℕ → Cmd Ptr
peek_index_loop zero it idx = λ _. none
peek_index_loop (suc fuel) it idx =
    if it == null
    then pure null
    else if idx == 0
    then peek_iter it
    else do n ← load it; peek_index_loop fuel n.next (idx - 1)

unfoldable pub peek_index : CcList → ℕ → Cmd Ptr
unfolding peek_index_loop peek_iter
peek_index l idx = peek_index_loop (l.size + 1) l.head idx

unfoldable pub find_loop : Compare → Ptr → ℕ → Ptr → Cmd Ptr
find_loop compare val zero it = λ _. none
find_loop compare val (suc fuel) it = if it == null then pure null else do
  n ← load it
  if is_eq (compare n.val val) then pure it else find_loop compare val fuel n.next

-- cc_list_find
unfoldable pub find : CcList → Ptr → Compare → Cmd Ptr
unfolding find_loop
find l val compare = find_loop compare val (l.size + 1) l.head

unfoldable pub find_sorted_loop : Compare → Ptr → ℕ → Ptr → Cmd Ptr
find_sorted_loop compare val zero it = λ _. none
find_sorted_loop compare val (suc fuel) it = if it == null then pure null else do
  n ← load it
  if is_eq (compare val n.val)
      then pure it
      else if is_lt (compare val n.val)
      then pure null
      else find_sorted_loop compare val fuel n.next

-- cc_list_findSorted
unfoldable pub find_sorted : CcList → Ptr → Compare → Cmd Ptr
unfolding find_sorted_loop
find_sorted l val compare = find_sorted_loop compare val (l.size + 1) l.head

-- cc_list_insert
unfoldable pub insert : Ptr → CcList → Pool → (it val : Ptr) → Cmd (Ptr × CcList × Pool)
insert fresh l pool it val =
    if it == null
    then iter_new fresh l pool null l.head val
    else do n ← load it; iter_new fresh l pool n.prev it val

-- cc_list_append
unfoldable pub append : Ptr → CcList → Pool → (it val : Ptr) → Cmd (Ptr × CcList × Pool)
append fresh l pool it val =
    if it == null
    then iter_new fresh l pool l.tail null val
    else do n ← load it; iter_new fresh l pool it n.next val

unfoldable pub insert_sorted_loop :
    Ptr → CcList → Pool → Compare → Ptr → ℕ → Ptr → Cmd (Ptr × CcList × Pool)
insert_sorted_loop fresh l pool compare val zero it = λ _. none
insert_sorted_loop fresh l pool compare val (suc fuel) it =
    if it == null then append fresh l pool null val else do
      d ← peek_iter it
      if is_lt (compare val d)
          then insert fresh l pool it val
          else do n ← load it; insert_sorted_loop fresh l pool compare val fuel n.next

-- cc_list_insertSorted
unfoldable pub insert_sorted : Ptr → CcList → Pool → Compare → Ptr → Cmd (Ptr × CcList × Pool)
unfolding insert_sorted_loop peek_iter
insert_sorted fresh l pool compare val =
    insert_sorted_loop fresh l pool compare val (l.size + 1) l.head

-- cc_list_remove
unfoldable pub remove : CcList → Ptr → Cmd (Ptr × Ptr × CcList)
remove l it = iter_delete it l

unfoldable pub discard_loop : ℕ → CcList → Ptr → Cmd CcList
unfolding remove
discard_loop zero l it = λ _. none
discard_loop (suc fuel) l it =
    if it == null then pure l else do (val, next, l') ← remove l it; discard_loop fuel l' next

-- cc_list_discard
unfoldable pub discard : CcList → Cmd CcList
unfolding discard_loop
discard l = discard_loop (l.size + 1) l l.head

-- cc_list_move
unfoldable pub move : CcList → (from to : Ptr) → Cmd CcList
move l from to =
    let to' = if to == null then l.head else to in
    do
      n ← load to'
      if from == to' then pure l else if from == n.prev then pure l else iter_move from l n.prev to'

-- cc_list_moven
unfoldable pub moven : CcList → (from to : Ptr) → Cmd CcList
moven l from to =
    let to' = if to == null then l.tail else to in
    do
      n ← load to'
      if from == to' then pure l else if from == n.next then pure l else iter_move from l to' n.next

-- cc_list_swap, of two lists that are not one.
unfoldable pub swap : (from_list to_list : CcList) → (from to : Ptr) → Cmd (CcList × CcList)
swap from_list to_list from to = do
  from_list' ← iter_remove from from_list
  if to == null
      then (do to_list' ← iter_add from to_list null to_list.head; pure (from_list', to_list'))
      else do n ← load to; to_list' ← iter_add from to_list n.prev to; pure (from_list', to_list')

-- cc_list_swapn, of two lists that are not one.
unfoldable pub swapn : (from_list to_list : CcList) → (from to : Ptr) → Cmd (CcList × CcList)
swapn from_list to_list from to = do
  from_list' ← iter_remove from from_list
  if to == null
      then (do to_list' ← iter_add from to_list to_list.tail null; pure (from_list', to_list'))
      else do n ← load to; to_list' ← iter_add from to_list to n.next; pure (from_list', to_list')

-- The list after its iterators went to another.
abbrev pub emptied : CcList → CcList
emptied l = record l { head = null; tail = null; size = 0 }

-- cc_list_appendList
unfoldable pub append_list : (self from : CcList) → Cmd (CcList × CcList)
append_list self from =
    if from.size == 0
    then pure (self, from)
    else if self.size == 0
    then pure (record self { head = from.head; tail = from.tail; size = from.size }, emptied from)
    else do
      set_next self.tail from.head
      set_prev from.head self.tail
      pure (record self { tail = from.tail; size = self.size + from.size }, emptied from)

-- cc_list_insertList
unfoldable pub insert_list : (self from : CcList) → Cmd (CcList × CcList)
insert_list self from =
    if from.size == 0
    then pure (self, from)
    else if self.size == 0
    then pure (record self { head = from.head; tail = from.tail; size = from.size }, emptied from)
    else do
      set_prev self.head from.tail
      set_next from.tail self.head
      pure (record self { head = from.head; size = self.size + from.size }, emptied from)
