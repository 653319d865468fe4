-- ===== src/CcList/Links.antt =====
-- cc_list.c: the private functions that
-- link an iterator into a list, take it out and move it
-- (cc_listIter_add, cc_listIter_remove, cc_listIter_move), over the struct cc_list_t. The struct
-- lives outside the heap of iterators, so a function that changes it returns the new one.
use libcc.Base.{ℕ, ◌+◌, ◌-◌, Bool, ◌==◌, if◌then◌else◌}
use libcc.CcList.Store.{Ptr, null, Iter, Cmd, pure, ◌>>=◌, ◌>>◌, load, store, link_next, link_prev}

-- `cmalloc` is the flag CC_LIST_FLAG_CMALLOC, and `iters` the local free iterators.
pub record CcList : Type 0 where
  pub cmalloc : Bool
  pub size : ℕ
  pub head : Ptr
  pub tail : Ptr
  pub iters : Ptr

-- The writes by which an iterator comes to stand between `prev` and `next`.
unfoldable pub connect : Ptr → Iter → (prev next : Ptr) → Cmd (Unit {0})
connect self n prev next = do
  store self (record n { next = next; prev = prev })
  link_prev next self
  link_next prev self

-- The writes by which the neighbours of an iterator pass it by.
unfoldable pub disconnect : Iter → Cmd (Unit {0})
disconnect n = link_next n.prev n.next >> link_prev n.next n.prev

-- cc_listIter_add
unfoldable pub iter_add : Ptr → CcList → (prev next : Ptr) → Cmd CcList
unfolding connect
iter_add self l prev next = do
  n ← load self
  connect self n prev next
  pure (record l {
    head = if prev == null then self else l.head;
    tail = if next == null then self else l.tail;
    size = l.size + 1;
  })

-- cc_listIter_remove
unfoldable pub iter_remove : Ptr → CcList → Cmd CcList
unfolding disconnect
iter_remove self l = do
  n ← load self
  disconnect n
  store self (record n { next = null; prev = null })
  pure (record l {
    head = if self == l.head then n.next else l.head;
    tail = if self == l.tail then n.prev else l.tail;
    size = l.size - 1;
  })

-- The list once the iterator with these links is taken out by a move: one end changes at most.
abbrev pub cut : Ptr → CcList → Iter → CcList
cut self l n =
    if self == l.head
    then record l { head = n.next }
    else if self == l.tail
    then record l { tail = n.prev }
    else l

-- The list once the iterator stands at its new place.
abbrev pub paste : Ptr → CcList → (prev next : Ptr) → CcList
paste self l prev next =
    if prev == null
    then record l { head = self }
    else if next == null
    then record l { tail = self }
    else l

-- cc_listIter_move
unfoldable pub iter_move : Ptr → CcList → (prev next : Ptr) → Cmd CcList
unfolding connect disconnect
iter_move self l prev next = do
  n ← load self
  disconnect n
  connect self n prev next
  pure (paste self (cut self l n) prev next)
