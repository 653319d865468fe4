-- ===== src/CcList/Alloc.antt =====
-- cc_list.c: cc_listIter_new and cc_listIter_delete, which take an iterator from calloc, from the
-- local free iterators or from the pool, and give it back.
use libcc.Base.{zero, suc, ℕ, ◌==◌, if◌then◌else◌, none}
use libcc.CcList.Store.{Ptr, null, Cmd, pure, ◌>>=◌, ◌>>◌, load, store, set_next, calloc, free}
use libcc.CcList.Links.{CcList, iter_add, iter_remove}
use libcc.CcList.Pool.{Pool, pool_get, set_size}

-- `while(iter)`: the rest of a set goes to the local free iterators, the last one in front.
unfoldable pub keep_set : ℕ → (iter iters : Ptr) → Cmd Ptr
keep_set zero iter iters = λ _. none
keep_set (suc fuel) iter iters =
    if iter == null
    then pure iters
    else do n ← load iter; set_next iter iters; keep_set fuel n.next iter

-- The set of free iterators that the pool gives to a list that has none: at most `set_size`.
unfoldable pub take_from_pool : Ptr → CcList → Pool → Cmd (Ptr × CcList × Pool)
unfolding keep_set
take_from_pool fresh l pool = do
  (self, pool') ← pool_get fresh pool
  if self == null then pure (null, l, pool') else do
    n ← load self
    iters ← keep_set set_size n.next l.iters
    pure (self, record l { iters = iters }, pool')

-- Where cc_listIter_new has its iterator from: `fresh` is what calloc returns if it is called.
unfoldable pub acquire : Ptr → CcList → Pool → Cmd (Ptr × CcList × Pool)
unfolding take_from_pool
acquire fresh l pool =
    if l.cmalloc
    then (do self ← calloc fresh; pure (self, l, pool))
    else if l.iters == null
    then take_from_pool fresh l pool
    else do n ← load l.iters; pure (l.iters, record l { iters = n.next }, pool)

-- `iter->data = data`, and the data that stood there before: cc_list_replace.
unfoldable pub replace : Ptr → Ptr → Cmd Ptr
replace it val = do n ← load it; store it (record n { val = val }); pure n.val

-- cc_listIter_new
unfoldable pub iter_new : Ptr → CcList → Pool → (prev next val : Ptr) → Cmd (Ptr × CcList × Pool)
iter_new fresh l pool prev next val = do
  (self, l', pool') ← acquire fresh l pool
  if self == null
      then pure (null, l', pool')
      else do l'' ← iter_add self l' prev next; replace self val; pure (self, l'', pool')

-- The iterator goes back to the allocator or to the local free iterators.
unfoldable pub dispose : Ptr → CcList → Cmd CcList
dispose self l =
    if l.cmalloc
    then (do free self; pure l)
    else do set_next self l.iters; pure (record l { iters = self })

-- cc_listIter_delete: the data, the next iterator, which `*_self` gets, and the list.
unfoldable pub iter_delete : Ptr → CcList → Cmd (Ptr × Ptr × CcList)
iter_delete self l = if self == null then pure (null, null, l) else do
  n ← load self
  replace self null
  l' ← iter_remove self l
  l'' ← dispose self l'
  pure (n.val, n.next, l'')
