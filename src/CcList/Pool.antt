-- ===== src/CcList/Pool.antt =====
-- cc_list.c: the global pool of free iterators (cc_listPool_get, cc_listPool_put). The mutex makes
-- each of the two one step. A block is named by the address of its first iterator, and the
-- iterators of a block stand at consecutive addresses.
use libcc.Base.{ℕ, zero, suc, ◌+◌, ◌-◌, ◌^◌, ◌%◌, List, [], ◌∷◌, none, ltb, ◌==◌, if◌then◌else◌}
use libcc.CcList.Store.{Ptr, null, Cmd, pure, ◌>>=◌, ◌>>◌, calloc, load, set_next, free}

-- CC_LISTBLOCK_SIZE and CC_LISTSET_SIZE
abbrev pub block_size : ℕ
block_size = 1024

abbrev pub set_size : ℕ
set_size = 32

pub record Pool : Type 0 where
  pub refcount : ℕ
  pub count : ℕ
  pub iters : Ptr
  pub blocks : List Ptr

-- CALLOC of a block, which fills it with zeros.
unfoldable pub calloc_block : ℕ → Ptr → Cmd (Unit {0})
calloc_block zero p = pure tt
calloc_block (suc n) p = calloc p >> calloc_block n (p + 1)

-- `for(i = 0; i < CC_LISTBLOCK_SIZE; ++i)`: each iterator of the block in front of the free ones.
unfoldable pub push_block : ℕ → Ptr → Ptr → Cmd Ptr
push_block zero p iters = pure iters
push_block (suc n) p iters = set_next p iters >> push_block n (p + 1) p

-- The new block of `get`, at the address `block`.
unfoldable pub add_block : Ptr → Pool → Cmd Pool
unfolding calloc_block push_block
add_block block pool = do
  calloc_block block_size block
  iters ← push_block block_size block pool.iters
  pure
      (record pool { count = pool.count + block_size; iters = iters; blocks = block ∷ pool.blocks })

-- `for(i = 0; i < CC_LISTSET_SIZE; ++i)`: the last iterator of the set and the first one behind it.
unfoldable pub take_set : ℕ → (tail iters : Ptr) → Cmd (Ptr × Ptr)
take_set zero tail iters = pure (tail, iters)
take_set (suc n) tail iters = do i ← load iters; take_set n iters i.next

unfoldable pub get_set : Pool → Cmd (Ptr × Pool)
unfolding take_set
get_set pool = do
  (tail, rest) ← take_set set_size null pool.iters
  set_next tail null
  pure (
    pool.iters,
    record pool {
      refcount = pool.refcount + set_size;
      count = pool.count - set_size;
      iters = rest;
    },
  )

-- cc_listPool_get: `block` is what CALLOC returns if it is called.
unfoldable pub pool_get : Ptr → Pool → Cmd (Ptr × Pool)
unfolding add_block get_set
pool_get block pool =
    if ltb pool.count set_size
    then (if block == null then pure (null, pool) else (add_block block pool >>= get_set))
    else get_set pool

-- The walk to the tail that counts the iterators.
unfoldable pub count_iters : ℕ → (count : ℕ) (tail : Ptr) → Cmd (ℕ × Ptr)
count_iters zero count tail = λ _. none
count_iters (suc fuel) count tail = do
  i ← load tail
  if i.next == null then pure (count, tail) else count_iters fuel (count + 1) i.next

unfoldable pub free_block : ℕ → Ptr → Cmd (Unit {0})
free_block zero p = pure tt
free_block (suc n) p = free p >> free_block n (p + 1)

unfoldable pub free_blocks : List Ptr → Cmd (Unit {0})
unfolding free_block
free_blocks [] = pure tt
free_blocks (b ∷ bs) = free_block block_size b >> free_blocks bs

-- `pool->refcount -= count` on a size_t
abbrev pub sub_size : ℕ → ℕ → ℕ
sub_size a b = (a + 2 ^ 64 - b) % 2 ^ 64

unfoldable pub release_blocks : Pool → Cmd Pool
unfolding free_blocks
release_blocks pool =
    if pool.refcount == 0
    then (do free_blocks pool.blocks; pure (record pool { iters = null; count = 0; blocks = [] }))
    else pure pool

-- cc_listPool_put: `fuel` bounds the walk over the iterators that come back.
unfoldable pub pool_put : ℕ → Ptr → Pool → Cmd Pool
unfolding count_iters release_blocks
pool_put fuel iters pool = if iters == null then pure pool else do
  (count, tail) ← count_iters fuel 1 iters
  set_next tail pool.iters
  release_blocks (record pool {
    refcount = sub_size pool.refcount count;
    count = pool.count + count;
    iters = iters;
  })
