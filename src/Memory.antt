-- ===== src/Memory.antt =====
-- cc_memory.h and cc_memory.c, the accounting of allocations, as it is built without MEMORY_DEBUG. A
-- block has a header with the size that was asked for, and the caller gets the address behind it. The
-- mutex makes each update of the two counters one step.
pub mod Steps
pub mod Room
pub mod Debug
pub mod Calls
pub mod Table
pub mod Tests
use libcc.Base.{ℕ, ◌+◌, ◌-◌, ◌*◌, ◌%◌, ◌^◌, ◌==◌, if◌then◌else◌, Option, none, some, List, [], ◌∷◌}
use libcc.CcList.Store.{Ptr, null}

-- sizeof(cc_memory_t)
abbrev pub header : ℕ
header = 8

-- A block of the system's allocator: its address, the size in its header, and the bytes it has.
pub record Block : Type 0 where
  pub mem : Ptr
  pub size : ℕ
  pub bytes : ℕ

-- The blocks that are allocated, memory_count and memory_size.
pub record Memory : Type 0 where
  pub blocks : List Block
  pub count : ℕ
  pub size : ℕ

abbrev pub wrap : ℕ → ℕ
wrap n = n % 2 ^ 64

-- The block at an address.
unfoldable pub block_at : Ptr → List Block → Option Block
block_at mem [] = none
block_at mem (b ∷ bs) = if b.mem == mem then some b else block_at mem bs

unfoldable pub release : Ptr → List Block → List Block
release mem [] = []
release mem (b ∷ bs) = if b.mem == mem then bs else b ∷ release mem bs

-- A block of the system is counted.
unfoldable pub record_block : (mem : Ptr) → (size bytes : ℕ) → Memory → Memory
record_block mem size bytes m = record {
  blocks = record { mem = mem; size = size; bytes = bytes } ∷ m.blocks;
  count = wrap (m.count + 1);
  size = wrap (m.size + size);
}

-- cc_malloc: `mem` is what the system's malloc returns.
unfoldable pub malloc : (mem : Ptr) → (size : ℕ) → Memory → Ptr × Memory
unfolding record_block
malloc mem size m =
    if mem == null
    then (null, m)
    else (mem + header, record_block mem size (wrap (size + header)) m)

-- cc_calloc
unfoldable pub calloc : (mem : Ptr) → (count size : ℕ) → Memory → Ptr × Memory
unfolding record_block
calloc mem count size m = if mem == null then (null, m) else (
  mem + header,
  record_block mem (wrap (count * size)) (wrap (wrap (count * size) + header)) m,
)

-- cc_realloc of a block: `mem2` is what the system's realloc returns.
unfoldable pub realloc_block :
    (mem1 mem2 : Ptr) → (size : ℕ) → Memory → Option Block → Option (Ptr × Memory)
unfolding release
realloc_block mem1 mem2 size m none = none
realloc_block mem1 mem2 size m (some b) =
    if mem2 == null
    then some (null, m)
    else some (
      mem2 + header,
      record {
        blocks =
            record { mem = mem2; size = size; bytes = wrap (size + header) }
            ∷ release mem1 m.blocks;
        count = m.count;
        size = wrap (m.size + wrap (size + 2 ^ 64 - b.size));
      },
    )

-- cc_realloc. `none` is a pointer to no block.
unfoldable pub realloc : (mem2 : Ptr) → (ptr : Ptr) → (size : ℕ) → Memory → Option (Ptr × Memory)
unfolding realloc_block malloc block_at
realloc mem2 ptr size m =
    if ptr == null
    then some (malloc mem2 size m)
    else realloc_block (ptr - header) mem2 size m (block_at (ptr - header) m.blocks)

-- cc_free of a block
unfoldable pub free_block : (mem : Ptr) → Memory → Option Block → Option Memory
unfolding release
free_block mem m none = none
free_block mem m (some b) = some (record {
  blocks = release mem m.blocks;
  count = wrap (m.count + 2 ^ 64 - 1);
  size = wrap (m.size + 2 ^ 64 - b.size);
})

-- cc_free
unfoldable pub free : Ptr → Memory → Option Memory
unfolding free_block block_at
free ptr m =
    if ptr == null then some m else free_block (ptr - header) m (block_at (ptr - header) m.blocks)

-- cc_memcount and cc_memsize
abbrev pub memcount : Memory → ℕ
memcount m = m.count

abbrev pub memsize : Memory → ℕ
memsize m = m.size

abbrev pub size_of_block : Option Block → Option ℕ
size_of_block none = none
size_of_block (some b) = some b.size

-- cc_memsizeptr
unfoldable pub memsizeptr : Ptr → Memory → Option ℕ
unfolding block_at
memsizeptr ptr m = if ptr == null then some 0 else size_of_block (block_at (ptr - header) m.blocks)
