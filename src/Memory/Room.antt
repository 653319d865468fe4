-- ===== src/Memory/Room.antt =====
-- What cc_malloc and cc_calloc of cc_memory.c return.
use libcc.Base.{
  ℕ, ◌+◌, ◌-◌, ◌*◌, ◌^◌, ◌<◌, ◌≡◌, Bool, false, ◌==◌, Option, none, some, arith, leb, ltb,
  Bool-cases, inl, inr, ap, ==_refl,
}
use libcc.CcList.Store.{Ptr, null}
use libcc.Memory.{
  Block, Memory, header, wrap, block_at, release, record_block, malloc, calloc, free_block, free,
}
use libcc.Memory.Steps.{Counted}

-- Whether the block of a pointer has its header and this many bytes behind it.
abbrev holds : ℕ → Option Block → Bool
holds n none = false
holds n (some b) = leb (n + header) b.bytes

unfoldable pub has_room : Ptr → ℕ → Memory → Bool
unfolding block_at
has_room ptr n m = holds n (block_at (ptr - header) m.blocks)

-- Where the system has a block, cc_malloc and then cc_free of what it returned leave the memory as it
-- was, the counters included.
pub free-malloc :
    (mem : Ptr) (size : ℕ) (m : Memory)
    → (mem == null) ≡ false
    → size < 2 ^ 64
    → Counted m
    → free (malloc mem size m).0 (malloc mem size m).1 ≡ some m
unfolding free malloc record_block block_at free_block release
free-malloc mem size m got lt c =
    let count = c.count in
    let sum = c.size in
    let back : mem + 8 - 8 ≡ mem = omega arith in
    let some_ptr : (mem + 8 == null) ≡ false = ground arith in
    let count_back : wrap (wrap (m.count + 1) + 2 ^ 64 - 1) ≡ m.count = omega (arith, count) in
    let size_back : wrap (wrap (m.size + size) + 2 ^ 64 - size) ≡ m.size = omega (arith, sum) in
    rw (got, some_ptr, back, ==_refl mem) (ap some (rw (==_refl mem, count_back, size_back)))

-- Where the system has a block, the block that cc_calloc returns has room for the `count` objects of
-- `size` bytes exactly where their bytes and the header are less than 2^64: the product is not checked.
pub calloc-has_room :
    (mem : Ptr) (count size : ℕ) (m : Memory)
    → (mem == null) ≡ false
    → has_room (calloc mem count size m).0 (count * size) (calloc mem count size m).1
      ≡ ltb (count * size + header) (2 ^ 64)
unfolding has_room calloc record_block block_at
calloc-has_room mem count size m got =
    let back : mem + 8 - 8 ≡ mem = omega arith in rw (got, back, ==_refl mem) (room (count * size))
  where
    room : (n : ℕ) → leb (n + 8) (wrap (wrap n + 8)) ≡ ltb (n + 8) (2 ^ 64)
    room n = elim (Bool-cases (ltb (n + 8) (2 ^ 64))) [
      | inl fits ↦ ground arith
      | inr over ↦ ground arith
    ]
