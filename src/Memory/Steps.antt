-- ===== src/Memory/Steps.antt =====
-- Any sequence of calls of cc_memory.c.
use libcc.Base.{
  ℕ, suc, ◌+◌, ◌-◌, ◌*◌, ◌%◌, ◌^◌, ◌<◌, ◌≡◌, refl, Bool, false, ◌||◌, ◌==◌, if◌then◌else◌, Option,
  none, some, List, [], ◌∷◌, length, arith, Bool-cases, inl, inr, subst,
}
use libcc.CcList.Store.{Ptr, null}
use libcc.Memory.{
  Block, Memory, header, wrap, block_at, release, record_block, malloc, calloc, realloc_block,
  realloc, free_block, free,
}

abbrev pub live : Ptr → List Block → Bool
live mem [] = false
live mem (b ∷ bs) = (b.mem == mem) || live mem bs

-- The system never hands out a block that is in use.
abbrev pub Fresh : Ptr → List Block → Type 0
Fresh mem bs = live mem bs ≡ false

-- A call of a client and what the system answers. `realloc` may keep the address.
pub data Step : Memory → Memory → Type 0 where
  call_malloc :
      (mem : Ptr) (size : ℕ) (m : Memory)
      → size < 2 ^ 64
      → Fresh mem m.blocks
      → Step m (malloc mem size m).1
  call_calloc :
      (mem : Ptr) (count size : ℕ) (m : Memory)
      → Fresh mem m.blocks
      → Step m (calloc mem count size m).1
  call_realloc :
      (mem2 ptr : Ptr) (size : ℕ) (m m' : Memory) (r : Ptr)
      → size < 2 ^ 64
      → Fresh mem2 (if ptr == null then m.blocks else release (ptr - header) m.blocks)
      → realloc mem2 ptr size m ≡ some (r, m')
      → Step m m'
  call_free : (ptr : Ptr) (m m' : Memory) → free ptr m ≡ some m' → Step m m'

abbrev pub start : Memory
start = record { blocks = []; count = 0; size = 0 }

pub data Reach : Memory → Type 0 where
  init : Reach start
  after : (m m' : Memory) → Reach m → Step m m' → Reach m'

unfoldable pub total : List Block → ℕ
total [] = 0
total (b ∷ bs) = b.size + total bs

abbrev pub Sized : List Block → Type 0
Sized [] = Unit {0}
Sized (b ∷ bs) = (b.size < 2 ^ 64) × Sized bs

abbrev pub Apart : List Block → Type 0
Apart [] = Unit {0}
Apart (b ∷ bs) = Fresh b.mem bs × Apart bs

pub record Counted (m : Memory) : Type 0 where
  pub count : m.count ≡ length m.blocks % 2 ^ 64
  pub size : m.size ≡ total m.blocks % 2 ^ 64
  pub sized : Sized m.blocks
  pub apart : Apart m.blocks

record_block-Counted :
    (mem : Ptr) (size bytes : ℕ) (m : Memory)
    → size < 2 ^ 64
    → Fresh mem m.blocks
    → Counted m
    → Counted (record_block mem size bytes m)
unfolding record_block total
record_block-Counted mem size bytes m lt fresh c =
    let count = c.count in
    let total = c.size in
    record {
      count = omega arith;
      size = omega arith;
      sized = (lt, c.sized);
      apart = (fresh, c.apart);
    }

-- A block that is released is one of the blocks.
release_block :
    (mem : Ptr) (bs : List Block) (b : Block)
    → block_at mem bs ≡ some b
    → Sized bs
    → (length bs ≡ suc (length (release mem bs)))
      × (total bs ≡ b.size + total (release mem bs))
      × (b.size < 2 ^ 64)
unfolding block_at release total
release_block mem [] b e s = absurd (ground arith)
release_block mem (c ∷ bs) b e s = elim (Bool-cases (c.mem == mem)) [
  | inl here ↦
      let same : c ≡ b = ground arith in
      rw here (
        subst
          (λ b.
            (suc (length bs) ≡ suc (length bs))
            × (c.size + total bs ≡ b.size + total bs)
            × (b.size < 2 ^ 64))
          same (refl, refl, s.0))
  | inr other ↦
      let found : block_at mem bs ≡ some b = ground arith in
      let more = release_block mem bs b found s.1 in
      rw other (omega (arith, more), omega (arith, more), more.2)
]

live-release : (p mem : Ptr) (bs : List Block) → live p bs ≡ false → live p (release mem bs) ≡ false
unfolding release
live-release p mem [] out = refl
live-release p mem (b ∷ bs) out = ground (arith, live-release p mem bs)

Sized-release : (mem : Ptr) (bs : List Block) → Sized bs → Sized (release mem bs)
unfolding release
Sized-release mem [] s = tt
Sized-release mem (b ∷ bs) s = elim (Bool-cases (b.mem == mem)) [
  | inl here ↦ rw here s.1
  | inr other ↦ rw other (s.0, Sized-release mem bs s.1)
]

Apart-release : (mem : Ptr) (bs : List Block) → Apart bs → Apart (release mem bs)
unfolding release
Apart-release mem [] s = tt
Apart-release mem (b ∷ bs) s = elim (Bool-cases (b.mem == mem)) [
  | inl here ↦ rw here s.1
  | inr other ↦ rw other (live-release b.mem mem bs s.0, Apart-release mem bs s.1)
]

free_block-Counted :
    (mem : Ptr) (m m' : Memory) (o : Option Block)
    → block_at mem m.blocks ≡ o
    → free_block mem m o ≡ some m'
    → Counted m
    → Counted m'
unfolding free_block
free_block-Counted mem m m' none at e c = absurd (ground arith)
free_block-Counted mem m m' (some b) at e c =
    let count = c.count in
    let size = c.size in
    let gone = release_block mem m.blocks b at c.sized in
    let kept : Counted (record {
      blocks = release mem m.blocks;
      count = wrap (m.count + 2 ^ 64 - 1);
      size = wrap (m.size + 2 ^ 64 - b.size);
    }) =
      record {
        count = omega (arith, count, gone.0);
        size = omega (arith, size, gone.2);
        sized = Sized-release mem m.blocks c.sized;
        apart = Apart-release mem m.blocks c.apart;
      } in
    let same : record {
      blocks = release mem m.blocks;
      count = wrap (m.count + 2 ^ 64 - 1);
      size = wrap (m.size + 2 ^ 64 - b.size);
    }
        ≡ m' =
      ground arith in
    subst Counted same kept

realloc_block-Counted :
    (mem1 mem2 : Ptr) (size : ℕ) (m : Memory) (p : Ptr × Memory) (o : Option Block)
    → size < 2 ^ 64
    → Fresh mem2 (release mem1 m.blocks)
    → block_at mem1 m.blocks ≡ o
    → realloc_block mem1 mem2 size m o ≡ some p
    → Counted m
    → Counted p.1
unfolding realloc_block total
realloc_block-Counted mem1 mem2 size m p none lt fresh at e c = absurd (ground arith)
realloc_block-Counted mem1 mem2 size m p (some b) lt fresh at e c =
    elim (Bool-cases (mem2 == null)) [
      | inl out ↦ let same : (null, m) ≡ p = ground arith in subst (λ p. Counted p.1) same c
      | inr got ↦
          let count = c.count in
          let sum = c.size in
          let gone = release_block mem1 m.blocks b at c.sized in
          let m' : Memory = record {
            blocks =
                record { mem = mem2; size = size; bytes = wrap (size + header) }
                ∷ release mem1 m.blocks;
            count = m.count;
            size = wrap (m.size + wrap (size + 2 ^ 64 - b.size));
          } in
          let kept : Counted m' = record {
            count = omega (arith, count, gone.0);
            size = omega (arith, sum, gone.2);
            sized = (lt, Sized-release mem1 m.blocks c.sized);
            apart = (fresh, Apart-release mem1 m.blocks c.apart);
          } in
          let same : (mem2 + header, m') ≡ p = ground arith in subst (λ p. Counted p.1) same kept
    ]

malloc-Counted :
    (mem : Ptr) (size : ℕ) (m : Memory)
    → size < 2 ^ 64
    → Fresh mem m.blocks
    → Counted m
    → Counted (malloc mem size m).1
unfolding malloc
malloc-Counted mem size m lt fresh c = elim (Bool-cases (mem == null)) [
  | inl out ↦ rw out c
  | inr got ↦ rw got (record_block-Counted mem size _ m lt fresh c)
]

calloc-Counted :
    (mem : Ptr) (count size : ℕ) (m : Memory)
    → Fresh mem m.blocks
    → Counted m
    → Counted (calloc mem count size m).1
unfolding calloc
calloc-Counted mem count size m fresh c = elim (Bool-cases (mem == null)) [
  | inl out ↦ rw out c
  | inr got ↦ rw got (record_block-Counted mem (wrap (count * size)) _ m (omega arith) fresh c)
]

Step-Counted : (m m' : Memory) → Step m m' → Counted m → Counted m'
unfolding realloc free
Step-Counted m _ (call_malloc mem size _ lt fresh) c = malloc-Counted mem size m lt fresh c
Step-Counted m _ (call_calloc mem count size _ fresh) c = calloc-Counted mem count size m fresh c
Step-Counted m m' (call_realloc mem2 ptr size _ _ r lt fresh e) c =
    elim (Bool-cases (ptr == null)) [
      | inl none_yet ↦
          let fresh' : Fresh mem2 m.blocks = rw none_yet at fresh in
          let same : malloc mem2 size m ≡ (r, m') = ground arith in
          subst (λ p. Counted p.1) same (malloc-Counted mem2 size m lt fresh' c)
      | inr old ↦
          realloc_block-Counted (ptr - header) mem2 size m (r, m') _ lt (rw old at fresh) refl
            (rw old at e) c
    ]
Step-Counted m m' (call_free ptr _ _ e) c = elim (Bool-cases (ptr == null)) [
  | inl nothing ↦ let same : m ≡ m' = ground arith in subst Counted same c
  | inr old ↦ free_block-Counted (ptr - header) m m' _ refl (rw old at e) c
]

-- In every state of the memory that any sequence of calls can reach, memory_count is the number of
-- the blocks that are allocated and memory_size the sum of their sizes, both as 64-bit numbers, and no
-- two of the blocks have the same address.
pub Reach-Counted : (m : Memory) → Reach m → Counted m
unfolding total
Reach-Counted _ init = record { count = refl; size = refl; sized = tt; apart = tt }
Reach-Counted m' (after m _ r step) = Step-Counted m m' step (Reach-Counted m r)
