-- ===== src/Memory/Tests.antt =====
-- The accounting on a concrete memory.
use libcc.Base.{
  ℕ, ◌+◌, ◌*◌, ◌^◌, ◌≡◌, ◌==◌, if◌then◌else◌, refl, true, false, Option, none, some, [], ◌∷◌, arith,
  ltb,
}
use libcc.Memory.{
  Memory, header, block_at, release, record_block, malloc, calloc, realloc, free, memsizeptr,
}
use libcc.Memory.Steps.{
  call_malloc, call_calloc, call_realloc, call_free, Reach, init, after, start, Counted,
  Reach-Counted,
}
use libcc.CcList.Store.{Ptr, null}
use libcc.Murmur.{mumurhash3}
use libcc.Map.{Answers, new, add_at, cmp_node}
use libcc.Map.Calls.{pointer, key_bytes, add, addp}
use libcc.Map.Find.{lookup}
use libcc.Map.Added.{addp-AddedTo}
use libcc.Map.Remove.{new-Inv}
use libcc.Memory.Debug.{Meminfo, InfoAnswers, meminfo_rem, memcheckptr}
use libcc.Memory.Calls.{DebugMemory, meminfo_init, malloc_debug, realloc_debug, memory_memcheckptr}
use libcc.Memory.Table.{Tracks, memcheckptr-meminfo_rem}
use libcc.Memory.Room.{has_room, calloc-has_room}

abbrev one : Memory
one = (malloc 1000 24 start).1

one-Reach : Reach one
one-Reach = after start one init (call_malloc 1000 24 start (omega arith) refl)

abbrev two : Memory
two = (calloc 2000 3 8 one).1

two-Reach : Reach two
unfolding malloc record_block
two-Reach = after one two one-Reach (call_calloc 2000 3 8 one refl)

-- The block moves when it grows.
abbrev moved : Memory
moved = record {
  blocks =
      record { mem = 3000; size = 100; bytes = 108 }
      ∷ record { mem = 2000; size = 24; bytes = 32 }
      ∷ [];
  count = 2;
  size = 124;
}

moved-Reach : Reach moved
unfolding malloc calloc record_block release realloc block_at
moved-Reach =
    after two moved two-Reach (call_realloc 3000 1008 100 two moved 3008 (omega arith) refl refl)

abbrev freed : Memory
freed = record {
  blocks = record { mem = 3000; size = 100; bytes = 108 } ∷ [];
  count = 1;
  size = 100;
}

freed-Reach : Reach freed
unfolding free block_at release
freed-Reach = after moved freed moved-Reach (call_free 2008 moved freed refl)

Reach-Counted_example : Counted freed
Reach-Counted_example = Reach-Counted freed freed-Reach

calloc-has_room_example :
    has_room (calloc 4000 (2 ^ 61) 8 freed).0 (2 ^ 61 * 8) (calloc 4000 (2 ^ 61) 8 freed).1
    ≡ ltb (2 ^ 61 * 8 + header) (2 ^ 64)
calloc-has_room_example = calloc-has_room 4000 (2 ^ 61) 8 freed refl

-- The block for 2 ^ 61 objects of 8 bytes has the header alone.
test_overflow :
    memsizeptr (calloc 4000 (2 ^ 61) 8 freed).0 (calloc 4000 (2 ^ 61) 8 freed).1 ≡ some 0
unfolding calloc record_block memsizeptr
test_overflow = refl

abbrev answers : Ptr → Answers
answers it = record { node_ok = true; iter = it; realloc_ok = true }

-- A table with an allocation of 24 bytes at 64.
abbrev table : Meminfo
table = record {
  map_ator = new 7;
  map_pinfo = (addp (answers 10) (new 7) (pointer 64) 500).1;
  ators = λ p. none;
  pinfos = λ p. some (record { ator_ref = 300; ptr = 64; size = 24 });
}

table-Tracks : Tracks table
unfolding new lookup key_bytes
table-Tracks = record {
  map =
      (addp-AddedTo (answers 10) (new 7) (pointer 64) 500 (new-Inv 7) tt refl refl (omega arith)).1;
  known = λ it h. (record { ator_ref = 300; ptr = 64; size = 24 }, refl);
}

memcheckptr-meminfo_rem_example :
    memcheckptr (meminfo_rem table 64) 64 ≡ (if 64 == 64 then false else memcheckptr table 64)
memcheckptr-meminfo_rem_example =
    memcheckptr-meminfo_rem table 64 64 table-Tracks (omega arith) (omega arith)

-- A table that is filled by the calls: cc_malloc_debug, and a cc_realloc_debug that fails.
abbrev info_answers : InfoAnswers
info_answers = record {
  name = 102 ∷ 64 ∷ 49 ∷ [];
  ator = 300;
  ator_map = some (new 8);
  add_ator = answers 20;
  pinfo = 500;
  add_pinfo = answers 10;
  add_ref = answers 30;
}

abbrev init_debug : Option Meminfo → Option Meminfo
init_debug = meminfo_init true (some (new 7)) (some (new 9))

abbrev one_debug : DebugMemory
one_debug =
    (malloc_debug info_answers init_debug 1000 24 (record { memory = start; info = none })).1

test_memcheckptr : memory_memcheckptr init_debug 1008 one_debug ≡ true
unfolding malloc_debug new mumurhash3 memory_memcheckptr add_at meminfo_init cmp_node add
test_memcheckptr = refl

abbrev recorded_size : (pinfo : Ptr) → Option (Ptr × DebugMemory) → Option ℕ
recorded_size pinfo none = none
recorded_size pinfo (some (p, d)) = size_at d.info
  where
    size_at : Option Meminfo → Option ℕ
    size_at none = none
    size_at (some info) = elim (info.pinfos pinfo) [ none ↦ none | some p ↦ some p.size ]

-- The block has 24 bytes still, and the table says 100.
test_realloc :
    recorded_size 500 (realloc_debug info_answers init_debug null 1008 100 one_debug) ≡ some 100
unfolding malloc_debug realloc_debug new mumurhash3 add_at meminfo_init cmp_node add
test_realloc = refl
