-- ===== src/Memory/Calls.antt =====
-- The calls of cc_memory.c as it is built with MEMORY_DEBUG: the table and the counters together.
use libcc.Base.{ℕ, ◌*◌, ◌==◌, if◌then◌else◌, Bool, true, false, Option, none, some}
use libcc.CcList.Store.{Ptr, null}
use libcc.Map.{Map}
use libcc.Memory.{Memory, malloc, calloc, realloc, free, wrap}
use libcc.Memory.Debug.{Meminfo, InfoAnswers, meminfo_add, meminfo_rem, memcheckptr}

-- The table, made at its first use, and the counters.
pub record DebugMemory : Type 0 where
  pub memory : Memory
  pub info : Option Meminfo

-- cc_meminfo_init: whether the struct and its two maps can be had.
unfoldable pub meminfo_init :
    (self_ok : Bool) → (map_ator map_pinfo : Option Map) → Option Meminfo → Option Meminfo
meminfo_init self_ok map_ator map_pinfo (some info) = some info
meminfo_init self_ok none map_pinfo none = none
meminfo_init self_ok (some map_ator) none none = none
meminfo_init self_ok (some map_ator) (some map_pinfo) none =
    if self_ok
    then some (record {
      map_ator = map_ator;
      map_pinfo = map_pinfo;
      ators = λ p. none;
      pinfos = λ p. none;
    })
    else none

abbrev pub added_info : InfoAnswers → (ptr : Ptr) → (size : ℕ) → Option Meminfo → Option Meminfo
added_info a ptr size none = none
added_info a ptr size (some info) = some (meminfo_add a info ptr size)

abbrev pub rem_info : (ptr : Ptr) → Option Meminfo → Option Meminfo
rem_info ptr none = none
rem_info ptr (some info) = some (meminfo_rem info ptr)

-- cc_memory_add and cc_memory_rem: `init` is the table that cc_meminfo_init leaves.
unfoldable pub memory_add :
    InfoAnswers
    → (init : Option Meminfo → Option Meminfo) → (ptr : Ptr) → (size : ℕ) → DebugMemory
    → DebugMemory
unfolding meminfo_add
memory_add a init ptr size d =
    if ptr == null then d else record d { info = added_info a ptr size (init d.info) }

unfoldable pub memory_rem :
    (init : Option Meminfo → Option Meminfo) → (ptr : Ptr) → DebugMemory → DebugMemory
unfolding meminfo_rem
memory_rem init ptr d = if ptr == null then d else record d { info = rem_info ptr (init d.info) }

-- cc_malloc_debug
unfoldable pub malloc_debug :
    InfoAnswers
    → (Option Meminfo → Option Meminfo)
    → (mem : Ptr) → (size : ℕ) → DebugMemory
    → Ptr × DebugMemory
unfolding malloc memory_add
malloc_debug a init mem size d =
    let r = malloc mem size d.memory in
    (r.0, memory_add a init r.0 size (record d { memory = r.1 }))

-- cc_calloc_debug
unfoldable pub calloc_debug :
    InfoAnswers
    → (Option Meminfo → Option Meminfo)
    → (mem : Ptr) → (count size : ℕ) → DebugMemory
    → Ptr × DebugMemory
unfolding calloc memory_add
calloc_debug a init mem count size d =
    let r = calloc mem count size d.memory in
    (r.0, memory_add a init r.0 (wrap (count * size)) (record d { memory = r.1 }))

-- The end of cc_realloc_debug: what cc_realloc did not move goes back into the table.
abbrev pub realloc_info :
    InfoAnswers
    → (Option Meminfo → Option Meminfo)
    → (ptr : Ptr) → (size : ℕ) → DebugMemory
    → Option (Ptr × Memory)
    → Option (Ptr × DebugMemory)
realloc_info a init ptr size d none = none
realloc_info a init ptr size d (some (reptr, memory)) = some (
  reptr,
  memory_add a init (if reptr == null then ptr else reptr) size (record d { memory = memory }),
)

-- cc_realloc_debug
unfoldable pub realloc_debug :
    InfoAnswers
    → (Option Meminfo → Option Meminfo)
    → (mem2 ptr : Ptr) → (size : ℕ) → DebugMemory
    → Option (Ptr × DebugMemory)
unfolding realloc memory_add memory_rem
realloc_debug a init mem2 ptr size d =
    realloc_info a init ptr size (memory_rem init ptr d) (realloc mem2 ptr size d.memory)

abbrev pub with_memory : DebugMemory → Option Memory → Option DebugMemory
with_memory d none = none
with_memory d (some memory) = some (record d { memory = memory })

-- cc_free_debug
unfoldable pub free_debug :
    (Option Meminfo → Option Meminfo) → (ptr : Ptr) → DebugMemory → Option DebugMemory
unfolding free memory_rem
free_debug init ptr d = with_memory (memory_rem init ptr d) (free ptr d.memory)

-- cc_memory_memcheckptr
unfoldable pub memory_memcheckptr :
    (Option Meminfo → Option Meminfo) → (ptr : Ptr) → DebugMemory → Bool
unfolding memcheckptr
memory_memcheckptr init ptr d =
    if ptr == null
    then true
    else elim (init d.info) [ none ↦ false | some info ↦ memcheckptr info ptr ]
