-- ===== src/Memory/Debug.antt =====
-- cc_memory.c as it is built with MEMORY_DEBUG: a table of the allocations, over two maps. Those who
-- allocate (cc_ator_t) and the allocations (cc_pinfo_t) are records at addresses. What the system's
-- allocator answers and the text that snprintf makes are arguments. A pointer in the maps is that of a
-- record: where the model finds none, it does nothing.
use libcc.Base.{ℕ, ◌==◌, if◌then◌else◌, Bool, true, false, Option, none, some}
use libcc.CcList.Store.{Ptr, null}
use libcc.CcList.Pool.{sub_size}
use libcc.Murmur.{Bytes}
use libcc.Map.{Map, Answers, add_size}
use libcc.Map.Calls.{pointer, find, findp, add, addp, remove, val_of}

-- cc_ator_t
pub record Ator : Type 0 where
  pub name : Bytes
  pub map_pinfo_ref : Map
  pub size : ℕ

-- cc_pinfo_t
pub record Pinfo : Type 0 where
  pub ator_ref : Ptr
  pub ptr : Ptr
  pub size : ℕ

-- cc_meminfo_t, with the records that its maps point to.
pub record Meminfo : Type 0 where
  pub map_ator : Map
  pub map_pinfo : Map
  pub ators : Ptr → Option Ator
  pub pinfos : Ptr → Option Pinfo

-- What the system answers while an allocation is added.
pub record InfoAnswers : Type 0 where
  pub name : Bytes
  pub ator : Ptr
  pub ator_map : Option Map
  pub add_ator : Answers
  pub pinfo : Ptr
  pub add_pinfo : Answers
  pub add_ref : Answers

abbrev pub store : {A : Type 0} → (Ptr → Option A) → Ptr → Option A → Ptr → Option A
store f p a q = if q == p then a else f q

-- cc_ator_add
unfoldable pub ator_add : Answers → Ator → Pinfo → (pinfo_ref : Ptr) → Bool × Ator
unfolding addp
ator_add a self p pinfo_ref =
    let r = addp a self.map_pinfo_ref (pointer p.ptr) pinfo_ref in
    if r.0 == null
    then (false, record self { map_pinfo_ref = r.1 })
    else (true, record self { map_pinfo_ref = r.1; size = add_size self.size p.size })

abbrev pub removed_map : Map → Option (Ptr × Ptr × Map) → Map
removed_map m none = m
removed_map m (some (v, after, m')) = m'

-- cc_ator_rem
unfoldable pub ator_rem : Ator → Pinfo → Ator
unfolding findp remove
ator_rem self p =
    let miter = findp self.map_pinfo_ref (pointer p.ptr) in
    if miter == null then self else record self {
      size = sub_size self.size p.size;
      map_pinfo_ref = removed_map self.map_pinfo_ref (remove self.map_pinfo_ref miter);
    }

-- The ator of a name, made where there is none: null where it cannot be.
abbrev pub made_ator : InfoAnswers → Meminfo → Option Map → Ptr × Meminfo
made_ator a self none = (null, self)
made_ator a self (some map) =
    if a.ator == null
    then (null, self)
    else let r = add a.add_ator self.map_ator a.name a.ator in
      if r.0 == null then (null, record self { map_ator = r.1 }) else (
        a.ator,
        record self {
          map_ator = r.1;
          ators =
              store self.ators a.ator
                (some (record { name = a.name; map_pinfo_ref = map; size = 0 }));
        },
      )

abbrev pub val_or_null : Option Ptr → Ptr
val_or_null none = null
val_or_null (some v) = v

unfoldable pub get_ator : InfoAnswers → Meminfo → Ptr × Meminfo
unfolding find val_of
get_ator a self =
    let miter = find self.map_ator a.name in
    if miter == null
    then made_ator a self a.ator_map
    else (val_or_null (val_of self.map_ator miter), self)

-- The allocation is in the map of allocations at `miter`, and is added to its ator.
unfoldable pub add_ref : InfoAnswers → Meminfo → (ator miter : Ptr) → Pinfo → Option Ator → Meminfo
unfolding ator_add remove
add_ref a self ator miter p none = self
add_ref a self ator miter p (some at) =
    let r = ator_add a.add_ref at p a.pinfo in
    let self' = record self { ators = store self.ators ator (some r.1) } in
    if r.0 then self' else record self' {
      map_pinfo = removed_map self.map_pinfo (remove self.map_pinfo miter);
      pinfos = store self.pinfos a.pinfo none;
    }

unfoldable pub add_pinfo : InfoAnswers → Meminfo → (ator ptr : Ptr) → (size : ℕ) → Meminfo
unfolding add_ref addp
add_pinfo a self ator ptr size =
    if ator == null
    then self
    else if a.pinfo == null
    then self
    else let p : Pinfo = record { ator_ref = ator; ptr = ptr; size = size } in
      let r = addp a.add_pinfo self.map_pinfo (pointer ptr) a.pinfo in
      if r.0 == null
      then record self { map_pinfo = r.1 }
      else add_ref a (record self { map_pinfo = r.1; pinfos = store self.pinfos a.pinfo (some p) })
          ator r.0 p (self.ators ator)

-- cc_meminfo_add
unfoldable pub meminfo_add : InfoAnswers → Meminfo → (ptr : Ptr) → (size : ℕ) → Meminfo
unfolding get_ator add_pinfo
meminfo_add a self ptr size = let r = get_ator a self in add_pinfo a r.1 r.0 ptr size

abbrev pub detached : (Ptr → Option Ator) → Pinfo → Option Ator → Ptr → Option Ator
detached ators p none = ators
detached ators p (some at) = store ators p.ator_ref (some (ator_rem at p))

abbrev pub without_pinfo : Meminfo → (miter pinfo : Ptr) → Option Pinfo → Meminfo
without_pinfo self miter pinfo none = self
without_pinfo self miter pinfo (some p) = record self {
  ators = detached self.ators p (self.ators p.ator_ref);
  map_pinfo = removed_map self.map_pinfo (remove self.map_pinfo miter);
  pinfos = store self.pinfos pinfo none;
}

-- cc_meminfo_rem
unfoldable pub meminfo_rem : Meminfo → (ptr : Ptr) → Meminfo
unfolding findp val_of ator_rem remove
meminfo_rem self ptr =
    let miter = findp self.map_pinfo (pointer ptr) in
    if miter == null
    then self
    else let pinfo = val_or_null (val_of self.map_pinfo miter) in
      without_pinfo self miter pinfo (self.pinfos pinfo)

-- cc_meminfo_memcheckptr
unfoldable pub memcheckptr : Meminfo → Ptr → Bool
unfolding findp
memcheckptr self ptr = if findp self.map_pinfo (pointer ptr) == null then false else true
