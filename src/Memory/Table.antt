-- ===== src/Memory/Table.antt =====
-- Which pointers the table of allocations of cc_memory.c has.
use libcc.Base.{
  ℕ, zero, suc, ◌/◌, ◌^◌, ◌<◌, ◌≡◌, true, false, Bool-cases, ◌==◌, if◌then◌else◌, Option, some,
  arith, inl, inr, sym, ◌∙◌, ap, ==→≡,
}
use libcc.CcList.Store.{Ptr, null}
use libcc.Murmur.{Bytes}
use libcc.Map.{Map, from}
use libcc.Map.Calls.{Key, pointer, key_bytes, bytes_of, findp, remove, val_of, key_of, key_first}
use libcc.Map.Sorted.{Inv, has}
use libcc.Map.Find.{lookup, same_bytes, IsKey, findp-search}
use libcc.Map.Lookup.{lookup-has, from-lookup}
use libcc.Map.Added.{same_key}
use libcc.Map.Remove.{RemovedFrom, removed, remove-RemovedFrom}
use libcc.Memory.Debug.{Pinfo, Meminfo, removed_map, val_or_null, meminfo_rem, memcheckptr}

bytes_of_one :
    (n p q : ℕ) → p < 256 ^ n → q < 256 ^ n → same_bytes (bytes_of n p) (bytes_of n q) ≡ (p == q)
unfolding bytes_of
bytes_of_one zero p q lp lq = ground arith
bytes_of_one (suc n) p q lp lq =
    ground (arith, bytes_of_one n (p / 256) (q / 256) (omega arith) (omega arith))

-- Two pointers are the same key where they are the same.
pub same_key-pointer :
    (p q : Ptr)
    → p < 2 ^ 64
    → q < 2 ^ 64
    → same_key (key_bytes (pointer p)) (key_bytes (pointer q)) ≡ (p == q)
unfolding key_bytes
same_key-pointer p q lp lq = bytes_of_one 8 p q lp lq

-- The map of the allocations is well formed, and each of its nodes points to a record.
pub record Tracks (self : Meminfo) : Type 0 where
  pub map : Inv self.map_pinfo
  pub known :
      (it : Ptr)
      → has it self.map_pinfo.nodes ≡ true
      → (p : Pinfo) × (self.pinfos (val_or_null (val_of self.map_pinfo it)) ≡ some p)

removed_map-findp :
    (m : Map) (it : Ptr) (key : Bytes) (r : Option (Ptr × Ptr × Map))
    → RemovedFrom m it r
    → key_of m it ≡ some key
    → (k : Key) → IsKey k
    → findp (removed_map m r) k ≡ (if same_key (some key) (key_bytes k) then null else findp m k)
removed_map-findp m it key _ (removed e after m' same val at inv nodes law) here k ok =
    law k ok ∙ ap (λ o. if same_key o (key_bytes k) then null else findp m k) (sym at ∙ here)

-- What cc_map_findp finds for a pointer is the iterator of a node with the pointer as its key.
findp-pointer :
    (m : Map) (ptr : Ptr)
    → Inv m
    → (findp m (pointer ptr) == null) ≡ false
    → (has (findp m (pointer ptr)) m.nodes ≡ true)
      × (key_of m (findp m (pointer ptr)) ≡ some (bytes_of 8 ptr))
unfolding key_bytes key_of
findp-pointer m ptr inv ne =
    let at : findp m (pointer ptr) ≡ lookup (bytes_of 8 ptr) m.nodes =
      findp-search m (pointer ptr) inv tt in
    let found : (lookup (bytes_of 8 ptr) m.nodes == null) ≡ false =
      ap (λ p. p == null) (sym at) ∙ ne in
    (
      ap (λ p. has p m.nodes) at ∙ lookup-has (bytes_of 8 ptr) m.nodes found,
      ap (λ p. key_first (from p m.nodes)) at
          ∙ from-lookup (bytes_of 8 ptr) m.nodes inv.distinct found,
    )

-- Where the table is well formed, cc_meminfo_rem of a pointer takes that pointer out of it and no
-- other: cc_memcheckptr no longer accepts it, and accepts the others as before.
pub memcheckptr-meminfo_rem :
    (self : Meminfo) (ptr q : Ptr)
    → Tracks self
    → ptr < 2 ^ 64
    → q < 2 ^ 64
    → memcheckptr (meminfo_rem self ptr) q ≡ (if ptr == q then false else memcheckptr self q)
unfolding memcheckptr meminfo_rem key_bytes
memcheckptr-meminfo_rem self ptr q t lp lq =
    let m = self.map_pinfo in
    elim (Bool-cases (findp m (pointer ptr) == null)) [
      | inl absent ↦ rw absent (elim (Bool-cases (ptr == q)) [
        | inl same ↦
            let gone : (findp m (pointer q) == null) ≡ true =
              ap (λ p. findp m (pointer p) == null) (sym (==→≡ ptr q same)) ∙ absent in
            rw (same, gone)
        | inr other ↦ rw other
      ])
      | inr found ↦
          let miter = findp m (pointer ptr) in
          let (inside, key) = findp-pointer m ptr t.map found in
          let (p, at) = t.known miter inside in
          let law =
            removed_map-findp m miter (bytes_of 8 ptr) (remove m miter)
              (remove-RemovedFrom m miter t.map inside) key (pointer q) tt in
          let after : findp (removed_map m (remove m miter)) (pointer q)
              ≡ (if ptr == q then null else findp m (pointer q)) =
            law
            ∙ ap (λ t. if t then null else findp m (pointer q)) (same_key-pointer ptr q lp lq) in
          rw (found, at, after)
            (elim (Bool-cases (ptr == q)) [ inl same ↦ rw same | inr other ↦ rw other ])
    ]
