-- ===== src/Map/Steps.antt =====
-- Any sequence of calls of cc_map.c that change a map.
use libcc.Base.{
  ℕ, ◌^◌, ◌<◌, ◌≡◌, true, false, Bool-cases, inl, inr, Option, none, some, length, sym, ap, subst,
}
use libcc.CcList.Store.{Ptr}
use libcc.Map.{Map, Answers, new}
use libcc.Map.Calls.{Key, key_bytes, addp, remove, discard}
use libcc.Map.Sorted.{Inv, has}
use libcc.Map.Find.{IsKey}
use libcc.Map.Add.{refuses}
use libcc.Map.Added.{addp_refused, addp-AddedTo}
use libcc.Map.Remove.{RemovedFrom, removed, remove-RemovedFrom, new-Inv, discard-Inv}

-- A call, with what the allocators answer: an iterator that is in use is not handed out, and a map
-- has fewer than 2^29 nodes when one is added.
pub data Step : Map → Map → Type 0 where
  adds :
      (m : Map) (a : Answers) (k : Key) (val : Ptr)
      → IsKey k
      → has a.iter m.nodes ≡ false
      → length m.nodes < 2 ^ 29
      → Step m (addp a m k val).1
  removes :
      (m m' : Map) (it val after : Ptr)
      → has it m.nodes ≡ true
      → remove m it ≡ some (val, after, m')
      → Step m m'
  discards : (m : Map) → Step m (discard m)

pub data Made : Map → Type 0 where
  start : (seed : ℕ) → Made (new seed)
  next : (m m' : Map) → Made m → Step m m' → Made m'

abbrev map_of : Map → Option (Ptr × Ptr × Map) → Map
map_of m none = m
map_of m (some (v, after, m')) = m'

removed-Inv :
    (m : Map) (it : Ptr) (r : Option (Ptr × Ptr × Map))
    → RemovedFrom m it r
    → Inv m
    → Inv (map_of m r)
removed-Inv m it _ (removed e after m' same val key inv nodes law) before = inv

Step-Inv : (m m' : Map) → Step m m' → Inv m → Inv m'
Step-Inv _ _ (adds m a k val ok fresh few) inv =
    elim (Bool-cases (refuses a (key_bytes k) m.nodes)) [
      | inl refused ↦ subst (λ r. Inv r.1) (sym (addp_refused a m k val inv ok refused)) inv
      | inr free ↦ (addp-AddedTo a m k val inv ok free fresh few).1
    ]
Step-Inv _ _ (removes m m' it val after inside e) inv =
    subst Inv (ap (map_of m) e)
      (removed-Inv m it (remove m it) (remove-RemovedFrom m it inv inside) inv)
Step-Inv _ _ (discards m) inv = (discard-Inv m inv).0

-- Every map that cc_map_new and a sequence of cc_map_addp, cc_map_remove and cc_map_discard can make,
-- where each addition finds fewer than 2^29 nodes and gets an iterator that is not in use, or null, and
-- whatever else the allocators answer, has the invariant: its nodes stand in their strict order, no
-- iterator stands twice, each bucket is the first node of its index, and the sizes are those of the
-- nodes.
pub Made-Inv : (m : Map) → Made m → Inv m
Made-Inv _ (start seed) = new-Inv seed
Made-Inv m' (next m _ r step) = Step-Inv m m' step (Made-Inv m r)
