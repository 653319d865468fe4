-- ===== src/Multimap/Tests.antt =====
-- A multimap with one list, which gets a second value.
use Prim.Native.Nat.{compare}
use libcc.Base.{◌≡◌, refl, true, [], ◌∷◌, arith, some}
use libcc.CcList.Store.{Ptr, null}
use libcc.Murmur.{mumurhash3}
use libcc.Map.{new, add_at, cmp_node}
use libcc.Map.Calls.{Key, bytes_at}
use libcc.Map.Remove.{new-Inv}
use libcc.Multimap.{Multimap, AddAnswers, add_val, find_list, first, item}
use libcc.Multimap.Add.{WellFormed}
use libcc.Multimap.Added.{AddOutcome, add_val-AddOutcome}

abbrev answers : Ptr → Ptr → Ptr → AddAnswers
answers list iter miter = record {
  list = list;
  iter = iter;
  map = record { node_ok = true; iter = miter; realloc_ok = true };
}

-- The lists are sorted by their data.
abbrev empty : Multimap
empty = record { map = new 7; compare = some compare; lists = λ p. [] }

abbrev key : Key
key = bytes_at (97 ∷ 0 ∷ [])

empty-WellFormed : WellFormed empty
unfolding new
empty-WellFormed = record { map = new-Inv 7; owned = tt; nothing = refl }

abbrev single : Multimap
single = (add_val (answers 1000 100 10) empty key 5).1

abbrev pair : Multimap
pair = (add_val (answers null 200 null) single key 3).1

test_find : (find_list pair key).0 ≡ 1000
unfolding new mumurhash3 add_val find_list add_at cmp_node
test_find = refl

test_sorted : pair.lists 1000 ≡ (200, 3) ∷ (100, 5) ∷ []
unfolding new mumurhash3 add_val add_at cmp_node
test_sorted = refl

test_item : item pair (record { miter = 10; iter = 100 }) ≡ 5
unfolding new mumurhash3 add_val add_at cmp_node item
test_item = refl

test_first : first pair ≡ some (record { miter = 10; iter = 200 })
unfolding new mumurhash3 add_val add_at cmp_node first
test_first = refl

add_val-AddOutcome_example :
    AddOutcome (answers 1000 100 10) empty key 5 (add_val (answers 1000 100 10) empty key 5)
unfolding new
add_val-AddOutcome_example =
    add_val-AddOutcome (answers 1000 100 10) empty key 5 empty-WellFormed
      (omega arith, (omega arith, tt)) refl refl (omega arith)
