-- ===== src/Map/Tests.antt =====
-- A map of two buckets, to which three keys are added.
use libcc.Base.{ℕ, ◌^◌, ◌≡◌, refl, true, false, [], ◌∷◌, arith, if◌then◌else◌}
use libcc.CcList.Store.{null}
use libcc.Murmur.{mumurhash3}
use libcc.Map.{Map, new, cmp_node, Answers, grow, add_at}
use libcc.Map.Calls.{Key, bytes_at, pointer, key_bytes, findp, addp, remove}
use libcc.Map.Sorted.{Inv, skip, bytes_of_nodes}
use libcc.Map.Find.{lookup, search, findp-search}
use libcc.Map.Added.{AddedTo, addp_refused, addp-AddedTo, same_key, findp-addp}
use libcc.Map.Steps.{adds, Made, start, next, Made-Inv}
use libcc.Map.Remove.{RemovedFrom, remove-RemovedFrom}

abbrev one : Key
one = bytes_at (97 ∷ 0 ∷ [])

abbrev answers : ℕ → Answers
answers it = record { node_ok = true; iter = it; realloc_ok = true }

abbrev empty : Map
empty = record {
  seed = 7;
  capacity = 2;
  elements = 2 ^ 31;
  buckets = λ i. null;
  nodes_size = 0;
  nodes = [];
}

empty-Inv : Inv empty
unfolding skip bytes_of_nodes
empty-Inv = record {
  shift = 31;
  elements = refl;
  hashes = refl;
  wide = omega arith;
  small = omega arith;
  sorted = tt;
  distinct = tt;
  hashed = tt;
  buckets = λ i lt. refl;
  sizes = refl;
}

abbrev single : Map
single = (addp (answers 100) empty one 5).1

single-Inv : Inv single
unfolding lookup key_bytes
single-Inv =
    (addp-AddedTo (answers 100) empty one 5 empty-Inv (omega arith, (omega arith, tt)) refl refl
      (omega arith)).1

abbrev pair : Map
pair = (addp (answers 200) single (pointer 64) 6).1

test_single :
    single.nodes
    ≡ record {
      iter = 100;
      node = record { val = 5; hash = mumurhash3 7 (97 ∷ 0 ∷ []); key = 97 ∷ 0 ∷ [] };
    }
      ∷ []
unfolding addp mumurhash3 add_at
test_single = refl

test_find : findp pair one ≡ 100
unfolding addp findp mumurhash3 add_at cmp_node
test_find = refl

test_find_pointer : findp pair (pointer 64) ≡ 200
unfolding addp findp mumurhash3 add_at cmp_node
test_find_pointer = refl

findp-search_example : findp single one ≡ search (key_bytes one) single.nodes
findp-search_example = findp-search single one single-Inv (omega arith, (omega arith, tt))

addp_refused_example : addp (answers 200) single one 6 ≡ (null, single)
unfolding addp mumurhash3 add_at lookup
addp_refused_example =
    addp_refused (answers 200) single one 6 single-Inv (omega arith, (omega arith, tt)) refl

addp-AddedTo_example :
    AddedTo
      (answers 200)
      single
      (key_bytes (pointer 64))
      6
      (addp (answers 200) single (pointer 64) 6)
unfolding addp mumurhash3 add_at lookup
addp-AddedTo_example =
    addp-AddedTo (answers 200) single (pointer 64) 6 single-Inv tt refl refl (omega arith)

remove-RemovedFrom_example : RemovedFrom single 100 (remove single 100)
unfolding addp mumurhash3 add_at
remove-RemovedFrom_example = remove-RemovedFrom single 100 single-Inv refl

pair-Inv : Inv pair
unfolding addp mumurhash3 add_at lookup
pair-Inv =
    (addp-AddedTo (answers 200) single (pointer 64) 6 single-Inv tt refl refl (omega arith)).1

-- The array could not be had when the third node was added.
abbrev refusing : Answers
refusing = record { node_ok = true; iter = 300; realloc_ok = false }

abbrev crowded : Map
crowded = (addp refusing pair (pointer 72) 8).1

crowded-Inv : Inv crowded
unfolding addp mumurhash3 add_at lookup cmp_node
crowded-Inv = (addp-AddedTo refusing pair (pointer 72) 8 pair-Inv tt refl refl (omega arith)).1

test_grow : (grow true crowded).capacity ≡ 4
unfolding addp mumurhash3 add_at cmp_node
test_grow = refl

-- The third key makes the buckets grow.
findp-addp_example :
    findp (addp (answers 300) pair (pointer 72) 8).1 one
    ≡ (if same_key (key_bytes (pointer 72)) (key_bytes one) then 300 else findp pair one)
unfolding addp mumurhash3 add_at lookup cmp_node
findp-addp_example =
    findp-addp (answers 300) pair (pointer 72) one 8 pair-Inv tt (omega arith, (omega arith, tt))
      refl refl (omega arith)

abbrev fresh_map : Map
fresh_map = new 7

abbrev after_add : Map
after_add = (addp (answers 100) fresh_map one 5).1

after_add-Made : Made after_add
unfolding new
after_add-Made =
    next fresh_map after_add (start 7)
      (adds fresh_map (answers 100) one 5 (omega arith, (omega arith, tt)) refl (omega arith))

Made-Inv_example : Inv after_add
Made-Inv_example = Made-Inv after_add after_add-Made
