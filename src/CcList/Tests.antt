-- ===== src/CcList/Tests.antt =====
-- cc_list.c on concrete lists: the theorems at work, and runs of the code.
use Prim.Native.Nat.{compare}
use libcc.Base.{◌≡◌, ◌≢◌, refl, true, false, none, some, [], ◌∷◌, ◌==◌, arith, if◌then◌else◌}
use libcc.CcList.Store.{iter, Heap, Ends}
use libcc.CcList.Pool.{Pool}
use libcc.CcList.Links.{CcList}
use libcc.CcList.Chain.{Cells, SameOutside}
use libcc.CcList.Refine.{IsList}
use libcc.CcList.Ops.{insert, insert_sorted, remove}
use libcc.CcList.Insert.{allocated, recycled, Inserted, insert-IsList}
use libcc.CcList.Sorted.{IsOrder, IsSorted, place, insert_sorted-IsSorted}
use libcc.CcList.Delete.{Disposed, remove-IsList}
use libcc.CcList.Swap.{Apart}

-- Two lists, at the addresses 1 to 3 and at 4, and a free iterator at 5.
abbrev memory : Heap
memory a =
    if a == 1
    then some (iter 2 0 10)
    else if a == 2
    then some (iter 3 1 20)
    else if a == 3
    then some (iter 0 2 30)
    else if a == 4
    then some (iter 0 0 15)
    else if a == 5
    then some (iter 0 0 0)
    else none

abbrev three : Cells
three = (1, 10) ∷ (2, 20) ∷ (3, 30) ∷ []

abbrev three_list : CcList
three_list = record { cmalloc = true; size = 3; head = 1; tail = 3; iters = 0 }

abbrev pooled_list : CcList
pooled_list = record { cmalloc = false; size = 3; head = 1; tail = 3; iters = 5 }

abbrev one_list : CcList
one_list = record { cmalloc = true; size = 1; head = 4; tail = 4; iters = 0 }

abbrev no_pool : Pool
no_pool = record { refcount = 0; count = 0; iters = 0; blocks = [] }

three-IsList : IsList memory three_list three
three-IsList = record {
  chain = (refl, (refl, (refl, tt)));
  distinct = (refl, refl, (refl, refl, (refl, refl, tt)));
  head = refl;
  tail = refl;
  size = refl;
}

pooled_IsList : IsList memory pooled_list three
pooled_IsList = record {
  chain = (refl, (refl, (refl, tt)));
  distinct = (refl, refl, (refl, refl, (refl, refl, tt)));
  head = refl;
  tail = refl;
  size = refl;
}

one_IsList : IsList memory one_list ((4, 15) ∷ [])
one_IsList = record {
  chain = (refl, tt);
  distinct = (refl, refl, tt);
  head = refl;
  tail = refl;
  size = refl;
}

by_number : IsOrder compare
by_number = record {
  asym = λ a b lt. ground arith;
  trans = λ a b c lt lt'. ground arith;
  eq_sym = λ a b. ground arith;
  eq_lt = λ a b c e lt. ground arith;
}

three-IsSorted : IsSorted compare three
three-IsSorted = ((refl, (refl, tt)), ((refl, tt), (tt, tt)))

insert_sorted-IsSorted_example :
    Ends
      (λ r g.
        Inserted memory three_list no_pool 6 ((1, 10) ∷ (2, 20) ∷ (6, 25) ∷ (3, 30) ∷ []) r g
        × IsSorted compare ((1, 10) ∷ (2, 20) ∷ (6, 25) ∷ (3, 30) ∷ []))
      (insert_sorted 6 three_list no_pool compare 25 memory)
unfolding place
insert_sorted-IsSorted_example =
    insert_sorted-IsSorted memory three_list no_pool compare 6 6 25 (allocated refl refl refl) refl
      by_number three three-IsList three-IsSorted refl

remove-IsList_example :
    Ends
      (λ (val, next, l') g.
        (val ≡ 20)
        × (next ≡ 3)
        × IsList g l' ((1, 10) ∷ (3, 30) ∷ [])
        × (l'.cmalloc ≡ false)
        × SameOutside three memory g
        × Disposed false 5 2 l' g)
      (remove pooled_list 2 memory)
remove-IsList_example =
    remove-IsList memory pooled_list 2 20 ((1, 10) ∷ []) ((3, 30) ∷ []) pooled_IsList

-- The new iterator is the free one.
insert-IsList_example :
    Ends
      (Inserted memory pooled_list no_pool 5 ((1, 10) ∷ (5, 15) ∷ (2, 20) ∷ (3, 30) ∷ []))
      (insert 0 pooled_list no_pool 2 15 memory)
insert-IsList_example =
    insert-IsList memory pooled_list no_pool 0 5 2 20 15 ((1, 10) ∷ []) ((3, 30) ∷ []) pooled_IsList
      (recycled refl refl (iter 0 0 0) refl) refl refl

-- A list that takes its iterators from a pool that is empty.
abbrev starved_list : CcList
starved_list = record { cmalloc = false; size = 3; head = 1; tail = 3; iters = 0 }

-- The iterator at 4 is in no other list.
four_Apart : Apart three ((4, 15) ∷ [])
four_Apart a i = ground arith

four_Apart-three : Apart ((4, 15) ∷ []) three
four_Apart-three a i = ground arith

abbrev two : Cells
two = (1, 10) ∷ (2, 20) ∷ []

two_left : two ≢ []
two_left e = absurd (ground arith)
