-- ===== src/Multimap/Added.antt =====
-- cc_multimap_addp of cc_multimap.c on each of its branches.
use libcc.Base.{
  ℕ, ◌^◌, ◌<◌, ◌≡◌, refl, Bool, true, false, Bool-cases, ◌==◌, if◌then◌else◌, Option, none, some,
  List, [], ◌∷◌, arith, length, inl, inr, sym, ◌∙◌, ap, subst, ==_refl, ==→≡,
}
use libcc.CcList.Store.{Ptr, null}
use libcc.CcList.Ops.{Compare}
use libcc.CcList.Sorted.{place}
use libcc.Murmur.{Bytes}
use libcc.Map.{Entry, Map, Answers}
use libcc.Map.Calls.{Key, key_bytes, addp}
use libcc.Map.Sorted.{Inv, Distinct, has}
use libcc.Map.Find.{IsKey}
use libcc.Map.Add.{refuses, with_node, new_node, null-Absent}
use libcc.Map.Added.{addp_refused, addp-AddedTo, same_key}
use libcc.Multimap.{Multimap, AddAnswers, insert_val, set_list, add_to_list, add_new_list, add_val}
use libcc.Multimap.Vals.{search_val, has_val, Owned, list_at-findp, lookup_val-ne, lookup_val_one}
use libcc.Multimap.Add.{
  WellFormed, cells_of, cells_of-search_val, fails, AddedVal, HasAdded, AddedVal-HasAdded,
  lookup_val-ordered_insert, Owned-ordered_insert,
}

search_val_one :
    (o o' : Option Bytes) (es : List Entry)
    → Owned es
    → (search_val o es == null) ≡ false
    → (search_val o' es == search_val o es) ≡ same_key o o'
search_val_one none o' es own found = absurd (ground arith)
search_val_one (some a) none es own found = ground arith
search_val_one (some a) (some b) es own found = lookup_val_one a b es own found

-- The branch for a key that has a list.
add_to_list-AddedVal :
    (a : AddAnswers) (mm : Multimap) (k : Key) (val : Ptr)
    → WellFormed mm
    → IsKey k
    → (search_val (key_bytes k) mm.map.nodes == null) ≡ false
    → AddedVal a mm k val (record mm {
      lists =
          set_list mm.lists
            (search_val (key_bytes k) mm.map.nodes)
            (insert_val mm.compare a.iter val (mm.lists (search_val (key_bytes k) mm.map.nodes)));
    })
add_to_list-AddedVal a mm k val w ok found =
    let list = search_val (key_bytes k) mm.map.nodes in
    let new = insert_val mm.compare a.iter val (mm.lists list) in
    let mm' : Multimap = record mm { lists = set_list mm.lists list new } in
    let apart : (null == list) ≡ false = ground arith in
    let whole : WellFormed mm' = record {
      map = w.map;
      owned = w.owned;
      nothing = rw apart w.nothing;
    } in
    (
      whole,
      λ k' ok'.
          let list' = search_val (key_bytes k') mm.map.nodes in
          let one = search_val_one (key_bytes k) (key_bytes k') mm.map.nodes w.owned found in
          cells_of-search_val mm' k' whole ok'
          ∙ ap (λ t. if t then new else mm.lists list') one
          ∙ ap (λ c. if same_key (key_bytes k) (key_bytes k') then c else mm.lists list')
              (ap (insert_val mm.compare a.iter val) (sym (cells_of-search_val mm k w ok)))
          ∙ ap
              (λ c.
                if same_key (key_bytes k) (key_bytes k')
                then insert_val mm.compare a.iter val (cells_of mm k)
                else c)
              (sym (cells_of-search_val mm k' w ok')),
    )

insert_val-nil :
    (compare : Option Compare) (iter val : Ptr) → insert_val compare iter val [] ≡ (iter, val) ∷ []
unfolding insert_val place
insert_val-nil none iter val = refl
insert_val-nil (some compare) iter val = refl

search_val-with_node :
    (a : Answers) (seed : ℕ) (o o' : Option Bytes) (val : Ptr) (nodes : List Entry)
    → Distinct nodes
    → refuses a o nodes ≡ false
    → search_val o' (with_node a seed o val nodes)
      ≡ (if same_key o o' then val else search_val o' nodes)
search_val-with_node a seed none o' val nodes d free = absurd (ground arith)
search_val-with_node a seed (some key) none val nodes d free = refl
search_val-with_node a seed (some key) (some key') val nodes d free =
    lookup_val-ordered_insert key' (record { iter = a.iter; node = new_node seed val key }) nodes
      (null-Absent key nodes d (ground arith))

Owned-with_node :
    (a : Answers) (seed : ℕ) (o : Option Bytes) (val : Ptr) (nodes : List Entry)
    → (val == null) ≡ false
    → has_val val nodes ≡ false
    → Owned nodes
    → Owned (with_node a seed o val nodes)
Owned-with_node a seed none val nodes ne out own = own
Owned-with_node a seed (some key) val nodes ne out own =
    Owned-ordered_insert (record { iter = a.iter; node = new_node seed val key }) nodes ne out own

search_val-ne :
    (o : Option Bytes) (v : Ptr) (es : List Entry)
    → (v == null) ≡ false
    → has_val v es ≡ false
    → (search_val o es == v) ≡ false
search_val-ne none v es ne out = ground arith
search_val-ne (some key) v es ne out = lookup_val-ne key v es ne out

-- The branch for a new key: the map takes the new list.
new_list-AddedVal :
    (a : AddAnswers) (mm : Multimap) (k : Key) (val : Ptr) (map : Map)
    → WellFormed mm
    → IsKey k
    → (search_val (key_bytes k) mm.map.nodes == null) ≡ true
    → (a.list == null) ≡ false
    → has_val a.list mm.map.nodes ≡ false
    → refuses a.map (key_bytes k) mm.map.nodes ≡ false
    → Inv map
    → map.nodes ≡ with_node a.map mm.map.seed (key_bytes k) a.list mm.map.nodes
    → AddedVal a mm k val
        (record mm { map = map; lists = set_list mm.lists a.list ((a.iter, val) ∷ []) })
new_list-AddedVal a mm k val map w ok absent ne out free inv nodes =
    let mm' : Multimap = record mm {
      map = map;
      lists = set_list mm.lists a.list ((a.iter, val) ∷ []);
    } in
    let apart : (null == a.list) ≡ false = ground arith in
    let own = Owned-with_node a.map mm.map.seed (key_bytes k) a.list mm.map.nodes ne out w.owned in
    let whole : WellFormed mm' = record {
      map = inv;
      owned = subst Owned (sym nodes) own;
      nothing = rw apart w.nothing;
    } in
    let empty : cells_of mm k ≡ [] =
      cells_of-search_val mm k w ok ∙ ap mm.lists (==→≡ _ null absent) ∙ w.nothing in
    (
      whole,
      λ k' ok'.
          let list' = search_val (key_bytes k') mm.map.nodes in
          let after =
            ap (search_val (key_bytes k')) nodes
            ∙ search_val-with_node a.map mm.map.seed (key_bytes k) (key_bytes k') a.list
                mm.map.nodes w.map.distinct free in
          let other = search_val-ne (key_bytes k') a.list mm.map.nodes ne out in
          let here = cells_of-search_val mm' k' whole ok' ∙ ap mm'.lists after in
          elim (Bool-cases (same_key (key_bytes k) (key_bytes k'))) [
            | inl same ↦
                let chosen : mm'.lists
                      (if same_key (key_bytes k) (key_bytes k') then a.list else list')
                    ≡ (a.iter, val) ∷ [] =
                  rw (same, ==_refl a.list) in
                let wanted =
                  ap (insert_val mm.compare a.iter val) empty
                  ∙ insert_val-nil mm.compare a.iter val in
                rw same (here ∙ chosen ∙ sym wanted)
            | inr differ ↦
                let chosen : mm'.lists
                      (if same_key (key_bytes k) (key_bytes k') then a.list else list')
                    ≡ mm.lists list' =
                  rw (differ, other) in
                rw differ (here ∙ chosen ∙ sym (cells_of-search_val mm k' w ok'))
          ],
    )

-- How cc_multimap_addp ends: the value is kept out, and nothing has changed, or it is in.
pub data AddOutcome (a : AddAnswers) (mm : Multimap) (k : Key) (val : Ptr)
    : Bool × Multimap → Type 0 where
  kept_out : fails a mm (key_bytes k) ≡ true → AddOutcome a mm k val (false, mm)
  added :
      (mm' : Multimap)
      → fails a mm (key_bytes k) ≡ false
      → HasAdded a mm k val mm'
      → AddOutcome a mm k val (true, mm')

add_new_list-AddOutcome :
    (a : AddAnswers) (mm : Multimap) (k : Key) (val : Ptr)
    → WellFormed mm
    → IsKey k
    → (search_val (key_bytes k) mm.map.nodes == null) ≡ true
    → has_val a.list mm.map.nodes ≡ false
    → has a.map.iter mm.map.nodes ≡ false
    → length mm.map.nodes < 2 ^ 29
    → AddOutcome a mm k val (add_new_list a mm k val)
unfolding add_new_list
add_new_list-AddOutcome a mm k val w ok absent out fresh few = elim (Bool-cases (a.list == null)) [
  | inl no_list ↦ rw no_list (kept_out (rw (absent, no_list)))
  | inr list ↦ elim (Bool-cases (a.iter == null)) [
    | inl no_iter ↦ rw (list, no_iter) (kept_out (rw (absent, list, no_iter)))
    | inr cell ↦ elim (Bool-cases (refuses a.map (key_bytes k) mm.map.nodes)) [
      | inl refused ↦
          let same = addp_refused a.map mm.map k a.list w.map ok refused in
          rw (list, cell, same) (kept_out (rw (absent, list, cell) refused))
      | inr free ↦
          let taken = addp-AddedTo a.map mm.map k a.list w.map ok free fresh few in
          let got : ((addp a.map mm.map k a.list).0 == null) ≡ false =
            ap (λ p. p == null) taken.0 ∙ iter_of (key_bytes k) free in
          rw (list, cell, got)
            (added _ (rw (absent, list, cell) free) (
              AddedVal-HasAdded a mm k val _ (
                new_list-AddedVal a mm k val (addp a.map mm.map k a.list).1 w ok absent list out
                  free taken.1 taken.2)))
    ]
  ]
]
  where
    iter_of :
        (o : Option Bytes) → refuses a.map o mm.map.nodes ≡ false → (a.map.iter == null) ≡ false
    iter_of none free = absurd (ground arith)
    iter_of (some key) free = ground arith

-- On a well-formed multimap with fewer than 2^29 keys, where the new list and the new iterator of the
-- map are not in use, cc_multimap_addp returns 0 exactly where the key is too long or the allocators
-- answer null, and then changes nothing; otherwise it returns 1, the multimap stays well-formed, the
-- list of the key, a new one if there was none, has the value at its end, or, where there is a
-- comparison, in front of the first data that it is below, and the list of every other key has the cells it had.
pub add_val-AddOutcome :
    (a : AddAnswers) (mm : Multimap) (k : Key) (val : Ptr)
    → WellFormed mm
    → IsKey k
    → has_val a.list mm.map.nodes ≡ false
    → has a.map.iter mm.map.nodes ≡ false
    → length mm.map.nodes < 2 ^ 29
    → AddOutcome a mm k val (add_val a mm k val)
unfolding add_val add_to_list
add_val-AddOutcome a mm k val w ok out fresh few =
    rw (list_at-findp mm.map k w.map ok)
      (elim (Bool-cases (search_val (key_bytes k) mm.map.nodes == null)) [
        | inl absent ↦ rw absent (add_new_list-AddOutcome a mm k val w ok absent out fresh few)
        | inr found ↦ rw found (elim (Bool-cases (a.iter == null)) [
          | inl no_iter ↦ rw no_iter (kept_out (rw found no_iter))
          | inr cell ↦ rw cell (
              added _ (rw found cell)
                (AddedVal-HasAdded a mm k val _ (add_to_list-AddedVal a mm k val w ok found)))
        ])
      ])
