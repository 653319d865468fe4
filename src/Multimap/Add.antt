-- ===== src/Multimap/Add.antt =====
-- cc_multimap_addp of cc_multimap.c: the lists that the keys have afterwards.
use libcc.Base.{
  ℕ, ◌≡◌, refl, Bool, true, false, ◌||◌, ◌==◌, if◌then◌else◌, Option, none, some, List, [], ◌∷◌,
  ◌++◌, Bool-cases, subst, arith, inl, inr, sym, ◌∙◌, ap,
}
use libcc.CcList.Store.{Ptr, null}
use libcc.CcList.Chain.{Cells}
use libcc.CcList.Ops.{Compare, is_lt}
use libcc.CcList.Sorted.{place}
use libcc.Murmur.{Bytes}
use libcc.Map.{Entry, cmp_node}
use libcc.Map.Calls.{Key, key_bytes}
use libcc.Map.Order.{Ordering-cases}
use libcc.Map.Sorted.{Inv}
use libcc.Map.Find.{same_bytes, same_bytes→≡, not-same_bytes, Absent, IsKey}
use libcc.Map.Insert.{ordered_insert}
use libcc.Map.Add.{refuses}
use libcc.Map.Added.{same_key}
use libcc.Multimap.{Multimap, AddAnswers, find_list, insert_val}
use libcc.Multimap.Vals.{lookup_val, search_val, has_val, Owned, list_at-findp}

pub lookup_val-ordered_insert :
    (key : Bytes) (e : Entry) (es : List Entry)
    → Absent e.node.key es
    → lookup_val key (ordered_insert e es)
      ≡ (if same_bytes e.node.key key then e.node.val else lookup_val key es)
unfolding ordered_insert lookup_val
lookup_val-ordered_insert key e [] out = refl
lookup_val-ordered_insert key e (f ∷ fs) out =
    let other : same_bytes e.node.key key ≡ true → same_bytes f.node.key key ≡ false = λ same.
      not-same_bytes f.node.key key
        (λ also. out.0 (also ∙ sym (same_bytes→≡ e.node.key key same))) in
    ground (arith, lookup_val-ordered_insert key e fs out.1, other)

has_val-ordered_insert :
    (v : Ptr) (e : Entry) (es : List Entry)
    → has_val v (ordered_insert e es) ≡ ((e.node.val == v) || has_val v es)
unfolding ordered_insert
has_val-ordered_insert v e [] = refl
has_val-ordered_insert v e (f ∷ fs) = ground (arith, has_val-ordered_insert v e fs)

eq_swap : (a b : ℕ) → (a == b) ≡ false → (b == a) ≡ false
eq_swap a b ne = ground arith

pub Owned-ordered_insert :
    (e : Entry) (es : List Entry)
    → (e.node.val == null) ≡ false
    → has_val e.node.val es ≡ false
    → Owned es
    → Owned (ordered_insert e es)
unfolding ordered_insert
Owned-ordered_insert e [] ne out own = (ne, refl, tt)
Owned-ordered_insert e (f ∷ fs) ne out own =
    let out' : has_val e.node.val fs ≡ false = ground arith in
    let apart : (f.node.val == e.node.val) ≡ false = ground arith in
    elim (Ordering-cases (cmp_node f.node e.node.hash e.node.key)) [
      | inl less ↦
          let only : has_val f.node.val (ordered_insert e fs) ≡ false = ground (
            arith,
            has_val-ordered_insert f.node.val e fs,
            eq_swap f.node.val e.node.val apart,
            own.1,
          ) in
          rw (ordered_insert, less) (own.0, only, Owned-ordered_insert e fs ne out' own.2)
      | inr (inl same) ↦ rw (ordered_insert, same) (ne, out, own)
      | inr (inr more) ↦ rw (ordered_insert, more) (ne, out, own)
    ]

-- The map is well formed, each node has a list of its own, and there is no list at null.
pub record WellFormed (mm : Multimap) : Type 0 where
  pub map : Inv mm.map
  pub owned : Owned mm.map.nodes
  pub nothing : mm.lists null ≡ []

-- The cells of a key: those of the list that cc_multimap_findp returns.
unfoldable pub cells_of : Multimap → Key → Cells
unfolding find_list
cells_of mm k = mm.lists (find_list mm k).0

pub cells_of-search_val :
    (mm : Multimap) (k : Key)
    → WellFormed mm
    → IsKey k
    → cells_of mm k ≡ mm.lists (search_val (key_bytes k) mm.map.nodes)
unfolding cells_of find_list
cells_of-search_val mm k w ok = ap mm.lists (list_at-findp mm.map k w.map ok)

-- Whether the allocators, or a key that is too long, keep the value out.
abbrev pub fails : AddAnswers → Multimap → Option Bytes → Bool
fails a mm o =
    if search_val o mm.map.nodes == null
    then (if a.list == null
        then true
        else if a.iter == null
        then true
        else refuses a.map o mm.map.nodes)
    else a.iter == null

-- The new data are not below these data, and below the first of these.
abbrev pub NotBelow : Compare → (val : Ptr) → Cells → Type 0
NotBelow compare val [] = Unit {0}
NotBelow compare val ((p, v) ∷ cells) = (is_lt (compare val v) ≡ false) × NotBelow compare val cells

abbrev pub BelowHead : Compare → (val : Ptr) → Cells → Type 0
BelowHead compare val [] = Unit {0}
BelowHead compare val ((p, v) ∷ cells) = is_lt (compare val v) ≡ true

place-Inserted :
    (compare : Compare) (iter val : Ptr) (cells : Cells)
    → (pre : Cells) × (post : Cells) × (cells ≡ pre ++ post)
      × (place compare iter val cells ≡ pre ++ (iter, val) ∷ post)
      × NotBelow compare val pre
      × BelowHead compare val post
unfolding place
place-Inserted compare iter val [] = ([], [], refl, refl, tt, tt)
place-Inserted compare iter val ((p, v) ∷ cells) = elim (Bool-cases (is_lt (compare val v))) [
  | inl below ↦ ([], (p, v) ∷ cells, refl, rw below refl, tt, below)
  | inr above ↦
      let (pre, post, before, after, not_below, head) = place-Inserted compare iter val cells in
      (
        (p, v) ∷ pre,
        post,
        ap (◌∷◌ (p, v)) before,
        rw above (ap (◌∷◌ (p, v)) after),
        (above, not_below),
        head,
      )
]

-- The list of a multimap after a value went in: at its end, or, where there is a comparison, in front
-- of the first data that it is below.
abbrev pub Inserted : Option Compare → (iter val : Ptr) → (before after : Cells) → Type 0
Inserted none iter val before after = after ≡ before ++ (iter, val) ∷ []
Inserted (some compare) iter val before after =
    (pre : Cells) × (post : Cells) × (before ≡ pre ++ post)
    × (after ≡ pre ++ (iter, val) ∷ post)
    × NotBelow compare val pre
    × BelowHead compare val post

insert_val-Inserted :
    (o : Option Compare) (iter val : Ptr) (cells : Cells)
    → Inserted o iter val cells (insert_val o iter val cells)
unfolding insert_val
insert_val-Inserted none iter val cells = refl
insert_val-Inserted (some compare) iter val cells = place-Inserted compare iter val cells

-- What is true of a multimap to which a value was added under a key.
abbrev pub AddedVal : AddAnswers → Multimap → Key → (val : Ptr) → Multimap → Type 0
AddedVal a mm k val mm' =
    WellFormed mm'
    × ((k' : Key)
        → IsKey k'
        → cells_of mm' k' ≡ (
            if same_key (key_bytes k) (key_bytes k')
            then insert_val mm.compare a.iter val (cells_of mm k)
            else cells_of mm k'))

-- What cc_multimap_addp promises: the multimap is well formed, the list of the key has got the value,
-- and the list of every other key is as it was.
pub record HasAdded (a : AddAnswers) (mm : Multimap) (k : Key) (val : Ptr) (mm' : Multimap)
    : Type 0 where
  pub whole : WellFormed mm'
  pub inserted :
      (k' : Key)
      → IsKey k'
      → same_key (key_bytes k) (key_bytes k') ≡ true
      → Inserted mm.compare a.iter val (cells_of mm k) (cells_of mm' k')
  pub others :
      (k' : Key)
      → IsKey k'
      → same_key (key_bytes k) (key_bytes k') ≡ false
      → cells_of mm' k' ≡ cells_of mm k'

pub AddedVal-HasAdded :
    (a : AddAnswers) (mm : Multimap) (k : Key) (val : Ptr) (mm' : Multimap)
    → AddedVal a mm k val mm'
    → HasAdded a mm k val mm'
AddedVal-HasAdded a mm k val mm' (whole, cells) = record {
  whole = whole;
  inserted = λ k' ok same.
      let chosen : cells_of mm' k' ≡ insert_val mm.compare a.iter val (cells_of mm k) =
        cells k' ok
        ∙ ap (λ t. if t then insert_val mm.compare a.iter val (cells_of mm k) else cells_of mm k')
            same in
      subst (Inserted mm.compare a.iter val (cells_of mm k)) (sym chosen)
        (insert_val-Inserted mm.compare a.iter val (cells_of mm k));
  others = λ k' ok differ.
      cells k' ok
      ∙ ap (λ t. if t then insert_val mm.compare a.iter val (cells_of mm k) else cells_of mm k')
          differ;
}
