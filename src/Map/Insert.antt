-- ===== src/Map/Insert.antt =====
-- A node put in front of the first one that is above it.
use Prim.Native.Nat.{Ordering}
use libcc.Base.{
  ℕ, ◌+◌, ◌<◌, ◌≡◌, ◌≢◌, refl, ◌⊎◌, inl, inr, true, false, Bool-cases, ◌||◌, List, [], ◌∷◌, ◌++◌,
  arith, ◌==◌, if◌then◌else◌, length, sym, ◌∙◌, ap, subst, ==_refl,
}
use libcc.CcList.Store.{Ptr, null}
use libcc.Murmur.{Bytes}
use libcc.Map.{Node, Entry, node_size, idx, cmp_node, head, insert_before, insert_node, replaces}
use libcc.Map.Order.{Less, Ordering-cases, cmp_node-swap, Less-trans}
use libcc.Map.Sorted.{All, All-map, Sorted, Distinct, skip, has, bytes_of_nodes, Less-idx}
use libcc.Map.Find.{lookup, same_bytes, same_bytes→≡, not-same_bytes, Absent}
use libcc.Map.Grow.{later-none}
use libcc.Map.Place.{above}

unfoldable pub ordered_insert : Entry → List Entry → List Entry
ordered_insert e [] = e ∷ []
ordered_insert e (f ∷ fs) = elim (cmp_node f.node e.node.hash e.node.key) [
  | Ordering.lt ↦ f ∷ ordered_insert e fs
  | Ordering.eq ↦ e ∷ f ∷ fs
  | Ordering.gt ↦ e ∷ f ∷ fs
]

-- The head of the nodes above one is null or one of the nodes.
head_above-ne :
    (q : Node) (it : Ptr) (es : List Entry)
    → (it == null) ≡ false
    → has it es ≡ false
    → (it == head (above q es)) ≡ false
unfolding above
head_above-ne q it [] ne out = ne
head_above-ne q it (e ∷ es) ne out = ground (arith, head_above-ne q it es)

insert_before-ordered :
    (e : Entry) (es : List Entry)
    → Distinct es
    → (head (above e.node es) == null) ≡ false
    → insert_before (head (above e.node es)) e es ≡ ordered_insert e es
unfolding insert_before ordered_insert above
insert_before-ordered e [] d ne = absurd (ground arith)
insert_before-ordered e (f ∷ fs) d ne =
    ground (
      arith,
      ==_refl f.iter,
      head_above-ne e.node f.iter fs d.0 d.1,
      insert_before-ordered e fs d.2,
    )

append-ordered :
    (e : Entry) (es : List Entry)
    → Distinct es
    → (head (above e.node es) == null) ≡ true
    → es ++ e ∷ [] ≡ ordered_insert e es
unfolding ordered_insert above
append-ordered e [] d at = refl
append-ordered e (f ∷ fs) d at = ground (arith, d.0, append-ordered e fs d.2)

pub insert_node-ordered :
    (e : Entry) (es : List Entry)
    → Distinct es
    → insert_node (head (above e.node es)) e es ≡ ordered_insert e es
unfolding insert_node
insert_node-ordered e es d = elim (Bool-cases (head (above e.node es) == null)) [
  | inl at_end ↦ rw at_end (append-ordered e es d at_end)
  | inr inside ↦ rw inside (insert_before-ordered e es d inside)
]

-- The first step of an insertion.
ordered_insert-cases :
    (e f : Entry) (fs : List Entry)
    → ((Less f.node e.node) × (ordered_insert e (f ∷ fs) ≡ f ∷ ordered_insert e fs))
      ⊎ (ordered_insert e (f ∷ fs) ≡ e ∷ f ∷ fs)
unfolding ordered_insert
ordered_insert-cases e f fs = elim (Ordering-cases (cmp_node f.node e.node.hash e.node.key)) [
  | inl less ↦ inl (less, rw (ordered_insert, less))
  | inr (inl same) ↦ inr (rw (ordered_insert, same))
  | inr (inr more) ↦ inr (rw (ordered_insert, more))
]

-- Insertion keeps what holds of each node.
pub All-ordered_insert :
    (P : Entry → Type 0) (e : Entry) (es : List Entry)
    → P e
    → All P es
    → All P (ordered_insert e es)
unfolding ordered_insert
All-ordered_insert P e [] new all = (new, tt)
All-ordered_insert P e (f ∷ fs) new all = elim (ordered_insert-cases e f fs) [
  | inl (less, later) ↦ subst (All P) (sym later) (all.0, All-ordered_insert P e fs new all.1)
  | inr first ↦ subst (All P) (sym first) (new, all)
]

-- No node compares equal to one.
abbrev pub Apart : Node → List Entry → Type 0
Apart q = All (λ f. cmp_node f.node q.hash q.key ≢ Ordering.eq)

pub Sorted-ordered_insert :
    (e : Entry) (es : List Entry) → Apart e.node es → Sorted es → Sorted (ordered_insert e es)
unfolding ordered_insert
Sorted-ordered_insert e [] ap s = (tt, tt)
Sorted-ordered_insert e (f ∷ fs) ap s =
    elim (Ordering-cases (cmp_node f.node e.node.hash e.node.key)) [
      | inl less ↦
          rw (ordered_insert, less)
            (
              All-ordered_insert (λ g. Less f.node g.node) e fs less s.0,
              Sorted-ordered_insert e fs ap.1 s.1,
            )
      | inr (inl same) ↦ absurd (ap.0 same)
      | inr (inr more) ↦
          let first = (cmp_node-swap f.node e.node).1 more in
          rw (ordered_insert, more)
            ((first, All-map _ _ fs (λ g less. Less-trans e.node f.node g.node first less) s.0), s)
    ]

pub has-ordered_insert :
    (it : Ptr) (e : Entry) (es : List Entry)
    → has it (ordered_insert e es) ≡ ((e.iter == it) || has it es)
unfolding ordered_insert
has-ordered_insert it e [] = refl
has-ordered_insert it e (f ∷ fs) = ground (arith, has-ordered_insert it e fs)

eq_false_swap : (a b : ℕ) → (a == b) ≡ false → (b == a) ≡ false
eq_false_swap a b ne = ground arith

pub Distinct-ordered_insert :
    (e : Entry) (es : List Entry)
    → (e.iter == null) ≡ false
    → has e.iter es ≡ false
    → Distinct es
    → Distinct (ordered_insert e es)
unfolding ordered_insert
Distinct-ordered_insert e [] ne out d = (ne, refl, tt)
Distinct-ordered_insert e (f ∷ fs) ne out d =
    let out' : has e.iter fs ≡ false = ground arith in
    let apart : (f.iter == e.iter) ≡ false = ground arith in
    elim (Ordering-cases (cmp_node f.node e.node.hash e.node.key)) [
      | inl less ↦
          let only : has f.iter (ordered_insert e fs) ≡ false =
            ground
              (arith, has-ordered_insert f.iter e fs, eq_false_swap f.iter e.iter apart, d.1) in
          rw (ordered_insert, less) (d.0, only, Distinct-ordered_insert e fs ne out' d.2)
      | inr (inl same) ↦ rw (ordered_insert, same) (ne, out, d)
      | inr (inr more) ↦ rw (ordered_insert, more) (ne, out, d)
    ]

pub length-ordered_insert :
    (e : Entry) (es : List Entry) → length (ordered_insert e es) ≡ length es + 1
unfolding ordered_insert
length-ordered_insert e [] = refl
length-ordered_insert e (f ∷ fs) = ground (arith, length-ordered_insert e fs)

pub bytes_of_nodes-ordered_insert :
    (e : Entry) (es : List Entry)
    → bytes_of_nodes (ordered_insert e es) ≡ bytes_of_nodes es + node_size e.node.key
unfolding ordered_insert bytes_of_nodes
bytes_of_nodes-ordered_insert e [] = omega arith
bytes_of_nodes-ordered_insert e (f ∷ fs) = ground (arith, bytes_of_nodes-ordered_insert e fs)

-- The first node of another bucket stays.
pub skip-ordered_insert :
    (elements j : ℕ) (e : Entry) (es : List Entry)
    → (idx elements e == j) ≡ false
    → head (skip elements j (ordered_insert e es)) ≡ head (skip elements j es)
unfolding skip ordered_insert
skip-ordered_insert elements j e [] ne = ground arith
skip-ordered_insert elements j e (f ∷ fs) ne =
    ground (arith, skip-ordered_insert elements j e fs ne)

-- The first node of the bucket that the new node is in.
pub replaces-ordered_insert :
    (elements : ℕ) (e : Entry) (es : List Entry)
    → 0 < elements
    → Apart e.node es
    → Sorted es
    → Distinct es
    → (if replaces (head (skip elements (idx elements e) es)) (head (above e.node es))
        then e.iter
        else head (skip elements (idx elements e) es))
      ≡ head (skip elements (idx elements e) (ordered_insert e es))
unfolding skip ordered_insert above replaces
replaces-ordered_insert elements e [] pos ap s d = ground (arith, ==_refl (idx elements e))
replaces-ordered_insert elements e (f ∷ fs) pos ap s d =
    elim (Ordering-cases (cmp_node f.node e.node.hash e.node.key)) [
      | inl less ↦
          rw (above, ordered_insert, less)
            (elim (Bool-cases (idx elements f == idx elements e)) [
              | inl here ↦ ground (arith, head_above-ne e.node f.iter fs d.0 d.1, d.0)
              | inr other ↦ rw other (replaces-ordered_insert elements e fs pos ap.1 s.1 d.2)
            ])
      | inr (inl same) ↦ absurd (ap.0 same)
      | inr (inr more) ↦
          let le = Less-idx elements e f pos ((cmp_node-swap f.node e.node).1 more) in
          rw (above, ordered_insert, more, ==_refl (idx elements e), d.0)
            (elim (Bool-cases (idx elements f == idx elements e)) [
              | inl here ↦ rw (here, d.0, ==_refl f.iter)
              | inr other ↦
                  let lt : idx elements e < idx elements f = ground arith in
                  rw (other, later-none elements (idx elements e) f fs pos lt s.0)
            ])
    ]

-- A search finds the new node for its key, and for another one what it found before.
pub lookup-ordered_insert :
    (key : Bytes) (e : Entry) (es : List Entry)
    → Absent e.node.key es
    → lookup key (ordered_insert e es)
      ≡ (if same_bytes e.node.key key then e.iter else lookup key es)
unfolding ordered_insert lookup
lookup-ordered_insert key e [] out = refl
lookup-ordered_insert key e (f ∷ fs) out =
    let other : same_bytes e.node.key key ≡ true → same_bytes f.node.key key ≡ false = λ same.
      not-same_bytes f.node.key key
        (λ also. out.0 (also ∙ sym (same_bytes→≡ e.node.key key same))) in
    ground (arith, lookup-ordered_insert key e fs out.1, other)
