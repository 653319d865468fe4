-- ===== src/Map/Sorted.antt =====
-- The list of the nodes of a map: its order, its iterators, and where its buckets begin.
use libcc.Base.{
  ℕ, ◌+◌, ◌*◌, ◌/◌, ◌%◌, ◌^◌, ◌≤◌, ◌<◌, ◌≡◌, refl, inl, inr, Bool, false, Bool-cases, ◌||◌, List,
  [], ◌∷◌, arith, ◌==◌, if◌then◌else◌, ==_refl, length,
}
use libcc.CcList.Store.{Ptr, null}
use libcc.Murmur.{Bytes, mumurhash3}
use libcc.Map.{Entry, Map, node_size, idx, from, head}
use libcc.Map.Order.{IsBytes, Less, cmp_node-hash}

abbrev pub All : (Entry → Type 0) → List Entry → Type 0
All P [] = Unit {0}
All P (e ∷ es) = P e × All P es

pub All-map :
    (P Q : Entry → Type 0) (es : List Entry) → ((e : Entry) → P e → Q e) → All P es → All Q es
All-map P Q [] f all = tt
All-map P Q (e ∷ es) f all = (f e all.0, All-map P Q es f all.1)

abbrev pub has : Ptr → List Entry → Bool
has it [] = false
has it (e ∷ es) = (e.iter == it) || has it es

-- No iterator is null, and none stands twice.
abbrev pub Distinct : List Entry → Type 0
Distinct [] = Unit {0}
Distinct (e ∷ es) = ((e.iter == null) ≡ false) × (has e.iter es ≡ false) × Distinct es

-- Each node stands in front of all that are behind it.
abbrev pub Sorted : List Entry → Type 0
Sorted [] = Unit {0}
Sorted (e ∷ es) = All (λ f. Less e.node f.node) es × Sorted es

-- A key that a node can have.
abbrev pub Fits : Bytes → Type 0
Fits key = IsBytes key × (length key ≤ 256)

-- The hash of a node is that of its key.
abbrev pub Hashed : ℕ → Entry → Type 0
Hashed seed e = Fits e.node.key × (e.node.hash ≡ mumurhash3 seed e.node.key)

-- The nodes from the first with this index on.
unfoldable pub skip : (elements i : ℕ) → List Entry → List Entry
skip elements i [] = []
skip elements i (e ∷ es) = if idx elements e == i then e ∷ es else skip elements i es

-- The bytes of the nodes.
unfoldable pub bytes_of_nodes : List Entry → ℕ
unfolding node_size
bytes_of_nodes [] = 0
bytes_of_nodes (e ∷ es) = node_size e.node.key + bytes_of_nodes es

pub record Inv (m : Map) : Type 0 where
  pub shift : ℕ
  pub elements : m.elements ≡ 2 ^ shift
  pub hashes : m.capacity * m.elements ≡ 2 ^ 32
  pub wide : 1 < m.capacity
  pub small : m.capacity ≤ 2 ^ 30
  pub sorted : Sorted m.nodes
  pub distinct : Distinct m.nodes
  pub hashed : All (Hashed m.seed) m.nodes
  pub buckets : (i : ℕ) → i < m.capacity → m.buckets i ≡ head (skip m.elements i m.nodes)
  pub sizes : m.nodes_size ≡ bytes_of_nodes m.nodes % 2 ^ 64

-- The head of some of the nodes is null or one of them.
head_skip-ne :
    (elements i : ℕ) (it : Ptr) (es : List Entry)
    → (it == null) ≡ false
    → has it es ≡ false
    → (it == head (skip elements i es)) ≡ false
unfolding skip
head_skip-ne elements i it [] ne out = ne
head_skip-ne elements i it (e ∷ es) ne out = ground (arith, head_skip-ne elements i it es)

pub from-skip :
    (elements i : ℕ) (es : List Entry)
    → Distinct es
    → from (head (skip elements i es)) es ≡ skip elements i es
unfolding from skip
from-skip elements i [] d = refl
from-skip elements i (e ∷ es) d =
    ground (
      arith,
      ==_refl e.iter,
      from-skip elements i es d.2,
      head_skip-ne elements i e.iter es d.0 d.1,
    )

-- Indices grow with the hashes.
pub idx_mono : (elements : ℕ) (a b : ℕ) → 0 < elements → a ≤ b → a / elements ≤ b / elements
idx_mono elements a b pos le = grind arith

pub Less-idx :
    (elements : ℕ) (e f : Entry)
    → 0 < elements
    → Less e.node f.node
    → idx elements e ≤ idx elements f
Less-idx elements e f pos less =
    idx_mono elements e.node.hash f.node.hash pos (cmp_node-hash e.node f.node less)

abbrev pub From : (elements i : ℕ) → Entry → Type 0
From elements i e = i ≤ idx elements e

-- Behind a node of an index there are none of a lower index.
pub From-All :
    (elements i : ℕ) (e : Entry) (es : List Entry)
    → 0 < elements
    → i ≤ idx elements e
    → All (λ f. Less e.node f.node) es
    → All (From elements i) es
From-All elements i e es pos le all =
    All-map _ (From elements i) es (λ f less. omega (arith, Less-idx elements e f pos less)) all

pub From-skip :
    (elements i : ℕ) (es : List Entry)
    → 0 < elements
    → Sorted es
    → All (From elements i) (skip elements i es)
unfolding skip
From-skip elements i [] pos s = tt
From-skip elements i (e ∷ es) pos s = elim (Bool-cases (idx elements e == i)) [
  | inl here ↦
      let le : i ≤ idx elements e = ground arith in
      rw here (le, From-All elements i e es pos le s.0)
  | inr other ↦ rw other (From-skip elements i es pos s.1)
]

pub Sorted-skip : (elements i : ℕ) (es : List Entry) → Sorted es → Sorted (skip elements i es)
unfolding skip
Sorted-skip elements i [] s = tt
Sorted-skip elements i (e ∷ es) s = elim (Bool-cases (idx elements e == i)) [
  | inl here ↦ rw here s
  | inr other ↦ rw other (Sorted-skip elements i es s.1)
]

pub All-skip :
    (P : Entry → Type 0) (elements i : ℕ) (es : List Entry) → All P es → All P (skip elements i es)
unfolding skip
All-skip P elements i [] all = tt
All-skip P elements i (e ∷ es) all = elim (Bool-cases (idx elements e == i)) [
  | inl here ↦ rw here all
  | inr other ↦ rw other (All-skip P elements i es all.1)
]
