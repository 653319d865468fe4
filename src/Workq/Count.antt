-- ===== src/Workq/Count.antt =====
-- How often a task stands in a queue and in the map, and what the functions of cc_workq.c on one
-- queue do to these numbers and to the status of its nodes.
use libcc.Base.{
  ℕ, ◌+◌, ◌<◌, ◌≡◌, refl, ◌⊎◌, inl, inr, true, false, Option, none, some, List, [], ◌∷◌, ◌++◌,
  arith, ◌==◌, if◌then◌else◌, Bool-cases, ap,
}
use libcc.Workq.Queue.{Task, Node, ◌>>=◌, has_key, remove_key, find_node, remove_node, Finishes}

-- A step that does not fault, with a result that has the property `P`.
pub data Gives {A : Type 0} (P : A → Type 0) : Option A → Type 0 where
  gives : {a : A} → P a → Gives P (some a)

module _ {A B : Type 0} {P : A → Type 0} {Q : B → Type 0} where
  pub Gives-bind :
      {o : Option A} {k : A → Option B}
      → Gives P o
      → ((a : A) → P a → Gives Q (k a))
      → Gives Q (o >>= k)
  Gives-bind (gives p) next = next _ p

module _ {A : Type 0} {P Q : A → Type 0} where
  pub Gives-mono : {o : Option A} → Gives P o → ((a : A) → P a → Q a) → Gives Q o
  Gives-mono (gives p) weaken = gives (weaken _ p)

-- 1 where the tasks are the same, and 0 elsewhere.
abbrev pub at : Task → Task → ℕ
at t u = if t == u then 1 else 0

abbrev pub count : Task → List Node → ℕ
count t [] = 0
count t (n ∷ ns) = at n.task t + count t ns

abbrev pub count_key : Task → List Task → ℕ
count_key t [] = 0
count_key t (u ∷ us) = at u t + count_key t us

abbrev pub count_finish : Task → Finishes → ℕ
count_finish t [] = 0
count_finish t ((u, _) ∷ us) = at u t + count_finish t us

abbrev pub All : (Node → Type 0) → List Node → Type 0
All P [] = Unit {0}
All P (n ∷ ns) = P n × All P ns

pub count-append : (t : Task) (xs ys : List Node) → count t (xs ++ ys) ≡ count t xs + count t ys
count-append t [] ys = omega arith
count-append t (n ∷ xs) ys = omega (arith, count-append t xs ys)

pub count_finish-append :
    (t : Task) (xs ys : Finishes)
    → count_finish t (xs ++ ys) ≡ count_finish t xs + count_finish t ys
count_finish-append t [] ys = omega arith
count_finish-append t ((u, s) ∷ xs) ys = omega (arith, count_finish-append t xs ys)

pub All-append : (P : Node → Type 0) (xs ys : List Node) → All P xs → All P ys → All P (xs ++ ys)
All-append P [] ys hx hy = hy
All-append P (n ∷ xs) ys hx hy = (hx.0, All-append P xs ys hx.1 hy)

pub has_key-count : (t : Task) (us : List Task) → has_key t us ≡ true → 0 < count_key t us
has_key-count t [] h = absurd (ground arith)
has_key-count t (u ∷ us) h = ground (arith, has_key-count t us)

pub not-has_key-count : (t : Task) (us : List Task) → has_key t us ≡ false → count_key t us ≡ 0
not-has_key-count t [] h = refl
not-has_key-count t (u ∷ us) h = ground (arith, not-has_key-count t us)

pub remove_key-Gives :
    (t : Task) (us : List Task)
    → 0 < count_key t us
    → Gives (λ vs. (u : Task) → count_key u us ≡ at t u + count_key u vs) (remove_key t us)
unfolding remove_key
remove_key-Gives t [] pos = absurd (omega arith)
remove_key-Gives t (v ∷ us) pos = elim (Bool-cases (v == t)) [
  | inl e ↦ rw e (gives (λ u. ground arith))
  | inr e ↦
      rw e
        (Gives-bind (remove_key-Gives t us (ground arith)) λ vs h. gives (λ u. omega (arith, h u)))
]

-- `rest` is `ns` less one node `n`.
abbrev pub Less : List Node → Node → List Node → Type 0
Less ns n rest =
    (pre : List Node) × (post : List Node) × (ns ≡ pre ++ n ∷ post) × (rest ≡ pre ++ post)

-- What taking the node of `t` out of the queue gives: the node that a search finds.
abbrev pub Removed : (Node → Type 0) → Task → List Node → Node × List Node → Type 0
Removed P t ns (n, rest) =
    (n.task ≡ t)
    × ((u : Task) → count u ns ≡ at t u + count u rest)
    × P n
    × All P rest
    × (find_node t ns ≡ some n)
    × Less ns n rest

pub remove_node-Gives :
    (P : Node → Type 0) (t : Task) (ns : List Node)
    → 0 < count t ns
    → All P ns
    → Gives (Removed P t ns) (remove_node t ns)
unfolding remove_node find_node
remove_node-Gives P t [] pos all = absurd (omega arith)
remove_node-Gives P t (m ∷ ns) pos all = elim (Bool-cases (m.task == t)) [
  | inl e ↦
      rw e
        (gives (ground arith, (λ u. ground arith), all.0, all.1, rw e refl, ([], ns, refl, refl)))
  | inr e ↦ rw e (
      Gives-bind (remove_node-Gives P t ns (ground arith) all.1)
        λ (n, rest) (same, h, p, all', found, (pre, post, before, after)). gives (
          same,
          (λ u. omega (arith, h u)),
          p,
          (all.0, all'),
          rw e found,
          (m ∷ pre, post, ap (◌∷◌ m) before, ap (◌∷◌ m) after),
        ))
]

pub find_node-cases :
    (P : Node → Type 0) (t : Task) (ns : List Node)
    → All P ns
    → ((find_node t ns ≡ none) × (count t ns ≡ 0))
      ⊎ ((n : Node) × (find_node t ns ≡ some n) × P n × (0 < count t ns))
unfolding find_node
find_node-cases P t [] all = inl (refl, refl)
find_node-cases P t (m ∷ ns) all = elim (Bool-cases (m.task == t)) [
  | inl e ↦ inr (m, rw e, all.0, ground arith)
  | inr e ↦ elim (find_node-cases P t ns all.1) [
    | inl (none_there, zero_there) ↦ inl (rw e none_there, rw e (omega arith))
    | inr (n, found, p, pos) ↦ inr (n, rw e found, p, omega arith)
  ]
]
