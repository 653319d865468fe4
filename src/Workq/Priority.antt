-- ===== src/Workq/Priority.antt =====
-- cc_workq_run and the order of the pending queue.
use libcc.Base.{
  ◌≡◌, refl, true, List, [], ◌∷◌, ◌++◌, inl, inr, Bool-cases, sym, ◌∙◌, subst, append_assoc,
  append-nil,
}
use libcc.Int.{ℤ, ltb_ℤ, ◌≤ℤ◌, ltb_ℤ→≤ℤ, not-ltb_ℤ→≤ℤ, ≤ℤ_trans}
use libcc.Workq.Queue.{Task, Node, walk_up, unwind, insert_up, rewind}
use libcc.Workq.{Workq}
use libcc.Workq.Tasks.{new_node, submit}
use libcc.Workq.Count.{All}

abbrev pub AtMost : ℤ → Node → Type 0
AtMost p n = n.priority ≤ℤ p

abbrev pub AtLeast : ℤ → Node → Type 0
AtLeast p n = p ≤ℤ n.priority

abbrev pub Below : ℤ → Node → Type 0
Below p n = ltb_ℤ n.priority p ≡ true

-- No node has a higher priority than one in front of it.
abbrev pub IsOrdered : List Node → Type 0
IsOrdered [] = Unit {0}
IsOrdered (n ∷ ns) = All (AtMost n.priority) ns × IsOrdered ns

unwind-append : (front xs ys : List Node) → unwind front (xs ++ ys) ≡ unwind front xs ++ ys
unfolding unwind
unwind-append [] xs ys = refl
unwind-append (n ∷ front) xs ys = unwind-append front (n ∷ xs) ys

pub unwind-rewind :
    (front xs ys : List Node) → unwind (rewind front xs) ys ≡ unwind front (xs ++ ys)
unfolding unwind rewind
unwind-rewind front [] ys = refl
unwind-rewind front (n ∷ xs) ys = unwind-rewind (n ∷ front) xs ys

pub All-split : (P : Node → Type 0) (xs ys : List Node) → All P (xs ++ ys) → All P xs × All P ys
All-split P [] ys all = (tt, all)
All-split P (n ∷ xs) ys all = let (hx, hy) = All-split P xs ys all.1 in ((all.0, hx), hy)

-- In an ordered queue the nodes in front of one are not below it.
pub IsOrdered-front :
    (xs : List Node) (n : Node) (ys : List Node)
    → IsOrdered (xs ++ n ∷ ys)
    → All (AtLeast n.priority) xs
IsOrdered-front [] n ys o = tt
IsOrdered-front (m ∷ xs) n ys o =
    ((All-split (AtMost m.priority) xs (n ∷ ys) o.0).1.0, IsOrdered-front xs n ys o.1)

All-weaken : (p q : ℤ) (xs : List Node) → p ≤ℤ q → All (AtLeast q) xs → All (AtLeast p) xs
All-weaken p q [] le all = tt
All-weaken p q (n ∷ xs) le all = (≤ℤ_trans p q n.priority le all.0, All-weaken p q xs le all.1)

All-Below-AtMost : (p : ℤ) (xs : List Node) → All (Below p) xs → All (AtMost p) xs
All-Below-AtMost p [] all = tt
All-Below-AtMost p (n ∷ xs) all = (ltb_ℤ→≤ℤ n.priority p all.0, All-Below-AtMost p xs all.1)

All-join : (P : Node → Type 0) (xs ys : List Node) → All P xs → All P ys → All P (xs ++ ys)
All-join P [] ys hx hy = hy
All-join P (n ∷ xs) ys hx hy = (hx.0, All-join P xs ys hx.1 hy)

-- Where a node of this priority belongs in the queue: behind every node that is not below it, and
-- in front of every one that is.
abbrev pub Slot : ℤ → Node → (before after : List Node) → Type 0
Slot p n before after =
    (xs : List Node) × (ys : List Node) × (before ≡ xs ++ ys)
    × (after ≡ xs ++ n ∷ ys)
    × All (AtLeast p) xs
    × All (Below p) ys

insert_up-Slot :
    (p : ℤ) (n : Node) (front back : List Node)
    → IsOrdered (unwind front back)
    → All (Below p) back
    → Slot p n (unwind front back) (insert_up p n front back)
unfolding insert_up walk_up unwind
insert_up-Slot p n [] back o below = ([], back, refl, refl, tt, below)
insert_up-Slot p n (m ∷ front) back o below = elim (Bool-cases (ltb_ℤ m.priority p)) [
  | inl lt ↦ rw lt (insert_up-Slot p n front (m ∷ back) o (lt, below))
  | inr ge ↦
      let xs : List Node = unwind front [] in
      let whole = unwind-append front [] (m ∷ back) in
      let le = not-ltb_ℤ→≤ℤ m.priority p ge in
      let high = IsOrdered-front xs m back (subst IsOrdered whole o) in
      rw ge (
        xs ++ m ∷ [],
        back,
        whole ∙ sym (append_assoc xs (m ∷ []) back),
        unwind-append front [] (m ∷ n ∷ back) ∙ sym (append_assoc xs (m ∷ []) (n ∷ back)),
        All-join (AtLeast p) xs (m ∷ []) (All-weaken p m.priority xs le high) (le, tt),
        below,
      )
]

IsOrdered-insert :
    (p : ℤ) (n : Node) (xs ys : List Node)
    → n.priority ≡ p
    → IsOrdered (xs ++ ys)
    → All (AtLeast p) xs
    → All (Below p) ys
    → IsOrdered (xs ++ n ∷ ys)
IsOrdered-insert p n [] ys e o high low =
    (subst (λ q. All (AtMost q) ys) (sym e) (All-Below-AtMost p ys low), o)
IsOrdered-insert p n (m ∷ xs) ys e o high low =
    let (hx, hy) = All-split (AtMost m.priority) xs ys o.0 in
    let le : n.priority ≤ℤ m.priority = subst (λ q. q ≤ℤ m.priority) (sym e) high.0 in
    (
      All-join (AtMost m.priority) xs (n ∷ ys) hx (le, hy),
      IsOrdered-insert p n xs ys e o.1 high.1 low,
    )

-- In an ordered pending queue the node of a new task goes behind every node that is not below it
-- and in front of the others, and the queue stays ordered.
pub submit-Slot :
    (w : Workq) (task : Task) (p : ℤ)
    → IsOrdered w.queue_pending
    → Slot p (new_node w task p) w.queue_pending (submit w task p).queue_pending
      × IsOrdered (submit w task p).queue_pending
unfolding submit unwind
submit-Slot w task p o =
    let same : unwind (rewind [] w.queue_pending) [] ≡ w.queue_pending =
      unwind-rewind [] w.queue_pending [] ∙ append-nil w.queue_pending in
    let (xs, ys, before, after, high, low) =
      insert_up-Slot p (new_node w task p) (rewind [] w.queue_pending) []
        (subst IsOrdered (sym same) o) tt in
    (
      (xs, ys, sym same ∙ before, after, high, low),
      subst IsOrdered (sym after) (
          IsOrdered-insert p (new_node w task p) xs ys refl (subst IsOrdered (sym same ∙ before) o)
            high low),
    )
