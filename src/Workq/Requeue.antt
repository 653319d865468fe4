-- ===== src/Workq/Requeue.antt =====
-- cc_workq_run on a task that is pending already, with another priority.
use libcc.Base.{
  ◌≡◌, refl, true, Option, some, List, [], ◌∷◌, ◌++◌, arith, ◌==◌, inl, inr, Bool-cases, sym, ◌∙◌,
  ap, subst, ==_refl, append_assoc,
}
use libcc.Int.{ℤ, ltb_ℤ, ≤ℤ→not-ltb_ℤ}
use libcc.Workq.Queue.{
  Status, pending, Node, ◌>>=◌, has_key, find_node, split_node, walk_up, unwind, insert_up, rewind,
}
use libcc.Workq.{Workq}
use libcc.Workq.Tasks.{Alloc, or_else, peek_task, requeue, rerun_pending, run_node, run}
use libcc.Workq.Count.{Gives, gives, count, All, count-append, not-has_key-count}
use libcc.Workq.Place.{rewind-Holds}
use libcc.Workq.Invariant.{IsPending, Inv}
use libcc.Workq.Priority.{AtLeast, IsOrdered, IsOrdered-front, All-split, unwind-rewind}

split_node-at :
    (acc xs : List Node) (n : Node) (ys : List Node)
    → count n.task xs ≡ 0
    → split_node n.task acc (xs ++ n ∷ ys) ≡ some (rewind acc xs, n, ys)
unfolding split_node rewind
split_node-at acc [] n ys absent = rw (==_refl n.task)
split_node-at acc (m ∷ xs) n ys absent = elim (Bool-cases (m.task == n.task)) [
  | inl e ↦ absurd (ground arith)
  | inr e ↦ rw e (split_node-at (m ∷ acc) xs n ys (ground arith))
]

find_node-at :
    (xs : List Node) (n : Node) (ys : List Node)
    → count n.task xs ≡ 0
    → find_node n.task (xs ++ n ∷ ys) ≡ some n
unfolding find_node
find_node-at [] n ys absent = rw (==_refl n.task)
find_node-at (m ∷ xs) n ys absent = ground (arith, find_node-at xs n ys)

-- The upward walk stops where it begins.
insert_up-stop :
    (p : ℤ) (n : Node) (front back : List Node)
    → All (AtLeast p) front
    → insert_up p n front back ≡ unwind front (n ∷ back)
unfolding insert_up walk_up unwind
insert_up-stop p n [] back high = refl
insert_up-stop p n (m ∷ front) back high = rw (≤ℤ→not-ltb_ℤ p m.priority high.0)

-- The node as cc_workq_run leaves it.
abbrev pub reranked : Workq → ℤ → Node → Node
reranked w p n = record n { priority = p; purge_id = w.purge_id }

requeue-raised :
    (w : Workq) (p : ℤ) (xs : List Node) (n : Node) (ys : List Node)
    → All (AtLeast n.priority) xs
    → ltb_ℤ n.priority p ≡ true
    → requeue w p (rewind [] xs) n ys ≡ xs ++ reranked w p n ∷ ys
unfolding requeue unwind
requeue-raised w p xs n ys high up =
    let front = (rewind-Holds (AtLeast n.priority) [] xs tt high).1 in
    rw up (
      insert_up-stop n.priority (reranked w p n) (rewind [] xs) ys front
      ∙ unwind-rewind [] xs (reranked w p n ∷ ys))

module _ (w : Workq) (p : ℤ) (xs : List Node) (n : Node) (ys : List Node) (inv : Inv w)
    (at_n : w.queue_pending ≡ xs ++ n ∷ ys) where
  -- The call's result, when the node has kept its place.
  abbrev pub kept_place : Option (Status × Workq)
  kept_place = some (pending, record w { queue_pending = xs ++ reranked w p n ∷ ys })

  absent_in_front : count n.task xs ≡ 0
  absent_in_front = ground (
    arith,
    ap (count n.task) at_n,
    count-append n.task xs (n ∷ ys),
    inv.mapped n.task,
    inv.unique n.task,
    ==_refl n.task,
  )

  is_pending : n.status ≡ pending
  is_pending = (All-split IsPending xs (n ∷ ys) (subst (All IsPending) at_n inv.pending_ok)).1.0

  known : has_key n.task w.map_task ≡ true
  known = elim (Bool-cases (has_key n.task w.map_task)) [
    | inl e ↦ e
    | inr e ↦ absurd (
        ground (
          arith,
          not-has_key-count n.task w.map_task e,
          ap (count n.task) at_n,
          count-append n.task xs (n ∷ ys),
          inv.mapped n.task,
          ==_refl n.task,
        ))
  ]

  peeked : peek_task w n.task ≡ some n
  unfolding peek_task
  peeked =
      ap
        (λ q.
          or_else (find_node n.task q)
            (or_else (find_node n.task w.queue_active) (find_node n.task w.queue_complete)))
        at_n
      ∙ rw (find_node-at xs n ys absent_in_front)

  rerun_pending-raised :
      IsOrdered w.queue_pending → ltb_ℤ n.priority p ≡ true → rerun_pending w n.task p ≡ kept_place
  unfolding rerun_pending
  rerun_pending-raised o up =
      let high = IsOrdered-front xs n ys (subst IsOrdered at_n o) in
      ap
        (λ q. split_node n.task [] q >>= λ (f, m, b).
          some (m.status, record w { queue_pending = requeue w p f m b }))
        at_n
      ∙ rw (split_node-at [] xs n ys absent_in_front) (
          ap (λ q. some (n.status, record w { queue_pending = q }))
            (requeue-raised w p xs n ys high up)
          ∙ ap (λ s. some (s, record w { queue_pending = xs ++ reranked w p n ∷ ys })) is_pending)

  -- On a queue with the invariant and an ordered pending queue, cc_workq_run with a higher priority
  -- leaves a pending task where it is: the node gets the new priority and keeps its place.
  pub run-raised :
      (a : Alloc)
      → IsOrdered w.queue_pending
      → ltb_ℤ n.priority p ≡ true
      → run a w n.task p ≡ kept_place
  unfolding run run_node
  run-raised a o up =
      rw (known, peeked)
        (subst (λ s. run_node w n.task p s ≡ kept_place) (sym is_pending)
          (rerun_pending-raised o up))

-- On a queue with the invariant and an ordered pending queue, cc_workq_run that raises a pending task
-- above the one in front of it does not fault, and leaves a pending queue that is not ordered.
pub run-raised-not-IsOrdered :
    (a : Alloc) (w : Workq) (p : ℤ) (xs : List Node) (m n : Node) (ys : List Node)
    → Inv w
    → w.queue_pending ≡ xs ++ m ∷ n ∷ ys
    → IsOrdered w.queue_pending
    → ltb_ℤ n.priority p ≡ true
    → ltb_ℤ m.priority p ≡ true
    → Gives (λ (s, w'). ¬ IsOrdered w'.queue_pending) (run a w n.task p)
run-raised-not-IsOrdered a w p xs m n ys inv at_n o up above =
    let regroup = append_assoc xs (m ∷ []) (n ∷ ys) in
    let regroup' = append_assoc xs (m ∷ []) (reranked w p n ∷ ys) in
    rw (run-raised w p (xs ++ m ∷ []) n ys inv (at_n ∙ sym regroup) a o up) (
      gives λ o'.
        let high = IsOrdered-front (xs ++ m ∷ []) (reranked w p n) ys o' in
        let bad = (All-split (AtLeast p) xs (m ∷ []) high).1.0 in
        cc (above, ≤ℤ→not-ltb_ℤ p m.priority bad))
