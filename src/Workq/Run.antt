-- ===== src/Workq/Run.antt =====
-- cc_workq.c: cc_workq_run and its outcomes.
use libcc.Base.{
  ◌+◌, ◌≤◌, ◌<◌, ◌≡◌, refl, ◌⊎◌, inl, inr, true, false, Option, List, [], ◌∷◌, arith, ◌==◌,
  Bool-cases, ap, subst, ==_refl, ==→≡,
}
use libcc.Int.{ℤ, ltb_ℤ}
use libcc.Workq.Queue.{
  Status, error, pending, active, complete, failure, PurgeId, Task, Node, ◌>>=◌, has_key,
  insert_down, rewind,
}
use libcc.Workq.{Workq}
use libcc.Workq.Tasks.{
  Alloc, all_ok, new_node, submit, requeue, rerun_pending, refresh, run_node, run,
}
use libcc.Workq.Count.{Gives, gives, Gives-bind, Gives-mono, at, count, count_key, All}
use libcc.Workq.Place.{
  Holds, unwind-Holds, rewind-Holds, insert_up-Holds, insert_down-Holds, split_node-IsSplit,
}
use libcc.Workq.Invariant.{IsPending, IsActive, total, Inv}
use libcc.Workq.Calls.{
  Found, in_pending, in_active, in_complete, peek_task-Found, TakenDone, remove_complete-TakenDone,
  unknown_task,
}

refresh-count :
    (id : PurgeId) (task t : Task) (ns : List Node) → count t (refresh id task ns) ≡ count t ns
unfolding refresh
refresh-count id task t [] = refl
refresh-count id task t (n ∷ ns) = ground (arith, refresh-count id task t ns)

refresh-All :
    (id : PurgeId) (task : Task) (ns : List Node)
    → All IsActive ns
    → All IsActive (refresh id task ns)
unfolding refresh
refresh-All id task [] all = tt
refresh-All id task (n ∷ ns) all = (ground arith, refresh-All id task ns all.1)

requeue-Holds :
    (w : Workq) (priority : ℤ) (front : List Node) (n : Node) (back : List Node)
    → All IsPending front
    → IsPending n
    → All IsPending back
    → Holds IsPending (n ∷ front) back (requeue w priority front n back)
unfolding requeue
requeue-Holds w priority front n back hf hn hb =
    let n' : Node = record n { priority = priority; purge_id = w.purge_id } in
    elim (Bool-cases (ltb_ℤ n.priority priority)) [
      | inl up ↦ rw up (insert_up-Holds IsPending n.priority n' front back hn hf hb)
      | inr e ↦ rw e (elim (Bool-cases (ltb_ℤ priority n.priority)) [
        | inl down ↦
            let (h, all) = insert_down-Holds IsPending n.priority n' back hn hb in
            let (h', all') = unwind-Holds IsPending front (insert_down n.priority n' back) hf all in
            rw down ((λ t. omega (arith, h t, h' t)), all')
        | inr same ↦
            let (h, all) = unwind-Holds IsPending front (n' ∷ back) hf (hn, hb) in
            rw same ((λ t. omega (arith, h t)), all)
      ])
    ]

-- Every queue holds each task as often as before, and no call of `finish_fn` was made.
abbrev pub Kept : Workq → Workq → Type 0
Kept w w' =
    Inv w'
    × (((t : Task)
          → (count t w'.queue_pending ≡ count t w.queue_pending)
            × (count t w'.queue_active ≡ count t w.queue_active)
            × (count t w'.queue_complete ≡ count t w.queue_complete))
        × (w'.finishes ≡ w.finishes))

rerun_pending-Kept :
    (w : Workq) (task : Task) (priority : ℤ)
    → Inv w
    → 0 < count task w.queue_pending
    → Gives (λ (s, w'). (s ≡ pending) × Kept w w') (rerun_pending w task priority)
unfolding rerun_pending
rerun_pending-Kept w task priority inv pos =
    Gives-bind (split_node-IsSplit IsPending task [] w.queue_pending pos tt inv.pending_ok)
      λ (front, n, back) (_, h, hf, hn, hb, _).
        let (h', all) = requeue-Holds w priority front n back hf hn hb in
        gives (
          hn,
          (
            record {
              mapped = λ t. omega (arith, inv.mapped t, h t, h' t);
              unique = inv.unique;
              pending_ok = all;
              active_ok = inv.active_ok;
              complete_ok = inv.complete_ok;
            },
            ((λ t. (omega (arith, h t, h' t), refl, refl)), refl),
          ),
        )

added_once :
    (task t : Task) (us : List Task)
    → count_key task us ≡ 0
    → count_key t us ≤ 1
    → at task t + count_key t us ≤ 1
added_once task t us fresh once = elim (Bool-cases (task == t)) [
  | inl e ↦ rw e (omega (arith, ap (λ u. count_key u us) (==→≡ task t e)))
  | inr e ↦ rw e (omega arith)
]

submit-Inv :
    (w : Workq) (task : Task) (priority : ℤ)
    → Inv w
    → total task w ≡ 0
    → Inv (submit w task priority)
      × ((t : Task)
          → count t (submit w task priority).queue_pending ≡ at task t + count t w.queue_pending)
unfolding submit
submit-Inv w task priority inv fresh =
    let (h, all) = rewind-Holds IsPending [] w.queue_pending tt inv.pending_ok in
    let (h', all') =
      insert_up-Holds IsPending priority (new_node w task priority) (rewind [] w.queue_pending) []
        refl all tt in
    (
      record {
        mapped = λ t. omega (arith, inv.mapped t, h t, h' t);
        unique = λ t.
            added_once task t w.map_task (omega (arith, fresh, inv.mapped task)) (inv.unique t);
        pending_ok = all';
        active_ok = inv.active_ok;
        complete_ok = inv.complete_ok;
      },
      (λ t. omega (arith, h t, h' t)),
    )

-- The outcomes of cc_workq_run. A task that is in no queue becomes a pending one, or, when an allocation
-- fails, is refused and nothing changes. A task that is pending or active stays so, in no other
-- queue. A task that is done leaves the complete queue and the map. `finish_fn` is never called.
pub data Ran (a : Alloc) (w : Workq) (task : Task) : Status × Workq → Type 0 where
  submitted :
      (w' : Workq)
      → total task w ≡ 0
      → all_ok a ≡ true
      → Inv w'
      → ((t : Task)
          → (count t w'.queue_pending ≡ at task t + count t w.queue_pending)
            × (count t w'.queue_active ≡ count t w.queue_active)
            × (count t w'.queue_complete ≡ count t w.queue_complete))
      → w'.finishes ≡ w.finishes
      → Ran a w task (pending, w')
  refused : total task w ≡ 0 → all_ok a ≡ false → Ran a w task (error, w)
  still_pending :
      (w' : Workq) → 0 < count task w.queue_pending → Kept w w' → Ran a w task (pending, w')
  still_active :
      (w' : Workq) → 0 < count task w.queue_active → Kept w w' → Ran a w task (active, w')
  reclaimed :
      (s : Status) (w' : Workq)
      → (s ≡ complete) ⊎ (s ≡ failure)
      → TakenDone task s w w'
      → Ran a w task (s, w')

module _ (a : Alloc) (w : Workq) (task : Task) (priority : ℤ) (inv : Inv w) where
  run-Found :
      (o : Option Node)
      → Found w task o
      → Gives (Ran a w task) (o >>= λ n. run_node w task priority n.status)
  unfolding run_node
  run-Found _ (in_pending n e pos found) = rw e (
      Gives-mono (rerun_pending-Kept w task priority inv pos)
        λ (s, w') (is_pending, kept). rw is_pending (still_pending w' pos kept))
  run-Found _ (in_active n e pos) =
      let refreshed = λ (t : Task). refresh-count w.purge_id task t w.queue_active in
      rw e (
        gives (
          still_active _ pos (
            record {
              mapped = λ t. omega (arith, inv.mapped t, refreshed t);
              unique = inv.unique;
              pending_ok = inv.pending_ok;
              active_ok = refresh-All w.purge_id task w.queue_active inv.active_ok;
              complete_ok = inv.complete_ok;
            },
            ((λ t. (refl, refreshed t, refl)), refl),
          )))
  run-Found _ (in_complete n (inl e) pos found) = rw e (
      Gives-bind (remove_complete-TakenDone w task n inv pos found) λ w' taken.
        gives (reclaimed complete w' (inl refl) (subst (λ s. TakenDone task s w w') e taken)))
  run-Found _ (in_complete n (inr e) pos found) = rw e (
      Gives-bind (remove_complete-TakenDone w task n inv pos found) λ w' taken.
        gives (reclaimed failure w' (inr refl) (subst (λ s. TakenDone task s w w') e taken)))

  run_new :
      total task w ≡ 0
      → all_ok a ≡ true
      → Gives (Ran a w task) (run_node (submit w task priority) task priority pending)
  unfolding run_node submit
  run_new fresh ok =
      let (inv', more) = submit-Inv w task priority inv fresh in
      Gives-mono
        (rerun_pending-Kept (submit w task priority) task priority inv'
          (ground (arith, more task, ==_refl task)))
        λ (s, w') (is_pending, (inv'', (same, no_finish))). rw is_pending (
          submitted w' fresh ok inv''
            (λ t. (omega (arith, more t, (same t).0), (same t).1, (same t).2)) no_finish)

  pub run-Ran : Gives (Ran a w task) (run a w task priority)
  unfolding run
  run-Ran = elim (Bool-cases (has_key task w.map_task)) [
    | inl known ↦ rw known (run-Found _ (peek_task-Found w task inv known))
    | inr e ↦
        let fresh = unknown_task w task inv e in
        rw e (elim (Bool-cases (all_ok a)) [
          | inl ok ↦ rw ok (run_new fresh ok)
          | inr bad ↦ rw bad (gives (refused fresh bad))
        ])
  ]
