-- ===== src/Workq/Calls.antt =====
-- cc_workq.c: the calls that name a task, cc_workq_wait and cc_workq_cancel, and their outcomes.
use libcc.Base.{
  ◌+◌, ◌<◌, ◌≡◌, refl, ◌⊎◌, inl, inr, Bool, true, false, Option, none, some, List, arith,
  Bool-cases, sym, ◌∙◌, ap, subst,
}
use libcc.Workq.Queue.{
  Status, error, pending, active, complete, failure, Task, Node, ◌>>=◌, has_key, find_node,
}
use libcc.Workq.{Workq, Outcome, blocked, returned}
use libcc.Workq.Tasks.{
  remove_pending, remove_complete, peek_task, late_status, wait_or_return, wait_node, wait_found,
  wait, cancel_node, cancel_found, cancel,
}
use libcc.Workq.Count.{
  Gives, gives, Gives-bind, at, count, has_key-count, not-has_key-count, remove_key-Gives, Less,
  remove_node-Gives, find_node-cases,
}
use libcc.Workq.Invariant.{IsPending, IsActive, IsDone, total, Inv}

-- The queue in which a task of the map is, by the status of its node.
pub data Found (w : Workq) (task : Task) : Option Node → Type 0 where
  in_pending :
      (n : Node)
      → IsPending n
      → 0 < count task w.queue_pending
      → find_node task w.queue_pending ≡ some n
      → Found w task (some n)
  in_active : (n : Node) → IsActive n → 0 < count task w.queue_active → Found w task (some n)
  in_complete :
      (n : Node)
      → IsDone n
      → 0 < count task w.queue_complete
      → find_node task w.queue_complete ≡ some n
      → Found w task (some n)

-- A task that is in one of the queues is found there.
pub peek_task-total :
    (w : Workq) (task : Task) → Inv w → 0 < total task w → Found w task (peek_task w task)
unfolding peek_task
peek_task-total w task inv here =
    elim (find_node-cases IsPending task w.queue_pending inv.pending_ok) [
      | inr (n, found, ok, pos) ↦ rw found (in_pending n ok pos found)
      | inl (missing, no_pending) ↦
          rw missing (elim (find_node-cases IsActive task w.queue_active inv.active_ok) [
            | inr (n, found, ok, pos) ↦ rw found (in_active n ok pos)
            | inl (missing', no_active) ↦
                rw missing' (elim (find_node-cases IsDone task w.queue_complete inv.complete_ok) [
                  | inr (n, found, ok, pos) ↦ rw found (in_complete n ok pos found)
                  | inl (_, no_complete) ↦ absurd (omega (arith, here))
                ])
          ])
    ]

pub peek_task-Found :
    (w : Workq) (task : Task)
    → Inv w
    → has_key task w.map_task ≡ true
    → Found w task (peek_task w task)
peek_task-Found w task inv known =
    peek_task-total w task inv (omega (arith, inv.mapped task, has_key-count task w.map_task known))

-- One node of the task leaves the queues and the map.
abbrev pub Taken : Task → Workq → Workq → Type 0
Taken task w w' =
    Inv w' × ((t : Task) → total t w ≡ at task t + total t w') × (w'.finishes ≡ w.finishes)

-- The queue afterwards is the one before it less a node of the task with this status.
abbrev pub Leaves : Task → Status → (before after : List Node) → Type 0
Leaves task s before after = (n : Node) × (n.task ≡ task) × (n.status ≡ s) × Less before n after

-- The task leaves the complete queue, or the pending one, and the map, and nothing else changes.
abbrev pub TakenDone : Task → Status → Workq → Workq → Type 0
TakenDone task s w w' =
    Taken task w w'
    × Leaves task s w.queue_complete w'.queue_complete
    × (w'.queue_pending ≡ w.queue_pending)
    × (w'.queue_active ≡ w.queue_active)

abbrev pub TakenPending : Task → Status → Workq → Workq → Type 0
TakenPending task s w w' =
    Taken task w w'
    × Leaves task s w.queue_pending w'.queue_pending
    × (w'.queue_complete ≡ w.queue_complete)
    × (w'.queue_active ≡ w.queue_active)

abbrev status_of : Option Node → Status
status_of none = error
status_of (some n) = n.status

pub remove_complete-TakenDone :
    (w : Workq) (task : Task) (found : Node)
    → Inv w
    → 0 < count task w.queue_complete
    → find_node task w.queue_complete ≡ some found
    → Gives (TakenDone task found.status w) (remove_complete w task)
unfolding remove_complete
remove_complete-TakenDone w task found inv pos at_found =
    Gives-bind (remove_node-Gives IsDone task w.queue_complete pos inv.complete_ok)
      λ (n, rest) (same, h, _, all, at_n, less). rw same (
        Gives-bind (remove_key-Gives task w.map_task (omega (arith, inv.mapped task))) λ map' keys.
          gives (
            (
              record {
                mapped = λ t. omega (arith, inv.mapped t, h t, keys t);
                unique = λ t. omega (arith, inv.unique t, keys t);
                pending_ok = inv.pending_ok;
                active_ok = inv.active_ok;
                complete_ok = all;
              },
              (λ t. ground (arith, h t)),
              refl,
            ),
            (n, same, ap status_of (sym at_n ∙ at_found), less),
            refl,
            refl,
          ))

pub remove_pending-TakenPending :
    (w : Workq) (task : Task) (found : Node)
    → Inv w
    → 0 < count task w.queue_pending
    → find_node task w.queue_pending ≡ some found
    → Gives (TakenPending task found.status w) (remove_pending w task)
unfolding remove_pending
remove_pending-TakenPending w task found inv pos at_found =
    Gives-bind (remove_node-Gives IsPending task w.queue_pending pos inv.pending_ok)
      λ (n, rest) (same, h, _, all, at_n, less). rw same (
        Gives-bind (remove_key-Gives task w.map_task (omega (arith, inv.mapped task))) λ map' keys.
          gives (
            (
              record {
                mapped = λ t. omega (arith, inv.mapped t, h t, keys t);
                unique = λ t. omega (arith, inv.unique t, keys t);
                pending_ok = all;
                active_ok = inv.active_ok;
                complete_ok = inv.complete_ok;
              },
              (λ t. ground (arith, h t)),
              refl,
            ),
            (n, same, ap status_of (sym at_n ∙ at_found), less),
            refl,
            refl,
          ))

module _ (w : Workq) (task : Task) (inv : Inv w) where
  -- The outcomes of cc_workq_wait: it refuses a task that is in no queue; while the task is pending or
  -- active it waits, or unlocks if it must not block, with that status to be read; and a task that is
  -- done leaves the complete queue and the map, without a call of `finish_fn`.
  pub data Waited (blocking : Bool) : Outcome (Option Status) → Type 0 where
    refused : total task w ≡ 0 → Waited blocking (returned (some error) w)
    busy :
        (s : Status)
        → (s ≡ pending) ⊎ (s ≡ active)
        → late_status w task ≡ some s
        → blocking ≡ false
        → 0 < count task w.queue_pending + count task w.queue_active
        → Waited blocking (returned none w)
    sleeps :
        blocking ≡ true
        → 0 < count task w.queue_pending + count task w.queue_active
        → Waited blocking (blocked w)
    reaped :
        (s : Status) (w' : Workq)
        → (s ≡ complete) ⊎ (s ≡ failure)
        → TakenDone task s w w'
        → Waited blocking (returned (some s) w')

  pub unknown_task : has_key task w.map_task ≡ false → total task w ≡ 0
  unknown_task e = omega (arith, inv.mapped task, not-has_key-count task w.map_task e)

  busy_or_sleeps :
      (blocking : Bool) (s : Status)
      → (s ≡ pending) ⊎ (s ≡ active)
      → late_status w task ≡ some s
      → 0 < count task w.queue_pending + count task w.queue_active
      → Waited blocking (wait_or_return w blocking)
  busy_or_sleeps true s e late pos = sleeps refl pos
  busy_or_sleeps false s e late pos = busy s e late refl pos

  late_node :
      (n : Node) (s : Status)
      → peek_task w task ≡ some n
      → n.status ≡ s
      → late_status w task ≡ some s
  unfolding late_status
  late_node n s peeked e = rw peeked (ap some e)

  wait_node-Waited :
      (blocking : Bool) (o : Option Node)
      → peek_task w task ≡ o
      → Found w task o
      → Gives (Waited blocking) (o >>= λ n. wait_node w task blocking n.status)
  unfolding wait_node
  wait_node-Waited blocking _ peeked (in_pending n e pos found) = rw e (
      gives
        (busy_or_sleeps blocking pending (inl refl) (late_node n pending peeked e) (omega arith)))
  wait_node-Waited blocking _ peeked (in_active n e pos) = rw e (
      gives (busy_or_sleeps blocking active (inr refl) (late_node n active peeked e) (omega arith)))
  wait_node-Waited blocking _ peeked (in_complete n (inl e) pos found) = rw e (
      Gives-bind (remove_complete-TakenDone w task n inv pos found) λ w' taken.
        gives (reaped complete w' (inl refl) (subst (λ s. TakenDone task s w w') e taken)))
  wait_node-Waited blocking _ peeked (in_complete n (inr e) pos found) = rw e (
      Gives-bind (remove_complete-TakenDone w task n inv pos found) λ w' taken.
        gives (reaped failure w' (inr refl) (subst (λ s. TakenDone task s w w') e taken)))

  wait_found-Waited :
      (blocking : Bool) → 0 < total task w → Gives (Waited blocking) (wait_found w task blocking)
  unfolding wait_found
  wait_found-Waited blocking here =
      wait_node-Waited blocking _ refl (peek_task-total w task inv here)

  -- On a queue with the invariant cc_workq_wait never faults up to its first wait. It refuses a task
  -- that is in no queue; while the task is pending or active it waits, or, if it must not block, unlocks
  -- the mutex, and the status that it reads then is that status where the queue has not changed; and a
  -- task that is done leaves the complete queue and the map, its status is returned, nothing else
  -- changes, the invariant is kept, and `finish_fn` is not called. The same holds of a wake-up in
  -- a state with the invariant where the task is still in one of the queues.
  pub wait-Waited :
      (blocking : Bool)
      → Gives (Waited blocking) (wait w task blocking)
        × (0 < total task w → Gives (Waited true) (wait_found w task true))
  unfolding wait
  wait-Waited blocking = (
    elim (Bool-cases (has_key task w.map_task)) [
      | inl known ↦ rw known (
          wait_found-Waited blocking
            (omega (arith, inv.mapped task, has_key-count task w.map_task known)))
      | inr e ↦ rw e (gives (refused (unknown_task e)))
    ],
    wait_found-Waited true,
  )

  -- The outcomes of cc_workq_cancel: it refuses a task that is in no queue; an active task makes it wait,
  -- or unlock if it must not block; and a task that is pending or done leaves its queue and the map,
  -- without a call of `finish_fn`.
  pub data Cancelled (blocking : Bool) : Outcome (Option Status) → Type 0 where
    refused : total task w ≡ 0 → Cancelled blocking (returned (some error) w)
    busy :
        late_status w task ≡ some active
        → blocking ≡ false
        → 0 < count task w.queue_active
        → Cancelled blocking (returned none w)
    sleeps : blocking ≡ true → 0 < count task w.queue_active → Cancelled blocking (blocked w)
    dropped :
        (w' : Workq)
        → TakenPending task pending w w'
        → Cancelled blocking (returned (some pending) w')
    reaped :
        (s : Status) (w' : Workq)
        → (s ≡ complete) ⊎ (s ≡ failure)
        → TakenDone task s w w'
        → Cancelled blocking (returned (some s) w')

  active_Cancelled :
      (blocking : Bool)
      → late_status w task ≡ some active
      → 0 < count task w.queue_active
      → Cancelled blocking (wait_or_return w blocking)
  active_Cancelled true late pos = sleeps refl pos
  active_Cancelled false late pos = busy late refl pos

  cancel_node-Cancelled :
      (blocking : Bool) (o : Option Node)
      → peek_task w task ≡ o
      → Found w task o
      → Gives (Cancelled blocking) (o >>= λ n. cancel_node w task blocking n.status)
  unfolding cancel_node
  cancel_node-Cancelled blocking _ peeked (in_pending n e pos found) = rw e (
      Gives-bind (remove_pending-TakenPending w task n inv pos found)
        λ w' taken. gives (dropped w' (subst (λ s. TakenPending task s w w') e taken)))
  cancel_node-Cancelled blocking _ peeked (in_active n e pos) =
      rw e (gives (active_Cancelled blocking (late_node n active peeked e) pos))
  cancel_node-Cancelled blocking _ peeked (in_complete n (inl e) pos found) = rw e (
      Gives-bind (remove_complete-TakenDone w task n inv pos found) λ w' taken.
        gives (reaped complete w' (inl refl) (subst (λ s. TakenDone task s w w') e taken)))
  cancel_node-Cancelled blocking _ peeked (in_complete n (inr e) pos found) = rw e (
      Gives-bind (remove_complete-TakenDone w task n inv pos found) λ w' taken.
        gives (reaped failure w' (inr refl) (subst (λ s. TakenDone task s w w') e taken)))

  cancel_found-Cancelled :
      (blocking : Bool)
      → 0 < total task w
      → Gives (Cancelled blocking) (cancel_found w task blocking)
  unfolding cancel_found
  cancel_found-Cancelled blocking here =
      cancel_node-Cancelled blocking _ refl (peek_task-total w task inv here)

  -- On a queue with the invariant cc_workq_cancel never faults up to its first wait. It refuses a task
  -- that is in no queue; an active task makes it wait, or, if it must not block, unlock the mutex, and
  -- the status that it reads then is active where the queue has not changed; a task that is pending
  -- leaves the pending queue and the map, and one that is done the complete queue and the map, its
  -- status is returned, nothing else changes, the invariant is kept, and `finish_fn` is not called. The
  -- same holds of a wake-up in a state with the invariant where the task is still in one of the queues.
  pub cancel-Cancelled :
      (blocking : Bool)
      → Gives (Cancelled blocking) (cancel w task blocking)
        × (0 < total task w → Gives (Cancelled true) (cancel_found w task true))
  unfolding cancel
  cancel-Cancelled blocking = (
    elim (Bool-cases (has_key task w.map_task)) [
      | inl known ↦ rw known (
          cancel_found-Cancelled blocking
            (omega (arith, inv.mapped task, has_key-count task w.map_task known)))
      | inr e ↦ rw e (gives (refused (unknown_task e)))
    ],
    cancel_found-Cancelled true,
  )
