-- ===== src/Workq/Steps.antt =====
-- cc_workq.c as a step relation: the calls of its clients and the steps of its threads, in any
-- order. cc_workq_wait and cc_workq_cancel have a step up to their first wait, and then sleep with the
-- node that they have found; each wake-up is a step of its own. The rounds of cc_workq_finish and the
-- end of cc_workq_reset keep no node over their waits: a wake-up of theirs is the same step again.
use libcc.Base.{
  ℕ, ◌+◌, ◌<◌, ◌≡◌, Bool, true, false, Bool-cases, inl, inr, Option, some, List, [], ◌∷◌, ◌++◌,
  subst,
}
use libcc.Int.{ℤ}
use libcc.Workq.Queue.{Status, PurgeId, purge_all, Task}
use libcc.Workq.{
  Workq, new, start_thread, runs, checkout, put, purge, flush, Outcome, blocked, returned, finish,
  is_empty, reset, reset_done, stop,
}
use libcc.Workq.Tasks.{Alloc, run, wait_found, wait, cancel_found, cancel}
use libcc.Workq.Count.{Gives, gives, Gives-bind, Gives-mono, count}
use libcc.Workq.Invariant.{total, Inv, CheckedOut, checkout-CheckedOut, put-Inv, new-Inv}
use libcc.Workq.Purge.{purge-IsPurged, flush-IsFlushed, Finished, finish-Finished}
use libcc.Workq.Calls.{Waited, wait-Waited, Cancelled, cancel-Cancelled}
use libcc.Workq.Run.{Ran, run-Ran}

-- The state that a call leaves, whether it waits or not.
abbrev pub left : {A : Type 0} → Outcome A → Workq
left (blocked w) = w
left (returned _ w) = w

-- A call of cc_workq_wait or cc_workq_cancel that sleeps, and its next round.
pub data Sleeper : Type 0 where
  waiter canceler : Task → Sleeper

abbrev pub task_of : Sleeper → Task
task_of (waiter task) = task
task_of (canceler task) = task

unfoldable pub wake : Sleeper → Workq → Option (Outcome (Option Status))
wake (waiter task) w = wait_found w task true
wake (canceler task) w = cancel_found w task true

-- The call still sleeps, or has returned.
abbrev pub asleep : Sleeper → Outcome (Option Status) → List Sleeper
asleep z (blocked w) = z ∷ []
asleep z (returned _ w) = []

-- A step, and the call that sleeps after it, if it is one that does.
pub data Step (w : Workq) : List Sleeper → Workq → Type 0 where
  starts_thread : Step w [] (start_thread w).1
  checks_out : {w' : Workq} (task : Task) → checkout w ≡ runs task w' → Step w [] w'
  puts :
      {w' : Workq} (task : Task) (ret : Bool)
      → 0 < count task w.queue_active
      → put w task ret ≡ some w'
      → Step w [] w'
  runs_task :
      {w' : Workq} {s : Status} (a : Alloc) (task : Task) (priority : ℤ)
      → run a w task priority ≡ some (s, w')
      → Step w [] w'
  waits_for :
      {o : Outcome (Option Status)} (task : Task) (blocking : Bool)
      → wait w task blocking ≡ some o
      → Step w (asleep (waiter task) o) (left o)
  cancels :
      {o : Outcome (Option Status)} (task : Task) (blocking : Bool)
      → cancel w task blocking ≡ some o
      → Step w (asleep (canceler task) o) (left o)
  purges : {w' : Workq} → purge w ≡ some w' → Step w [] w'
  flushes : {w' : Workq} → flush w ≡ some w' → Step w [] w'
  finishes_all : {o : Outcome (Unit {0})} → finish w ≡ some o → Step w [] (left o)
  resets : {w' : Workq} → reset w ≡ some w' → Step w [] w'
  resets_done :
      {o : Outcome (Unit {0})} (blocking : Bool) (saved : PurgeId)
      → reset_done blocking saved w ≡ some o
      → Step w [] (left o)
  stops : Step w [] (stop w)

-- The task of each call that sleeps is in one of the queues.
abbrev pub Stay : List Sleeper → Workq → Type 0
Stay [] w = Unit {0}
Stay (z ∷ zs) w = (0 < total (task_of z) w) × Stay zs w

-- The calls that sleep, and the state. No task may leave the queues while another call sleeps with its
-- node: the node is freed then, and the wake-up uses it.
pub data Reach : List Sleeper → Workq → Type 0 where
  start : Reach [] new
  next :
      {zs new_zs : List Sleeper} {w w' : Workq}
      → Reach zs w
      → Step w new_zs w'
      → Stay (new_zs ++ zs) w'
      → Reach (new_zs ++ zs) w'
  wakes :
      (pre : List Sleeper) (z : Sleeper) (post : List Sleeper) {w : Workq}
      {o : Outcome (Option Status)}
      → Reach (pre ++ z ∷ post) w
      → wake z w ≡ some o
      → Stay (pre ++ asleep z o ++ post) (left o)
      → Reach (pre ++ asleep z o ++ post) (left o)

Gives-result : {A : Type 0} {P : A → Type 0} {o : Option A} {a : A} → Gives P o → o ≡ some a → P a
Gives-result {A} {P} {o} {a} g e = held (subst (Gives P) e g)
  where
    held : Gives P (some a) → P a
    held (gives p) = p

Waited-Inv :
    {w : Workq} {task : Task} (inv : Inv w) {b : Bool} {o : Outcome (Option Status)}
    → Waited w task inv b o
    → Inv (left o)
Waited-Inv inv (Waited.refused none_left) = inv
Waited-Inv inv (Waited.busy s e late f pos) = inv
Waited-Inv inv (Waited.sleeps e pos) = inv
Waited-Inv inv (Waited.reaped s w' e taken) = taken.0.0

Cancelled-Inv :
    {w : Workq} {task : Task} (inv : Inv w) {b : Bool} {o : Outcome (Option Status)}
    → Cancelled w task inv b o
    → Inv (left o)
Cancelled-Inv inv (Cancelled.refused none_left) = inv
Cancelled-Inv inv (Cancelled.busy late e pos) = inv
Cancelled-Inv inv (Cancelled.sleeps e pos) = inv
Cancelled-Inv inv (Cancelled.dropped w' taken) = taken.0.0
Cancelled-Inv inv (Cancelled.reaped s w' e taken) = taken.0.0

Ran-Inv :
    {a : Alloc} {w : Workq} {task : Task} {r : Status × Workq} → Inv w → Ran a w task r → Inv r.1
Ran-Inv inv (Ran.submitted w' fresh ok inv' counts same) = inv'
Ran-Inv inv (Ran.refused fresh bad) = inv
Ran-Inv inv (Ran.still_pending w' pos kept) = kept.0
Ran-Inv inv (Ran.still_active w' pos kept) = kept.0
Ran-Inv inv (Ran.reclaimed s w' e taken) = taken.0.0

Finished-Inv : (w : Workq) (o : Outcome (Unit {0})) → Finished w o → Inv (left o)
Finished-Inv w (blocked w') f = f.0
Finished-Inv w (returned x w') f = f.0

-- The invariant says nothing of the purge id, the stop flag and the thread id.
Inv-same :
    {w : Workq} (stopped : Bool) (id : PurgeId) (tid : ℕ)
    → Inv w
    → Inv (record w { stopped = stopped; purge_id = id; next_tid = tid })
Inv-same stopped id tid inv = record {
  mapped = inv.mapped;
  unique = inv.unique;
  pending_ok = inv.pending_ok;
  active_ok = inv.active_ok;
  complete_ok = inv.complete_ok;
}

IsPurged-Inv : (w : Workq) {w' : Workq} → Inv w → purge w ≡ some w' → Inv w'
IsPurged-Inv w inv e = (Gives-result (purge-IsPurged w inv) e).0

reset_done-Inv :
    (w : Workq) (blocking : Bool) (saved : PurgeId)
    → Inv w
    → Gives (λ o. Inv (left o)) (reset_done blocking saved w)
unfolding reset_done
reset_done-Inv w false saved inv = gives (Inv-same w.stopped saved w.next_tid inv)
reset_done-Inv w true saved inv = elim (Bool-cases (is_empty w.queue_active)) [
  | inl e ↦ rw e (
      Gives-bind (purge-IsPurged w inv)
        λ w' purged. gives (Inv-same w'.stopped saved w'.next_tid purged.0))
  | inr e ↦ rw e (gives inv)
]

Step-Inv : {zs : List Sleeper} {w w' : Workq} → Inv w → Step w zs w' → Inv w'
unfolding start_thread stop reset
Step-Inv {w = w} inv starts_thread = Inv-same w.stopped w.purge_id (w.next_tid + 1) inv
Step-Inv {w = w} inv (checks_out task e) = (subst (CheckedOut w) e (checkout-CheckedOut w inv)).0
Step-Inv {w = w} inv (puts task ret pos e) = (Gives-result (put-Inv w task ret inv pos) e).0
Step-Inv {w = w} inv (runs_task a task priority e) =
    Ran-Inv inv (Gives-result (run-Ran a w task priority inv) e)
Step-Inv {w = w} inv (waits_for task blocking e) =
    Waited-Inv inv (Gives-result (wait-Waited w task inv blocking).0 e)
Step-Inv {w = w} inv (cancels task blocking e) =
    Cancelled-Inv inv (Gives-result (cancel-Cancelled w task inv blocking).0 e)
Step-Inv {w = w} inv (purges e) = IsPurged-Inv w inv e
Step-Inv {w = w} inv (flushes e) = (Gives-result (flush-IsFlushed w inv) e).0
Step-Inv {w = w} inv (finishes_all {o} e) =
    Finished-Inv w o (Gives-result (finish-Finished w inv) e)
Step-Inv {w = w} inv (resets e) =
    IsPurged-Inv (record w { purge_id = purge_all }) (Inv-same w.stopped purge_all w.next_tid inv) e
Step-Inv {w = w} inv (resets_done blocking saved e) =
    Gives-result (reset_done-Inv w blocking saved inv) e
Step-Inv {w = w} inv stops = Inv-same true w.purge_id w.next_tid inv

wake-Inv :
    (z : Sleeper) (w : Workq)
    → Inv w
    → 0 < total (task_of z) w
    → Gives (λ o. Inv (left o)) (wake z w)
unfolding wake
wake-Inv (waiter task) w inv here =
    Gives-mono ((wait-Waited w task inv true).1 here) λ o waited. Waited-Inv inv waited
wake-Inv (canceler task) w inv here =
    Gives-mono ((cancel-Cancelled w task inv true).1 here)
      λ o cancelled. Cancelled-Inv inv cancelled

Stay-mid :
    (pre : List Sleeper) (z : Sleeper) (post : List Sleeper) (w : Workq)
    → Stay (pre ++ z ∷ post) w
    → 0 < total (task_of z) w
Stay-mid [] z post w stay = stay.0
Stay-mid (y ∷ pre) z post w stay = Stay-mid pre z post w stay.1

Reach-both : {zs : List Sleeper} {w : Workq} → Reach zs w → Inv w × Stay zs w
Reach-both start = (new-Inv, tt)
Reach-both (next r s stay) = (Step-Inv (Reach-both r).0 s, stay)
Reach-both (wakes pre z post {w} r e stay) =
    let (inv, before) = Reach-both r in
    (Gives-result (wake-Inv z w inv (Stay-mid pre z post w before)) e, stay)

-- Each call that sleeps can wake up: the node that it has is still there.
abbrev pub Awakens : List Sleeper → Workq → Type 0
Awakens [] w = Unit {0}
Awakens (z ∷ zs) w = Gives (λ o. Inv (left o)) (wake z w) × Awakens zs w

Stay-Awakens : (zs : List Sleeper) (w : Workq) → Inv w → Stay zs w → Awakens zs w
Stay-Awakens [] w inv stay = tt
Stay-Awakens (z ∷ zs) w inv stay = (wake-Inv z w inv stay.0, Stay-Awakens zs w inv stay.1)

-- In every state that the calls of the clients and the steps of the threads can reach, in any order in
-- which no task leaves the queues while a call of cc_workq_wait or cc_workq_cancel sleeps with its node,
-- the invariant holds: the map has each task of the queues exactly once as a key and no other, a task is
-- in one queue at most, and the status of a node tells its queue; and no call that sleeps would fault if
-- it woke up now.
pub Reach-Inv : {zs : List Sleeper} {w : Workq} → Reach zs w → Inv w × Awakens zs w
Reach-Inv {zs} {w} r = let (inv, stay) = Reach-both r in (inv, Stay-Awakens zs w inv stay)
