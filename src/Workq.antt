-- ===== src/Workq.antt =====
-- cc_workq.h and cc_workq.c. The mutex makes each call, up to the point where it waits for a
-- condition, one step on the state; the steps of a worker thread are `checkout` and `put`.
pub mod Queue
pub mod Tasks
pub mod Count
pub mod Place
pub mod Invariant
pub mod Purge
pub mod Calls
pub mod Run
pub mod Priority
pub mod Requeue
pub mod Steps
pub mod Tests
use libcc.Base.{
  ℕ, Bool, true, false, not, Option, none, some, List, [], ◌∷◌, ◌++◌, ◌||◌, if◌then◌else◌, ◌+◌,
  length,
}
use libcc.Int.{ℤ, ltb_ℤ}
use Queue.{
  Status, error, pending, active, complete, failure, PurgeId, id_zero, id_one, purge_all, same_id,
  Task, Node, ◌>>=◌, has_key, remove_key, find_node, remove_node, split_node, insert_up,
  insert_down, rewind, unwind, Finishes, purge_queue,
}

-- The struct cc_workq_t less its callbacks, its threads and its locks. `finishes` is the log of the
-- calls of `finish_fn`.
pub record Workq : Type 0 where
  pub stopped : Bool
  pub purge_id : PurgeId
  pub map_task : List Task
  pub queue_pending : List Node
  pub queue_complete : List Node
  pub queue_active : List Node
  pub next_tid : ℕ
  pub finishes : Finishes

-- cc_workq_new, where nothing fails.
pub new : Workq
new = record {
  stopped = false;
  purge_id = id_zero;
  map_task = [];
  queue_pending = [];
  queue_complete = [];
  queue_active = [];
  next_tid = 0;
  finishes = [];
}

-- cc_workq_thread: the thread starts and has its id.
unfoldable pub start_thread : Workq → ℕ × Workq
start_thread w = (w.next_tid, record w { next_tid = w.next_tid + 1 })

-- cc_workq_thread: a thread that holds the lock waits, ends, or checks the first task out.
pub data Checkout : Type 0 where
  waits ends : Checkout
  runs : Task → Workq → Checkout

-- The stop flag comes first once the wait is over.
unfoldable pub checkout_head : Workq → (stopped : Bool) → (queue_pending : List Node) → Checkout
checkout_head w true q = ends
checkout_head w false [] = waits
checkout_head w false (n ∷ ns) = runs n.task (record w {
  queue_pending = ns;
  queue_active = w.queue_active ++ record n { status = active } ∷ [];
})

unfoldable pub checkout : Workq → Checkout
unfolding checkout_head
checkout w = checkout_head w w.stopped w.queue_pending

-- cc_workq_thread: the run of a task has returned `ret`.
unfoldable pub put : Workq → Task → (ret : Bool) → Option Workq
put w task ret = do
  (n, rest) ← remove_node task w.queue_active
  some (record w {
    queue_active = rest;
    queue_complete =
        w.queue_complete ++ record n { status = if ret then complete else failure } ∷ [];
  })

-- cc_workq_purge
unfoldable pub differs : Workq → Node → Bool
differs w n = not (same_id n.purge_id w.purge_id)

abbrev pub is_purge : PurgeId → Bool
is_purge purge_all = true
is_purge _ = false

-- 1 - purge_id
abbrev pub swap_id : PurgeId → PurgeId
swap_id id_zero = id_one
swap_id id_one = id_zero
swap_id purge_all = purge_all

-- The mark that a purge leaves on an active node.
unfoldable pub mark_node : Workq → Node → Node
unfolding differs
mark_node w n = if differs w n then record n { purge_id = purge_all } else n

unfoldable pub mark_nodes : Workq → List Node → List Node
unfolding mark_node
mark_nodes w [] = []
mark_nodes w (n ∷ ns) = mark_node w n ∷ mark_nodes w ns

unfoldable pub purge : Workq → Option Workq
unfolding differs mark_nodes
purge w = do
  (pending', map', log') ← purge_queue (differs w) w.queue_pending w.map_task w.finishes
  (complete', map'', log'') ←
      purge_queue (λ n. differs w n || is_purge n.purge_id) w.queue_complete map' log'
  some (record w {
    queue_pending = pending';
    queue_active = mark_nodes w w.queue_active;
    queue_complete = complete';
    map_task = map'';
    finishes = log'';
    purge_id = if is_purge w.purge_id then w.purge_id else swap_id w.purge_id;
  })

-- cc_workq_flushLocked, and cc_workq_flush
unfoldable pub flush : Workq → Option Workq
flush w = do
  (complete', map', log') ← purge_queue (λ n. true) w.queue_complete w.map_task w.finishes
  some (record w { queue_complete = complete'; map_task = map'; finishes = log' })

-- A call that may have to wait for a condition.
pub data Outcome (A : Type 0) : Type 0 where
  blocked : Workq → Outcome A
  returned : A → Workq → Outcome A

abbrev pub is_empty : List Node → Bool
is_empty [] = true
is_empty _ = false

-- cc_workq_finish: one round of the loop.
unfoldable pub finish : Workq → Option (Outcome (Unit {0}))
unfolding flush
finish w = do
  w' ← flush w
  some (
      if is_empty w'.queue_pending
      then (if is_empty w'.queue_active then returned tt w' else blocked w')
      else blocked w')

-- cc_workq_reset: the purge that begins it.
unfoldable pub reset : Workq → Option Workq
unfolding purge
reset w = purge (record w { purge_id = purge_all })

-- cc_workq_reset: its end, where the caller does not wait for the active tasks, or they are done.
-- `saved` is the purge id that the call began with.
unfoldable pub reset_done :
    (blocking : Bool) (saved : PurgeId) → Workq → Option (Outcome (Unit {0}))
unfolding purge
reset_done false saved w = some (returned tt (record w { purge_id = saved }))
reset_done true saved w =
    if is_empty w.queue_active
    then (purge w >>= λ w'. some (returned tt (record w' { purge_id = saved })))
    else some (blocked w)

-- cc_workq_delete: the flag that stops the threads, and once they have ended the purge.
unfoldable pub stop : Workq → Workq
stop w = record w { stopped = true }
