-- ===== src/Workq/Tasks.antt =====
-- cc_workq.c: the calls that name a task (cc_workq_removeLocked, cc_workq_run, cc_workq_wait,
-- cc_workq_cancel, cc_workq_status, cc_workq_pending). What the allocators answer is an argument.
use libcc.Base.{ℕ, ◌+◌, Bool, false, Option, none, some, List, [], ◌∷◌, ◌==◌, if◌then◌else◌, length}
use libcc.Int.{ℤ, ltb_ℤ}
use libcc.Workq.Queue.{
  Status, error, pending, active, PurgeId, Task, Node, ◌>>=◌, has_key, remove_key, find_node,
  remove_node, split_node, insert_up, insert_down, rewind, unwind,
}
use libcc.Workq.{Workq, Outcome, blocked, returned}

-- cc_workq_removeLocked with `finish` 0, on the pending and on the complete queue.
unfoldable pub remove_pending : Workq → Task → Option Workq
remove_pending w task = do
  (n, rest) ← remove_node task w.queue_pending
  map' ← remove_key n.task w.map_task
  some (record w { queue_pending = rest; map_task = map' })

unfoldable pub remove_complete : Workq → Task → Option Workq
remove_complete w task = do
  (n, rest) ← remove_node task w.queue_complete
  map' ← remove_key n.task w.map_task
  some (record w { queue_complete = rest; map_task = map' })

-- `cc_list_peekIter(cc_map_val(miter))`: the node of a task that is in the map.
abbrev pub or_else : Option Node → Option Node → Option Node
or_else (some n) o = some n
or_else none o = o

unfoldable pub peek_task : Workq → Task → Option Node
peek_task w task =
    or_else (find_node task w.queue_pending)
      (or_else (find_node task w.queue_active) (find_node task w.queue_complete))

-- Whether the node, the iterator and the map entry of a new task are allocated.
pub record Alloc : Type 0 where
  pub node_ok : Bool
  pub iter_ok : Bool
  pub map_ok : Bool

abbrev pub all_ok : Alloc → Bool
all_ok a = if a.node_ok then (if a.iter_ok then a.map_ok else false) else false

abbrev pub new_node : Workq → Task → ℤ → Node
new_node w task priority = record {
  status = pending;
  priority = priority;
  purge_id = w.purge_id;
  task = task;
}

-- cc_workq_run: a new node, behind the last pending one that is not below it.
unfoldable pub submit : Workq → Task → ℤ → Workq
submit w task priority = record w {
  queue_pending = insert_up priority (new_node w task priority) (rewind [] w.queue_pending) [];
  map_task = task ∷ w.map_task;
}

-- cc_workq_run on a pending node: its new place. Both loops compare with the node's old priority,
-- which is overwritten last.
unfoldable pub requeue : Workq → ℤ → (front : List Node) → Node → (back : List Node) → List Node
requeue w priority front n back =
    let n' = record n { priority = priority; purge_id = w.purge_id } in
    if ltb_ℤ n.priority priority
    then insert_up n.priority n' front back
    else if ltb_ℤ priority n.priority
    then unwind front (insert_down n.priority n' back)
    else unwind front (n' ∷ back)

unfoldable pub rerun_pending : Workq → Task → ℤ → Option (Status × Workq)
unfolding requeue
rerun_pending w task priority = do
  (front, n, back) ← split_node task [] w.queue_pending
  some (n.status, record w { queue_pending = requeue w priority front n back })

unfoldable pub refresh : PurgeId → Task → List Node → List Node
refresh id task [] = []
refresh id task (n ∷ ns) =
    (if n.task == task then record n { purge_id = id } else n) ∷ refresh id task ns

-- cc_workq_run on the node that is found or made.
unfoldable pub run_node : Workq → Task → ℤ → Status → Option (Status × Workq)
unfolding rerun_pending refresh remove_complete
run_node w task priority active =
    some (active, record w { queue_active = refresh w.purge_id task w.queue_active })
run_node w task priority pending = rerun_pending w task priority
run_node w task priority s = remove_complete w task >>= λ w'. some (s, w')

-- cc_workq_run
unfoldable pub run : Alloc → Workq → Task → ℤ → Option (Status × Workq)
unfolding submit run_node peek_task
run a w task priority =
    if has_key task w.map_task
    then (peek_task w task >>= λ n. run_node w task priority n.status)
    else if all_ok a
    then run_node (submit w task priority) task priority pending
    else some (error, w)

-- cc_workq_wait and cc_workq_cancel unlock the mutex before they read the status that they return of a
-- task that they must not wait for: they return `none` here, and the status is `late_status` of the
-- state at the time of the reading. There `none` is a node that was freed in between.
unfoldable pub late_status : Workq → Task → Option Status
unfolding peek_task
late_status w task = peek_task w task >>= λ n. some n.status

abbrev pub wait_or_return : Workq → (blocking : Bool) → Outcome (Option Status)
wait_or_return w blocking = if blocking then blocked w else returned none w

-- cc_workq_wait on the node that it has.
unfoldable pub wait_node :
    Workq → Task → (blocking : Bool) → Status → Option (Outcome (Option Status))
unfolding remove_complete
wait_node w task blocking pending = some (wait_or_return w blocking)
wait_node w task blocking active = some (wait_or_return w blocking)
wait_node w task blocking s = remove_complete w task >>= λ w'. some (returned (some s) w')

-- The loop of cc_workq_wait, from its start and after each wake-up. It keeps the node that it found:
-- `none` is a node that was freed while the call slept.
unfoldable pub wait_found : Workq → Task → (blocking : Bool) → Option (Outcome (Option Status))
unfolding peek_task wait_node
wait_found w task blocking = peek_task w task >>= λ n. wait_node w task blocking n.status

-- cc_workq_wait, up to its first wait.
unfoldable pub wait : Workq → Task → (blocking : Bool) → Option (Outcome (Option Status))
unfolding wait_found
wait w task blocking =
    if has_key task w.map_task then wait_found w task blocking else some (returned (some error) w)

-- cc_workq_cancel on the node that it has.
unfoldable pub cancel_node :
    Workq → Task → (blocking : Bool) → Status → Option (Outcome (Option Status))
unfolding remove_complete remove_pending
cancel_node w task blocking active = some (wait_or_return w blocking)
cancel_node w task blocking pending =
    remove_pending w task >>= λ w'. some (returned (some pending) w')
cancel_node w task blocking s = remove_complete w task >>= λ w'. some (returned (some s) w')

-- The loop of cc_workq_cancel, from its start and after each wake-up, with the node that it found.
unfoldable pub cancel_found : Workq → Task → (blocking : Bool) → Option (Outcome (Option Status))
unfolding peek_task cancel_node
cancel_found w task blocking = peek_task w task >>= λ n. cancel_node w task blocking n.status

-- cc_workq_cancel, up to its first wait.
unfoldable pub cancel : Workq → Task → (blocking : Bool) → Option (Outcome (Option Status))
unfolding cancel_found
cancel w task blocking =
    if has_key task w.map_task then cancel_found w task blocking else some (returned (some error) w)

-- cc_workq_status
unfoldable pub status : Workq → Task → Option Status
unfolding peek_task
status w task =
    if has_key task w.map_task then (peek_task w task >>= λ n. some n.status) else some error

-- cc_workq_pending
unfoldable pub count_pending : Workq → ℕ
count_pending w = length w.queue_pending + length w.queue_active
