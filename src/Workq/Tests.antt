-- ===== src/Workq/Tests.antt =====
-- cc_workq.c on a concrete queue: the theorems at work.
use libcc.Base.{◌<◌, refl, inl, true, false, [], ◌∷◌, arith}
use libcc.Int.{pos}
use libcc.Workq.Queue.{
  pending, active, complete, id_zero, id_one, Node, insert_up, walk_up, unwind, rewind, split_node,
  find_node,
}
use libcc.Workq.{Workq, blocked, new, start_thread, checkout, purge, finish}
use libcc.Workq.Tasks.{
  Alloc, new_node, submit, run, run_node, requeue, rerun_pending, wait, wait_node, wait_found,
  peek_task, cancel, cancel_found,
}
use libcc.Workq.Count.{Gives}
use libcc.Workq.Invariant.{total, Inv, Conserves}
use libcc.Workq.Purge.{IsPurged, purge-IsPurged, Finished, finish-Finished}
use libcc.Workq.Calls.{Waited, wait-Waited, Cancelled, cancel-Cancelled}
use libcc.Workq.Priority.{IsOrdered, Slot, submit-Slot}
use libcc.Workq.Steps.{
  waiter, Reach, Awakens, waits_for, start, next, starts_thread, runs_task, checks_out, Reach-Inv,
}
use libcc.Workq.Requeue.{run-raised-not-IsOrdered}

-- The tasks 1 and 2 are pending, 3 is active, and 4 is complete. The ids of 2 and 4 are old.
abbrev high : Node
high = record { status = pending; priority = pos 5; purge_id = id_one; task = 1 }

abbrev low : Node
low = record { status = pending; priority = pos 2; purge_id = id_zero; task = 2 }

abbrev busy_queue : Workq
busy_queue = record {
  stopped = false;
  purge_id = id_one;
  map_task = 4 ∷ 3 ∷ 2 ∷ 1 ∷ [];
  queue_pending = high ∷ low ∷ [];
  queue_complete =
      record { status = complete; priority = pos 1; purge_id = id_zero; task = 4 } ∷ [];
  queue_active = record { status = active; priority = pos 7; purge_id = id_one; task = 3 } ∷ [];
  next_tid = 4;
  finishes = [];
}

busy_Inv : Inv busy_queue
busy_Inv = record {
  mapped = λ t. omega arith;
  unique = λ t. ground arith;
  pending_ok = (refl, (refl, tt));
  active_ok = (refl, tt);
  complete_ok = (inl refl, tt);
}

busy_IsOrdered : IsOrdered busy_queue.queue_pending
busy_IsOrdered = ((omega arith, tt), (tt, tt))

abbrev memory_left : Alloc
memory_left = record { node_ok = true; iter_ok = true; map_ok = true }

purge-IsPurged_example :
    Gives (λ w'. Inv w' × Conserves busy_queue w' × IsPurged busy_queue w') (purge busy_queue)
purge-IsPurged_example = purge-IsPurged busy_queue busy_Inv

submit-Slot_example :
    Slot
      (pos 3)
      (new_node busy_queue 8 (pos 3))
      (high ∷ low ∷ [])
      (submit busy_queue 8 (pos 3)).queue_pending
    × IsOrdered (submit busy_queue 8 (pos 3)).queue_pending
submit-Slot_example = submit-Slot busy_queue 8 (pos 3) busy_IsOrdered

wait-Waited_example :
    Gives (Waited busy_queue 4 busy_Inv true) (wait busy_queue 4 true)
    × (0 < total 4 busy_queue
        → Gives (Waited busy_queue 4 busy_Inv true) (wait_found busy_queue 4 true))
wait-Waited_example = wait-Waited busy_queue 4 busy_Inv true

cancel-Cancelled_example :
    Gives (Cancelled busy_queue 2 busy_Inv false) (cancel busy_queue 2 false)
    × (0 < total 2 busy_queue
        → Gives (Cancelled busy_queue 2 busy_Inv true) (cancel_found busy_queue 2 true))
cancel-Cancelled_example = cancel-Cancelled busy_queue 2 busy_Inv false

finish-Finished_example : Gives (Finished busy_queue) (finish busy_queue)
finish-Finished_example = finish-Finished busy_queue busy_Inv

run-raised-not-IsOrdered_example :
    Gives (λ (s, w'). ¬ IsOrdered w'.queue_pending) (run memory_left busy_queue 2 (pos 9))
run-raised-not-IsOrdered_example =
    run-raised-not-IsOrdered memory_left busy_queue (pos 9) [] high low [] busy_Inv refl
      busy_IsOrdered refl refl

-- The task 1 was submitted, and a thread has it.
abbrev started_queue : Workq
started_queue = record {
  stopped = false;
  purge_id = id_zero;
  map_task = 1 ∷ [];
  queue_pending = [];
  queue_complete = [];
  queue_active = record { status = active; priority = pos 5; purge_id = id_zero; task = 1 } ∷ [];
  next_tid = 1;
  finishes = [];
}

-- A caller of cc_workq_wait sleeps.
started-Reach : Reach (waiter 1 ∷ []) started_queue
unfolding new start_thread run run_node submit insert_up walk_up unwind rewind requeue rerun_pending
    split_node checkout wait wait_found wait_node peek_task find_node
started-Reach =
    next
      (next (next (next start starts_thread tt) (runs_task memory_left 1 (pos 5) refl) tt)
        (checks_out 1 refl) tt)
      (waits_for {o = blocked started_queue} 1 true refl) (omega arith, tt)

Reach-Inv_example : Inv started_queue × Awakens (waiter 1 ∷ []) started_queue
Reach-Inv_example = Reach-Inv started-Reach
