-- ===== src/Jobq/Tests.antt =====
-- cc_jobq.c on a concrete queue: the theorems at work.
use libcc.Base.{◌+◌, ◌≤◌, ◌⊎◌, true, false, ◌≡◌, ◌≢◌, refl, [], ◌∷◌, some, arith}
use libcc.Jobq.{Jobq, running, paused, new, checkout, put, run, finish, pause}
use libcc.Jobq.Threads.{Threads, create, thread_tests, thread_returns, call_run, call_finish}
use libcc.Jobq.Wakeups.{
  tests, returns, client_runs, client_finishes, created, by_thread, by_client, Reached, ThreadStep,
}
use libcc.Jobq.Drain.{none_yet, and_then, work, AllDone, threads_drain}
use libcc.Jobq.Steps.{
  runs_task, checks_out, puts, pauses, Reach, start, next, InOrder, Reach-InOrder, begun, passes,
  finish-all_started,
}

-- The task 7 was submitted.
abbrev one_pending : Jobq
one_pending = record {
  state = running;
  queue_pending = record { iter = 1; task = 7 } ∷ [];
  queue_active = [];
  submitted = 7 ∷ [];
  started = [];
}

-- It was started.
abbrev one_active : Jobq
one_active = record {
  state = running;
  queue_pending = [];
  queue_active = record { iter = 1; task = 7 } ∷ [];
  submitted = 7 ∷ [];
  started = 7 ∷ [];
}

-- It is done, and the queue was paused.
abbrev done_paused : Jobq
done_paused = record {
  state = paused;
  queue_pending = [];
  queue_active = [];
  submitted = 7 ∷ [];
  started = 7 ∷ [];
}

Reach-one_pending : Reach one_pending
unfolding new run
Reach-one_pending = next start (runs_task (some 1) 7)

Reach-one_active : Reach one_active
unfolding checkout
Reach-one_active = next Reach-one_pending (checks_out (record { iter = 1; task = 7 }) refl)

Reach-done_paused : Reach done_paused
unfolding put pause
Reach-done_paused = next (next Reach-one_active (puts 1 refl)) pauses

Reach-InOrder_example : InOrder one_active
Reach-InOrder_example = Reach-InOrder Reach-one_active

-- cc_jobq_finish began while the task ran, and the queue was paused after the task was done.
finish-all_started_example :
    (done_paused.queue_active ≡ [])
    × (done_paused.queue_pending ≡ [])
    × (done_paused.started ≡ done_paused.submitted)
    × (true ≡ false → done_paused.state ≢ paused)
unfolding finish put pause
finish-all_started_example =
    finish-all_started one_active done_paused true Reach-one_active
      (passes (passes begun (puts 1 refl)) pauses) refl

-- Two threads, one of which has fallen asleep before the task 7 was submitted, and a caller of
-- cc_jobq_finish that sleeps.
abbrev two_threads : Threads
two_threads =
    call_finish (call_run (some 1) (thread_tests (create 2) (checkout (create 2).queue)) 7)

Reached-two_threads : Reached 2 two_threads
Reached-two_threads =
    by_client (by_client (by_thread created (tests (omega arith))) (client_runs (some 1) 7))
      client_finishes

-- The task is done, and the caller is woken.
abbrev task_done : Threads
task_done = thread_returns (thread_tests two_threads (checkout two_threads.queue)) 1

caller_woken : (task_done.finishing ≡ 0) × (task_done.woken ≡ 1) × (task_done.awake ≡ 2)
unfolding new finish run call_run call_finish thread_tests thread_returns checkout put
caller_woken = (refl, refl, refl)

threads_drain_example :
    (work task_done + 2 ≤ work two_threads)
    × (((p : Threads) × ThreadStep task_done p) ⊎ AllDone task_done)
unfolding new finish run call_run call_finish thread_tests thread_returns checkout put
threads_drain_example =
    threads_drain 2 2 two_threads task_done (omega arith) Reached-two_threads
      (and_then 1 two_threads _ task_done
        (and_then 0 two_threads two_threads _ (none_yet two_threads) (tests (omega arith)))
        (returns 1 refl))
      refl
