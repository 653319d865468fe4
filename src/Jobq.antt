-- ===== src/Jobq.antt =====
-- cc_jobq.h and cc_jobq.c. The mutex makes each call, up to the point where it waits for a
-- condition, one step on the state; the steps of a worker thread are `checkout` and `put`.
pub mod Steps
pub mod Threads
pub mod Wakeups
pub mod Drain
pub mod Tests
use libcc.Base.{
  ℕ, ◌+◌, Bool, true, false, Option, none, some, List, [], ◌∷◌, ◌++◌, ◌==◌, if◌then◌else◌, length,
}

-- CC_JOBQ_STATE_*
pub data State : Type 0 where
  running paused stop : State

-- A task and the iterator that holds it, by which the thread that runs the task knows it.
pub record Job : Type 0 where
  pub iter : ℕ
  pub task : ℕ

-- The struct cc_jobq_t less its callback, its threads and its locks. `submitted` are
-- the tasks given to cc_jobq_run up to now, and `started` those that a thread has checked out under the
-- lock, in these orders. The thread calls `run_fn` after it has unlocked: with several threads these
-- calls can come in another order.
pub record Jobq : Type 0 where
  pub state : State
  pub queue_pending : List Job
  pub queue_active : List Job
  pub submitted : List ℕ
  pub started : List ℕ

-- cc_jobq_new, where nothing fails.
unfoldable pub new : Jobq
new = record {
  state = running;
  queue_pending = [];
  queue_active = [];
  submitted = [];
  started = [];
}

-- cc_jobq_thread: a thread that holds the lock waits, ends, or moves the first job to the active
-- queue and runs its task.
pub data Checkout : Type 0 where
  waits ends : Checkout
  runs : Job → Jobq → Checkout

unfoldable pub checkout_head : Jobq → State → List Job → Checkout
checkout_head w paused q = waits
checkout_head w stop q = ends
checkout_head w running [] = waits
checkout_head w running (j ∷ js) = runs j (record w {
  queue_pending = js;
  queue_active = w.queue_active ++ j ∷ [];
  started = w.started ++ j.task ∷ [];
})

unfoldable pub checkout : Jobq → Checkout
unfolding checkout_head
checkout w = checkout_head w w.state w.queue_pending

-- cc_list_remove of an iterator
unfoldable pub remove_job : ℕ → List Job → List Job
remove_job i [] = []
remove_job i (j ∷ js) = if j.iter == i then js else j ∷ remove_job i js

abbrev pub is_empty : List Job → Bool
is_empty [] = true
is_empty _ = false

abbrev pub idle : Jobq → Bool
idle w = if is_empty w.queue_pending then is_empty w.queue_active else false

-- cc_jobq_thread: the run of a task has returned. The flag says that `cond_complete` is broadcast.
unfoldable pub put : Jobq → ℕ → Bool × Jobq
unfolding remove_job
put w i = let w' = record w { queue_active = remove_job i w.queue_active } in (idle w', w')

-- cc_jobq_pause, and cc_jobq_resume, which broadcasts `cond_pending`
unfoldable pub pause : Jobq → Jobq
pause w = record w { state = paused }

unfoldable pub resume : Jobq → Jobq
resume w = record w { state = running }

-- cc_jobq_finish: what comes before its wait, and the first test of the wait. After a wake-up it only
-- tests again, `idle`, and does not resume a queue that was paused in between.
abbrev pub unpaused : State → State
unpaused paused = running
unpaused s = s

unfoldable pub finish : Jobq → Bool × Jobq
finish w = let w' = record w { state = unpaused w.state } in (idle w', w')

-- cc_jobq_delete: the flag that stops the threads, set once cc_jobq_finish has returned.
unfoldable pub set_stop : Jobq → Jobq
set_stop w = record w { state = stop }

-- cc_jobq_run: `iter` is the new iterator, or `none` where there is none.
unfoldable pub run : Option ℕ → Jobq → ℕ → Bool × Jobq
run none w task = (false, w)
run (some i) w task = (
  true,
  record w {
    queue_pending = w.queue_pending ++ record { iter = i; task = task } ∷ [];
    submitted = w.submitted ++ task ∷ [];
  },
)

-- cc_jobq_pending
unfoldable pub count_pending : Jobq → ℕ
count_pending w = length w.queue_pending + length w.queue_active
