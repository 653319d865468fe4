-- ===== src/Jobq/Threads.antt =====
-- cc_jobq.c with its worker threads and its condition variables: which threads sleep on `cond_pending`,
-- which callers of cc_jobq_finish sleep on `cond_complete`, and who wakes them. A thread that runs a
-- task is counted by its job in the active queue. It is about the time before cc_jobq_delete.
use libcc.Base.{ℕ, ◌+◌, ◌-◌, Bool, true, false, Option, if◌then◌else◌}
use libcc.Jobq.{
  Jobq, State, running, paused, new, Checkout, waits, ends, runs, put, pause, resume, finish, idle,
  run,
}

pub record Threads : Type 0 where
  pub queue : Jobq
  pub awake : ℕ
  pub asleep : ℕ
  pub finishing : ℕ
  pub woken : ℕ

-- cc_jobq_new, where nothing fails: `n` threads that have not tested their condition yet.
abbrev pub create : ℕ → Threads
create n = record { queue = new; awake = n; asleep = 0; finishing = 0; woken = 0 }

-- pthread_cond_broadcast of `cond_pending` and of `cond_complete`, where the flag says so.
abbrev pub broadcast_pending : Bool → Threads → Threads
broadcast_pending true p = record p { awake = p.awake + p.asleep; asleep = 0 }
broadcast_pending false p = p

abbrev pub broadcast_complete : Bool → Threads → Threads
broadcast_complete true p = record p { woken = p.woken + p.finishing; finishing = 0 }
broadcast_complete false p = p

abbrev pub is_running : State → Bool
is_running running = true
is_running _ = false

abbrev pub is_paused : State → Bool
is_paused paused = true
is_paused _ = false

-- cc_jobq_thread: a thread that is awake tests its condition.
unfoldable pub thread_tests : Threads → Checkout → Threads
thread_tests p waits = record p { awake = p.awake - 1; asleep = p.asleep + 1 }
thread_tests p ends = record p { awake = p.awake - 1 }
thread_tests p (runs j w) = record p { queue = w; awake = p.awake - 1 }

-- cc_jobq_thread: the run of a task has returned, and its thread is awake.
unfoldable pub thread_returns : Threads → ℕ → Threads
unfolding put
thread_returns p i =
    let r = put p.queue i in broadcast_complete r.0 (record p { queue = r.1; awake = p.awake + 1 })

-- The calls of the clients.
unfoldable pub call_run : Option ℕ → Threads → ℕ → Threads
unfolding run
call_run o p task =
    let r = run o p.queue task in
    broadcast_pending (if r.0 then is_running r.1.state else false) (record p { queue = r.1 })

unfoldable pub call_pause : Threads → Threads
unfolding pause
call_pause p = record p { queue = pause p.queue }

unfoldable pub call_resume : Threads → Threads
unfolding resume
call_resume p = broadcast_pending true (record p { queue = resume p.queue })

-- cc_jobq_finish up to its first wait.
unfoldable pub call_finish : Threads → Threads
unfolding finish
call_finish p =
    let r = finish p.queue in
    let p' = broadcast_pending (is_paused p.queue.state) (record p { queue = r.1 }) in
    if r.0 then p' else record p' { finishing = p'.finishing + 1 }

-- cc_jobq_finish: a caller that was woken tests again.
unfoldable pub finish_tests : Threads → Threads
finish_tests p =
    if idle p.queue
    then record p { woken = p.woken - 1 }
    else record p { woken = p.woken - 1; finishing = p.finishing + 1 }
