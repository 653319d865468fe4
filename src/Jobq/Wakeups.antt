-- ===== src/Jobq/Wakeups.antt =====
-- The threads of cc_jobq.c and its callers of cc_jobq_finish as a step relation, and their wake-ups.
use libcc.Base.{
  ℕ, ◌+◌, ◌<◌, ◌≡◌, refl, Bool-cases, true, false, Option, none, some, List, [], ◌∷◌, ◌++◌, arith,
  inl, inr, ◌⊎◌, sym, ◌∙◌, ap, length,
}
use libcc.Jobq.{
  Jobq, State, running, paused, stop, Job, new, Checkout, waits, ends, runs, checkout, is_empty,
  put, pause, resume, finish, idle, run,
}
use libcc.Jobq.Steps.{has_iter, Dispatched, checkout-Dispatched, runs-state, length-remove_job}
use libcc.Jobq.Threads.{
  Threads, create, is_running, is_paused, thread_tests, thread_returns, call_run, call_pause,
  call_resume, call_finish, finish_tests,
}

-- A step of a thread, or of a caller of cc_jobq_finish that was woken.
pub data ThreadStep (p : Threads) : Threads → Type 0 where
  tests : 0 < p.awake → ThreadStep p (thread_tests p (checkout p.queue))
  returns : (i : ℕ) → has_iter i p.queue.queue_active ≡ true → ThreadStep p (thread_returns p i)
  finish_again : 0 < p.woken → ThreadStep p (finish_tests p)

-- A call of a client.
pub data ClientStep (p : Threads) : Threads → Type 0 where
  client_runs : (o : Option ℕ) (task : ℕ) → ClientStep p (call_run o p task)
  client_pauses : ClientStep p (call_pause p)
  client_resumes : ClientStep p (call_resume p)
  client_finishes : ClientStep p (call_finish p)

-- What `n` threads and the clients can reach.
pub data Reached (n : ℕ) : Threads → Type 0 where
  created : Reached n (create n)
  by_thread : {p p' : Threads} → Reached n p → ThreadStep p p' → Reached n p'
  by_client : {p p' : Threads} → Reached n p → ClientStep p p' → Reached n p'

-- No thread is lost, none sleeps while a running queue has a pending job, and no caller of
-- cc_jobq_finish sleeps while every job is done.
pub record NoneLost (n : ℕ) (p : Threads) : Type 0 where
  pub threads : p.awake + p.asleep + length p.queue.queue_active ≡ n
  pub going : (p.queue.state ≡ stop) → ⊥
  pub no_sleeper : p.queue.state ≡ running → is_empty p.queue.queue_pending ≡ false → p.asleep ≡ 0
  pub no_finisher : idle p.queue ≡ true → p.finishing ≡ 0

pub length-append : (xs : List Job) (j : Job) → length (xs ++ j ∷ []) ≡ length xs + 1
length-append [] j = refl
length-append (x ∷ xs) j = omega (arith, length-append xs j)

pub is_empty-append : (xs : List Job) (j : Job) → is_empty (xs ++ j ∷ []) ≡ false
is_empty-append [] j = refl
is_empty-append (x ∷ xs) j = refl

pub busy-idle :
    (w : Jobq)
    → (is_empty w.queue_pending ≡ false) ⊎ (is_empty w.queue_active ≡ false)
    → idle w ≡ false
busy-idle w (inl e) = ground arith
busy-idle w (inr e) = ground arith

state-ne : (s : State) → s ≡ paused → s ≡ running → ⊥
state-ne running e f = absurd (ground arith)
state-ne paused e f = absurd (ground arith)
state-ne stop e f = absurd (ground arith)

module _ (n : ℕ) (p : Threads) (inv : NoneLost n p) where
  tests-NoneLost :
      (c : Checkout) → 0 < p.awake → Dispatched p.queue c → NoneLost n (thread_tests p c)
  unfolding thread_tests
  tests-NoneLost waits pos (inl is_paused) = record {
    threads = omega (arith, inv.threads, pos);
    going = inv.going;
    no_sleeper = λ e more. absurd (state-ne p.queue.state is_paused e);
    no_finisher = inv.no_finisher;
  }
  tests-NoneLost waits pos (inr (is_run, none_left)) = record {
    threads = omega (arith, inv.threads, pos);
    going = inv.going;
    no_sleeper = λ e more. absurd (ground (arith, ap is_empty none_left, more));
    no_finisher = inv.no_finisher;
  }
  tests-NoneLost ends pos d = absurd (inv.going d)
  tests-NoneLost (runs j w) pos d =
      let (is_run, queue, active, _, _, _) = d in
      let sleepers : p.asleep ≡ 0 = inv.no_sleeper is_run (ap is_empty queue) in
      record {
        threads =
            omega (arith, inv.threads, pos, ap length active, length-append p.queue.queue_active j);
        going = λ e. inv.going (sym (runs-state p.queue w j d) ∙ e);
        no_sleeper = λ e more. sleepers;
        no_finisher = λ e. absurd (
            ground (
              arith,
              e,
              busy-idle w (inr (ap is_empty active ∙ is_empty-append p.queue.queue_active j)),
            ));
      }

  returns-NoneLost :
      (i : ℕ) → has_iter i p.queue.queue_active ≡ true → NoneLost n (thread_returns p i)
  unfolding thread_returns put
  returns-NoneLost i h =
      let less = length-remove_job i p.queue.queue_active h in
      elim (Bool-cases (put p.queue i).0) [
        | inl e ↦ rw e record {
          threads = omega (arith, inv.threads, less);
          going = inv.going;
          no_sleeper = inv.no_sleeper;
          no_finisher = λ f. refl;
        }
        | inr e ↦ rw e record {
          threads = omega (arith, inv.threads, less);
          going = inv.going;
          no_sleeper = inv.no_sleeper;
          no_finisher = λ f. absurd (ground (arith, e, f));
        }
      ]

  finish_tests-NoneLost : NoneLost n (finish_tests p)
  unfolding finish_tests
  finish_tests-NoneLost = elim (Bool-cases (idle p.queue)) [
    | inl e ↦ rw e record {
      threads = inv.threads;
      going = inv.going;
      no_sleeper = inv.no_sleeper;
      no_finisher = λ f. inv.no_finisher e;
    }
    | inr e ↦ rw e record {
      threads = inv.threads;
      going = inv.going;
      no_sleeper = inv.no_sleeper;
      no_finisher = λ f. absurd (ground (arith, e, f));
    }
  ]

  run-NoneLost : (o : Option ℕ) (task : ℕ) → NoneLost n (call_run o p task)
  unfolding call_run run
  run-NoneLost none task = inv
  run-NoneLost (some i) task =
      let j : Job = record { iter = i; task = task } in
      let more : is_empty (p.queue.queue_pending ++ j ∷ []) ≡ false =
        is_empty-append p.queue.queue_pending j in
      elim (Bool-cases (is_running p.queue.state)) [
        | inl e ↦ rw e record {
          threads = omega (arith, inv.threads);
          going = inv.going;
          no_sleeper = λ f g. refl;
          no_finisher = λ f. absurd (ground (arith, more, f));
        }
        | inr e ↦ rw e record {
          threads = inv.threads;
          going = inv.going;
          no_sleeper = λ f g. absurd (ground (arith, e, ap is_running f));
          no_finisher = λ f. absurd (ground (arith, more, f));
        }
      ]

  pause-NoneLost : NoneLost n (call_pause p)
  unfolding call_pause pause
  pause-NoneLost = record {
    threads = inv.threads;
    going = λ e. absurd (ground arith);
    no_sleeper = λ e more. absurd (ground arith);
    no_finisher = inv.no_finisher;
  }

  resume-NoneLost : NoneLost n (call_resume p)
  unfolding call_resume resume
  resume-NoneLost = record {
    threads = omega (arith, inv.threads);
    going = λ e. absurd (ground arith);
    no_sleeper = λ e more. refl;
    no_finisher = inv.no_finisher;
  }

  finish_state-NoneLost : (s : State) → p.queue.state ≡ s → NoneLost n (call_finish p)
  unfolding call_finish finish
  finish_state-NoneLost stop same = absurd (inv.going same)
  finish_state-NoneLost running same = elim (Bool-cases (idle p.queue)) [
    | inl e ↦
        rw (same, e)
          record {
            threads = inv.threads;
            going = λ f. absurd (ground arith);
            no_sleeper = λ f more. inv.no_sleeper same more;
            no_finisher = inv.no_finisher;
          }
    | inr e ↦
        rw (same, e)
          record {
            threads = inv.threads;
            going = λ f. absurd (ground arith);
            no_sleeper = λ f more. inv.no_sleeper same more;
            no_finisher = λ f. absurd (ground (arith, e, f));
          }
  ]
  finish_state-NoneLost paused same = elim (Bool-cases (idle p.queue)) [
    | inl e ↦
        rw (same, e)
          record {
            threads = omega (arith, inv.threads);
            going = λ f. absurd (ground arith);
            no_sleeper = λ f more. refl;
            no_finisher = inv.no_finisher;
          }
    | inr e ↦
        rw (same, e)
          record {
            threads = omega (arith, inv.threads);
            going = λ f. absurd (ground arith);
            no_sleeper = λ f more. refl;
            no_finisher = λ f. absurd (ground (arith, e, f));
          }
  ]

  pub thread-NoneLost : {p' : Threads} → ThreadStep p p' → NoneLost n p'
  thread-NoneLost (tests pos) = tests-NoneLost (checkout p.queue) pos (checkout-Dispatched p.queue)
  thread-NoneLost (returns i h) = returns-NoneLost i h
  thread-NoneLost (finish_again pos) = finish_tests-NoneLost

  client-NoneLost : {p' : Threads} → ClientStep p p' → NoneLost n p'
  client-NoneLost (client_runs o task) = run-NoneLost o task
  client-NoneLost client_pauses = pause-NoneLost
  client-NoneLost client_resumes = resume-NoneLost
  client-NoneLost client_finishes = finish_state-NoneLost p.queue.state refl

-- In each state that the threads and the clients can reach, no wake-up is lost.
pub Reached-NoneLost : {n : ℕ} {p : Threads} → Reached n p → NoneLost n p
unfolding new
Reached-NoneLost created = record {
  threads = omega arith;
  going = λ e. absurd (ground arith);
  no_sleeper = λ e more. refl;
  no_finisher = λ e. refl;
}
Reached-NoneLost (by_thread {p} r step) = thread-NoneLost _ p (Reached-NoneLost r) step
Reached-NoneLost (by_client {p} r step) = client-NoneLost _ p (Reached-NoneLost r) step
