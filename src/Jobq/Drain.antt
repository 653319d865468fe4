-- ===== src/Jobq/Drain.antt =====
-- The threads of cc_jobq.c at work, while no client makes a call.
use libcc.Base.{
  ℕ, zero, suc, ◌+◌, ◌*◌, ◌<◌, ◌≤◌, ◌≡◌, refl, Bool-cases, true, false, List, [], ◌∷◌, arith,
  if◌then◌else◌, inl, inr, ◌⊎◌, ◌∙◌, ap, length, ==_refl,
}
use libcc.Jobq.{running, Job, Checkout, waits, ends, runs, checkout, is_empty, put, idle, run}
use libcc.Jobq.Steps.{has_iter, Dispatched, checkout-Dispatched, runs-state, length-remove_job}
use libcc.Jobq.Threads.{Threads, thread_tests, thread_returns, finish_tests}
use libcc.Jobq.Wakeups.{
  ThreadStep, tests, returns, finish_again, Reached, NoneLost, Reached-NoneLost, thread-NoneLost,
  busy-idle, is_empty-append, length-append,
}

-- A number of steps of the threads.
pub data ThreadSteps : ℕ → Threads → Threads → Type 0 where
  none_yet : (p : Threads) → ThreadSteps 0 p p
  and_then :
      (k : ℕ) (p p' p'' : Threads)
      → ThreadSteps k p p'
      → ThreadStep p' p''
      → ThreadSteps (suc k) p p''

-- A bound on the steps that are left: a pending job is checked out and returned, and its thread tests
-- again; a caller of cc_jobq_finish that was woken too early sleeps again, and is woken once more.
abbrev pub work : Threads → ℕ
work p =
    3 * length p.queue.queue_pending
    + 2 * length p.queue.queue_active
    + p.awake
    + p.woken
    + p.finishing
    + (if idle p.queue then 0 else p.woken)

tests-work :
    (p : Threads) (c : Checkout)
    → 0 < p.awake
    → Dispatched p.queue c
    → p.queue.state ≡ running
    → (work (thread_tests p c) + 1 ≤ work p) × ((thread_tests p c).queue.state ≡ running)
unfolding thread_tests
tests-work p waits pos d run = (omega (arith, pos), run)
tests-work p ends pos d run = (omega (arith, pos), run)
tests-work p (runs j w) pos d run =
    let (is_run, queue, active, _, _, _) = d in
    let busy : idle p.queue ≡ false = busy-idle p.queue (inl (ap is_empty queue)) in
    let busy' : idle w ≡ false =
      busy-idle w (inr (ap is_empty active ∙ is_empty-append p.queue.queue_active j)) in
    (
      rw (busy, busy')
          (omega
            (arith, pos, ap length queue, ap length active, length-append p.queue.queue_active j)),
      runs-state p.queue w j d ∙ run,
    )

has_iter-ne : (i : ℕ) (js : List Job) → has_iter i js ≡ true → is_empty js ≡ false
has_iter-ne i [] h = absurd (ground arith)
has_iter-ne i (j ∷ js) h = refl

returns-work :
    (p : Threads) (i : ℕ)
    → has_iter i p.queue.queue_active ≡ true
    → work (thread_returns p i) + 1 ≤ work p
unfolding thread_returns put
returns-work p i h =
    let less = length-remove_job i p.queue.queue_active h in
    let busy : idle p.queue ≡ false =
      busy-idle p.queue (inr (has_iter-ne i p.queue.queue_active h)) in
    elim (Bool-cases (put p.queue i).0) [
      | inl e ↦ rw (e, busy, e) (omega (arith, less))
      | inr e ↦ rw (e, busy, e) (omega (arith, less))
    ]

finish_tests-work : (p : Threads) → 0 < p.woken → work (finish_tests p) + 1 ≤ work p
unfolding finish_tests
finish_tests-work p pos = elim (Bool-cases (idle p.queue)) [
  | inl e ↦ rw (e, e) (omega (arith, pos))
  | inr e ↦ rw (e, e) (omega (arith, pos))
]

returns-state : (p : Threads) (i : ℕ) → (thread_returns p i).queue.state ≡ p.queue.state
unfolding thread_returns put
returns-state p i = elim (Bool-cases (put p.queue i).0) [ inl e ↦ rw e refl | inr e ↦ rw e refl ]

finish_tests-state : (p : Threads) → (finish_tests p).queue.state ≡ p.queue.state
unfolding finish_tests
finish_tests-state p = elim (Bool-cases (idle p.queue)) [ inl e ↦ rw e refl | inr e ↦ rw e refl ]

step-work :
    (p p' : Threads)
    → ThreadStep p p'
    → p.queue.state ≡ running
    → (work p' + 1 ≤ work p) × (p'.queue.state ≡ running)
step-work p _ (tests pos) run =
    tests-work p (checkout p.queue) pos (checkout-Dispatched p.queue) run
step-work p _ (returns i h) run = (returns-work p i h, returns-state p i ∙ run)
step-work p _ (finish_again pos) run = (finish_tests-work p pos, finish_tests-state p ∙ run)

steps-work :
    (n k : ℕ) (p p' : Threads)
    → NoneLost n p
    → ThreadSteps k p p'
    → p.queue.state ≡ running
    → (work p' + k ≤ work p) × (p'.queue.state ≡ running) × NoneLost n p'
steps-work n _ _ _ inv (none_yet p) run = (omega arith, run, inv)
steps-work n _ _ _ inv (and_then k p p' p'' before step) run =
    let (left, still, inv') = steps-work n k p p' inv before run in
    let (less, run') = step-work p' p'' step still in
    (omega (arith, left, less), run', thread-NoneLost n p' inv' step)

-- Every job is done, and every caller of cc_jobq_finish has returned.
abbrev pub AllDone : Threads → Type 0
AllDone p = (idle p.queue ≡ true) × (p.finishing ≡ 0) × (p.woken ≡ 0)

module _ (n : ℕ) (p : Threads) (some_thread : 0 < n) (inv : NoneLost n p) where
  next_step :
      (woken : ℕ) (pending active : List Job)
      → p.queue.state ≡ running
      → p.woken ≡ woken
      → p.queue.queue_pending ≡ pending
      → p.queue.queue_active ≡ active
      → ((p' : Threads) × ThreadStep p p') ⊎ AllDone p
  next_step (suc k) q a run woken pending active = inl (_, finish_again (omega (arith, woken)))
  next_step zero q (j ∷ a) run woken pending active =
      let here : has_iter j.iter (j ∷ a) ≡ true = rw (==_refl j.iter) in
      inl (_, returns j.iter (ap (has_iter j.iter) active ∙ here))
  next_step zero (j ∷ q) [] run woken pending active =
      let sleepers = inv.no_sleeper run (ap is_empty pending) in
      inl (_, tests (omega (arith, inv.threads, sleepers, some_thread, ap length active)))
  next_step zero [] [] run woken pending active =
      let done : idle p.queue ≡ true =
        ap (λ q. if is_empty q then is_empty p.queue.queue_active else false) pending
        ∙ ap is_empty active in
      inr (done, inv.no_finisher done, woken)

-- In whatever state a queue with at least one thread is, reached by any calls of cc_jobq_run,
-- cc_jobq_pause, cc_jobq_resume and cc_jobq_finish: while it runs and gets no further call, the threads and
-- the callers of cc_jobq_finish that were woken make at most as many steps as `work` says, and until every
-- job is done and every caller of cc_jobq_finish has returned one of them can make a step: no wake-up is
-- lost, and none of them sleeps for ever.
pub threads_drain :
    (n k : ℕ) (p p' : Threads)
    → 0 < n
    → Reached n p
    → ThreadSteps k p p'
    → p.queue.state ≡ running
    → (work p' + k ≤ work p) × (((p'' : Threads) × ThreadStep p' p'') ⊎ AllDone p')
threads_drain n k p p' some_thread r steps run =
    let (left, still, inv) = steps-work n k p p' (Reached-NoneLost r) steps run in
    (
      left,
      next_step n p' some_thread inv p'.woken p'.queue.queue_pending p'.queue.queue_active still
          refl refl refl,
    )
