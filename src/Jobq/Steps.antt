-- ===== src/Jobq/Steps.antt =====
-- cc_jobq.c as a step relation: the calls of its clients and the steps of its threads, in any
-- order.
use libcc.Base.{
  ℕ, ◌+◌, ◌≡◌, ◌≢◌, refl, Bool, true, false, Option, none, some, List, [], ◌∷◌, ◌++◌, arith, ◌==◌,
  ◌||◌, if◌then◌else◌, inl, inr, ◌⊎◌, sym, ◌∙◌, ap, subst, append_assoc, append-nil, length,
}
use libcc.Jobq.{
  Jobq, State, running, paused, stop, Job, new, Checkout, waits, ends, runs, checkout,
  checkout_head, remove_job, is_empty, unpaused, put, pause, resume, finish, idle, set_stop, run,
  count_pending,
}

abbrev pub tasks : List Job → List ℕ
tasks [] = []
tasks (j ∷ js) = j.task ∷ tasks js

abbrev pub has_iter : ℕ → List Job → Bool
has_iter i [] = false
has_iter i (j ∷ js) = if j.iter == i then true else has_iter i js

pub data Step : Jobq → Jobq → Type 0 where
  runs_task : {w : Jobq} (o : Option ℕ) (task : ℕ) → Step w (run o w task).1
  checks_out : {w w' : Jobq} (j : Job) → checkout w ≡ runs j w' → Step w w'
  puts : {w : Jobq} (i : ℕ) → has_iter i w.queue_active ≡ true → Step w (put w i).1
  pauses : {w : Jobq} → Step w (pause w)
  resumes : {w : Jobq} → Step w (resume w)
  finishes : {w : Jobq} → Step w (finish w).1
  stops : {w : Jobq} → Step w (set_stop w)

pub data Reach : Jobq → Type 0 where
  start : Reach new
  next : {w w' : Jobq} → Reach w → Step w w' → Reach w'

tasks-append : (xs ys : List Job) → tasks (xs ++ ys) ≡ tasks xs ++ tasks ys
tasks-append [] ys = refl
tasks-append (j ∷ xs) ys = ap (◌∷◌ j.task) (tasks-append xs ys)

-- The tasks started, and then the pending ones, are the tasks submitted, in their order.
abbrev pub InOrder : Jobq → Type 0
InOrder w = w.submitted ≡ w.started ++ tasks w.queue_pending

-- What a checkout does: a running queue with a pending job starts the first one; a queue that is
-- paused or has no job lets the thread wait; and a stopped one lets it end.
abbrev pub Dispatched : Jobq → Checkout → Type 0
Dispatched w waits = (w.state ≡ paused) ⊎ ((w.state ≡ running) × (w.queue_pending ≡ []))
Dispatched w ends = w.state ≡ stop
Dispatched w (runs j w') =
    (w.state ≡ running)
    × (w.queue_pending ≡ j ∷ w'.queue_pending)
    × (w'.queue_active ≡ w.queue_active ++ j ∷ [])
    × (w'.started ≡ w.started ++ j.task ∷ [])
    × (w'.submitted ≡ w.submitted)
    × (w'.state ≡ w.state)

checkout_head-Dispatched :
    (w : Jobq) (s : State) (q : List Job)
    → w.state ≡ s
    → w.queue_pending ≡ q
    → Dispatched w (checkout_head w s q)
unfolding checkout_head
checkout_head-Dispatched w paused q e f = inl e
checkout_head-Dispatched w stop q e f = e
checkout_head-Dispatched w running [] e f = inr (e, f)
checkout_head-Dispatched w running (j ∷ js) e f = (e, f, refl, refl, refl, refl)

-- A thread waits exactly while the queue is paused or running with nothing pending, ends exactly when
-- it is stopped, and otherwise moves the first pending job to the active queue and starts its task.
pub checkout-Dispatched : (w : Jobq) → Dispatched w (checkout w)
unfolding checkout
checkout-Dispatched w = checkout_head-Dispatched w w.state w.queue_pending refl refl

runs-InOrder : (w w' : Jobq) (j : Job) → Dispatched w (runs j w') → InOrder w → InOrder w'
runs-InOrder w w' j (_, q, _, started, submitted, _) o =
    submitted
    ∙ o
    ∙ ap (λ js. w.started ++ tasks js) q
    ∙ sym (append_assoc w.started (j.task ∷ []) (tasks w'.queue_pending))
    ∙ ap (λ ts. ts ++ tasks w'.queue_pending) (sym started)

run-InOrder : (o : Option ℕ) (w : Jobq) (task : ℕ) → InOrder w → InOrder (run o w task).1
unfolding run
run-InOrder none w task o = o
run-InOrder (some i) w task o =
    ap (λ ts. ts ++ task ∷ []) o
    ∙ append_assoc w.started (tasks w.queue_pending) (task ∷ [])
    ∙ ap (◌++◌ w.started)
        (sym (tasks-append w.queue_pending (record { iter = i; task = task } ∷ [])))

Step-InOrder : {w w' : Jobq} → Step w w' → InOrder w → InOrder w'
unfolding put pause resume finish set_stop
Step-InOrder (runs_task {w} o task) order = run-InOrder o w task order
Step-InOrder (checks_out {w} {w'} j e) order =
    runs-InOrder w w' j (subst (Dispatched w) e (checkout-Dispatched w)) order
Step-InOrder (puts i e) order = order
Step-InOrder pauses order = order
Step-InOrder resumes order = order
Step-InOrder finishes order = order
Step-InOrder stops order = order

-- Whatever the clients and the threads do, each task is checked out for its run at most once, and the
-- tasks are checked out in the order in which they were submitted.
pub Reach-InOrder : {w : Jobq} → Reach w → InOrder w
unfolding new
Reach-InOrder start = refl
Reach-InOrder (next r s) = Step-InOrder s (Reach-InOrder r)

idle-empty :
    (p a : List Job) → (if is_empty p then is_empty a else false) ≡ true → (p ≡ []) × (a ≡ [])
idle-empty [] [] e = (refl, refl)
idle-empty [] (j ∷ a) e = absurd (ground arith)
idle-empty (j ∷ p) a e = absurd (ground arith)

unpaused-ne-paused : (s : State) → unpaused s ≢ paused
unpaused-ne-paused running = λ e. absurd (ground arith)
unpaused-ne-paused paused = λ e. absurd (ground arith)
unpaused-ne-paused stop = λ e. absurd (ground arith)

-- Whether a step is a call of cc_jobq_pause.
abbrev pub is_pause : {w w' : Jobq} → Step w w' → Bool
is_pause pauses = true
is_pause _ = false

-- The states in which a call of cc_jobq_finish that began in `w` may test whether it can return, and
-- whether the queue was paused since it began.
pub data Since (w : Jobq) : Bool → Jobq → Type 0 where
  begun : Since w false (finish w).1
  passes :
      {was_paused : Bool} {w' w'' : Jobq}
      → Since w was_paused w'
      → (step : Step w' w'') → Since w (was_paused || is_pause step) w''

-- A checkout does not change the state of the queue.
pub runs-state : (w w' : Jobq) (j : Job) → Dispatched w (runs j w') → w'.state ≡ w.state
runs-state w w' j (_, _, _, _, _, same) = same

Step-unpaused :
    {w w' : Jobq} (step : Step w w') → is_pause step ≡ false → w.state ≢ paused → w'.state ≢ paused
unfolding put pause resume finish set_stop run
Step-unpaused (runs_task none task) e ne = ne
Step-unpaused (runs_task (some i) task) e ne = ne
Step-unpaused (checks_out {w} {w'} j c) e ne =
    λ f. ne (sym (runs-state w w' j (subst (Dispatched w) c (checkout-Dispatched w))) ∙ f)
Step-unpaused (puts i h) e ne = ne
Step-unpaused pauses e ne = absurd (ground arith)
Step-unpaused resumes e ne = λ f. absurd (ground arith)
Step-unpaused (finishes {w}) e ne = unpaused-ne-paused w.state
Step-unpaused stops e ne = λ f. absurd (ground arith)

Since-unpaused : {w w' : Jobq} {b : Bool} → Since w b w' → b ≡ false → w'.state ≢ paused
unfolding finish
Since-unpaused {w} begun e = unpaused-ne-paused w.state
Since-unpaused (passes {was_paused} s step) e =
    Step-unpaused step (ground arith) (Since-unpaused s (ground arith))

Since-InOrder : {w w' : Jobq} {b : Bool} → Since w b w' → InOrder w → InOrder w'
Since-InOrder {w} begun order = Step-InOrder (finishes {w = w}) order
Since-InOrder (passes s step) order = Step-InOrder step (Since-InOrder s order)

-- When a call of cc_jobq_finish that began in a reachable state can return, after whatever the other
-- clients and the threads did since, no job is pending or active, every task that was submitted was
-- checked out, and the queue is not paused unless cc_jobq_pause was called since the call began.
pub finish-all_started :
    (w w' : Jobq) (was_paused : Bool)
    → Reach w
    → Since w was_paused w'
    → idle w' ≡ true
    → (w'.queue_active ≡ [])
      × (w'.queue_pending ≡ [])
      × (w'.started ≡ w'.submitted)
      × (was_paused ≡ false → w'.state ≢ paused)
finish-all_started w w' was_paused r since e =
    let (p, a) = idle-empty w'.queue_pending w'.queue_active e in
    let order = Since-InOrder since (Reach-InOrder r) in
    (
      a,
      p,
      sym (order ∙ ap (λ q. w'.started ++ tasks q) p ∙ append-nil w'.started),
      Since-unpaused since,
    )

pub length-remove_job :
    (i : ℕ) (js : List Job) → has_iter i js ≡ true → length js ≡ length (remove_job i js) + 1
unfolding remove_job
length-remove_job i [] h = absurd (ground arith)
length-remove_job i (j ∷ js) h = ground (arith, length-remove_job i js)

-- A thread that returns a job lowers cc_jobq_pending by one, and broadcasts `cond_complete` exactly
-- when a caller of cc_jobq_finish need no longer wait.
pub put-count_pending :
    (w : Jobq) (i : ℕ)
    → has_iter i w.queue_active ≡ true
    → (count_pending w ≡ count_pending (put w i).1 + 1) × ((put w i).0 ≡ (finish (put w i).1).0)
unfolding put finish count_pending
put-count_pending w i h = (omega (arith, length-remove_job i w.queue_active h), refl)
