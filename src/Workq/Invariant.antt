-- ===== src/Workq/Invariant.antt =====
-- The invariant of cc_workq.c, and the steps of its worker threads (cc_workq_thread).
use libcc.Base.{
  ℕ, ◌+◌, ◌≤◌, ◌<◌, ◌≡◌, refl, ◌⊎◌, inl, inr, Bool, true, false, List, [], ◌∷◌, arith,
  if◌then◌else◌, ap, subst, ==_refl,
}
use libcc.Workq.Queue.{pending, active, complete, failure, Task, Node}
use libcc.Workq.{Workq, new, Checkout, waits, ends, runs, checkout_head, checkout, put}
use libcc.Workq.Count.{
  Gives, gives, Gives-bind, count, count_key, count_finish, count-append, All, All-append,
  remove_node-Gives,
}

abbrev pub IsPending : Node → Type 0
IsPending n = n.status ≡ pending

abbrev pub IsActive : Node → Type 0
IsActive n = n.status ≡ active

abbrev pub IsDone : Node → Type 0
IsDone n = (n.status ≡ complete) ⊎ (n.status ≡ failure)

-- How often a task stands in the three queues.
abbrev pub total : Task → Workq → ℕ
total t w = count t w.queue_pending + count t w.queue_active + count t w.queue_complete

-- The map has the tasks of the queues as its keys, each once, and the status of a node tells its
-- queue.
pub record Inv (w : Workq) : Type 0 where
  pub mapped : (t : Task) → total t w ≡ count_key t w.map_task
  pub unique : (t : Task) → count_key t w.map_task ≤ 1
  pub pending_ok : All IsPending w.queue_pending
  pub active_ok : All IsActive w.queue_active
  pub complete_ok : All IsDone w.queue_complete

-- A task that leaves the queues is handed to `finish_fn`, once, and no other is.
abbrev pub Conserves : Workq → Workq → Type 0
Conserves w w' =
    (t : Task) → total t w + count_finish t w.finishes ≡ total t w' + count_finish t w'.finishes

-- A new queue has the invariant.
pub new-Inv : Inv new
unfolding new
new-Inv = record {
  mapped = λ t. refl;
  unique = λ t. omega arith;
  pending_ok = tt;
  active_ok = tt;
  complete_ok = tt;
}

ret-IsDone :
    (ret : Bool)
    → ((if ret then complete else failure) ≡ complete)
      ⊎ ((if ret then complete else failure) ≡ failure)
ret-IsDone true = inl refl
ret-IsDone false = inr refl

-- What a checkout does: nothing while the thread waits or ends, and otherwise the first pending
-- task goes to the tail of the active queue.
abbrev pub CheckedOut : Workq → Checkout → Type 0
CheckedOut w waits = (w.stopped ≡ false) × (w.queue_pending ≡ [])
CheckedOut w ends = w.stopped ≡ true
CheckedOut w (runs task w') =
    Inv w'
    × Conserves w w'
    × (w.stopped ≡ false)
    × ((n : Node) × (w.queue_pending ≡ n ∷ w'.queue_pending)
        × (n.task ≡ task)
        × (0 < count task w'.queue_active))

checkout_head-CheckedOut :
    (w : Workq) (stopped : Bool) (q : List Node)
    → Inv w
    → w.stopped ≡ stopped
    → w.queue_pending ≡ q
    → CheckedOut w (checkout_head w stopped q)
unfolding checkout_head
checkout_head-CheckedOut w true q inv s e = s
checkout_head-CheckedOut w false [] inv s e = (s, e)
checkout_head-CheckedOut w false (n ∷ ns) inv s e =
    let n' : Node = record n { status = active } in
    (
      record {
        mapped = λ t.
            omega (arith, inv.mapped t, ap (count t) e, count-append t w.queue_active (n' ∷ []));
        unique = inv.unique;
        pending_ok = (subst (All IsPending) e inv.pending_ok).1;
        active_ok = All-append IsActive w.queue_active (n' ∷ []) inv.active_ok (refl, tt);
        complete_ok = inv.complete_ok;
      },
      (λ t. omega (arith, ap (count t) e, count-append t w.queue_active (n' ∷ []))),
      s,
      (n, e, refl, ground (arith, count-append n.task w.queue_active (n' ∷ []), ==_refl n.task)),
    )

-- A worker thread waits exactly while nothing is pending and the queue is not stopped, ends exactly
-- when it is stopped, and otherwise moves the first pending task to the active queue. The invariant
-- is kept.
pub checkout-CheckedOut : (w : Workq) → Inv w → CheckedOut w (checkout w)
unfolding checkout
checkout-CheckedOut w inv = checkout_head-CheckedOut w w.stopped w.queue_pending inv refl refl

-- On a queue with the invariant, a thread that returns from a task of the active queue does not
-- fault, moves one node of the task to the complete queue, and keeps the invariant.
pub put-Inv :
    (w : Workq) (task : Task) (ret : Bool)
    → Inv w
    → 0 < count task w.queue_active
    → Gives (λ w'. Inv w' × Conserves w w' × (0 < count task w'.queue_complete)) (put w task ret)
unfolding put
put-Inv w task ret inv pos =
    Gives-bind (remove_node-Gives IsActive task w.queue_active pos inv.active_ok)
      λ (n, rest) (same, h, _, all, _, _).
        let n' : Node = record n { status = if ret then complete else failure } in
        let added = λ (t : Task). count-append t w.queue_complete (n' ∷ []) in
        gives (
          record {
            mapped = λ t. ground (arith, inv.mapped t, h t, added t);
            unique = inv.unique;
            pending_ok = inv.pending_ok;
            active_ok = all;
            complete_ok =
                All-append IsDone w.queue_complete (n' ∷ []) inv.complete_ok (ret-IsDone ret, tt);
          },
          (λ t. ground (arith, h t, added t)),
          ground (arith, added task),
        )
