-- ===== src/Workq/Purge.antt =====
-- cc_workq.c: what the calls that name no task, cc_workq_purge, cc_workq_flush and cc_workq_finish,
-- do to the queues.
use libcc.Base.{
  ◌≡◌, ◌≢◌, refl, ◌⊎◌, inl, inr, Bool, true, false, List, [], ◌∷◌, ◌++◌, arith, if◌then◌else◌, ◌||◌,
  Bool-cases, ◌∙◌, ap, subst,
}
use libcc.Workq.Queue.{PurgeId, id_zero, id_one, purge_all, same_id, Task, Node, Finishes}
use libcc.Workq.{
  Workq, differs, is_purge, swap_id, mark_node, mark_nodes, purge, flush, finish, Outcome, blocked,
  returned, is_empty,
}
use libcc.Workq.Count.{Gives, gives, Gives-bind, count, All}
use libcc.Workq.Place.{kept_nodes, reports, purge_queue-Purged, kept_nodes-All, kept_nodes-count}
use libcc.Workq.Invariant.{IsPending, IsActive, IsDone, total, Inv, Conserves}

mark_nodes-count : (w : Workq) (t : Task) (ns : List Node) → count t (mark_nodes w ns) ≡ count t ns
unfolding mark_nodes
mark_nodes-count w t [] = refl
mark_nodes-count w t (n ∷ ns) = ground (arith, mark_nodes-count w t ns)

mark_nodes-All : (w : Workq) (ns : List Node) → All IsActive ns → All IsActive (mark_nodes w ns)
unfolding mark_nodes
mark_nodes-All w [] all = tt
mark_nodes-All w (n ∷ ns) all = (ground arith, mark_nodes-All w ns all.1)

-- A queue and what is left of it: a node that has the first property stays, and one that has the second
-- goes, with a call of `finish_fn` for its task and its status, in the order of the queue.
pub data Sifted (Keep Drop : Node → Type 0) : List Node → List Node → Finishes → Type 0 where
  no_node : Sifted Keep Drop [] [] []
  stays :
      (n : Node) (ns ms : List Node) (log : Finishes)
      → Keep n
      → Sifted Keep Drop ns ms log
      → Sifted Keep Drop (n ∷ ns) (n ∷ ms) log
  goes :
      (n : Node) (ns ms : List Node) (log : Finishes)
      → Drop n
      → Sifted Keep Drop ns ms log
      → Sifted Keep Drop (n ∷ ns) ms ((n.task, n.status) ∷ log)

kept_nodes-Sifted :
    {Keep Drop : Node → Type 0} (drop : Node → Bool)
    → ((n : Node) → drop n ≡ false → Keep n)
    → ((n : Node) → drop n ≡ true → Drop n)
    → (ns : List Node) → Sifted Keep Drop ns (kept_nodes drop ns) (reports drop ns)
unfolding kept_nodes reports
kept_nodes-Sifted drop keep go [] = no_node
kept_nodes-Sifted drop keep go (n ∷ ns) = elim (Bool-cases (drop n)) [
  | inl e ↦ rw e (goes n ns _ _ (go n e) (kept_nodes-Sifted drop keep go ns))
  | inr e ↦ rw e (stays n ns _ _ (keep n e) (kept_nodes-Sifted drop keep go ns))
]

-- A node with the id is as it was, and one with another id has the mark.
pub data Marked (id : PurgeId) : List Node → List Node → Type 0 where
  none_marked : Marked id [] []
  not_marked :
      (n : Node) (ns ms : List Node)
      → n.purge_id ≡ id
      → Marked id ns ms
      → Marked id (n ∷ ns) (n ∷ ms)
  is_marked :
      (n : Node) (ns ms : List Node)
      → n.purge_id ≢ id
      → Marked id ns ms
      → Marked id (n ∷ ns) (record n { purge_id = purge_all } ∷ ms)

-- The id of the queue after a purge.
pub data NextId : PurgeId → PurgeId → Type 0 where
  zero_one : NextId id_zero id_one
  one_zero : NextId id_one id_zero
  all_all : NextId purge_all purge_all

same_id-cases :
    (a b : PurgeId) → ((same_id a b ≡ true) × (a ≡ b)) ⊎ ((same_id a b ≡ false) × (a ≢ b))
same_id-cases id_zero id_zero = inl (refl, refl)
same_id-cases id_zero id_one = inr (refl, λ e. absurd (ground arith))
same_id-cases id_zero purge_all = inr (refl, λ e. absurd (ground arith))
same_id-cases id_one id_zero = inr (refl, λ e. absurd (ground arith))
same_id-cases id_one id_one = inl (refl, refl)
same_id-cases id_one purge_all = inr (refl, λ e. absurd (ground arith))
same_id-cases purge_all id_zero = inr (refl, λ e. absurd (ground arith))
same_id-cases purge_all id_one = inr (refl, λ e. absurd (ground arith))
same_id-cases purge_all purge_all = inl (refl, refl)

module _ (w : Workq) where
  -- The id of a node is the queue's, or another one.
  differs-cases :
      (n : Node)
      → ((differs w n ≡ false) × (n.purge_id ≡ w.purge_id))
        ⊎ ((differs w n ≡ true) × (n.purge_id ≢ w.purge_id))
  unfolding differs
  differs-cases n = elim (same_id-cases n.purge_id w.purge_id) [
    | inl (same, e) ↦ inl (rw same refl, e)
    | inr (other, ne) ↦ inr (rw other refl, ne)
  ]

  not-differs : (n : Node) → differs w n ≡ false → n.purge_id ≡ w.purge_id
  not-differs n e = elim (differs-cases n) [
    | inl (_, same) ↦ same
    | inr (other, _) ↦ absurd (ground arith)
  ]

  differs-ne : (n : Node) → differs w n ≡ true → n.purge_id ≢ w.purge_id
  differs-ne n e = elim (differs-cases n) [
    | inl (same, _) ↦ absurd (ground arith)
    | inr (_, ne) ↦ ne
  ]

  is_purge-ne : (id : PurgeId) → is_purge id ≡ false → id ≢ purge_all
  is_purge-ne id_zero e = λ h. absurd (ground arith)
  is_purge-ne id_one e = λ h. absurd (ground arith)
  is_purge-ne purge_all e = absurd (ground arith)

  is_purge-eq : (id : PurgeId) → is_purge id ≡ true → id ≡ purge_all
  is_purge-eq id_zero e = absurd (ground arith)
  is_purge-eq id_one e = absurd (ground arith)
  is_purge-eq purge_all e = refl

  abbrev pub Same : Node → Type 0
  Same n = n.purge_id ≡ w.purge_id

  abbrev pub Other : Node → Type 0
  Other n = n.purge_id ≢ w.purge_id

  -- What a purge keeps of the complete queue, and what it drops.
  abbrev pub SameUnmarked : Node → Type 0
  SameUnmarked n = (n.purge_id ≡ w.purge_id) × (n.purge_id ≢ purge_all)

  abbrev pub OtherOrMarked : Node → Type 0
  OtherOrMarked n = (n.purge_id ≢ w.purge_id) ⊎ (n.purge_id ≡ purge_all)

  complete_keeps : (n : Node) → (differs w n || is_purge n.purge_id) ≡ false → SameUnmarked n
  complete_keeps n e = elim (Bool-cases (differs w n)) [
    | inl other ↦ absurd (ground arith)
    | inr same ↦ (not-differs n same, is_purge-ne n.purge_id (ground arith))
  ]

  complete_drops : (n : Node) → (differs w n || is_purge n.purge_id) ≡ true → OtherOrMarked n
  complete_drops n e = elim (Bool-cases (differs w n)) [
    | inl other ↦ inl (differs-ne n other)
    | inr same ↦ inr (is_purge-eq n.purge_id (ground arith))
  ]

  mark_nodes-Marked : (ns : List Node) → Marked w.purge_id ns (mark_nodes w ns)
  unfolding mark_nodes mark_node
  mark_nodes-Marked [] = none_marked
  mark_nodes-Marked (n ∷ ns) = elim (differs-cases n) [
    | inl (e, same) ↦ rw e (not_marked n ns _ same (mark_nodes-Marked ns))
    | inr (e, ne) ↦ rw e (is_marked n ns _ ne (mark_nodes-Marked ns))
  ]

swap_id-NextId : (id : PurgeId) → NextId id (if is_purge id then id else swap_id id)
swap_id-NextId id_zero = zero_one
swap_id-NextId id_one = one_zero
swap_id-NextId purge_all = all_all

-- What a purge does to the queue.
pub record IsPurged (w w' : Workq) : Type 0 where
  pub pending_log : Finishes
  pub complete_log : Finishes
  pub pending_kept : Sifted (Same w) (Other w) w.queue_pending w'.queue_pending pending_log
  pub complete_kept :
      Sifted (SameUnmarked w) (OtherOrMarked w) w.queue_complete w'.queue_complete complete_log
  pub marked : Marked w.purge_id w.queue_active w'.queue_active
  pub reported : w'.finishes ≡ w.finishes ++ pending_log ++ complete_log
  pub next_id : NextId w.purge_id w'.purge_id

-- On a queue with the invariant cc_workq_purge never faults and keeps the invariant. It drops exactly
-- the pending nodes with another id than the queue's and the complete ones that have another id or
-- are marked, hands each of their tasks to `finish_fn` once, in the order of the queues, marks the
-- active nodes with another id, leaves every other node as it is, and changes the queue's id from 0 to
-- 1, from 1 to 0, and not where it is CC_WORKQ_PURGE.
pub purge-IsPurged :
    (w : Workq) → Inv w → Gives (λ w'. Inv w' × Conserves w w' × IsPurged w w') (purge w)
unfolding purge
purge-IsPurged w inv =
    Gives-bind
      (purge_queue-Purged (differs w) w.queue_pending w.map_task w.finishes
        (λ t. omega (arith, inv.mapped t)))
      λ (pending', map', log') (kept, log, keys, finishes).
        Gives-bind
          (purge_queue-Purged (λ n. differs w n || is_purge n.purge_id) w.queue_complete map' log'
            (λ t. omega (arith, inv.mapped t, keys t)))
          λ (complete', map'', log'') (kept', log_eq, keys', finishes'). gives (
            record {
              mapped = λ t.
                  omega (arith, inv.mapped t, keys t, keys' t, mark_nodes-count w t w.queue_active);
              unique = λ t. omega (
                arith,
                inv.unique t,
                keys t,
                keys' t,
                ap (count t) kept,
                ap (count t) kept',
                kept_nodes-count (differs w) t w.queue_pending,
                kept_nodes-count (λ n. differs w n || is_purge n.purge_id) t w.queue_complete,
              );
              pending_ok =
                  rw kept (kept_nodes-All (differs w) IsPending w.queue_pending inv.pending_ok);
              active_ok = mark_nodes-All w w.queue_active inv.active_ok;
              complete_ok = rw kept' (kept_nodes-All _ IsDone w.queue_complete inv.complete_ok);
            },
            (λ t. omega (arith, finishes t, finishes' t, mark_nodes-count w t w.queue_active)),
            record {
              pending_log = reports (differs w) w.queue_pending;
              complete_log = reports (λ n. differs w n || is_purge n.purge_id) w.queue_complete;
              pending_kept =
                  rw kept
                    (kept_nodes-Sifted (differs w) (not-differs w) (differs-ne w) w.queue_pending);
              complete_kept = rw kept' (
                  kept_nodes-Sifted (λ n. differs w n || is_purge n.purge_id) (complete_keeps w)
                    (complete_drops w) w.queue_complete);
              marked = mark_nodes-Marked w w.queue_active;
              reported = rw (log_eq, log);
              next_id = swap_id-NextId w.purge_id;
            },
          )

kept_nodes-none : (ns : List Node) → kept_nodes (λ n. true) ns ≡ []
unfolding kept_nodes
kept_nodes-none [] = refl
kept_nodes-none (n ∷ ns) = kept_nodes-none ns

-- What a flush does: every complete task is handed to `finish_fn`, in the order of the queue, and
-- the other queues stay as they are.
abbrev pub IsFlushed : Workq → Workq → Type 0
IsFlushed w w' =
    (w'.queue_complete ≡ [])
    × (w'.queue_pending ≡ w.queue_pending)
    × (w'.queue_active ≡ w.queue_active)
    × (w'.finishes ≡ w.finishes ++ reports (λ n. true) w.queue_complete)

-- On a queue with the invariant cc_workq_flush never faults, keeps the invariant and the other two
-- queues, empties the complete queue, and hands each of its tasks to `finish_fn`, in its order.
pub flush-IsFlushed :
    (w : Workq) → Inv w → Gives (λ w'. Inv w' × Conserves w w' × IsFlushed w w') (flush w)
unfolding flush
flush-IsFlushed w inv =
    Gives-bind
      (purge_queue-Purged (λ n. true) w.queue_complete w.map_task w.finishes
        (λ t. omega (arith, inv.mapped t)))
      λ (complete', map', log') (kept, log, keys, finishes).
        let empty : complete' ≡ [] = kept ∙ kept_nodes-none w.queue_complete in
        gives (
          record {
            mapped = λ t. omega (arith, inv.mapped t, keys t);
            unique = λ t. omega (arith, inv.unique t, keys t, ap (count t) empty);
            pending_ok = inv.pending_ok;
            active_ok = inv.active_ok;
            complete_ok = rw empty tt;
          },
          (λ t. omega (arith, finishes t)),
          (empty, refl, refl, log),
        )

-- What a round of cc_workq_finish says: it returns exactly when no task is left in any queue.
abbrev pub Finished : Workq → Outcome (Unit {0}) → Type 0
Finished w (blocked w') =
    Inv w' × Conserves w w' × IsFlushed w w' × ((w.queue_pending ≢ []) ⊎ (w.queue_active ≢ []))
Finished w (returned _ w') =
    Inv w' × Conserves w w' × IsFlushed w w' × ((t : Task) → total t w' ≡ 0)

is_empty-eq : (ns : List Node) → is_empty ns ≡ true → ns ≡ []
is_empty-eq [] e = refl
is_empty-eq (n ∷ ns) e = absurd (ground arith)

not-is_empty-ne : (ns : List Node) → is_empty ns ≡ false → ns ≢ []
not-is_empty-ne [] e = absurd (ground arith)
not-is_empty-ne (n ∷ ns) e = λ h. absurd (ground arith)

-- On a queue with the invariant a round of cc_workq_finish never faults and flushes the complete
-- queue. It waits only where a task is pending or active, and returns only where no task is left
-- in any queue.
pub finish-Finished : (w : Workq) → Inv w → Gives (Finished w) (finish w)
unfolding finish
finish-Finished w inv = Gives-bind (flush-IsFlushed w inv) λ w' (inv', conserves, flushed).
    elim (Bool-cases (is_empty w'.queue_pending)) [
      | inr more ↦ rw more (
          gives (
            inv',
            conserves,
            flushed,
            inl (subst (λ q. q ≢ []) flushed.1 (not-is_empty-ne w'.queue_pending more)),
          ))
      | inl none_pending ↦ elim (Bool-cases (is_empty w'.queue_active)) [
        | inr more ↦
            rw (none_pending, more)
              (gives (
                inv',
                conserves,
                flushed,
                inr (subst (λ q. q ≢ []) flushed.2 (not-is_empty-ne w'.queue_active more)),
              ))
        | inl none_active ↦
            rw (none_pending, none_active)
              (gives (
                inv',
                conserves,
                flushed,
                (λ t. omega (
                  arith,
                  ap (count t) (is_empty-eq w'.queue_pending none_pending),
                  ap (count t) (is_empty-eq w'.queue_active none_active),
                  ap (count t) flushed.0,
                )),
              ))
      ]
    ]
