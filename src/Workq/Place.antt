-- ===== src/Workq/Place.antt =====
-- What the loops of cc_workq.c that purge a queue, or find the place of a node in it, do to the
-- number of times that a task stands in it, and to a property of its nodes.
use libcc.Base.{
  ◌+◌, ◌≤◌, ◌<◌, ◌≡◌, refl, inl, inr, Bool, List, [], ◌∷◌, ◌++◌, arith, ◌==◌, if◌then◌else◌,
  Bool-cases, append_assoc, append-nil, sym, ◌∙◌, ap,
}
use libcc.Int.{ℤ, ltb_ℤ}
use libcc.Workq.Queue.{
  Task, Node, split_node, walk_up, unwind, insert_up, insert_down, rewind, Finishes, purge_queue,
}
use libcc.Workq.Count.{
  Gives, gives, Gives-bind, Gives-mono, at, count, count_key, count_finish, count_finish-append,
  All, remove_key-Gives,
}

-- The nodes that a purge keeps, in their order, and the calls of `finish_fn` for the others.
unfoldable pub kept_nodes : (Node → Bool) → List Node → List Node
kept_nodes drop [] = []
kept_nodes drop (n ∷ ns) = if drop n then kept_nodes drop ns else n ∷ kept_nodes drop ns

unfoldable pub reports : (Node → Bool) → List Node → Finishes
reports drop [] = []
reports drop (n ∷ ns) = if drop n then (n.task, n.status) ∷ reports drop ns else reports drop ns

abbrev pub Purged :
    (Node → Bool) → List Node → List Task → Finishes → List Node × List Task × Finishes → Type 0
Purged drop ns map_task log (kept, map_task', log') =
    (kept ≡ kept_nodes drop ns)
    × (log' ≡ log ++ reports drop ns)
    × ((t : Task) → count_key t map_task + count t kept ≡ count_key t map_task' + count t ns)
    × ((t : Task) → count_finish t log' + count t kept ≡ count_finish t log + count t ns)

module _ (drop : Node → Bool) where
  pub purge_queue-Purged :
      (ns : List Node) (map_task : List Task) (log : Finishes)
      → ((t : Task) → count t ns ≤ count_key t map_task)
      → Gives (Purged drop ns map_task log) (purge_queue drop ns map_task log)
  unfolding purge_queue kept_nodes reports
  purge_queue-Purged [] map_task log fits =
      gives (refl, sym (append-nil log), (λ t. refl), (λ t. refl))
  purge_queue-Purged (n ∷ ns) map_task log fits = elim (Bool-cases (drop n)) [
    | inl e ↦ rw e (
        Gives-bind (remove_key-Gives n.task map_task (ground (arith, fits n.task)))
          λ map_task₁ removed.
            Gives-bind
              (purge_queue-Purged ns map_task₁ (log ++ (n.task, n.status) ∷ [])
                (λ t. omega (arith, fits t, removed t)))
              λ (kept, map_task', log') (is_kept, is_log, keys, finishes). gives (
                rw e is_kept,
                rw e (is_log ∙ append_assoc log ((n.task, n.status) ∷ []) (reports drop ns)),
                (λ t. omega (arith, keys t, removed t)),
                (λ t.
                    omega (arith, finishes t, count_finish-append t log ((n.task, n.status) ∷ []))),
              ))
    | inr e ↦ rw e (
        Gives-bind (purge_queue-Purged ns map_task log (λ t. omega (arith, fits t)))
          λ (kept, map_task', log') (is_kept, is_log, keys, finishes). gives (
            rw e (ap (◌∷◌ n) is_kept),
            rw e is_log,
            (λ t. omega (arith, keys t)),
            (λ t. omega (arith, finishes t)),
          ))
  ]

  pub kept_nodes-All : (P : Node → Type 0) (ns : List Node) → All P ns → All P (kept_nodes drop ns)
  unfolding kept_nodes
  kept_nodes-All P [] all = tt
  kept_nodes-All P (n ∷ ns) all = elim (Bool-cases (drop n)) [
    | inl e ↦ rw e (kept_nodes-All P ns all.1)
    | inr e ↦ rw e (all.0, kept_nodes-All P ns all.1)
  ]

  pub kept_nodes-count : (t : Task) (ns : List Node) → count t (kept_nodes drop ns) ≤ count t ns
  unfolding kept_nodes
  kept_nodes-count t [] = omega arith
  kept_nodes-count t (n ∷ ns) = ground (arith, kept_nodes-count t ns)

module _ (P : Node → Type 0) where
  -- The nodes `ns` hold each task as often as `front` and `back` do, and have the property.
  abbrev pub Holds : List Node → List Node → List Node → Type 0
  Holds front back ns = ((t : Task) → count t ns ≡ count t front + count t back) × All P ns

  pub unwind-Holds :
      (front back : List Node) → All P front → All P back → Holds front back (unwind front back)
  unfolding unwind
  unwind-Holds [] back hf hb = ((λ t. omega arith), hb)
  unwind-Holds (n ∷ front) back hf hb =
      let (h, all) = unwind-Holds front (n ∷ back) hf.1 (hf.0, hb) in
      ((λ t. omega (arith, h t)), all)

  pub rewind-Holds :
      (front ns : List Node) → All P front → All P ns → Holds front ns (rewind front ns)
  unfolding rewind
  rewind-Holds front [] hf hn = ((λ t. omega arith), hf)
  rewind-Holds front (n ∷ ns) hf hn =
      let (h, all) = rewind-Holds (n ∷ front) ns (hn.0, hf) hn.1 in ((λ t. omega (arith, h t)), all)

  pub insert_up-Holds :
      (priority : ℤ) (n : Node) (front back : List Node)
      → P n
      → All P front
      → All P back
      → Holds (n ∷ front) back (insert_up priority n front back)
  unfolding insert_up walk_up unwind
  insert_up-Holds priority n [] back hn hf hb = ((λ t. omega arith), (hn, hb))
  insert_up-Holds priority n (m ∷ front) back hn hf hb =
      elim (Bool-cases (ltb_ℤ m.priority priority)) [
        | inl e ↦
            let (h, all) = insert_up-Holds priority n front (m ∷ back) hn hf.1 (hf.0, hb) in
            rw e ((λ t. omega (arith, h t)), all)
        | inr e ↦
            let (h, all) = unwind-Holds (m ∷ front) (n ∷ back) hf (hn, hb) in
            rw e ((λ t. omega (arith, h t)), all)
      ]

  pub insert_down-Holds :
      (priority : ℤ) (n : Node) (ns : List Node)
      → P n
      → All P ns
      → Holds (n ∷ []) ns (insert_down priority n ns)
  unfolding insert_down
  insert_down-Holds priority n [] hn hs = ((λ t. omega arith), (hn, tt))
  insert_down-Holds priority n (m ∷ ns) hn hs = elim (Bool-cases (ltb_ℤ m.priority priority)) [
    | inl e ↦ rw e ((λ t. omega arith), (hn, hs))
    | inr e ↦
        let (h, all) = insert_down-Holds priority n ns hn hs.1 in
        rw e ((λ t. omega (arith, h t)), (hs.0, all))
  ]

  -- What splitting a queue at the node of a task gives.
  abbrev pub IsSplit : Task → List Node → List Node → List Node × Node × List Node → Type 0
  IsSplit task front ns (front', n, back) =
      (n.task ≡ task)
      × ((t : Task) → count t front + count t ns ≡ count t front' + at n.task t + count t back)
      × All P front'
      × P n
      × All P back
      × (unwind front ns ≡ unwind front' (n ∷ back))

  pub split_node-IsSplit :
      (task : Task) (front ns : List Node)
      → 0 < count task ns
      → All P front
      → All P ns
      → Gives (IsSplit task front ns) (split_node task front ns)
  unfolding split_node unwind
  split_node-IsSplit task front [] pos hf hn = absurd (omega arith)
  split_node-IsSplit task front (n ∷ ns) pos hf hn = elim (Bool-cases (n.task == task)) [
    | inl e ↦ rw e (gives (ground arith, (λ t. omega arith), hf, hn.0, hn.1, refl))
    | inr e ↦ rw e (
        Gives-mono (split_node-IsSplit task (n ∷ front) ns (ground arith) (hn.0, hf) hn.1)
          λ (front', m, back) (same, h, hf', hm, hb, whole).
            (same, (λ t. omega (arith, h t)), hf', hm, hb, whole))
  ]
