-- ===== src/Workq/Queue.antt =====
-- cc_workq.h and cc_workq.c: the nodes of the three queues, the map from tasks to nodes, and the
-- loops that walk a queue. A queue of cc_list.c is the sequence that it stands for. A task is in
-- the queues once at most, so the map's value, the iterator of the task's node, is not stored: the
-- map is the list of its keys, and a node is found by its task.
use libcc.Base.{ℕ, Bool, true, false, Option, none, some, List, [], ◌∷◌, ◌++◌, ◌==◌, if◌then◌else◌}
use libcc.Int.{ℤ, ltb_ℤ}

-- CC_WORKQ_STATUS_*
pub data Status : Type 0 where
  error pending active complete failure : Status

-- `purge_id`: 0, 1, and CC_WORKQ_PURGE.
pub data PurgeId : Type 0 where
  id_zero id_one purge_all : PurgeId

abbrev pub same_id : PurgeId → PurgeId → Bool
same_id id_zero id_zero = true
same_id id_one id_one = true
same_id purge_all purge_all = true
same_id _ _ = false

abbrev pub Task : Type 0
Task = ℕ

pub record Node : Type 0 where
  pub status : Status
  pub priority : ℤ
  pub purge_id : PurgeId
  pub task : Task

-- A chain of steps that may fault: `none` is the use of a node or a key that is not there.
module _ {A B : Type 0} where
  infixl 5 ◌>>=◌
  abbrev pub ◌>>=◌ : Option A → (A → Option B) → Option B
  none >>= k = none
  some a >>= k = k a

-- cc_map_findp on the map of tasks
abbrev pub has_key : Task → List Task → Bool
has_key t [] = false
has_key t (u ∷ us) = if u == t then true else has_key t us

-- cc_map_remove
unfoldable pub remove_key : Task → List Task → Option (List Task)
remove_key t [] = none
remove_key t (u ∷ us) =
    let rest = remove_key t us >>= λ vs. some (u ∷ vs) in if u == t then some us else rest

-- The node of a task in a queue.
unfoldable pub find_node : Task → List Node → Option Node
find_node t [] = none
find_node t (n ∷ ns) = if n.task == t then some n else find_node t ns

-- cc_list_remove of a task's node
unfoldable pub remove_node : Task → List Node → Option (Node × List Node)
remove_node t [] = none
remove_node t (n ∷ ns) =
    let rest = remove_node t ns >>= λ (m, ms). some (m, n ∷ ms) in
    if n.task == t then some (n, ns) else rest

-- The nodes in front of a task's node, the nearest one first, the node, and those behind it.
unfoldable pub split_node : Task → List Node → List Node → Option (List Node × Node × List Node)
split_node t front [] = none
split_node t front (n ∷ ns) =
    let rest = split_node t (n ∷ front) ns in if n.task == t then some (front, n, ns) else rest

-- `while(pos)` by cc_list_prev: `front` ends with the first node that is not below `priority`, and
-- `back` gets those that are.
unfoldable pub walk_up : ℤ → (front back : List Node) → List Node × List Node
walk_up priority [] back = ([], back)
walk_up priority (n ∷ front) back =
    let rest = walk_up priority front (n ∷ back) in
    if ltb_ℤ n.priority priority then rest else (n ∷ front, back)

-- The nodes of `front`, from its end to its beginning, and then those of `back`.
unfoldable pub unwind : (front back : List Node) → List Node
unwind [] back = back
unwind (n ∷ front) back = unwind front (n ∷ back)

-- The node behind the last of the front nodes that is not below `priority`, or at the head.
unfoldable pub insert_up : ℤ → Node → (front back : List Node) → List Node
unfolding walk_up unwind
insert_up priority node front back =
    let (front', back') = walk_up priority front back in unwind front' (node ∷ back')

-- `while(pos)` by cc_list_next: the node in front of the first that is below `priority`, or at the
-- tail.
unfoldable pub insert_down : ℤ → Node → List Node → List Node
insert_down priority node [] = node ∷ []
insert_down priority node (n ∷ ns) =
    if ltb_ℤ n.priority priority then node ∷ n ∷ ns else n ∷ insert_down priority node ns

-- The end of the queue of pending nodes, seen from its tail.
unfoldable pub rewind : (front queue : List Node) → List Node
rewind front [] = front
rewind front (n ∷ ns) = rewind (n ∷ front) ns

-- A log of the calls of `finish_fn`, in their order.
abbrev pub Finishes : Type 0
Finishes = List (Task × Status)

-- The loop of a purge: a node that is dropped leaves the queue and the map, and its task is handed
-- to `finish_fn`. The queue that is left, the map and the log.
unfoldable pub purge_queue :
    (Node → Bool) → List Node → List Task → Finishes → Option (List Node × List Task × Finishes)
unfolding remove_key
purge_queue drop [] map_task log = some ([], map_task, log)
purge_queue drop (n ∷ ns) map_task log = do
  map_task' ← if drop n then remove_key n.task map_task else some map_task
  (kept, map_task'', log') ←
      purge_queue drop ns map_task' (if drop n then log ++ (n.task, n.status) ∷ [] else log)
  some (if drop n then kept else n ∷ kept, map_task'', log')
