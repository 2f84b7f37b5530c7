-- ===== src/ParallelPlan/Order.antt =====
-- `topological_sort` of scripts/validate-parallel-plan.py: Kahn's algorithm, with the ready tasks in
-- the order of their ids. The `while` loop runs on fuel; a failed look-up of a dict is an outcome.
use ai_coding_workflow.Prelude.{
  ℕ, zero, suc, String, Bool, true, false, Option, none, some, List, [], ◌∷◌, ◌++◌, length,
  if◌then◌else◌, Dict, dict_get, dict_put, sorted,
}
use ai_coding_workflow.ParallelPlan.Graph.{Task}

-- What follows a look-up that may fail.
infixl 5 ◌>>=◌
abbrev pub ◌>>=◌ : {A B : Type 0} → Option A → (A → Option B) → Option B
none >>= f = none
some a >>= f = f a

-- Python's ints: `pos n` is n and `negsuc n` is -(n + 1).
pub data ℤ : Type 0 where
  pos negsuc : ℕ → ℤ

-- `n - 1`
abbrev pub decrement : ℤ → ℤ
decrement (pos zero) = negsuc 0
decrement (pos (suc n)) = pos n
decrement (negsuc n) = negsuc (suc n)

-- `n == 0`
abbrev pub is_zero : ℤ → Bool
is_zero (pos zero) = true
is_zero _ = false

abbrev pub get_list : String → Dict (List String) → List String
get_list k d = elim (dict_get k d) [ none ↦ [] | some xs ↦ xs ]

-- `task_by_id`, where the last task of an id stays
unfoldable pub task_by_id : List Task → Dict Task → Dict Task
task_by_id [] d = d
task_by_id (t ∷ ts) d = task_by_id ts (dict_put t.id t d)

unfoldable pub in_degrees : List Task → Dict ℤ → Dict ℤ
in_degrees [] d = d
in_degrees (t ∷ ts) d = in_degrees ts (dict_put t.id (pos (length t.depends_on)) d)

-- `children.setdefault(tid, [])` for each task
unfoldable pub no_children : List Task → Dict (List String) → Dict (List String)
no_children [] d = d
no_children (t ∷ ts) d = no_children ts (dict_put t.id (get_list t.id d) d)

-- `children.setdefault(dep, []).append(tid)` for each dependency
unfoldable pub add_child : String → List String → Dict (List String) → Dict (List String)
add_child tid [] d = d
add_child tid (dep ∷ deps) d = add_child tid deps (dict_put dep (get_list dep d ++ tid ∷ []) d)

unfoldable pub add_children : List Task → Dict (List String) → Dict (List String)
unfolding add_child
add_children [] d = d
add_children (t ∷ ts) d = add_children ts (add_child t.id t.depends_on d)

-- The ids of degree 0, in the order of the dict.
unfoldable pub zero_degrees : Dict ℤ → List String
zero_degrees [] = []
zero_degrees ((k, n) ∷ d) = let rest = zero_degrees d in if is_zero n then k ∷ rest else rest

pub record Kahn : Type 0 where
  pub in_degree : Dict ℤ
  pub ready : List String
  pub result : List Task

pub data Ordered : Type 0 where
  ordered : List Task → Ordered
  key_error out_of_fuel : Ordered

-- `if in_degree[child_id] == 0: ready.append(child_id); ready.sort()`
abbrev pub make_ready : ℤ → String → List String → List String
make_ready n child_id ready = if is_zero n then sorted (ready ++ child_id ∷ []) else ready

-- The loop over the children of a task that is done; `none` is a KeyError.
unfoldable pub release : List String → Dict ℤ → List String → Option (Dict ℤ × List String)
release [] d ready = some (d, ready)
release (c ∷ cs) d ready = do
  n ← dict_get c d
  release cs (dict_put c (decrement n) d) (make_ready (decrement n) c ready)

-- One round: `tid` was popped, and `rest` is ready still.
abbrev pub advance : Dict Task → Dict (List String) → String → List String → Kahn → Option Kahn
advance tasks children tid rest s = do
  t ← dict_get tid tasks
  (d, ready) ← release (sorted (get_list tid children)) s.in_degree rest
  some (record { in_degree = d; ready = ready; result = s.result ++ t ∷ [] })

abbrev pub next_round : (Kahn → Ordered) → Option Kahn → Ordered
next_round loop none = key_error
next_round loop (some s) = loop s

-- `while ready: tid = ready.pop(0); …`
unfoldable pub order_ready : Dict Task → Dict (List String) → ℕ → Kahn → Ordered
order_ready tasks children zero s = out_of_fuel
order_ready tasks children (suc fuel) s = elim s.ready [
  | [] ↦ ordered s.result
  | tid ∷ rest ↦ next_round (order_ready tasks children fuel) (advance tasks children tid rest s)
]

-- Each round puts another task into the result, so one more than the tasks is fuel enough.
unfoldable pub topological_sort : List Task → Ordered
unfolding order_ready
topological_sort tasks =
    let d = in_degrees tasks [] in
    order_ready (task_by_id tasks []) (add_children tasks (no_children tasks []))
      (suc (length tasks)) (record { in_degree = d; ready = sorted (zero_degrees d); result = [] })
