-- ===== src/ParallelPlan/Graph.antt =====
-- The search for dependency cycles at the end of `validate_plan` of
-- scripts/validate-parallel-plan.py. `dfs` takes the number of its nested calls that Python
-- still allows; `KeyError` and `RecursionError` are outcomes.
use ai_coding_workflow.Prelude.{
  ℕ, zero, suc, String, Bool, true, false, Option, none, some, List, [], ◌∷◌, ◌++◌, str_eq,
  if◌then◌else◌, Dict, dict_get, dict_put,
}

-- What later steps read of a task of the plan.
pub record Task : Type 0 where
  pub id : String
  pub task_card : String
  pub depends_on : List String
  pub resolved_task_card : String

pub data Color : Type 0 where
  white gray black : Color

pub record Search : Type 0 where
  pub color : Dict Color
  pub path : List String

-- `dfs` returned False; a cycle was noted, from its start to its start; KeyError was raised; or
-- RecursionError was.
pub data SearchResult : Type 0 where
  searched : Search → SearchResult
  cycle : List String → SearchResult
  key_error too_deep : SearchResult

abbrev pub task_id : Task → String
task_id t = t.id

-- `adj.get(node, [])`, for `adj[task["id"]] = list(task["depends_on"])` over the tasks, whose
-- ids are distinct
unfoldable pub adj : List Task → String → List String
adj [] node = []
adj (t ∷ ts) node = let rest = adj ts node in if str_eq t.id node then t.depends_on else rest

-- `path[path.index(neighbor):]`
unfoldable pub from_node : String → List String → List String
from_node v [] = []
from_node v (x ∷ xs) = let rest = from_node v xs in if str_eq x v then x ∷ xs else rest

-- `path.pop()`
unfoldable pub pop : List String → List String
pop [] = []
pop (x ∷ []) = []
pop (x ∷ y ∷ ys) = x ∷ pop (y ∷ ys)

-- `color[node] = GRAY; path.append(node)`
abbrev pub enter : String → Search → Search
enter node s = record { color = dict_put node gray s.color; path = s.path ++ node ∷ [] }

-- `path.pop(); color[node] = BLACK`
abbrev pub leave : String → Search → Search
leave node s = record { color = dict_put node black s.color; path = pop s.path }

abbrev pub after_search : SearchResult → (Search → SearchResult) → SearchResult
after_search (searched s) next = next s
after_search (cycle c) next = cycle c
after_search key_error next = key_error
after_search too_deep next = too_deep

-- What the loop of `dfs` does at one neighbor, by its color.
abbrev pub visit : (String → Search → SearchResult) → Option Color → String → Search → SearchResult
visit dfs none v s = key_error
visit dfs (some gray) v s = cycle (from_node v s.path ++ v ∷ [])
visit dfs (some white) v s = dfs v s
visit dfs (some black) v s = searched s

-- The loop over the neighbors.
unfoldable pub visit_all : (String → Search → SearchResult) → List String → Search → SearchResult
visit_all dfs [] s = searched s
visit_all dfs (v ∷ vs) s = after_search (visit dfs (dict_get v s.color) v s) (visit_all dfs vs)

unfoldable pub dfs : List Task → ℕ → String → Search → SearchResult
unfolding visit_all
dfs tasks zero node s = too_deep
dfs tasks (suc depth) node s =
    after_search (visit_all (dfs tasks depth) (adj tasks node) (enter node s))
      λ t. searched (leave node t)

abbrev pub is_white : Option Color → Bool
is_white (some white) = true
is_white _ = false

-- `for tid in all_ids`, in any order of the set
unfoldable pub search_all : List Task → ℕ → List String → Search → SearchResult
search_all tasks depth [] s = searched s
search_all tasks depth (v ∷ vs) s =
    after_search (if is_white (dict_get v s.color) then dfs tasks depth v s else searched s)
      (search_all tasks depth vs)

unfoldable pub all_white : List String → Dict Color
all_white [] = []
all_white (v ∷ vs) = dict_put v white (all_white vs)

-- The search, where Python allows `depth` nested calls of `dfs`.
unfoldable pub find_cycle : ℕ → List Task → List String → SearchResult
unfolding search_all
find_cycle depth tasks all_ids =
    search_all tasks depth all_ids (record { color = all_white all_ids; path = [] })
