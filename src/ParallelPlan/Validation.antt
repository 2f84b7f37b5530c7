-- ===== src/ParallelPlan/Validation.antt =====
-- `validate_plan` of scripts/validate-parallel-plan.py, on the document that json.load returned.
use ai_coding_workflow.Prelude.{
  ℕ, ◌+◌, String, Bool, not, false, ◌&&◌, raise_if, ◌||◌, Option, none, some, List, [], ◌∷◌, ◌++◌,
  mem, is_empty, is_empty_text, if◌then◌else◌, map, Result, ok, err, ◌>>=◌, ◌>>◌, note,
}
use ai_coding_workflow.Json.{Json, null, num, str, arr, obj, Items, nil, cons, Fields, get}
use ai_coding_workflow.ParallelPlan.Graph.{
  Task, SearchResult, searched, cycle, key_error, too_deep, find_cycle,
}
use ai_coding_workflow.ParallelPlan.Checks.{
  TaskProblem, not_an_object, unknown_keys, unknown_dependency, PlanProblem, plan_not_object,
  unknown_plan_keys, missing_tasks, tasks_not_array, no_tasks, in_task, dependency_cycle, Failure,
  failed, raised_key_error, raised_recursion_error, raised_os_error, Meta, fail_if, only_keys,
  given, check_schema_version, check_group_id, check_max_concurrency, check_failure_policy,
  check_id, text_of, check_depends_on, missing_card, card_not_string, card_empty, card_unsafe,
  card_not_found, card_duplicate, has_tsv_unsafe_chars,
}

-- The texts of an array, where a value that is no text has failed.
unfoldable pub texts : Items → List String
texts nil = []
texts (cons (str s) vs) = s ∷ texts vs
texts (cons v vs) = texts vs

unfoldable pub deps_of : Option Json → List String
unfolding texts
deps_of (some (arr ds)) = texts ds
deps_of v = []

-- The loops that report unknown dependencies.
unfoldable pub unknown_of : ℕ → List String → List String → List PlanProblem
unknown_of i all_ids [] = []
unknown_of i all_ids (d ∷ ds) =
    note (not (mem d all_ids)) (in_task i (unknown_dependency d)) ++ unknown_of i all_ids ds

unfoldable pub unknown_deps : ℕ → List String → List Task → List PlanProblem
unfolding unknown_of
unknown_deps i all_ids [] = []
unknown_deps i all_ids (t ∷ ts) =
    unknown_of i all_ids t.depends_on ++ unknown_deps (i + 1) all_ids ts

-- The search for cycles, reported.
abbrev pub end_search : SearchResult → Result Failure (Unit {0})
end_search (searched s) = ok tt
end_search (cycle c) = err (failed (dependency_cycle c ∷ []))
end_search key_error = err raised_key_error
end_search too_deep = err raised_recursion_error

-- `raw.get("tasks")`, where all that is no array with an item fails with the errors so far
unfoldable pub check_tasks : List PlanProblem → Option Json → Result Failure Items
check_tasks errors none = err (failed (errors ++ missing_tasks ∷ []))
check_tasks errors (some (arr nil)) = err (failed (errors ++ no_tasks ∷ []))
check_tasks errors (some (arr (cons v vs))) = ok (cons v vs)
check_tasks errors (some v) = err (failed (errors ++ tasks_not_array ∷ []))

unfoldable pub check_meta : Fields → List PlanProblem
unfolding check_schema_version check_group_id check_max_concurrency check_failure_policy
check_meta raw =
    note
      (not (
        only_keys
          ("schema_version" ∷ "group_id" ∷ "max_concurrency" ∷ "failure_policy" ∷ "tasks" ∷ [])
          raw))
      unknown_plan_keys
    ++ check_schema_version (given "schema_version" raw)
    ++ check_group_id (get "group_id" raw)
    ++ check_max_concurrency (get "max_concurrency" raw)
    ++ check_failure_policy (get "failure_policy" raw)

-- `meta`, of a plan without errors
unfoldable pub meta_of : Fields → Meta
meta_of raw = record {
  schema_version = elim (get "schema_version" raw) [ none ↦ null | some v ↦ v ];
  group_id = text_of (get "group_id" raw);
  max_concurrency = elim (get "max_concurrency" raw) [
    | some v ↦ elim v [ num n ↦ n | _ ↦ 2 ]
    | none ↦ 2
  ];
  failure_policy = elim (get "failure_policy" raw) [
    | some v ↦ text_of (some v)
    | none ↦ "skip-dependents"
  ];
}

-- What the loop over the tasks has gathered.
pub record Reading : Type 0 where
  pub errors : List PlanProblem
  pub seen_ids : List String
  pub seen_cards : List String
  pub all_ids : List String
  pub tasks : List Task

-- Whether the loop over the tasks is left by OSError, at the first card that passes the tests of its
-- text and for which Path.resolve or Path.is_file raises it.
unfoldable pub card_raises : (String → Bool) → Option Json → Bool
card_raises os_error (some (str s)) =
    not (is_empty_text s) && not (has_tsv_unsafe_chars s) && os_error s
card_raises os_error v = false

unfoldable pub loop_raises : (String → Bool) → Items → Bool
unfolding card_raises
loop_raises os_error nil = false
loop_raises os_error (cons (obj fs) vs) =
    card_raises os_error (given "task_card" fs) || loop_raises os_error vs
loop_raises os_error (cons v vs) = loop_raises os_error vs

-- os.path.normpath, and Path.resolve and Path.is_file for cards beside the plan.
module _ (normpath resolve : String → String) (is_file : String → Bool) where
  unfoldable pub check_card : Option Json → List String → List TaskProblem
  check_card none seen_cards = missing_card ∷ []
  check_card (some (str s)) seen_cards =
      if is_empty_text s
      then card_empty ∷ []
      else if has_tsv_unsafe_chars s
      then card_unsafe ∷ []
      else note (not (is_file (resolve s))) card_not_found
        ++ note (mem (normpath s) seen_cards) card_duplicate
  check_card (some v) seen_cards = card_not_string ∷ []

  -- `seen_cards` after a card, and `resolved_task_card`
  unfoldable pub see_card : Option Json → List String → List String × String
  see_card (some (str s)) seen_cards =
      if is_empty_text s || has_tsv_unsafe_chars s
      then (seen_cards, "")
      else if mem (normpath s) seen_cards
      then (seen_cards, resolve s)
      else (seen_cards ++ normpath s ∷ [], resolve s)
  see_card v seen_cards = (seen_cards, "")

  unfoldable pub task_problems :
      Bool → Option Json → Option Json → Option Json → Reading → List TaskProblem
  unfolding check_card check_id check_depends_on
  task_problems known_keys task_id task_card depends_on r =
      note (not known_keys) unknown_keys
      ++ (check_id task_id r.seen_ids
          ++ (check_card task_card r.seen_cards ++ check_depends_on task_id depends_on))

  -- What the loop does with the fields of a task, at an index.
  unfoldable pub read_fields :
      ℕ → Bool → Option Json → Option Json → Option Json → Reading → Reading
  unfolding task_problems see_card
  read_fields i known_keys task_id task_card depends_on r =
      let (seen_cards, resolved) = see_card task_card r.seen_cards in
      let new_ids = if is_empty (check_id task_id r.seen_ids) then text_of task_id ∷ [] else [] in
      record {
        errors =
            r.errors ++ map (in_task i) (task_problems known_keys task_id task_card depends_on r);
        seen_ids = r.seen_ids ++ new_ids;
        seen_cards = seen_cards;
        all_ids = r.all_ids ++ new_ids;
        tasks =
            r.tasks
            ++ (record {
              id = text_of task_id;
              task_card = text_of task_card;
              depends_on = deps_of depends_on;
              resolved_task_card = resolved;
            })
              ∷ [];
      }

  -- One pass of the loop over the tasks, at an index.
  unfoldable pub read_task : ℕ → Json → Reading → Reading
  unfolding read_fields
  read_task i (obj fs) r =
      read_fields i (only_keys ("id" ∷ "task_card" ∷ "depends_on" ∷ []) fs) (given "id" fs)
        (given "task_card" fs) (get "depends_on" fs) r
  read_task i v r = record {
    errors = r.errors ++ in_task i not_an_object ∷ [];
    seen_ids = r.seen_ids;
    seen_cards = r.seen_cards;
    all_ids = r.all_ids;
    tasks = r.tasks;
  }

  unfoldable pub read_tasks : ℕ → Items → Reading → Reading
  unfolding read_task
  read_tasks i nil r = r
  read_tasks i (cons v vs) r = read_tasks (i + 1) vs (read_task i v r)

-- The same, the order in which Python walks through a set of texts, the cards for which Path.resolve
-- or Path.is_file raises OSError (a name that is too long), where the values of `resolve` and
-- `is_file` are not used, and the number of nested calls of `dfs` that Python allows.
module _ (normpath resolve : String → String) (is_file : String → Bool)
    (set_order : List String → List String) (os_error : String → Bool) (depth : ℕ) where
  -- From the end of the loop over the tasks on.
  abbrev pub finish : Meta → Reading → Result Failure (Meta × List Task)
  finish meta r = do
    fail_if r.errors
    fail_if (unknown_deps 0 r.all_ids r.tasks)
    end_search (find_cycle depth r.tasks (set_order r.all_ids))
    ok (meta, r.tasks)

  unfoldable pub validate_fields : Fields → Result Failure (Meta × List Task)
  unfolding check_tasks read_tasks loop_raises
  validate_fields raw = do
    tasks_raw ← check_tasks (check_meta raw) (given "tasks" raw)
    raise_if (loop_raises os_error tasks_raw) raised_os_error
    let start : Reading = record {
      errors = check_meta raw;
      seen_ids = [];
      seen_cards = [];
      all_ids = [];
      tasks = [];
    }
    finish (meta_of raw) (read_tasks normpath resolve is_file 0 tasks_raw start)

  unfoldable pub validate_plan : Json → Result Failure (Meta × List Task)
  unfolding validate_fields
  validate_plan (obj raw) = validate_fields raw
  validate_plan v = err (failed (plan_not_object ∷ []))
