-- ===== src/ParallelPlan/Examples.antt =====
-- A small plan for what ParallelPlan shows of scripts/validate-parallel-plan.py.
use ai_coding_workflow.Prelude.{
  subset, String, ◌≡◌, ◌↔◌, ◌≢◌, refl, some, Bool, true, false, List, [], ◌∷◌, map, mem, unique,
  All, count, arith, ok, err, dict_get, dict_put,
}
use ai_coding_workflow.Json.{Json, num, bool, str, arr, obj, Items, nil, cons, end, field, get}
use ai_coding_workflow.ParallelPlan.Graph.{
  Task, task_id, adj, Search, searched, too_deep, key_error, find_cycle, search_all, dfs, visit_all,
  all_white, from_node, pop,
}
use ai_coding_workflow.ParallelPlan.Checks.{
  dependency_cycle, failed, raised_recursion_error, raised_os_error, Meta, has_tsv_unsafe_chars,
  is_id_rest, is_valid_id, only_keys, given, check_schema_version, check_group_id,
  check_max_concurrency, check_failure_policy, check_id, check_deps, check_depends_on, text_of,
}
use ai_coding_workflow.ParallelPlan.Validation.{
  loop_raises, card_raises, texts, deps_of, unknown_of, unknown_deps, check_tasks, check_meta,
  meta_of, check_card, see_card, task_problems, read_fields, read_task, read_tasks, validate_fields,
  validate_plan,
}
use ai_coding_workflow.ParallelPlan.Passing.{IsSound}
use ai_coding_workflow.ParallelPlan.Coloring.{Walk}
use ai_coding_workflow.ParallelPlan.Acyclic.{find_cycle_iff}
use ai_coding_workflow.ParallelPlan.Order.{ordered, topological_sort}
use ai_coding_workflow.ParallelPlan.Rounds.{in_order}
use ai_coding_workflow.ParallelPlan.Termination.{find_cycle_returns}
use ai_coding_workflow.ParallelPlan.Dispatch.{validate_plan_passes, topological_sort-validate_plan}

abbrev task_fields : String → String → Items → Json
task_fields name card deps =
    obj (field "id" (str name) (field "task_card" (str card) (field "depends_on" (arr deps) end)))

-- Two tasks, the first of which depends on the second.
abbrev two_tasks : Json
two_tasks = obj (
    field "schema_version" (num 1) (
      field "group_id" (str "g1") (
        field "tasks"
          (arr (
            cons (task_fields "b" "b.md" (cons (str "a") nil))
              (cons (task_fields "a" "a.md" nil) nil)))
          end)))

abbrev same : String → String
same s = s

abbrev always : String → Bool
always s = true

abbrev never : String → Bool
never s = false

abbrev in_turn : List String → List String
in_turn xs = xs

abbrev read_plan : List Task
read_plan =
    (record { id = "b"; task_card = "b.md"; depends_on = "a" ∷ []; resolved_task_card = "b.md" })
    ∷ (record { id = "a"; task_card = "a.md"; depends_on = []; resolved_task_card = "a.md" })
    ∷ []

abbrev read_meta : Meta
read_meta = record {
  schema_version = num 1;
  group_id = "g1";
  max_concurrency = 2;
  failure_policy = "skip-dependents";
}

two_tasks-passes :
    validate_plan same same always in_turn never 1000 two_tasks ≡ ok (read_meta, read_plan)
unfolding validate_plan validate_fields loop_raises card_raises check_tasks check_meta meta_of
    check_schema_version check_group_id check_max_concurrency check_failure_policy
    has_tsv_unsafe_chars is_id_rest is_valid_id only_keys given get check_id check_deps
    check_depends_on text_of texts deps_of unknown_of unknown_deps check_card see_card task_problems
    read_fields read_task read_tasks find_cycle search_all dfs visit_all all_white adj dict_get
    dict_put
two_tasks-passes = refl

topological_sort-validate_plan_example :
    (result : List Task) × (topological_sort read_plan ≡ ordered result)
    × (in_order [] result ≡ true)
    × ((x : String) → count x (map task_id result) ≡ count x (map task_id read_plan))
topological_sort-validate_plan_example =
    topological_sort-validate_plan same same always in_turn never 1000 (λ x xs. refl) two_tasks
      read_meta read_plan two_tasks-passes

validate_plan_passes_example :
    (unique (map task_id read_plan) ≡ true)
    × All IsSound read_plan
    × ((u : String) → subset (adj read_plan u) (map task_id read_plan) ≡ true)
    × ((v : String) → ¬ Walk read_plan v v)
validate_plan_passes_example =
    validate_plan_passes same same always in_turn never 1000 (λ x xs. refl) two_tasks read_meta
      read_plan two_tasks-passes

known : (u v : String) → mem v (adj read_plan u) ≡ true → mem v ("b" ∷ "a" ∷ []) ≡ true
unfolding adj
known u v m = ground arith

find_cycle_iff_example :
    ((t : Search) × (find_cycle 1000 read_plan ("b" ∷ "a" ∷ []) ≡ searched t))
    ↔ ((v : String) → ¬ Walk read_plan v v)
find_cycle_iff_example = find_cycle_iff 1000 read_plan ("b" ∷ "a" ∷ []) known (omega arith)

find_cycle_returns_example :
    (find_cycle 1000 read_plan ("b" ∷ "a" ∷ []) ≢ too_deep)
    × (find_cycle 1000 read_plan ("b" ∷ "a" ∷ []) ≢ key_error)
find_cycle_returns_example = find_cycle_returns 1000 read_plan ("b" ∷ "a" ∷ []) known (omega arith)

-- Where Python allows one call of `dfs` at a time, the search of the two tasks fails.
one_call_fails :
    validate_plan same same always in_turn never 1 two_tasks ≡ err raised_recursion_error
unfolding validate_plan validate_fields loop_raises card_raises check_tasks check_meta meta_of
    check_schema_version check_group_id check_max_concurrency check_failure_policy
    has_tsv_unsafe_chars is_id_rest is_valid_id only_keys given get check_id check_deps
    check_depends_on text_of texts deps_of unknown_of unknown_deps check_card see_card task_problems
    read_fields read_task read_tasks find_cycle search_all dfs visit_all all_white adj dict_get
    dict_put
one_call_fails = refl

-- A card for which Path.is_file raises OSError ends the validation.
long_name_fails : validate_plan same same always in_turn always 1000 two_tasks ≡ err raised_os_error
unfolding validate_plan validate_fields loop_raises card_raises check_tasks check_meta
    check_schema_version check_group_id check_max_concurrency check_failure_policy
    has_tsv_unsafe_chars is_id_rest is_valid_id only_keys given get text_of
long_name_fails = refl

-- A plan whose second task depends on the first as well.
abbrev circular : Json
circular = obj (
    field "schema_version" (num 1) (
      field "group_id" (str "g1") (
        field "tasks"
          (arr (
            cons (task_fields "b" "b.md" (cons (str "a") nil))
              (cons (task_fields "a" "a.md" (cons (str "b") nil)) nil)))
          end)))

circular_fails :
    validate_plan same same always in_turn never 1000 circular
    ≡ err (failed (dependency_cycle ("b" ∷ "a" ∷ "b" ∷ []) ∷ []))
unfolding validate_plan validate_fields loop_raises card_raises check_tasks check_meta meta_of
    check_schema_version check_group_id check_max_concurrency check_failure_policy
    has_tsv_unsafe_chars is_id_rest is_valid_id only_keys given get check_id check_deps
    check_depends_on text_of texts deps_of unknown_of unknown_deps check_card see_card task_problems
    read_fields read_task read_tasks find_cycle search_all dfs visit_all all_white adj dict_get
    dict_put from_node pop
circular_fails = refl

-- `true` is a schema_version that passes.
true_passes : check_schema_version (some (bool true)) ≡ []
unfolding check_schema_version
true_passes = refl
