-- ===== src/ParallelPlan/Dispatch.antt =====
-- From a plan's document to the order of its tasks: `validate_plan`, then `topological_sort`, of
-- scripts/validate-parallel-plan.py.
use ai_coding_workflow.Prelude.{
  subset, subset_of_mem, ℕ, String, ◌≡◌, refl, sym, ◌∙◌, ap, subst, Bool, true, not, List, [], map,
  mem, unique, All, arith, count, ok, >>=-eq-ok, raise_if->>-eq-ok, ok-injective, is_empty,
  is_empty-eq-nil,
}
use ai_coding_workflow.Json.{Json, null, number, bool, num, str, arr, obj, Fields}
use ai_coding_workflow.ParallelPlan.Graph.{
  Task, task_id, adj, Search, SearchResult, searched, cycle, key_error, too_deep, find_cycle,
}
use ai_coding_workflow.ParallelPlan.Checks.{failed, raised_os_error, Meta, given}
use ai_coding_workflow.ParallelPlan.Validation.{
  loop_raises, unknown_deps, check_tasks, check_meta, end_search, Reading, read_tasks, finish,
  validate_fields, validate_plan, meta_of,
}
use ai_coding_workflow.ParallelPlan.Passing.{IsSound, IsRead, read_tasks-IsRead, unknown_deps_none}
use ai_coding_workflow.ParallelPlan.Coloring.{Walk}
use ai_coding_workflow.ParallelPlan.Acyclic.{find_cycle-acyclic}
use ai_coding_workflow.ParallelPlan.Order.{ordered, topological_sort}
use ai_coding_workflow.ParallelPlan.Rounds.{in_order}
use ai_coding_workflow.ParallelPlan.Complete.{topological_sort_complete}

end_search-ok : (o : SearchResult) → end_search o ≡ ok tt → (t : Search) × (o ≡ searched t)
end_search-ok (searched t) h = (t, refl)
end_search-ok (cycle c) h = cc
end_search-ok key_error h = cc
end_search-ok too_deep h = cc

module _ (normpath resolve : String → String) (is_file : String → Bool)
    (set_order : List String → List String) (os_error : String → Bool) (depth : ℕ) where
  -- What the steps of a validation that returns have found.
  abbrev IsPassed : List Task → Type 0
  IsPassed ts =
      (unique (map task_id ts) ≡ true)
      × All IsSound ts
      × ((u v : String) → mem v (adj ts u) ≡ true → mem v (map task_id ts) ≡ true)
      × ((t : Search) × (find_cycle depth ts (set_order (map task_id ts)) ≡ searched t))

  passed :
      (r : Reading) (i : ℕ)
      → IsRead r
      → unknown_deps i r.all_ids r.tasks ≡ []
      → end_search (find_cycle depth r.tasks (set_order r.all_ids)) ≡ ok tt
      → IsPassed r.tasks
  passed r i (same, named, distinct, sound) known none_found = (
    subst (λ ids. unique ids ≡ true) (sym named) distinct,
    sound,
    subst (λ ids. (u v : String) → mem v (adj r.tasks u) ≡ true → mem v ids ≡ true) (sym named)
        (unknown_deps_none i r.all_ids r.tasks known),
    subst (λ ids. (t : Search) × (find_cycle depth r.tasks (set_order ids) ≡ searched t))
        (sym named) (end_search-ok _ none_found),
  )

  finish-IsPassed :
      (m m' : Meta) (r : Reading) (ts : List Task)
      → (r.errors ≡ [] → IsRead r)
      → finish normpath resolve is_file set_order os_error depth m r ≡ ok (m', ts)
      → IsPassed ts
  finish-IsPassed m m' r ts k h =
      let (no_errors, h1) = raise_if->>-eq-ok (not (is_empty r.errors)) (failed r.errors) _ h in
      let (no_unknown, h2) =
        raise_if->>-eq-ok (not (is_empty (unknown_deps 0 r.all_ids r.tasks)))
          (failed (unknown_deps 0 r.all_ids r.tasks)) _ h1 in
      let (_, none_found, h3) =
        >>=-eq-ok (end_search (find_cycle depth r.tasks (set_order r.all_ids))) _ h2 in
      let same : r.tasks ≡ ts = ap (λ (p : Meta × List Task). p.1) (ok-injective h3) in
      subst IsPassed same (
        passed r 0 (k (is_empty-eq-nil r.errors (ground arith)))
          (is_empty-eq-nil (unknown_deps 0 r.all_ids r.tasks) (ground arith)) none_found)

  validate_fields-IsPassed :
      (raw : Fields) (m : Meta) (ts : List Task)
      → validate_fields normpath resolve is_file set_order os_error depth raw ≡ ok (m, ts)
      → IsPassed ts
  unfolding validate_fields
  validate_fields-IsPassed raw m ts h =
      let (items, e, h1) = >>=-eq-ok (check_tasks (check_meta raw) (given "tasks" raw)) _ h in
      let (_, h2) = raise_if->>-eq-ok (loop_raises os_error items) raised_os_error _ h1 in
      let start : Reading = record {
        errors = check_meta raw;
        seen_ids = [];
        seen_cards = [];
        all_ids = [];
        tasks = [];
      } in
      finish-IsPassed (meta_of raw) m (read_tasks normpath resolve is_file 0 items start) ts
        (read_tasks-IsRead normpath resolve is_file 0 items start λ e. (refl, refl, refl, tt)) h2

  validate_plan-IsPassed :
      (raw : Json) (m : Meta) (ts : List Task)
      → validate_plan normpath resolve is_file set_order os_error depth raw ≡ ok (m, ts)
      → IsPassed ts
  unfolding validate_plan
  validate_plan-IsPassed (obj raw) m ts h = validate_fields-IsPassed raw m ts h
  validate_plan-IsPassed null m ts h = cc
  validate_plan-IsPassed number m ts h = cc
  validate_plan-IsPassed (bool b) m ts h = cc
  validate_plan-IsPassed (num n) m ts h = cc
  validate_plan-IsPassed (str s) m ts h = cc
  validate_plan-IsPassed (arr xs) m ts h = cc

  module _ (walks : (x : String) (xs : List String) → mem x (set_order xs) ≡ mem x xs) where
    -- The tasks of a plan that passes have distinct ids of the allowed form; each depends on distinct
    -- tasks of the plan, not on itself, and no chain of dependencies leads from a task back to it.
    pub validate_plan_passes :
        (raw : Json) (m : Meta) (ts : List Task)
        → validate_plan normpath resolve is_file set_order os_error depth raw ≡ ok (m, ts)
        → (unique (map task_id ts) ≡ true)
          × All IsSound ts
          × ((u : String) → subset (adj ts u) (map task_id ts) ≡ true)
          × ((v : String) → ¬ Walk ts v v)
    validate_plan_passes raw m ts h =
        let (distinct, sound, known, found) = validate_plan-IsPassed raw m ts h in
        (
          distinct,
          sound,
          (λ u. subset_of_mem (adj ts u) (map task_id ts) (known u)),
          find_cycle-acyclic depth ts (set_order (map task_id ts))
              (λ u v e. walks v (map task_id ts) ∙ known u v e) found.0 found.1,
        )

    -- A plan that passes is ordered: `topological_sort` returns each of its tasks' ids exactly once,
    -- every task after the tasks it depends on.
    pub topological_sort-validate_plan :
        (raw : Json) (m : Meta) (ts : List Task)
        → validate_plan normpath resolve is_file set_order os_error depth raw ≡ ok (m, ts)
        → (result : List Task) × (topological_sort ts ≡ ordered result)
          × (in_order [] result ≡ true)
          × ((x : String) → count x (map task_id result) ≡ count x (map task_id ts))
    topological_sort-validate_plan raw m ts h =
        let (distinct, sound, known, p) = validate_plan-IsPassed raw m ts h in
        let (t, found) = p in
        topological_sort_complete depth ts (set_order (map task_id ts)) t distinct known
          (λ x e. walks x (map task_id ts) ∙ e) found
