-- ===== src/ParallelPlan/Passing.antt =====
-- What holds of the plans that `validate_plan` of scripts/validate-parallel-plan.py lets pass.
use ai_coding_workflow.Prelude.{
  ℕ, ◌+◌, String, ◌≡◌, refl, sym, ◌∙◌, ap, subst, Bool, true, false, not, Option, none, some, List,
  [], ◌∷◌, ◌++◌, map, mem, mem-append, unique, subset, subset-mem, All, All-append, str_eq_iff,
  str_eq_refl, arith, note, append-eq-nil, map-eq-nil,
}
use ai_coding_workflow.Json.{Json, null, number, bool, num, str, arr, obj, Items, nil, cons, get}
use ai_coding_workflow.ParallelPlan.Graph.{Task, task_id, adj}
use ai_coding_workflow.ParallelPlan.Rounds.{map-append}
use ai_coding_workflow.ParallelPlan.Checks.{
  in_task, is_valid_id, given, check_id, check_deps, check_depends_on, text_of, unknown_keys,
}
use ai_coding_workflow.ParallelPlan.Validation.{
  texts, deps_of, unknown_of, unknown_deps, Reading, check_card, task_problems, read_fields,
  read_task, read_tasks,
}

unique-append :
    (x : String) (xs : List String)
    → unique xs ≡ true
    → mem x xs ≡ false
    → unique (xs ++ x ∷ []) ≡ true
unique-append x [] u m = refl
unique-append x (y ∷ xs) u m =
    ground (arith, unique-append x xs, mem-append y xs (x ∷ []), str_eq_iff x y, str_eq_refl y)

check_id-str :
    (s : String) (seen : List String)
    → check_id (some (str s)) seen ≡ []
    → (is_valid_id s ≡ true) × (mem s seen ≡ false)
unfolding check_id
check_id-str s seen h = (ground arith, ground arith)

-- An id that passes is a text of the allowed form that no earlier task has.
check_id_passes :
    (v : Option Json) (seen : List String)
    → check_id v seen ≡ []
    → (s : String) × (v ≡ some (str s)) × (is_valid_id s ≡ true) × (mem s seen ≡ false)
unfolding check_id
check_id_passes none seen h = cc
check_id_passes (some null) seen h = cc
check_id_passes (some number) seen h = cc
check_id_passes (some (bool b)) seen h = cc
check_id_passes (some (num n)) seen h = cc
check_id_passes (some (arr xs)) seen h = cc
check_id_passes (some (obj fs)) seen h = cc
check_id_passes (some (str s)) seen h = (s, refl, ground arith, ground arith)

-- Dependencies that pass are distinct, and the task itself is none of them.
check_deps_passes :
    (s : String) (seen : List String) (i : ℕ) (ds : Items)
    → check_deps (some (str s)) seen i ds ≡ []
    → (unique (texts ds) ≡ true)
      × (mem s (texts ds) ≡ false)
      × ((x : String) → mem x (texts ds) ≡ true → mem x seen ≡ false)
unfolding check_deps texts
check_deps_passes s seen i nil h = (refl, refl, λ x m. ground arith)
check_deps_passes s seen i (cons null ds) h = cc
check_deps_passes s seen i (cons number ds) h = cc
check_deps_passes s seen i (cons (bool b) ds) h = cc
check_deps_passes s seen i (cons (num n) ds) h = cc
check_deps_passes s seen i (cons (arr xs) ds) h = cc
check_deps_passes s seen i (cons (obj fs) ds) h = cc
check_deps_passes s seen i (cons (str d) ds) h =
    let rest : check_deps (some (str s)) (d ∷ seen) (i + 1) ds ≡ [] = ground arith in
    let (u, n, f) = check_deps_passes s (d ∷ seen) (i + 1) ds rest in
    (
      ground (arith, f d, str_eq_refl d),
      ground (arith, str_eq_iff d s, str_eq_iff s d),
      λ x m. ground (arith, f x, str_eq_iff d x),
    )

-- A task that passes on its own: an id of the allowed form, and distinct dependencies, none its own.
abbrev pub IsSound : Task → Type 0
IsSound t =
    (is_valid_id t.id ≡ true) × (unique t.depends_on ≡ true) × (mem t.id t.depends_on ≡ false)

check_depends_on_passes :
    (s : String) (v : Option Json)
    → check_depends_on (some (str s)) v ≡ []
    → (unique (deps_of v) ≡ true) × (mem s (deps_of v) ≡ false)
unfolding check_depends_on deps_of
check_depends_on_passes s none h = (refl, refl)
check_depends_on_passes s (some (arr ds)) h =
    let (u, n, f) = check_deps_passes s [] 0 ds h in (u, n)
check_depends_on_passes s (some null) h = cc
check_depends_on_passes s (some number) h = cc
check_depends_on_passes s (some (bool b)) h = cc
check_depends_on_passes s (some (num n)) h = cc
check_depends_on_passes s (some (str t)) h = cc
check_depends_on_passes s (some (obj fs)) h = cc

-- While there are no errors, the ids seen are those of the tasks, which are distinct and sound.
abbrev pub IsRead : Reading → Type 0
IsRead r =
    (r.seen_ids ≡ r.all_ids)
    × (map task_id r.tasks ≡ r.all_ids)
    × (unique r.all_ids ≡ true)
    × All IsSound r.tasks

module _ (normpath resolve : String → String) (is_file : String → Bool) where
  -- The last three parts of a task's problems.
  task_problems_none :
      (known_keys : Bool) (task_id task_card depends_on : Option Json) (r : Reading)
      → task_problems normpath resolve is_file known_keys task_id task_card depends_on r ≡ []
      → (check_id task_id r.seen_ids ≡ []) × (check_depends_on task_id depends_on ≡ [])
  unfolding task_problems
  task_problems_none known_keys task_id task_card depends_on r h =
      let (_, rest) = append-eq-nil (note (not known_keys) unknown_keys) _ h in
      let (id_passes, rest') = append-eq-nil (check_id task_id r.seen_ids) _ rest in
      let (_, deps_pass) =
        append-eq-nil (check_card normpath resolve is_file task_card r.seen_cards) _ rest' in
      (id_passes, deps_pass)

  -- A task with a new id keeps the reading right.
  grown-IsRead :
      (i : ℕ) (known_keys : Bool) (s : String) (task_card depends_on : Option Json) (r : Reading)
      → check_id (some (str s)) r.seen_ids ≡ []
      → check_depends_on (some (str s)) depends_on ≡ []
      → IsRead r
      → IsRead
          (read_fields normpath resolve is_file i known_keys (some (str s)) task_card depends_on r)
  unfolding read_fields text_of
  grown-IsRead i known_keys s task_card depends_on r id_passes deps_pass
        (same, named, distinct, sound) =
      let (valid, new) = check_id-str s r.seen_ids id_passes in
      let (u, n) = check_depends_on_passes s depends_on deps_pass in
      rw id_passes (
        ap (λ (ids : List String). ids ++ s ∷ []) same,
        map-append r.tasks _ ∙ ap (λ (ids : List String). ids ++ s ∷ []) named,
        unique-append s r.all_ids distinct (subst (λ ids. mem s ids ≡ false) same new),
        All-append IsSound r.tasks _ sound ((valid, u, n), tt),
      )

  read_fields-IsRead :
      (i : ℕ) (known_keys : Bool) (task_id task_card depends_on : Option Json) (r : Reading)
      → (read_fields normpath resolve is_file i known_keys task_id task_card depends_on r).errors
        ≡ []
      → (r.errors ≡ [] → IsRead r)
      → IsRead (read_fields normpath resolve is_file i known_keys task_id task_card depends_on r)
  unfolding read_fields
  read_fields-IsRead i known_keys task_id task_card depends_on r h k =
      let (before, here) = append-eq-nil r.errors _ h in
      let (id_passes, deps_pass) =
        task_problems_none known_keys task_id task_card depends_on r
          (map-eq-nil (in_task i) _ here) in
      let (s, e, valid, new) = check_id_passes task_id r.seen_ids id_passes in
      subst
        (λ o. IsRead (read_fields normpath resolve is_file i known_keys o task_card depends_on r))
        (sym e)
        (grown-IsRead i known_keys s task_card depends_on r
          (subst (λ o. check_id o r.seen_ids ≡ []) e id_passes)
          (subst (λ o. check_depends_on o depends_on ≡ []) e deps_pass) (k before))

  read_task-IsRead :
      (i : ℕ) (v : Json) (r : Reading)
      → (read_task normpath resolve is_file i v r).errors ≡ []
      → (r.errors ≡ [] → IsRead r)
      → IsRead (read_task normpath resolve is_file i v r)
  unfolding read_task
  read_task-IsRead i (obj fs) r h k =
      read_fields-IsRead i _ (given "id" fs) (given "task_card" fs) (get "depends_on" fs) r h k
  read_task-IsRead i null r h k = k (append-eq-nil r.errors _ h).0
  read_task-IsRead i number r h k = k (append-eq-nil r.errors _ h).0
  read_task-IsRead i (bool b) r h k = k (append-eq-nil r.errors _ h).0
  read_task-IsRead i (num n) r h k = k (append-eq-nil r.errors _ h).0
  read_task-IsRead i (str s) r h k = k (append-eq-nil r.errors _ h).0
  read_task-IsRead i (arr xs) r h k = k (append-eq-nil r.errors _ h).0

  pub read_tasks-IsRead :
      (i : ℕ) (vs : Items) (r : Reading)
      → (r.errors ≡ [] → IsRead r)
      → (read_tasks normpath resolve is_file i vs r).errors ≡ []
      → IsRead (read_tasks normpath resolve is_file i vs r)
  unfolding read_tasks
  read_tasks-IsRead i nil r k h = k h
  read_tasks-IsRead i (cons v vs) r k h =
      read_tasks-IsRead (i + 1) vs (read_task normpath resolve is_file i v r)
        (λ e. read_task-IsRead i v r e k) h

unknown_of_none :
    (i : ℕ) (all_ids deps : List String)
    → unknown_of i all_ids deps ≡ []
    → subset deps all_ids ≡ true
unfolding unknown_of
unknown_of_none i all_ids [] h = refl
unknown_of_none i all_ids (d ∷ ds) h =
    let (here, rest) = append-eq-nil (note (not (mem d all_ids)) _) _ h in
    ground (arith, unknown_of_none i all_ids ds rest)

-- Without unknown dependencies every dependency is an id.
pub unknown_deps_none :
    (i : ℕ) (all_ids : List String) (ts : List Task)
    → unknown_deps i all_ids ts ≡ []
    → (u v : String) → mem v (adj ts u) ≡ true
    → mem v all_ids ≡ true
unfolding unknown_deps adj
unknown_deps_none i all_ids [] h u v m = cc
unknown_deps_none i all_ids (t ∷ ts) h u v m =
    let (here, rest) = append-eq-nil (unknown_of i all_ids t.depends_on) _ h in
    ground (
      arith,
      unknown_deps_none (i + 1) all_ids ts rest u v,
      subset-mem v t.depends_on all_ids (unknown_of_none i all_ids t.depends_on here),
    )
