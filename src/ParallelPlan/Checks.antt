-- ===== src/ParallelPlan/Checks.antt =====
-- The checks of a plan's fields in `validate_plan` of scripts/validate-parallel-plan.py. Each message is
-- a constructor.
use Prim.Native.Char.{code}
use ai_coding_workflow.Prelude.{
  ℕ, ◌+◌, String, Bool, true, false, not, ◌&&◌, ◌||◌, Option, none, some, List, [], ◌∷◌, mem,
  str_eq, leb, ltb, ◌==◌, is_empty, is_empty_text, if◌then◌else◌, Result, raise_if, note,
}
use ai_coding_workflow.Json.{
  Json, null, bool, num, str, arr, Items, nil, cons, Fields, end, field, get,
}

pub data TaskProblem : Type 0 where
  not_an_object unknown_keys : TaskProblem
  missing_id id_not_string id_empty id_unsafe id_invalid id_duplicate : TaskProblem
  missing_card card_not_string card_empty card_unsafe card_not_found card_duplicate : TaskProblem
  deps_not_array : TaskProblem
  dep_not_string dep_empty : ℕ → TaskProblem
  self_dependency dep_duplicate unknown_dependency : String → TaskProblem

-- `bad_max_concurrency` is the error for a value that is no int and the one for an int below 1.
pub data PlanProblem : Type 0 where
  plan_not_object unknown_plan_keys missing_schema_version bad_schema_version : PlanProblem
  group_not_string group_empty group_unsafe group_invalid : PlanProblem
  bad_max_concurrency policy_not_string bad_policy : PlanProblem
  missing_tasks tasks_not_array no_tasks : PlanProblem
  in_task : ℕ → TaskProblem → PlanProblem
  dependency_cycle : List String → PlanProblem

-- `_fail(errors)` exits with the errors; the others are exceptions that nothing catches.
pub data Failure : Type 0 where
  failed : List PlanProblem → Failure
  raised_key_error raised_recursion_error raised_os_error : Failure

-- `meta`, without the two paths of the plan's file.
pub record Meta : Type 0 where
  pub schema_version : Json
  pub group_id : String
  pub max_concurrency : ℕ
  pub failure_policy : String

abbrev pub fail_if : List PlanProblem → Result Failure (Unit {0})
fail_if errors = raise_if (not (is_empty errors)) (failed errors)

unfoldable pub has_tsv_unsafe_chars : String → Bool
has_tsv_unsafe_chars String.[] = false
has_tsv_unsafe_chars (String.◌∷◌ ch s) =
    let c = code ch in
    c == b'\t' || c == b'\n' || c == b'\r' || ltb c 0x20 || c == 0x7f || has_tsv_unsafe_chars s

abbrev pub is_alphanumeric : ℕ → Bool
is_alphanumeric c =
    (leb b'A' c && leb c b'Z') || (leb b'a' c && leb c b'z') || (leb b'0' c && leb c b'9')

-- `[A-Za-z0-9._-]*$`, where the text has no line break
unfoldable pub is_id_rest : String → Bool
is_id_rest String.[] = true
is_id_rest (String.◌∷◌ ch s) =
    let c = code ch in (is_alphanumeric c || c == b'.' || c == b'_' || c == b'-') && is_id_rest s

-- `VALID_ID_RE.match`
unfoldable pub is_valid_id : String → Bool
unfolding is_id_rest
is_valid_id String.[] = false
is_valid_id (String.◌∷◌ ch s) = is_alphanumeric (code ch) && is_id_rest s

-- `set(fields) - allowed` is empty
unfoldable pub only_keys : List String → Fields → Bool
only_keys allowed end = true
only_keys allowed (field k v fs) = mem k allowed && only_keys allowed fs

-- `fields.get(key)`, where a null reads as None
unfoldable pub given : String → Fields → Option Json
given k fs = elim (get k fs) [ none ↦ none | some v ↦ elim v [ null ↦ none | w ↦ some w ] ]

unfoldable pub check_schema_version : Option Json → List PlanProblem
check_schema_version none = missing_schema_version ∷ []
check_schema_version (some (num n)) = note (not (n == 1)) bad_schema_version
-- `isinstance(True, int)`, and True equals 1
check_schema_version (some (bool b)) = note (not b) bad_schema_version
check_schema_version (some v) = bad_schema_version ∷ []

abbrev pub check_group : String → List PlanProblem
check_group s =
    if is_empty_text s
    then group_empty ∷ []
    else if has_tsv_unsafe_chars s
    then group_unsafe ∷ []
    else if not (is_valid_id s)
    then group_invalid ∷ []
    else []

-- `raw.get("group_id", "")`
unfoldable pub check_group_id : Option Json → List PlanProblem
check_group_id none = check_group ""
check_group_id (some (str s)) = check_group s
check_group_id (some v) = group_not_string ∷ []

-- `raw.get("max_concurrency", DEFAULT_MAX_CONCURRENCY)`
unfoldable pub check_max_concurrency : Option Json → List PlanProblem
check_max_concurrency none = []
check_max_concurrency (some (num n)) = note (ltb n 1) bad_max_concurrency
check_max_concurrency (some v) = bad_max_concurrency ∷ []

-- `raw.get("failure_policy", "skip-dependents")`
unfoldable pub check_failure_policy : Option Json → List PlanProblem
check_failure_policy none = []
check_failure_policy (some (str s)) = note (not (str_eq s "skip-dependents")) bad_policy
check_failure_policy (some v) = policy_not_string ∷ []

unfoldable pub check_id : Option Json → List String → List TaskProblem
check_id none seen_ids = missing_id ∷ []
check_id (some (str s)) seen_ids =
    if is_empty_text s
    then id_empty ∷ []
    else if has_tsv_unsafe_chars s
    then id_unsafe ∷ []
    else if not (is_valid_id s)
    then id_invalid ∷ []
    else if mem s seen_ids
    then id_duplicate ∷ []
    else []
check_id (some v) seen_ids = id_not_string ∷ []

-- `value or ""`, where a value that is no text has failed
unfoldable pub text_of : Option Json → String
text_of (some (str s)) = s
text_of v = ""

-- `task_id is not None and dep == task_id`
abbrev pub is_self : String → Option Json → Bool
is_self dep (some (str s)) = str_eq s dep
is_self dep v = false

-- The loop over `depends_on`, from an index on.
unfoldable pub check_deps : Option Json → List String → ℕ → Items → List TaskProblem
check_deps task_id seen_deps i nil = []
check_deps task_id seen_deps i (cons (str dep) ds) =
    let skipped = check_deps task_id seen_deps (i + 1) ds in
    let kept = check_deps task_id (dep ∷ seen_deps) (i + 1) ds in
    if is_empty_text dep
    then dep_empty i ∷ skipped
    else if is_self dep task_id
    then self_dependency dep ∷ skipped
    else if mem dep seen_deps
    then dep_duplicate dep ∷ skipped
    else kept
check_deps task_id seen_deps i (cons v ds) =
    dep_not_string i ∷ check_deps task_id seen_deps (i + 1) ds

-- `task.get("depends_on", [])`
unfoldable pub check_depends_on : Option Json → Option Json → List TaskProblem
unfolding check_deps
check_depends_on task_id none = []
check_depends_on task_id (some (arr ds)) = check_deps task_id [] 0 ds
check_depends_on task_id (some v) = deps_not_array ∷ []
