-- ===== src/WorkflowState/Mutation.antt =====
-- `apply_mutation` of scripts/workflow_state.py and its helpers: one clause for each event type, its
-- tests in the source's order.
use ai_coding_workflow.Prelude.{
  ℕ, zero, suc, String, Bool, true, false, not, Option, none, some, List, [], ◌∷◌, ◌++◌, mem,
  subset, is_empty, is_blank, is_digest, str_eq, if◌then◌else◌, Result, ok, err, ◌>>=◌, ◌>>◌,
  raise_if, sort_by,
}
use ai_coding_workflow.Json.{Json, nil, bool, str, arr, obj, Fields, has, at, get, truthy, strings}
use ai_coding_workflow.WorkflowState.Validation.{evidence_ref_list}
use ai_coding_workflow.WorkflowState.Model.{
  AcceptanceStatus, DecisionStatus, accepted, frozen, EventType, state_initialized, goal_updated,
  constraint_added, decision_accepted, decision_frozen, decision_invalidated, hypothesis_rejected,
  hypothesis_reopened, question_opened, question_resolved, evidence_added, acceptance_updated,
  next_action_updated, repository_state_updated, phase_changed, unsupported, Constraint, Decision,
  Hypothesis, Question, Acceptance, Material, State, Error, unsupported_event, type_error,
  missing_field, blank_field, already_exists, frozen_overwrite, does_not_exist, not_accepted,
  invalid_refs, unregistered_refs, invalid_value, illegal_transition, read_phase,
  read_acceptance_status, phase_transitions,
}

-- _require_payload: the first missing field is named
unfoldable pub require_payload : Fields → List String → Result Error (Unit {0})
require_payload payload [] = ok tt
require_payload payload (k ∷ ks) =
    let rest = require_payload payload ks in if has k payload then rest else err (missing_field k)

-- _nonempty_or_raise, with the text
unfoldable pub nonempty_or_raise : Json → String → Result Error String
nonempty_or_raise (str s) name = if is_blank s then err (blank_field name) else ok s
nonempty_or_raise _ name = err (blank_field name)

-- a field that is a digest
unfoldable pub digest_or_raise : Json → Result Error String
digest_or_raise (str s) = if is_digest s then ok s else err invalid_value
digest_or_raise _ = err invalid_value

-- `item.get("id") == item_id`
abbrev pub is_text : Json → String → Bool
is_text (str s) t = str_eq t s
is_text _ t = false

module _ {ℓ} {A : Type ℓ} where
  abbrev pub shift : Option (ℕ × A) → Option (ℕ × A)
  shift none = none
  shift (some (i, x)) = some (suc i, x)

  -- _find: the index of the first item with the id, and the item
  unfoldable pub find : (A → String) → List A → Json → Option (ℕ × A)
  find key [] item_id = none
  find key (x ∷ xs) item_id =
      let rest = shift (find key xs item_id) in
      if is_text item_id (key x) then some (zero, x) else rest

  -- `del items[index]`
  unfoldable pub delete_at : ℕ → List A → List A
  delete_at i [] = []
  delete_at zero (x ∷ xs) = xs
  delete_at (suc i) (x ∷ xs) = x ∷ delete_at i xs

  -- `items[index] = f(items[index])`
  unfoldable pub update_at : ℕ → (A → A) → List A → List A
  update_at i f [] = []
  update_at zero f (x ∷ xs) = f x ∷ xs
  update_at (suc i) f (x ∷ xs) = x ∷ update_at i f xs

  abbrev pub found : Option (ℕ × A) → Error → Result Error (ℕ × A)
  found none e = err e
  found (some p) e = ok p

  abbrev pub is_found : Option (ℕ × A) → Bool
  is_found none = false
  is_found (some p) = true

-- _mutation_evidence_refs
unfoldable pub mutation_evidence_refs : List String → Json → Bool → Result Error (List String)
mutation_evidence_refs registered value require_item = elim (strings value) [
  | none ↦ err invalid_refs
  | some refs ↦ do
    raise_if (not (is_empty (evidence_ref_list "evidence_refs" require_item refs))) invalid_refs
    raise_if (not (subset refs registered)) unregistered_refs
    ok refs
]

-- `payload.get("evidence_refs", [])`, `payload.get("frozen", True)`
abbrev pub get_or : String → Fields → Json → Json
get_or k fs d = elim (get k fs) [ none ↦ d | some v ↦ v ]

-- A dictionary's keys are hashable; asking for another value raises TypeError.
abbrev pub is_hashable : Json → Bool
is_hashable (arr xs) = false
is_hashable (obj fs) = false
is_hashable _ = true

abbrev pub constraint_id : Constraint → String
constraint_id c = c.id

abbrev pub decision_id : Decision → String
decision_id d = d.id

abbrev pub hypothesis_id : Hypothesis → String
hypothesis_id h = h.id

abbrev pub question_id : Question → String
question_id q = q.id

abbrev pub acceptance_id : Acceptance → String
acceptance_id a = a.id

-- `["status"] = "frozen"`
abbrev pub freeze : Decision → Decision
freeze d = record d { status = frozen }

-- `["status"] = status` and `["evidence_refs"] = refs`
abbrev pub settle : AcceptanceStatus → List String → Acceptance → Acceptance
settle status refs a = record a { status = status; evidence_refs = refs }

abbrev pub is_frozen_otherwise : Decision → String → Bool
is_frozen_otherwise d statement = elim d.status [
  | accepted ↦ false
  | frozen ↦ not (str_eq d.statement statement)
]

abbrev pub is_accepted : DecisionStatus → Bool
is_accepted accepted = true
is_accepted frozen = false

-- the branch of `decision-accepted` where the id is taken
abbrev pub decision_clash : Option (ℕ × Decision) → String → Result Error (Unit {0})
decision_clash none statement = ok tt
decision_clash (some (i, d)) statement =
    if is_frozen_otherwise d statement
    then err (frozen_overwrite d.id)
    else err (already_exists d.id)

abbrev pub or_invalid {ℓ} : {A : Type ℓ} → Option A → Result Error A
or_invalid none = err invalid_value
or_invalid (some a) = ok a

-- The branches of `apply_mutation`, before the sorting at its end.
unfoldable pub mutate : EventType → Fields → Material → Result Error Material
mutate goal_updated p m = do
  require_payload p ("statement" ∷ [])
  statement ← nonempty_or_raise (at "statement" p) "statement"
  ok (record m { goal = record m.goal { statement = statement } })
mutate constraint_added p m = do
  require_payload p ("id" ∷ "statement" ∷ "source" ∷ [])
  id ← nonempty_or_raise (at "id" p) "id"
  statement ← nonempty_or_raise (at "statement" p) "statement"
  source ← nonempty_or_raise (at "source" p) "source"
  raise_if (is_found (find constraint_id m.constraints (str id))) (already_exists "constraint")
  ok (record m {
    constraints =
        m.constraints
        ++ record {
          id = id;
          statement = statement;
          source = source;
          is_frozen = truthy (get_or "frozen" p (bool true));
        }
          ∷ [];
  })
mutate decision_accepted p m = do
  require_payload p ("id" ∷ "statement" ∷ [])
  id ← nonempty_or_raise (at "id" p) "id"
  statement ← nonempty_or_raise (at "statement" p) "statement"
  refs ← mutation_evidence_refs m.evidence_refs (get_or "evidence_refs" p (arr nil)) false
  decision_clash (find decision_id m.accepted_decisions (str id)) statement
  ok (record m {
    accepted_decisions =
        m.accepted_decisions
        ++ record { id = id; statement = statement; status = accepted; evidence_refs = refs } ∷ [];
  })
mutate decision_frozen p m = do
  require_payload p ("id" ∷ [])
  hit ← found (find decision_id m.accepted_decisions (at "id" p)) (does_not_exist "decision")
  raise_if (not (is_accepted hit.1.status)) (not_accepted hit.1.id)
  ok (record m { accepted_decisions = update_at hit.0 freeze m.accepted_decisions })
mutate decision_invalidated p m = do
  require_payload p ("id" ∷ "reason" ∷ "evidence_refs" ∷ [])
  hit ← found (find decision_id m.accepted_decisions (at "id" p)) (does_not_exist "decision")
  _ ← nonempty_or_raise (at "reason" p) "reason"
  _ ← mutation_evidence_refs m.evidence_refs (at "evidence_refs" p) true
  ok (record m { accepted_decisions = delete_at hit.0 m.accepted_decisions })
mutate hypothesis_rejected p m = do
  require_payload p ("id" ∷ "statement" ∷ "reason" ∷ "evidence_refs" ∷ [])
  id ← nonempty_or_raise (at "id" p) "id"
  statement ← nonempty_or_raise (at "statement" p) "statement"
  reason ← nonempty_or_raise (at "reason" p) "reason"
  refs ← mutation_evidence_refs m.evidence_refs (at "evidence_refs" p) true
  raise_if (is_found (find hypothesis_id m.rejected_hypotheses (str id)))
      (already_exists "hypothesis")
  ok (record m {
    rejected_hypotheses =
        m.rejected_hypotheses
        ++ record { id = id; statement = statement; reason = reason; evidence_refs = refs } ∷ [];
  })
mutate hypothesis_reopened p m = do
  require_payload p ("id" ∷ "reason" ∷ "evidence_refs" ∷ [])
  hit ← found (find hypothesis_id m.rejected_hypotheses (at "id" p)) (does_not_exist "hypothesis")
  _ ← nonempty_or_raise (at "reason" p) "reason"
  _ ← mutation_evidence_refs m.evidence_refs (at "evidence_refs" p) true
  ok (record m { rejected_hypotheses = delete_at hit.0 m.rejected_hypotheses })
mutate question_opened p m = do
  require_payload p ("id" ∷ "question" ∷ [])
  id ← nonempty_or_raise (at "id" p) "id"
  question ← nonempty_or_raise (at "question" p) "question"
  raise_if (is_found (find question_id m.open_questions (str id))) (already_exists "question")
  ok (record m {
    open_questions = m.open_questions ++ record { id = id; question = question } ∷ [];
  })
mutate question_resolved p m = do
  require_payload p ("id" ∷ "resolution" ∷ [])
  _ ← nonempty_or_raise (at "resolution" p) "resolution"
  hit ← found (find question_id m.open_questions (at "id" p)) (does_not_exist "question")
  ok (record m { open_questions = delete_at hit.0 m.open_questions })
mutate evidence_added p m = do
  require_payload p ("ref" ∷ [])
  ref ← digest_or_raise (at "ref" p)
  raise_if (mem ref m.evidence_refs) (already_exists "evidence ref")
  ok (record m { evidence_refs = m.evidence_refs ++ ref ∷ [] })
mutate acceptance_updated p m = do
  require_payload p ("id" ∷ "status" ∷ "evidence_refs" ∷ [])
  raise_if (not (is_hashable (at "id" p))) type_error
  hit ← found (find acceptance_id m.acceptance_status (at "id" p)) (does_not_exist "acceptance")
  status ← or_invalid (read_acceptance_status (at "status" p))
  refs ← mutation_evidence_refs m.evidence_refs (at "evidence_refs" p) false
  ok (record m { acceptance_status = update_at hit.0 (settle status refs) m.acceptance_status })
mutate next_action_updated p m = do
  require_payload p ("owner" ∷ "operation" ∷ "allowed_paths" ∷ [])
  owner ← nonempty_or_raise (at "owner" p) "owner"
  operation ← nonempty_or_raise (at "operation" p) "operation"
  paths ← or_invalid (strings (at "allowed_paths" p))
  ok (record m {
    next_action = record { owner = owner; operation = operation; allowed_paths = paths };
  })
mutate repository_state_updated p m = do
  require_payload p ("repository_state_hash" ∷ [])
  hash ← digest_or_raise (at "repository_state_hash" p)
  ok (record m { repository_state_hash = hash })
mutate phase_changed p m = do
  require_payload p ("phase" ∷ [])
  phase ← or_invalid (read_phase (at "phase" p))
  raise_if (not (phase_transitions m.phase phase)) illegal_transition
  ok (record m { phase = phase })
mutate state_initialized p m = err unsupported_event
mutate (unsupported t) p m = err unsupported_event

-- The sorting at the end of `apply_mutation`.
unfoldable pub sort_lists : Material → Material
sort_lists m = record m {
  constraints = sort_by constraint_id m.constraints;
  accepted_decisions = sort_by decision_id m.accepted_decisions;
  rejected_hypotheses = sort_by hypothesis_id m.rejected_hypotheses;
  open_questions = sort_by question_id m.open_questions;
  evidence_refs = sort_by (λ r. r) m.evidence_refs;
}

-- `state_id` is left as it was.
unfoldable pub apply_mutation : State → EventType → Fields → Result Error State
apply_mutation s event_type payload = do
  m ← mutate event_type payload s.material
  ok (record s { material = sort_lists m })
