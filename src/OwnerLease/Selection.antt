-- ===== src/OwnerLease/Selection.antt =====
-- `select_owner` and `transition_lease` of scripts/owner_lease.py.
use Prim.Native.Char.{code}
use ai_coding_workflow.Prelude.{
  ℕ, ◌+◌, String, Bool, true, false, not, ◌&&◌, ◌||◌, Option, none, some, is_empty, is_empty_text,
  is_space, is_blank, str_eq, leb, ◌==◌, if◌then◌else◌, Result, ok, err, ◌>>=◌, ◌>>◌, raise_if,
  sort_by,
}
use ai_coding_workflow.OwnerLease.Model.{
  Operation, mechanical_revision, test_fix, ResumeStatus, not_attempted, succeeded, failed,
  LeaseStatus, requested, granted, expired, revoked, Mode, resumed_session, new_session,
  resume_required, OwnerModel, claude_builder, codex_fast_path, unknown, skip, invoke,
  OwnershipRequest, LeaseContent, Lease, LeaseHashing, is_falsy, is_resumed, is_granted,
  validate_request, validate_lease,
}

-- What OwnerLeaseError is raised for.
pub data Error : Type 0 where
  invalid_request invalid_previous other_task renewal_of_revoked switch_reason_forbidden : Error
  session_missing generated_invalid not_terminal not_live reason_missing reason_forbidden : Error

-- `str.lower` of one code point, for the letters of the words that are searched: the ASCII capitals
-- and the Kelvin sign.
abbrev pub lower : ℕ → ℕ
lower c = if leb b'A' c && leb c b'Z' then c + 32 else if c == 0x212a then b'k' else c

unfoldable pub starts : String → String → Bool
starts String.[] s = true
starts (String.◌∷◌ p ps) String.[] = false
starts (String.◌∷◌ p ps) (String.◌∷◌ c s) = code p == lower (code c) && starts ps s

-- `word in owner_id.lower()`
unfoldable pub mentions : String → String → Bool
unfolding starts
mentions word String.[] = starts word ""
mentions word (String.◌∷◌ c s) = starts word (String.◌∷◌ c s) || mentions word s

unfoldable pub owner_model : String → OwnerModel
owner_model owner_id =
    if mentions "claude" owner_id
    then claude_builder
    else if mentions "codex" owner_id
    then codex_fast_path
    else unknown

abbrev pub is_revoked : LeaseStatus → Bool
is_revoked revoked = true
is_revoked _ = false

-- `operation in {"mechanical-revision", "test-fix"}`
abbrev pub returns_to_builder : Operation → Bool
returns_to_builder mechanical_revision = true
returns_to_builder test_fix = true
returns_to_builder _ = false

-- The owner and the source without an explicit owner.
abbrev pub continuity : OwnershipRequest → String × String
continuity q =
    if returns_to_builder q.operation
    then (q.original_builder_id, "original-builder-continuity")
    else (q.current_builder_id, "current-builder-continuity")

-- The selected owner and where it comes from.
abbrev pub selected_by : Option String → OwnershipRequest → String × String
selected_by none q = continuity q
selected_by (some owner) q =
    if is_empty_text owner then continuity q else (owner, "explicit-human-owner")

unfoldable pub selected : OwnershipRequest → String × String
selected q = selected_by q.explicit_owner_id q

unfoldable pub switching : OwnershipRequest → Bool
switching q = not (str_eq (selected q).0 q.current_builder_id)

-- `switch_reason`, completed
unfoldable pub reason_of : OwnershipRequest → Option String
reason_of q =
    if switching q && is_falsy q.switch_reason
    then some (
        if is_falsy q.explicit_owner_id
        then "return-to-original-builder"
        else "explicit-human-owner")
    else q.switch_reason

-- `session_mode, status`
unfoldable pub session_of : Bool → ResumeStatus → Mode × LeaseStatus
session_of true resume = (new_session, granted)
session_of false succeeded = (resumed_session, granted)
session_of false failed = (new_session, granted)
session_of false not_attempted = (resume_required, requested)

abbrev pub handoffs : Option Lease → ℕ
handoffs none = 0
handoffs (some p) = p.handoff_count

abbrev pub generation : Option Lease → ℕ
generation none = 1
generation (some p) = p.lease_generation + 1

abbrev pub renewals : Option Lease → Bool → ℕ
renewals none b = 0
renewals (some p) b = if is_granted p.status && not b then p.renewal_count + 1 else 0

abbrev pub previous_id : Option Lease → Option String
previous_id none = none
previous_id (some p) = some p.lease_id

-- `deepcopy`s and literals aside, the lease that `select_owner` builds.
unfoldable pub lease_content : OwnershipRequest → Option Lease → LeaseContent
lease_content q previous =
    let mode = (session_of (switching q) q.resume_status).0 in
    record {
      schema_version = 1;
      task_id = q.task_id;
      state_id = q.state_id;
      operation = q.operation;
      original_builder_id = q.original_builder_id;
      current_builder_id = q.current_builder_id;
      selected_owner_id = (selected q).0;
      owner_source = (selected q).1;
      current_model = owner_model q.current_builder_id;
      selected_model = owner_model (selected q).0;
      status = (session_of (switching q) q.resume_status).1;
      previous_lease_id = previous_id previous;
      lease_generation = generation previous;
      handoff_count = handoffs previous + (if switching q then 1 else 0);
      last_handoff_event_id = q.last_handoff_event_id;
      lease_ttl_seconds = q.lease_ttl_seconds;
      renewal_count = renewals previous (switching q);
      session = record {
        session_id = if is_resumed mode then q.current_session_id else none;
        resume_status = q.resume_status;
        mode = mode;
      };
      model_switch = record {
        required = switching q;
        from_owner = q.current_builder_id;
        to_owner = (selected q).0;
        reason = reason_of q;
      };
      advisor = record {
        action = if is_empty q.semantic_blockers then skip else invoke;
        reason =
            if is_empty q.semantic_blockers
            then "no-semantic-blocker"
            else "semantic-blockers-present";
      };
      reviewer = record {
        action = if is_empty q.new_evidence_refs then skip else invoke;
        reason = if is_empty q.new_evidence_refs then "no-new-evidence" else "new-evidence-present";
        new_evidence_refs = sort_by (λ (s : String). s) q.new_evidence_refs;
      };
      transition_reason = "owner-selected";
    }

-- `value.strip()`
unfoldable pub lstrip : String → String
lstrip String.[] = String.[]
lstrip (String.◌∷◌ c s) = let rest = lstrip s in if is_space (code c) then rest else String.◌∷◌ c s

unfoldable pub rstrip : String → String
rstrip String.[] = String.[]
rstrip (String.◌∷◌ c s) =
    let rest = rstrip s in
    if is_space (code c) && is_empty_text rest then String.[] else String.◌∷◌ c rest

abbrev pub is_live : LeaseStatus → Bool
is_live requested = true
is_live granted = true
is_live _ = false

-- The tests of `transition_lease` on the status and the reason, with the `transition_reason`.
abbrev pub terminal_reason : LeaseStatus → Option String → Result Error String
terminal_reason expired none = ok "ttl-expired"
terminal_reason expired (some r) = err reason_forbidden
terminal_reason revoked none = err reason_missing
terminal_reason revoked (some r) = do raise_if (is_blank r) reason_missing; ok (lstrip (rstrip r))
terminal_reason _ r = err not_terminal

abbrev pub is_terminal : LeaseStatus → Bool
is_terminal expired = true
is_terminal revoked = true
is_terminal _ = false

-- `"lease-" + status`
abbrev pub source_of : LeaseStatus → String
source_of requested = "lease-requested"
source_of granted = "lease-granted"
source_of expired = "lease-expired"
source_of revoked = "lease-revoked"

module _ (hashing : LeaseHashing) where
  abbrev pub sealed : LeaseContent → Lease
  sealed c = record { lease_id = hashing.lease_hash c; content = c }

  -- The tests of `select_owner` on the previous lease.
  unfoldable pub check_previous : Option Lease → OwnershipRequest → Result Error (Unit {0})
  check_previous none q = ok tt
  check_previous (some p) q = do
    raise_if (not (is_empty (validate_lease hashing p))) invalid_previous
    raise_if (not (str_eq p.task_id q.task_id)) other_task
    raise_if (is_revoked p.status) renewal_of_revoked

  unfoldable pub select_owner : OwnershipRequest → Option Lease → Result Error Lease
  select_owner q previous = do
    raise_if (not (is_empty (validate_request q))) invalid_request
    check_previous previous q
    raise_if (not (switching q) && not (is_falsy q.switch_reason)) switch_reason_forbidden
    raise_if
        (is_resumed (session_of (switching q) q.resume_status).0 && is_falsy q.current_session_id)
        session_missing
    raise_if (not (is_empty (validate_lease hashing (sealed (lease_content q previous)))))
        generated_invalid
    ok (sealed (lease_content q previous))

  abbrev pub ended : Lease → LeaseStatus → String → Lease
  ended p status reason = sealed (record p.content {
    previous_lease_id = some p.lease_id;
    lease_generation = p.lease_generation + 1;
    status = status;
    owner_source = source_of status;
    transition_reason = reason;
  })

  unfoldable pub transition_lease : Lease → LeaseStatus → Option String → Result Error Lease
  transition_lease p status reason = do
    raise_if (not (is_empty (validate_lease hashing p))) invalid_previous
    raise_if (not (is_terminal status)) not_terminal
    raise_if (not (is_live p.status)) not_live
    why ← terminal_reason status reason
    raise_if (not (is_empty (validate_lease hashing (ended p status why)))) generated_invalid
    ok (ended p status why)
