-- ===== src/OwnerLease/Examples.antt =====
-- Runs of scripts/owner_lease.py, with one digest for every lease.
use ai_coding_workflow.Prelude.{
  ◌+◌, String, ◌≡◌, ◌≢◌, ◌⊎◌, refl, true, false, Option, none, some, [], ok, is_digest, sort_by,
  is_blank,
}
use ai_coding_workflow.OwnerLease.Model.{
  OwnershipRequest, test_fix, failed, LeaseStatus, revoked, Lease, LeaseHashing, is_falsy,
  validate_request, validate_lease, unique_strings, bad_ttl, session_problems, switch_problems,
}
use ai_coding_workflow.OwnerLease.Selection.{
  select_owner, transition_lease, check_previous, switching, selected, reason_of, session_of,
  lease_content, sealed, ended, returns_to_builder, is_live, is_terminal, lstrip, rstrip,
}
use ai_coding_workflow.OwnerLease.Lineage.{select_owner_continuity, transition_once}

abbrev digest : String
digest = "sha256:0000000000000000000000000000000000000000000000000000000000000000"

is_digest_digest : is_digest digest ≡ true
unfolding is_digest
is_digest_digest = refl

abbrev hashing : LeaseHashing
hashing = record { lease_hash = λ c. digest; lease_hash_digest = λ c. is_digest_digest }

abbrev first_request : OwnershipRequest
first_request = record {
  schema_version = 1;
  task_id = "T-1";
  state_id = digest;
  operation = test_fix;
  original_builder_id = "claude-1";
  current_builder_id = "claude-1";
  current_session_id = none;
  resume_status = failed;
  new_evidence_refs = [];
  semantic_blockers = [];
  explicit_owner_id = none;
  switch_reason = none;
  last_handoff_event_id = none;
  lease_ttl_seconds = 600;
}

-- the tests are to be fixed, and another builder has the task
abbrev second_request : OwnershipRequest
second_request = record first_request { current_builder_id = "codex-2" }

abbrev first_lease : Lease
first_lease = sealed hashing (lease_content first_request none)

abbrev second_lease : Lease
second_lease = sealed hashing (lease_content second_request (some first_lease))

second_granted : select_owner hashing second_request (some first_lease) ≡ ok second_lease
unfolding select_owner check_previous validate_request validate_lease session_problems
    switch_problems unique_strings bad_ttl switching selected reason_of session_of lease_content
    sort_by is_digest
second_granted = refl

select_owner_continuity_example :
    (is_falsy second_request.explicit_owner_id ≡ false)
    ⊎ ((returns_to_builder second_request.operation ≡ true)
        × (second_lease.selected_owner_id ≡ second_request.original_builder_id))
unfolding lease_content selected
select_owner_continuity_example =
    select_owner_continuity hashing second_request (some first_lease) second_lease second_granted
      refl

abbrev revoked_lease : Lease
revoked_lease = ended hashing first_lease revoked "done"

lease_revoked : transition_lease hashing first_lease revoked (some " done ") ≡ ok revoked_lease
unfolding transition_lease validate_lease session_problems switch_problems unique_strings bad_ttl
    switching selected reason_of session_of lease_content sort_by is_digest is_blank lstrip rstrip
lease_revoked = refl

transition_once_example :
    (is_live first_lease.status ≡ true)
    × (is_terminal revoked_lease.status ≡ true)
    × (revoked_lease.previous_lease_id ≡ some first_lease.lease_id)
    × (revoked_lease.lease_generation ≡ first_lease.lease_generation + 1)
    × ((s : LeaseStatus) (r : Option String) (next : Lease)
        → transition_lease hashing revoked_lease s r ≢ ok next)
transition_once_example =
    transition_once hashing first_lease revoked (some " done ") revoked_lease lease_revoked
