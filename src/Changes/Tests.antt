-- ===== src/Changes/Tests.antt =====
-- A change from its creation to its completion, and the theorems at it.
use bash_builder.Prelude.{
  ℕ, ◌≡◌, refl, ◌+◌, false, ◌++◌, Option, none, some, List, [], ◌∷◌, ok, is_ok, map, length, codes,
  Text, Identity, Journal, trim, text, optional_text, positive, write, InSync,
}
use bash_builder.Prelude.Table.{find_row, update_row}
use bash_builder.Contracts.Roles.{member}
use bash_builder.Changes.Types.{
  Change, Tables, Approval, general_information, rejected, ChangeStatus, in_review, approved,
  implementing, completed, Decision, Approver,
}
use bash_builder.Changes.Schema.{
  StepInput, parse_change, parse_risk, parse_approval, parse_decision, parse_step, parse_fields,
}
use bash_builder.Changes.Rows.{
  new_change, risk_added, approval_added, approval_decided, decision_made, step_of, step_completed,
  transitioned, mark, mark_count, completed_count, lookup_field,
}
use bash_builder.Changes.Service.{
  Call, create, add_risk, add_approval, decide, complete_step, transition, handle, serve,
  create_change, add_change_risk, add_change_approval, decide_change_approval,
  complete_change_workflow_step, transition_change,
}
use bash_builder.Changes.Governance.{new_tenant, IsGoverned, Kept, serve-IsGoverned, serve-Kept}
use bash_builder.Changes.Invariant.{new_change-IsValid}
use bash_builder.Changes.Histories.{AllValid, serve-AllValid}
use bash_builder.Changes.Versions.{Advances, handle-Advances}
use bash_builder.Changes.Versions.Stale.{Expects, stale_version}
use bash_builder.Changes.Decisions.{Across, handle-Across, decision_stands}
use bash_builder.Changes.Journey.{
  IsStepped, complete_change_workflow_step-IsStepped, review_completes,
}
use bash_builder.Changes.Records.{successes, serve-journal}

-- Opens what a run of the service calls.
run : Unit {0}
unfolding serve handle create_change add_change_risk add_change_approval decide_change_approval
    complete_change_workflow_step transition_change parse_change parse_risk parse_approval
    parse_decision parse_step parse_fields trim text optional_text positive write update_row
    find_row new_change risk_added approval_added approval_decided decision_made step_of
    step_completed transitioned mark mark_count completed_count lookup_field
run = tt

abbrev ann : Identity
ann = record { user = 1; email = codes "ann@x"; organization = 9; membership = 11 }

abbrev bob : Identity
bob = record { user = 2; email = codes "bob@x"; organization = 9; membership = 12 }

abbrev bob_approver : Approver
bob_approver = record { membership = 12; user = 2; role = member }

abbrev step_input : ℕ → List (Text × Text) → StepInput
step_input version fields = record {
  notes = codes "all is ready";
  fields = fields;
  expected_version = version;
}

abbrev creation : List (Identity × ℕ × Call)
creation =
    (
      ann,
      0,
      create 5 (record {
        public_code = codes "MOC-1";
        title = codes "New pump";
        description = none;
        requested_by = none;
        owner = none;
        due_at = none;
      }),
    )
    ∷ []

abbrev requests : List (Identity × ℕ × Call)
requests =
    creation
    ++ (
      ann,
      1,
      complete_step 5 1
          (step_input 1 ((codes "scope", codes "a") ∷ (codes "requester", codes "b") ∷ [])),
    )
      ∷ (
        ann,
        2,
        complete_step 5 2
            (step_input 2 ((codes "trigger", codes "a") ∷ (codes "impact", codes "b") ∷ [])),
      )
      ∷ (
        ann,
        3,
        complete_step 5 3 (
            step_input 3
              ((codes "implementationPlan", codes "a") ∷ (codes "rollbackPlan", codes "b") ∷ [])),
      )
      ∷ (
        ann,
        4,
        add_risk 5 70 (record {
          hazard = codes "leak";
          consequence = none;
          probability = 2;
          severity = 3;
          controls = none;
          owner = none;
          due_at = none;
          position = none;
        }),
      )
      ∷ (
        ann,
        5,
        complete_step 5 4 (step_input 4 ((codes "residualRiskAcceptance", codes "a") ∷ [])),
      )
      ∷ (
        ann,
        6,
        add_approval 5 80
            (record { approver_name = codes "Bob"; approver_email = codes "bob@x"; role = none })
            (some bob_approver),
      )
      ∷ []

abbrev preparation : List (Identity × ℕ × Call)
preparation =
    requests
    ++ (
      bob,
      7,
      decide 5 80 (record { decision = Decision.approved; comment = none; expected_version = 1 }),
    )
      ∷ []

abbrev approval_calls : List (Identity × ℕ × Call)
approval_calls = (ann, 8, transition 5 approved 5) ∷ (ann, 9, transition 5 implementing 6) ∷ []

abbrev verification_calls : List (Identity × ℕ × Call)
verification_calls =
    (
      ann,
      10,
      complete_step 5 6 (
          step_input 7
            ((codes "verificationResult", codes "a") ∷ (codes "closureDecision", codes "b") ∷ [])),
    )
    ∷ []

abbrev no_journal : Journal
no_journal = record { audit = []; outbox = [] }

abbrev tenant : Tables
tenant = new_tenant [] no_journal

abbrev in_review_tables : Tables
in_review_tables = serve tenant preparation

abbrev statuses : Tables → List ChangeStatus
statuses t = map (λ c. c.status) t.changes

in_review_run : statuses in_review_tables ≡ in_review ∷ []
unfolding run
in_review_run = refl

completed_run :
    statuses (serve (serve in_review_tables approval_calls) verification_calls) ≡ completed ∷ []
unfolding run
completed_run = refl

abbrev with_default : Change → Option Change → Change
with_default d none = d
with_default d (some c) = c

-- The row of the change after some calls, read off by evaluation.
abbrev row_of : Tables → Change
row_of t =
    with_default
      (new_change 0 0 (record {
        public_code = [];
        title = [];
        description = none;
        requested_by = none;
        owner = none;
        due_at = none;
      }))
      (find_row (λ c. c.id) 5 t.changes)

abbrev in_review_approved : Tables
in_review_approved = serve in_review_tables ((ann, 8, transition 5 approved 5) ∷ [])

abbrev approved_tables : Tables
approved_tables = serve in_review_tables approval_calls

abbrev completed_tables : Tables
completed_tables = serve approved_tables verification_calls

serve-AllValid_example : AllValid completed_tables
serve-AllValid_example =
    serve-AllValid approved_tables verification_calls
      (serve-AllValid in_review_tables approval_calls (serve-AllValid tenant preparation tt))

serve-IsGoverned_example : IsGoverned (row_of in_review_approved)
unfolding run
serve-IsGoverned_example =
    serve-IsGoverned [] no_journal (preparation ++ (ann, 8, transition 5 approved 5) ∷ []) 5
      (row_of in_review_approved) refl refl

serve-Kept_example :
    (d : Change) × (find_row (λ c. c.id) 5 (serve completed_tables approval_calls).changes ≡ some d)
    × Kept (row_of completed_tables) d
unfolding run
serve-Kept_example =
    serve-Kept completed_tables approval_calls 5 (row_of completed_tables) refl refl

stale_version_example :
    is_ok (handle bob 20 (transition 5 rejected 5) (serve in_review_approved verification_calls))
    ≡ false
unfolding run
stale_version_example =
    stale_version ann bob 8 20 5 5 (transition 5 approved 5) (transition 5 rejected 5)
      in_review_tables in_review_approved verification_calls (Expects.move approved) refl
      (Expects.move rejected)

handle-Advances_example :
    (d : Change) × (find_row (λ c. c.id) 5 in_review_approved.changes ≡ some d)
    × Advances (row_of in_review_tables) d
unfolding run
handle-Advances_example =
    handle-Advances ann 8 (transition 5 approved 5) in_review_tables in_review_approved 5
      (row_of in_review_tables) refl refl

abbrev decision_of_bob : Approval
decision_of_bob = record {
  id = 80;
  details = record { approver_name = codes "Bob"; approver_email = codes "bob@x"; role = none };
  approver = bob_approver;
  decision = Decision.approved;
  comment = none;
  decided_at = some 7;
  version = 2;
}

decision_stands_example :
    (d : Change) × (find_row
        (λ c. c.id)
        5
        (serve in_review_tables (approval_calls ++ verification_calls)).changes
      ≡ some d)
    × (find_row (λ a. a.id) 80 d.approvals ≡ some decision_of_bob)
unfolding run
decision_stands_example =
    decision_stands in_review_tables (approval_calls ++ verification_calls) 5 80
      (row_of in_review_tables) decision_of_bob refl refl refl

abbrev before_decision : Tables
before_decision = serve tenant requests

abbrev created : Tables
created = serve tenant creation

abbrev fresh_change : Change
fresh_change = row_of created

abbrev closing_input : StepInput
closing_input =
    step_input 7
      ((codes "verificationResult", codes "a") ∷ (codes "closureDecision", codes "b") ∷ [])

abbrev scope_fields : List (Text × Text)
scope_fields = (codes "scope", codes "a") ∷ (codes "requester", codes "b") ∷ []

handle-Across_example :
    (d : Change) × (find_row (λ c. c.id) 5 in_review_tables.changes ≡ some d)
    × Across 2
        (row_of before_decision)
        d
        80
        (record decision_of_bob { decision = Decision.pending; decided_at = none; version = 1 })
unfolding run
handle-Across_example =
    handle-Across bob 7
      (decide 5 80 (record { decision = Decision.approved; comment = none; expected_version = 1 }))
      before_decision in_review_tables 5 80 (row_of before_decision) _ refl refl refl

complete_change_workflow_step-IsStepped_example :
    (u : Tables) × (d : Change) × (complete_change_workflow_step ann 5 5 1
        (step_input 1 scope_fields)
        created
      ≡ ok u)
    × (find_row (λ x. x.id) 5 u.changes ≡ some d)
    × IsStepped ann 5 1 (step_input 1 scope_fields) fresh_change d
unfolding run
complete_change_workflow_step-IsStepped_example =
    complete_change_workflow_step-IsStepped ann 5 5 1 general_information
      (step_input 1 scope_fields) (step_input 1 scope_fields) created fresh_change refl
      (new_change-IsValid 5 1 fresh_change.details) refl refl refl (λ e. cc) refl refl refl

review_completes_example :
    (t₁ : Tables) × (t₂ : Tables) × (t₃ : Tables) × (f : Change) × (transition_change ann 8 5
        approved 5 in_review_tables
      ≡ ok t₁)
    × (transition_change bob 9 5 implementing 6 t₁ ≡ ok t₂)
    × (complete_change_workflow_step ann 10 5 6 closing_input t₂ ≡ ok t₃)
    × (find_row (λ x. x.id) 5 t₃.changes ≡ some f)
    × (f.status ≡ completed)
    × (f.version ≡ 8)
    × (completed_count f.steps ≡ 6)
unfolding run
review_completes_example =
    review_completes ann bob ann 8 9 10 5 closing_input closing_input in_review_tables
      (row_of in_review_tables) refl (serve-AllValid tenant preparation tt).0 refl refl refl refl
      refl refl

serve-journal_example :
    InSync in_review_tables.journal
    × (length in_review_tables.journal.audit ≡ 0 + successes tenant preparation)
serve-journal_example = serve-journal tenant preparation refl
