-- ===== src/Changes/Service.antt =====
-- The change operations as transactions on a tenant's tables, and a history of calls. Text, dates
-- and identifiers have been read by the schemas; numbers that are no natural numbers are refused
-- there. A new row's identifier, the time and the answer of the approver procedure are arguments.
use bash_builder.Prelude.{
  ℕ, ◌==◌, ltb, ◌||◌, Option, List, [], ◌∷◌, any, includes, Result, ok, ◌>>=◌, ◌>>◌, throw_if,
  or_throw, after, bad_request, conflict, internal, String, text_eq, positive, Identity, write,
}
use bash_builder.Prelude.Table.{update_row}
use bash_builder.Changes.Schema.{
  DecisionInput, StepInput, parse_change, parse_risk, parse_approval, parse_evidence,
  parse_decision, parse_step,
}
use bash_builder.Changes.Types.{
  ChangeStatus, ChangeInput, RiskInput, ApprovalInput, Approver, EvidenceInput, Change, Tables,
}
use bash_builder.Changes.Rows.{
  new_change, risk_added, approval_added, decision_made, evidence_added, step_of, step_completed,
  transitioned,
}

-- Finds the change of this identifier, runs a body on it and writes it back; `record` follows.
abbrev pub on_change :
    Identity → ℕ → (Change → Result Change) → String → String → ℕ → Tables → Result Tables
on_change who id body action resource_type resource t = do
  changes ← update_row (λ c. c.id) id body t.changes
  ok (record t { changes = changes; journal = write who action resource_type resource t.journal })

-- `createChange`. A taken code violates `@@unique([organizationId, publicCode])`, which the handler
-- answers; a taken identifier violates the primary key.
unfoldable pub create_change : Identity → ℕ → ChangeInput → Tables → Result Tables
unfolding new_change
create_change who id input t = do
  data' ← parse_change input
  throw_if (any (λ c. text_eq c.details.public_code data'.public_code) t.changes) conflict
  throw_if (any (λ c. c.id == id) t.changes) internal
  ok (record t {
    changes = new_change id who.user data' ∷ t.changes;
    journal = write who "change.created" "change" id t.journal;
  })

unfoldable pub add_change_risk : Identity → ℕ → ℕ → RiskInput → Tables → Result Tables
add_change_risk who change id input t = do
  risk ← parse_risk input
  on_change who change (risk_added id risk) "change.risk_created" "change_risk" id t

unfoldable pub add_change_approval :
    Identity → ℕ → ℕ → ApprovalInput → Option Approver → Tables → Result Tables
add_change_approval who change id input found t = do
  approval ← parse_approval input
  on_change who change (approval_added who.user id approval found) "change.approval_requested"
      "change_approval" id t

unfoldable pub decide_change_approval :
    Identity → ℕ → ℕ → ℕ → DecisionInput → Tables → Result Tables
decide_change_approval who now change id input t = do
  parsed ← parse_decision input
  on_change who change (decision_made who.user now id parsed) "change.approval_decided"
      "change_approval" id t

unfoldable pub add_change_evidence : Identity → ℕ → ℕ → EvidenceInput → Tables → Result Tables
add_change_evidence who change id input t = do
  evidence ← parse_evidence input
  on_change who change (evidence_added id evidence (includes t.ready_files evidence.file))
      "change.evidence_linked" "change_evidence" id t

unfoldable pub complete_change_workflow_step :
    Identity → ℕ → ℕ → ℕ → StepInput → Tables → Result Tables
complete_change_workflow_step who now change n input t = do
  step ← parse_step input
  throw_if (ltb n 1 || ltb 6 n) bad_request
  throw_if (n == 5) bad_request
  s ← or_throw (step_of n) bad_request
  on_change who change (step_completed who.user now n s step) "change.workflow_step_completed"
      "change_workflow_step" change t

unfoldable pub transition_change : Identity → ℕ → ℕ → ChangeStatus → ℕ → Tables → Result Tables
transition_change who now change target expected t = do
  version ← positive expected
  on_change who change (transitioned who.user now target version) "change.status_changed" "change"
      change t

-- One request of a client, with what the environment answers.
pub data Call : Type 0 where
  create : ℕ → ChangeInput → Call
  add_risk : ℕ → ℕ → RiskInput → Call
  add_approval : ℕ → ℕ → ApprovalInput → Option Approver → Call
  decide : ℕ → ℕ → DecisionInput → Call
  add_evidence : ℕ → ℕ → EvidenceInput → Call
  complete_step : ℕ → ℕ → StepInput → Call
  transition : ℕ → ChangeStatus → ℕ → Call

unfoldable pub handle : Identity → ℕ → Call → Tables → Result Tables
handle who now (create id input) = create_change who id input
handle who now (add_risk change id input) = add_change_risk who change id input
handle who now (add_approval change id input found) = add_change_approval who change id input found
handle who now (decide change id input) = decide_change_approval who now change id input
handle who now (add_evidence change id input) = add_change_evidence who change id input
handle who now (complete_step change n input) = complete_change_workflow_step who now change n input
handle who now (transition change target expected) =
    transition_change who now change target expected

-- Requests in the order of their transactions; one that throws leaves the tables as they were.
unfoldable pub serve : Tables → List (Identity × ℕ × Call) → Tables
serve t [] = t
serve t ((who, now, call) ∷ calls) = serve (after t (handle who now call t)) calls
