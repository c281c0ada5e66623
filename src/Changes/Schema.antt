-- ===== src/Changes/Schema.antt =====
-- The input schemas of the change operations. Dates, identifiers and the address of an approver have
-- been read; a number that is no natural number has been refused.
use bash_builder.Prelude.{
  ℕ, ◌<◌, ◌≡◌, false, arith, ◌==◌, leb, Bool, true, not, ◌||◌, ◌&&◌, Option, none, some, List, [],
  ◌∷◌, all, is_empty, Result, ok, ◌>>=◌, ◌>>◌, throw_if, bad_request, Text, text, optional_text,
  positive,
}
use bash_builder.Changes.Types.{
  ChangeInput, RiskInput, ApprovalInput, EvidenceInput, Decision, is_pending, is_rejected,
}

abbrev pub is_alphanumeric : ℕ → Bool
is_alphanumeric c =
    (leb b'0' c && leb c b'9') || (leb b'a' c && leb c b'z') || (leb b'A' c && leb c b'Z')

-- `/^[A-Z0-9][A-Z0-9-]*$/i`
abbrev pub is_code : Text → Bool
is_code [] = true
is_code (c ∷ s) = is_alphanumeric c && all (λ d. is_alphanumeric d || (d == b'-')) s

-- `createChangeSchema`
unfoldable pub parse_change : ChangeInput → Result ChangeInput
parse_change r = do
  public_code ← text 2 32 r.public_code
  throw_if (not (is_code public_code)) bad_request
  title ← text 2 200 r.title
  description ← optional_text 10000 r.description
  requested_by ← optional_text 160 r.requested_by
  owner ← optional_text 160 r.owner
  ok (record {
    public_code = public_code;
    title = title;
    description = description;
    requested_by = requested_by;
    owner = owner;
    due_at = r.due_at;
  })

-- `riskSchema`
unfoldable pub parse_risk : RiskInput → Result RiskInput
parse_risk r = do
  hazard ← text 2 300 r.hazard
  consequence ← optional_text 10000 r.consequence
  throw_if (not (leb 1 r.probability && leb r.probability 5)) bad_request
  throw_if (not (leb 1 r.severity && leb r.severity 5)) bad_request
  controls ← optional_text 10000 r.controls
  owner ← optional_text 160 r.owner
  ok (record r { hazard = hazard; consequence = consequence; controls = controls; owner = owner })

-- `approvalSchema`; the address has been trimmed, lowered and checked.
unfoldable pub parse_approval : ApprovalInput → Result ApprovalInput
parse_approval r = do
  name ← text 2 160 r.approver_name
  role ← optional_text 120 r.role
  ok (record r { approver_name = name; role = role })

-- `evidenceSchema`
unfoldable pub parse_evidence : EvidenceInput → Result EvidenceInput
parse_evidence r = do
  category ← optional_text 80 r.category
  description ← optional_text 10000 r.description
  ok (record r { category = category; description = description })

pub record DecisionInput : Type 0 where
  pub decision : Decision
  pub comment : Option Text
  pub expected_version : ℕ

-- `!input.comment`
abbrev pub is_blank : Option Text → Bool
is_blank none = true
is_blank (some t) = is_empty t

-- `approvalDecisionSchema`: a decision other than PENDING, with a comment if it is REJECTED.
unfoldable pub parse_decision : DecisionInput → Result DecisionInput
parse_decision r = do
  throw_if (is_pending r.decision) bad_request
  comment ← optional_text 10000 r.comment
  version ← positive r.expected_version
  throw_if (is_rejected r.decision && is_blank comment) bad_request
  ok (record r { comment = comment; expected_version = version })

pub record StepInput : Type 0 where
  pub notes : Text
  pub fields : List (Text × Text)
  pub expected_version : ℕ

-- `z.record(z.string(), z.string().trim().max(10_000))`
unfoldable pub parse_fields : List (Text × Text) → Result (List (Text × Text))
parse_fields [] = ok []
parse_fields ((k, v) ∷ m) = do t ← text 0 10000 v; rest ← parse_fields m; ok ((k, t) ∷ rest)

-- `workflowStepSchema`
unfoldable pub parse_step : StepInput → Result StepInput
parse_step r = do
  notes ← text 10 10000 r.notes
  fields ← parse_fields r.fields
  version ← positive r.expected_version
  ok (record { notes = notes; fields = fields; expected_version = version })

-- A decision that the schema lets through is no PENDING, and a rejection has a comment.
pub parse_decision_lem :
    (raw input : DecisionInput)
    → parse_decision raw ≡ ok input
    → (is_pending input.decision ≡ false)
      × ((is_rejected input.decision && is_blank input.comment) ≡ false)
      × (0 < input.expected_version)
unfolding parse_decision positive
parse_decision_lem raw input e = ground arith
