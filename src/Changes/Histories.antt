-- ===== src/Changes/Histories.antt =====
-- What one successful request does to the tables of a tenant, and what holds after any history.
use bash_builder.Prelude.{
  ℕ, ◌≡◌, sym, ap, ◌∙◌, ◌≢◌, ◌⊎◌, inl, inr, Bool, false, ◌==◌, Option, List, [], ◌∷◌, Result, ok,
  or_throw, after, arith, All, any, Result-cases, >>=-eq-ok, throw_if-eq-ok, conflict, internal,
  bad_request, ltb, ◌||◌, ok-injective, Identity, write, String, positive, subst, text_eq,
}
use bash_builder.Prelude.Table.{update_row, update_row-All}
use bash_builder.Changes.Types.{
  Change, Tables, StepName, step_number, ChangeStatus, ChangeInput, RiskInput, ApprovalInput,
  Approver, EvidenceInput,
}
use bash_builder.Changes.Schema.{
  DecisionInput, StepInput, parse_decision, parse_risk, parse_change, parse_approval,
  parse_evidence, parse_step,
}
use bash_builder.Changes.Rows.{
  new_change, risk_added, approval_added, decision_made, evidence_added, step_completed, step_of,
  transitioned,
}
use bash_builder.Changes.Invariant.{
  IsValid, new_change-IsValid, risk_added-IsValid, approval_added-IsValid, decision_made-IsValid,
  evidence_added-IsValid, step_of-number, step_completed-IsValid, transitioned-IsValid,
}
use bash_builder.Changes.Service.{
  Call, create, add_risk, add_approval, decide, add_evidence, complete_step, transition, handle,
  serve, on_change, create_change, add_change_risk, add_change_approval, decide_change_approval,
  add_change_evidence, complete_change_workflow_step, transition_change,
}

-- The bodies that a request can run on the row of its change.
pub data Body (who : Identity) (now : ℕ) : (Change → Result Change) → Type 0 where
  risk : (id : ℕ) (input : RiskInput) → Body who now (risk_added id input)
  approval :
      (id : ℕ) (input : ApprovalInput) (found : Option Approver)
      → Body who now (approval_added who.user id input found)
  decision :
      (id : ℕ) (raw input : DecisionInput)
      → parse_decision raw ≡ ok input
      → Body who now (decision_made who.user now id input)
  evidence :
      (id : ℕ) (input : EvidenceInput) (is_ready : Bool)
      → Body who now (evidence_added id input is_ready)
  step :
      (n : ℕ) (s : StepName) (input : StepInput)
      → n ≢ 5
      → step_number s ≡ n
      → Body who now (step_completed who.user now n s input)
  move :
      (target : ChangeStatus) (expected : ℕ)
      → Body who now (transitioned who.user now target expected)

pub record Created (who : Identity) (t u : Tables) : Type 0 where
  pub id : ℕ
  pub input : ChangeInput
  pub changes : u.changes ≡ new_change id who.user input ∷ t.changes
  pub fresh : any (λ c. c.id == id) t.changes ≡ false
  pub journal : u.journal ≡ write who "change.created" "change" id t.journal

pub record Updated (who : Identity) (now : ℕ) (t u : Tables) : Type 0 where
  pub id : ℕ
  pub body : Change → Result Change
  pub action : String
  pub resource_type : String
  pub resource : ℕ
  pub is_body : Body who now body
  pub ran : update_row (λ c. c.id) id body t.changes ≡ ok u.changes
  pub journal : u.journal ≡ write who action resource_type resource t.journal

on_change-Updated :
    (who : Identity) (now id : ℕ) (body : Change → Result Change) (action resource_type : String)
    (resource : ℕ) (t u : Tables)
    → Body who now body
    → on_change who id body action resource_type resource t ≡ ok u
    → Updated who now t u
on_change-Updated who now id body action resource_type resource t u b e =
    let (changes, e₁, e₂) = >>=-eq-ok (update_row (λ c. c.id) id body t.changes) _ e in
    record {
      id = id;
      body = body;
      action = action;
      resource_type = resource_type;
      resource = resource;
      is_body = b;
      ran = e₁ ∙ ap ok (ap (λ (t : Tables). t.changes) (ok-injective e₂));
      journal = sym (ap (λ (t : Tables). t.journal) (ok-injective e₂));
    }

create_change-Created :
    (who : Identity) (id : ℕ) (input : ChangeInput) (t u : Tables)
    → create_change who id input t ≡ ok u
    → Created who t u
unfolding create_change
create_change-Created who id input t u e =
    let (parsed, _, e₁) = >>=-eq-ok (parse_change input) _ e in
    let (_, e₂) =
      throw_if-eq-ok (any (λ c. text_eq c.details.public_code parsed.public_code) t.changes)
        conflict _ e₁ in
    let (fresh, e₃) = throw_if-eq-ok (any (λ c. c.id == id) t.changes) internal _ e₂ in
    record {
      id = id;
      input = parsed;
      changes = sym (ap (λ (t : Tables). t.changes) (ok-injective e₃));
      fresh = fresh;
      journal = sym (ap (λ (t : Tables). t.journal) (ok-injective e₃));
    }

step-Updated :
    (who : Identity) (now change n : ℕ) (input : StepInput) (t u : Tables)
    → complete_change_workflow_step who now change n input t ≡ ok u
    → Updated who now t u
unfolding complete_change_workflow_step
step-Updated who now change n input t u e =
    let (parsed, _, e₁) = >>=-eq-ok (parse_step input) _ e in
    let (_, e₂) = throw_if-eq-ok (ltb n 1 || ltb 6 n) bad_request _ e₁ in
    let (not_five, e₃) = throw_if-eq-ok (n == 5) bad_request _ e₂ in
    let (s, e₄, e₅) = >>=-eq-ok (or_throw (step_of n) bad_request) _ e₃ in
    on_change-Updated who now change _ _ _ change t u
      (Body.step n s parsed (ground arith) (step_of-number n s (ground (arith, e₄)))) e₅

-- A request that succeeds creates a change or runs one body on one row.
pub handle-cases :
    (who : Identity) (now : ℕ) (call : Call) (t u : Tables)
    → handle who now call t ≡ ok u
    → Created who t u ⊎ Updated who now t u
unfolding handle add_change_risk add_change_approval decide_change_approval add_change_evidence
    transition_change
handle-cases who now (create id input) t u e = inl (create_change-Created who id input t u e)
handle-cases who now (add_risk change id input) t u e =
    let (parsed, _, ran) = >>=-eq-ok (parse_risk input) _ e in
    inr (on_change-Updated who now change _ _ _ id t u (Body.risk id parsed) ran)
handle-cases who now (add_approval change id input found) t u e =
    let (parsed, _, ran) = >>=-eq-ok (parse_approval input) _ e in
    inr (on_change-Updated who now change _ _ _ id t u (Body.approval id parsed found) ran)
handle-cases who now (decide change id input) t u e =
    let (parsed, p, ran) = >>=-eq-ok (parse_decision input) _ e in
    inr (on_change-Updated who now change _ _ _ id t u (Body.decision id input parsed p) ran)
handle-cases who now (add_evidence change id input) t u e =
    let (parsed, _, ran) = >>=-eq-ok (parse_evidence input) _ e in
    inr (on_change-Updated who now change _ _ _ id t u (Body.evidence id parsed _) ran)
handle-cases who now (complete_step change n input) t u e =
    inr (step-Updated who now change n input t u e)
handle-cases who now (transition change target expected) t u e =
    let (version, _, ran) = >>=-eq-ok (positive expected) _ e in
    inr (on_change-Updated who now change _ _ _ change t u (Body.move target version) ran)

Body-IsValid :
    {who : Identity} {now : ℕ} {body : Change → Result Change}
    → Body who now body
    → (c d : Change) → IsValid c
    → body c ≡ ok d
    → IsValid d
Body-IsValid (Body.risk id input) = risk_added-IsValid id input
Body-IsValid {who} (Body.approval id input found) = approval_added-IsValid who.user id input found
Body-IsValid {who} {now} (Body.decision id raw input p) =
    decision_made-IsValid who.user now id raw input p
Body-IsValid (Body.evidence id input is_ready) = evidence_added-IsValid id input is_ready
Body-IsValid {who} {now} (Body.step n s input ne p) =
    step_completed-IsValid who.user now n s input ne p
Body-IsValid {who} {now} (Body.move target expected) =
    transitioned-IsValid who.user now target expected

abbrev pub AllValid : Tables → Type 0
AllValid t = All IsValid t.changes

handle-AllValid :
    (who : Identity) (now : ℕ) (call : Call) (t u : Tables)
    → AllValid t
    → handle who now call t ≡ ok u
    → AllValid u
handle-AllValid who now call t u v e = elim (handle-cases who now call t u e) [
  | inl c ↦ subst (All IsValid) (sym c.changes) (new_change-IsValid c.id who.user c.input, v)
  | inr b ↦
      update_row-All (λ c. c.id) IsValid b.id b.body (Body-IsValid b.is_body) t.changes u.changes v
        b.ran
]

after-AllValid :
    (who : Identity) (now : ℕ) (call : Call) (t : Tables)
    → AllValid t
    → AllValid (after t (handle who now call t))
after-AllValid who now call t v = elim (Result-cases (handle who now call t)) [
  | inl (x, e) ↦ rw e v
  | inr (u, e) ↦ rw e (handle-AllValid who now call t u v e)
]

-- Whatever requests a tenant's users make, in whatever order, every change row stays valid.
pub serve-AllValid :
    (t : Tables) (calls : List (Identity × ℕ × Call)) → AllValid t → AllValid (serve t calls)
unfolding serve
serve-AllValid t [] v = v
serve-AllValid t ((who, now, call) ∷ calls) v =
    serve-AllValid (after t (handle who now call t)) calls (after-AllValid who now call t v)
