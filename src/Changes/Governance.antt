-- ===== src/Changes/Governance.antt =====
-- What a change has behind it when it is approved, and what can no longer happen when it is closed.
use bash_builder.Prelude.{
  ℕ, ◌≡◌, refl, ◌∙◌, Bool, true, false, some, List, [], Result, ok, arith, All, All-mono, all,
  is_empty, Identity, Journal,
}
use bash_builder.Prelude.Table.{find_row, find_row-All}
use bash_builder.Changes.Types.{Change, Tables, ChangeStatus, completed, rejected}
use bash_builder.Changes.Rows.{
  is_creator, risk_added, approval_added, decision_made, evidence_added, step_completed,
  transitioned,
}
use bash_builder.Changes.Stages.{flags, flags_of}
use bash_builder.Changes.Invariant.{IsValid, IsSound, is_cleared, is_approved, progress}
use bash_builder.Changes.Service.{Call, serve}
use bash_builder.Changes.Histories.{Body, serve-AllValid}
use bash_builder.Changes.RowSteps.{serve-related}

-- A tenant with no changes yet.
abbrev pub new_tenant : List ℕ → Journal → Tables
new_tenant files journal = record { changes = []; ready_files = files; journal = journal }

-- Risks, approvals and steps of a change that has been approved.
pub record IsGoverned (c : Change) : Type 0 where
  pub has_risk : is_empty c.risks ≡ false
  pub has_approval : is_empty c.approvals ≡ false
  pub all_approved : all is_approved c.approvals ≡ true
  pub not_by_creator : All (λ a. is_creator a.approver.user c.created_by ≡ false) c.approvals
  pub steps_done : flags c.steps ≡ flags_of (progress c.status c.current_step)
  pub last_step : c.current_step ≡ 6

governed : (c : Change) → IsValid c → is_cleared c.status ≡ true → IsGoverned c
governed c v h = record {
  has_risk = ground arith;
  has_approval = v.decided h;
  all_approved = v.cleared h;
  not_by_creator = All-mono (IsSound c.created_by) _ (λ a s. s.0) c.approvals v.sound;
  steps_done = v.flagged;
  last_step = ground arith;
}

-- However a tenant's users got there, a change that is approved, being implemented or completed has
-- a risk, has approvals, all of them APPROVED and none by its creator, and has completed five of its
-- six workflow steps, or all six if it is completed.
pub serve-IsGoverned :
    (files : List ℕ) (journal : Journal) (calls : List (Identity × ℕ × Call)) (id : ℕ) (c : Change)
    → find_row (λ c. c.id) id (serve (new_tenant files journal) calls).changes ≡ some c
    → is_cleared c.status ≡ true
    → IsGoverned c
serve-IsGoverned files journal calls id c f h =
    governed c
      (find_row-All (λ c. c.id) IsValid id (serve (new_tenant files journal) calls).changes
        (serve-AllValid (new_tenant files journal) calls tt) f)
      h

abbrev pub is_closed : ChangeStatus → Bool
is_closed completed = true
is_closed rejected = true
is_closed _ = false

-- What a closed change keeps: all but its evidence.
pub record Kept (c d : Change) : Type 0 where
  pub status : d.status ≡ c.status
  pub current_step : d.current_step ≡ c.current_step
  pub version : d.version ≡ c.version
  pub risks : d.risks ≡ c.risks
  pub approvals : d.approvals ≡ c.approvals
  pub steps : d.steps ≡ c.steps
  pub details : d.details ≡ c.details

Kept-trans : (c d e : Change) → Kept c d → Kept d e → Kept c e
Kept-trans c d e p q = record {
  status = q.status ∙ p.status;
  current_step = q.current_step ∙ p.current_step;
  version = q.version ∙ p.version;
  risks = q.risks ∙ p.risks;
  approvals = q.approvals ∙ p.approvals;
  steps = q.steps ∙ p.steps;
  details = q.details ∙ p.details;
}

Body-Kept :
    (who : Identity) (now : ℕ) (body : Change → Result Change)
    → Body who now body
    → (c d : Change) → body c ≡ ok d
    → is_closed c.status ≡ true
    → Kept c d
unfolding risk_added approval_added decision_made evidence_added step_completed transitioned
Body-Kept who now body (Body.risk id input) c d e h = ground arith
Body-Kept who now body (Body.approval id input found) c d e h = ground arith
Body-Kept who now body (Body.decision id raw input p) c d e h = ground arith
Body-Kept who now body (Body.evidence id input is_ready) c d e h = ground arith
Body-Kept who now body (Body.step n s input ne p) c d e h = ground arith
Body-Kept who now body (Body.move target expected) c d e h = ground arith

-- No request reopens or edits a completed or rejected change: after any history it has the same
-- status, step, version, risks, approvals, workflow steps and details. Only evidence may be added.
pub serve-Kept :
    (t : Tables) (calls : List (Identity × ℕ × Call)) (id : ℕ) (c : Change)
    → find_row (λ c. c.id) id t.changes ≡ some c
    → is_closed c.status ≡ true
    → (d : Change) × (find_row (λ c. c.id) id (serve t calls).changes ≡ some d) × Kept c d
serve-Kept t calls id c f h =
    let (d, g, k) =
      serve-related (λ c d. is_closed c.status ≡ true → Kept c d)
        (λ c h. record {
          status = refl;
          current_step = refl;
          version = refl;
          risks = refl;
          approvals = refl;
          steps = refl;
          details = refl;
        })
        (λ c d e p q h. let k = p h in Kept-trans c d e k (q (rw (k.status) h))) Body-Kept t calls
        id c f in
    (d, g, k h)
