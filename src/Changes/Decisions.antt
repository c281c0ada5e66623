-- ===== src/Changes/Decisions.antt =====
-- Approvals: who decides them, and that a decision stands.
use bash_builder.Prelude.{
  ℕ, ◌+◌, ◌≡◌, refl, ap, subst, ◌⊎◌, inl, inr, true, false, ◌==◌, ◌||◌, Option, some, List, [], ◌∷◌,
  Result, ok, arith, any, Identity, >>=-eq-ok, throw_if-eq-ok, or_throw, ok-injective, forbidden,
  bad_request, internal, not,
}
use bash_builder.Prelude.Table.{find_row, update_row, update_row-row, find_row-fresh}
use bash_builder.Changes.Types.{
  Change, Tables, Approval, ApprovalInput, Approver, in_review, is_pending, same_status,
}
use bash_builder.Changes.Schema.{DecisionInput, parse_decision, parse_decision_lem}
use bash_builder.Changes.Rows.{
  risk_added, approval_added, approval_decided, decision_made, evidence_added, step_completed,
  transitioned, is_creator,
}
use bash_builder.Changes.Service.{Call, handle, serve}
use bash_builder.Changes.Histories.{Body}
use bash_builder.Changes.RowSteps.{RowStep, handle-RowStep, serve-related}

-- The approval was pending, and its own approver decides it while the change is in review.
pub record DecidedBy (user : ℕ) (c : Change) (a b : Approval) : Type 0 where
  pub open_before : is_pending a.decision ≡ true
  pub by_approver : a.approver.user ≡ user
  pub during_review : c.status ≡ in_review
  pub same_approver : b.approver ≡ a.approver
  pub closed_after : is_pending b.decision ≡ false
  pub counted : b.version ≡ a.version + 1

abbrev approval_id : Approval → ℕ
approval_id a = a.id

-- One approval across a body: it is the same, or its approver has decided it.
abbrev pub Across : ℕ → Change → Change → ℕ → Approval → Type 0
Across user c d id a =
    (b : Approval) × (find_row (λ a. a.id) id d.approvals ≡ some b) × (b ≡ a ⊎ DecidedBy user c a b)

same_approvals :
    (user : ℕ) (c d : Change) (id : ℕ) (a : Approval)
    → d.approvals ≡ c.approvals
    → find_row approval_id id c.approvals ≡ some a
    → Across user c d id a
same_approvals user c d id a p f = (a, rw p f, inl refl)

approval_decided-DecidedBy :
    (user now : ℕ) (raw input : DecisionInput) (c : Change) (a b : Approval)
    → parse_decision raw ≡ ok input
    → c.status ≡ in_review
    → approval_decided user now input a ≡ ok b
    → DecidedBy user c a b
unfolding approval_decided
approval_decided-DecidedBy user now raw input c a b p r e =
    ground (arith, parse_decision_lem raw input p)

approval_decided-id :
    (user now : ℕ) (input : DecisionInput) (a b : Approval)
    → approval_decided user now input a ≡ ok b
    → b.id ≡ a.id
unfolding approval_decided
approval_decided-id user now input a b e = ground arith

decision_made-Across :
    (user now target : ℕ) (raw input : DecisionInput) (c d : Change) (id : ℕ) (a : Approval)
    → parse_decision raw ≡ ok input
    → decision_made user now target input c ≡ ok d
    → find_row approval_id id c.approvals ≡ some a
    → Across user c d id a
unfolding decision_made
decision_made-Across user now target raw input c d id a p e f =
    let (reviewed, e₁) = throw_if-eq-ok (not (same_status c.status in_review)) bad_request _ e in
    let (approvals, e₂, e₃) =
      >>=-eq-ok (update_row approval_id target (approval_decided user now input) c.approvals) _
        e₁ in
    let at = ap (λ (d : Change). d.approvals) (ok-injective e₃) in
    let (b, g, w) =
      update_row-row approval_id target id (approval_decided user now input)
        (approval_decided-id user now input) c.approvals approvals a e₂ f in
    (
      b,
      subst (λ l. find_row approval_id id l ≡ some b) at g,
      elim w [
        | inl same ↦ inl same
        | inr r ↦ inr (approval_decided-DecidedBy user now raw input c a b p (ground arith) r)
      ],
    )

approval_added-Across :
    (user new : ℕ) (input : ApprovalInput) (found : Option Approver) (c d : Change) (id : ℕ)
    (a : Approval)
    → approval_added user new input found c ≡ ok d
    → find_row approval_id id c.approvals ≡ some a
    → Across user c d id a
unfolding approval_added
approval_added-Across user new input found c d id a e f =
    let (_, e₁) =
      throw_if-eq-ok (not (same_status c.status in_review) || not (c.current_step == 5)) bad_request
        _ e in
    let (approver, _, e₂) = >>=-eq-ok (or_throw found bad_request) _ e₁ in
    let (_, e₃) = throw_if-eq-ok (approver.user == user) forbidden _ e₂ in
    let (_, e₄) = throw_if-eq-ok (is_creator approver.user c.created_by) forbidden _ e₃ in
    let (unique, e₅) =
      throw_if-eq-ok (any (λ x. (x.approver.user == approver.user) || (x.id == new)) c.approvals)
        internal _ e₄ in
    (
      a,
      subst (λ l. find_row approval_id id l ≡ some a)
          (ap (λ (d : Change). d.approvals) (ok-injective e₅))
          (find_row-fresh approval_id id _ c.approvals (any_right approver.user c.approvals unique)
            f),
      inl refl,
    )
  where
    any_right :
        (p : ℕ) (l : List Approval)
        → any (λ x. (x.approver.user == p) || (x.id == new)) l ≡ false
        → any (λ x. x.id == new) l ≡ false
    any_right p [] h = refl
    any_right p (x ∷ l) h = ground (arith, any_right p l)

Body-Across :
    {who : Identity} {now : ℕ} {body : Change → Result Change}
    → Body who now body
    → (c d : Change) → body c ≡ ok d
    → (id : ℕ) (a : Approval) → find_row approval_id id c.approvals ≡ some a
    → Across who.user c d id a
unfolding risk_added evidence_added step_completed transitioned
Body-Across {who} (Body.risk new input) c d e id a f =
    same_approvals who.user c d id a (ground arith) f
Body-Across {who} (Body.approval new input found) c d e id a f =
    approval_added-Across who.user new input found c d id a e f
Body-Across {who} {now} (Body.decision target raw input p) c d e id a f =
    decision_made-Across who.user now target raw input c d id a p e f
Body-Across {who} (Body.evidence new input is_ready) c d e id a f =
    same_approvals who.user c d id a (ground arith) f
Body-Across {who} (Body.step n s input ne p) c d e id a f =
    same_approvals who.user c d id a (ground arith) f
Body-Across {who} (Body.move target expected) c d e id a f =
    same_approvals who.user c d id a (ground arith) f

-- Whatever a user requests, an approval of a change stays as it is, or that user is its approver and
-- decides it, once, while the change is in review.
pub handle-Across :
    (who : Identity) (now : ℕ) (call : Call) (t u : Tables) (change id : ℕ) (c : Change)
    (a : Approval)
    → handle who now call t ≡ ok u
    → find_row (λ c. c.id) change t.changes ≡ some c
    → find_row (λ a. a.id) id c.approvals ≡ some a
    → (d : Change) × (find_row (λ c. c.id) change u.changes ≡ some d) × Across who.user c d id a
handle-Across who now call t u change id c a e f g =
    let (d, h, s) = handle-RowStep who now call t u change c e f in (d, h, across d s)
  where
    across : (d : Change) → RowStep who now c d → Across who.user c d id a
    across d (RowStep.stays p) = same_approvals who.user c d id a (ground arith) g
    across d (RowStep.runs body b r) = Body-Across b c d r id a g

-- The approvals that are no longer pending, kept from one state of a change to a later one.
abbrev Stands : Change → Change → Type 0
Stands c d =
    (id : ℕ) (a : Approval)
    → find_row (λ a. a.id) id c.approvals ≡ some a
    → is_pending a.decision ≡ false
    → find_row (λ a. a.id) id d.approvals ≡ some a

Body-Stands :
    (who : Identity) (now : ℕ) (body : Change → Result Change)
    → Body who now body
    → (c d : Change) → body c ≡ ok d
    → Stands c d
Body-Stands who now body b c d e id a f closed =
    let (a', g, w) = Body-Across b c d e id a f in
    (elim w [
      | inl same ↦ subst (λ x. find_row approval_id id d.approvals ≡ some x) same g
      | inr k ↦ absurd (clash k.open_before)
    ])
  where
    clash : is_pending a.decision ≡ true → ⊥
    clash p = cc

-- A decision stands: after any history the approval is found with the decision, comment, date and
-- version that its approver gave it.
pub decision_stands :
    (t : Tables) (calls : List (Identity × ℕ × Call)) (change id : ℕ) (c : Change) (a : Approval)
    → find_row (λ c. c.id) change t.changes ≡ some c
    → find_row (λ a. a.id) id c.approvals ≡ some a
    → is_pending a.decision ≡ false
    → (d : Change) × (find_row (λ c. c.id) change (serve t calls).changes ≡ some d)
      × (find_row (λ a. a.id) id d.approvals ≡ some a)
decision_stands t calls change id c a f g closed =
    let (d, h, stands) =
      serve-related Stands (λ c id a f p. f) (λ c d e p q id a f r. q id a (p id a f r) r)
        Body-Stands t calls change c f in
    (d, h, stands id a g closed)
