-- ===== src/Changes/Versions/Stale.antt =====
-- Optimistic concurrency: a request that expects a version that has passed is refused.
use bash_builder.Changes.Versions.{step_completed-stages, transitioned-Moves, serve-version_le}
use bash_builder.Prelude.{
  ℕ, ◌+◌, ◌≡◌, sym, ap, ◌∙◌, inl, inr, false, ◌==◌, some, List, Result, ok, is_ok, arith,
  Result-cases, Identity, >>=-eq-ok, or_throw, throw_if-eq-ok, of_some-eq, positive, bad_request,
  ltb, ◌||◌, ok-injective,
}
use bash_builder.Prelude.Table.{find_row, update_row, update_row-find}
use bash_builder.Changes.Types.{Change, Tables, ChangeStatus, StepName}
use bash_builder.Changes.Schema.{StepInput, parse_step}
use bash_builder.Changes.Rows.{step_completed, transitioned, step_of}
use bash_builder.Changes.Service.{
  Call, complete_step, transition, handle, serve, complete_change_workflow_step, transition_change,
}
use bash_builder.Changes.Invariant.{step_of-number}
use bash_builder.Changes.Histories.{Body}
use bash_builder.Changes.RowSteps.{Body-id}

-- The requests that name an expected version of a change.
pub data Expects (id expected : ℕ) : Call → Type 0 where
  step :
      (n : ℕ) (input : StepInput)
      → input.expected_version ≡ expected
      → Expects id expected (complete_step id n input)
  move : (target : ChangeStatus) → Expects id expected (transition id target expected)

step_completed-version :
    (actor now n : ℕ) (s : StepName) (input : StepInput) (c d : Change)
    → step_completed actor now n s input c ≡ ok d
    → c.version ≡ input.expected_version
unfolding step_completed
step_completed-version actor now n s input c d e = ground arith

transitioned-version :
    (actor now : ℕ) (target : ChangeStatus) (expected : ℕ) (c d : Change)
    → transitioned actor now target expected c ≡ ok d
    → c.version ≡ expected
unfolding transitioned
transitioned-version actor now target expected c d e = ground arith

parse_step-version :
    (raw input : StepInput)
    → parse_step raw ≡ ok input
    → input.expected_version ≡ raw.expected_version
unfolding parse_step positive
parse_step-version raw input e = ground arith

positive-eq : (n m : ℕ) → positive n ≡ ok m → m ≡ n
unfolding positive
positive-eq n m e = ground arith

-- What a request that names an expected version found, and left.
abbrev Found : ℕ → ℕ → Tables → Tables → Type 0
Found id expected t u =
    (c : Change) × (d : Change) × (find_row (λ c. c.id) id t.changes ≡ some c)
    × (find_row (λ c. c.id) id u.changes ≡ some d)
    × (c.version ≡ expected)
    × (d.version ≡ expected + 1)

update-Found :
    (who : Identity) (now id expected : ℕ) (body : Change → Result Change) (t u : Tables)
    → Body who now body
    → ((c d : Change) → body c ≡ ok d → (c.version ≡ expected) × (d.version ≡ c.version + 1))
    → update_row (λ c. c.id) id body t.changes ≡ ok u.changes
    → Found id expected t u
update-Found who now id expected body t u b versions e =
    let (c, d, f, r, g) =
      update_row-find (λ c. c.id) id body (λ a b' r. (Body-id b a b' r).0) t.changes u.changes e in
    (c, d, f, g, (versions c d r).0, omega (arith, versions c d r))

step-Found :
    (who : Identity) (now id n expected : ℕ) (input : StepInput) (t u : Tables)
    → input.expected_version ≡ expected
    → complete_change_workflow_step who now id n input t ≡ ok u
    → Found id expected t u
unfolding complete_change_workflow_step
step-Found who now id n expected input t u p e =
    let (parsed, q, e₁) = >>=-eq-ok (parse_step input) _ e in
    let (_, e₂) = throw_if-eq-ok (ltb n 1 || ltb 6 n) bad_request _ e₁ in
    let (not_five, e₃) = throw_if-eq-ok (n == 5) bad_request _ e₂ in
    let (s, e₄, e₅) = >>=-eq-ok (or_throw (step_of n) bad_request) _ e₃ in
    let is_number = step_of-number n s (ground (arith, e₄)) in
    let (changes, e₆, e₇) = >>=-eq-ok (update_row (λ c. c.id) id _ t.changes) _ e₅ in
    update-Found who now id expected (step_completed who.user now n s parsed) t u
      (Body.step n s parsed (ground arith) is_number)
      (λ c d r. (
        step_completed-version who.user now n s parsed c d r
            ∙ parse_step-version input parsed q
            ∙ p,
        (step_completed-stages who.user now n s parsed (ground arith) is_number c d r).1,
      ))
      (e₆ ∙ ap ok (ap (λ (t : Tables). t.changes) (ok-injective e₇)))

move-Found :
    (who : Identity) (now id expected : ℕ) (target : ChangeStatus) (t u : Tables)
    → transition_change who now id target expected t ≡ ok u
    → Found id expected t u
unfolding transition_change
move-Found who now id expected target t u e =
    let (version, q, e₁) = >>=-eq-ok (positive expected) _ e in
    let (changes, e₂, e₃) = >>=-eq-ok (update_row (λ c. c.id) id _ t.changes) _ e₁ in
    update-Found who now id expected (transitioned who.user now target version) t u
      (Body.move target version)
      (λ c d r. (
        transitioned-version who.user now target version c d r ∙ positive-eq expected version q,
        (transitioned-Moves who.user now target version c d r).1,
      ))
      (e₂ ∙ ap ok (ap (λ (t : Tables). t.changes) (ok-injective e₃)))

Expects-Found :
    (who : Identity) (now id expected : ℕ) (call : Call) (t u : Tables)
    → Expects id expected call
    → handle who now call t ≡ ok u
    → Found id expected t u
unfolding handle
Expects-Found who now id expected call t u (Expects.step n input p) e =
    step-Found who now id n expected input t u p e
Expects-Found who now id expected call t u (Expects.move target) e =
    move-Found who now id expected target t u e

-- No lost update: once a workflow step or a transition that expected this version of a change has
-- succeeded, every later one that expects the same version is refused, whatever happened between.
pub stale_version :
    (who late : Identity) (now later id expected : ℕ) (call stale : Call) (t u : Tables)
    (between : List (Identity × ℕ × Call))
    → Expects id expected call
    → handle who now call t ≡ ok u
    → Expects id expected stale
    → is_ok (handle late later stale (serve u between)) ≡ false
stale_version who late now later id expected call stale t u between x e y =
    elim (Result-cases (handle late later stale (serve u between))) [
      | inl (r, p) ↦ rw p
      | inr (v, p) ↦ absurd (clash v p)
    ]
  where
    clash : (v : Tables) → handle late later stale (serve u between) ≡ ok v → ⊥
    clash v p =
        let (c, d, f, g, m, n) = Expects-Found who now id expected call t u x e in
        let (d', g', le) = serve-version_le u between id d g in
        let (c₂, d₂, f₂, g₂, m₂, n₂) =
          Expects-Found late later id expected stale (serve u between) v y p in
        absurd (omega (arith, ap (λ (c : Change). c.version) (of_some-eq (sym g' ∙ f₂))))
