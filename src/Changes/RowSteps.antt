-- ===== src/Changes/RowSteps.antt =====
-- What a request does to the row of one change.
use bash_builder.Prelude.{
  ℕ, ◌≡◌, refl, sym, subst, ◌∙◌, ◌≢◌, inl, inr, ◌==◌, some, of_some-eq, List, [], ◌∷◌, Result, ok,
  err, after, arith, Bool-cases, ==_iff, Identity,
}
use bash_builder.Prelude.Table.{find_row, update_row-find, update_row-find_ne, find_row-fresh}
use bash_builder.Changes.Types.{Change, Tables}
use bash_builder.Changes.Rows.{
  new_change, risk_added, approval_added, decision_made, evidence_added, step_completed,
  transitioned,
}
use bash_builder.Changes.Service.{Call, handle, serve}
use bash_builder.Changes.Histories.{Body, Created, Updated, handle-cases}

-- No body changes the identifier or the creator.
pub Body-id :
    {who : Identity} {now : ℕ} {body : Change → Result Change}
    → Body who now body
    → (c d : Change) → body c ≡ ok d
    → (d.id ≡ c.id) × (d.created_by ≡ c.created_by)
unfolding risk_added approval_added decision_made evidence_added step_completed transitioned
Body-id (Body.risk id input) c d e = ground arith
Body-id (Body.approval id input found) c d e = ground arith
Body-id (Body.decision id raw input p) c d e = ground arith
Body-id (Body.evidence id input is_ready) c d e = ground arith
Body-id (Body.step n s input ne p) c d e = ground arith
Body-id (Body.move target expected) c d e = ground arith

-- One request seen from one row: nothing happened to it, or one body ran on it.
pub data RowStep (who : Identity) (now : ℕ) (c d : Change) : Type 0 where
  stays : d ≡ c → RowStep who now c d
  runs : (body : Change → Result Change) → Body who now body → body c ≡ ok d → RowStep who now c d

pub handle-RowStep :
    (who : Identity) (now : ℕ) (call : Call) (t u : Tables) (id : ℕ) (c : Change)
    → handle who now call t ≡ ok u
    → find_row (λ c. c.id) id t.changes ≡ some c
    → (d : Change) × (find_row (λ c. c.id) id u.changes ≡ some d) × RowStep who now c d
handle-RowStep who now call t u id c e f = elim (handle-cases who now call t u e) [
  | inl created ↦ (c, behind created, RowStep.stays refl)
  | inr updated ↦ elim (Bool-cases (updated.id == id)) [
    | inl hit ↦ same updated ((==_iff updated.id id).0 hit)
    | inr miss ↦
        (c, other updated (λ p. ground (arith, (==_iff updated.id id).1 p)), RowStep.stays refl)
  ]
]
  where
    behind : Created who t u → find_row (λ c. c.id) id u.changes ≡ some c
    behind w =
        subst (λ l. find_row (λ c. c.id) id l ≡ some c) (sym w.changes)
          (find_row-fresh (λ (c : Change). c.id) id (new_change w.id who.user w.input) t.changes
            (unfold new_change in w.fresh) f)

    here : (w : Updated who now t u) → w.id ≡ id → find_row (λ c. c.id) w.id t.changes ≡ some c
    here w p = rw p f

    same :
        (w : Updated who now t u)
        → w.id ≡ id
        → (d : Change) × (find_row (λ c. c.id) id u.changes ≡ some d) × RowStep who now c d
    same w p =
        let (a, d, found, ran, at) =
          update_row-find (λ c. c.id) w.id w.body (λ a b r. (Body-id w.is_body a b r).0) t.changes
            u.changes w.ran in
        (
          d,
          rw (← p) at,
          RowStep.runs w.body w.is_body
              (subst (λ x. w.body x ≡ ok d) (of_some-eq (sym found ∙ here w p)) ran),
        )

    other : (w : Updated who now t u) → w.id ≢ id → find_row (λ c. c.id) id u.changes ≡ some c
    other w ne =
        update_row-find_ne (λ c. c.id) w.id id w.body (λ a b r. (Body-id w.is_body a b r).0)
          t.changes u.changes ne w.ran
        ∙ f

-- A reflexive and transitive relation that every body keeps relates each row to what any history
-- makes of it; no row is lost.
module _ {ℓ} (R : Change → Change → Type ℓ) (unchanged : (c : Change) → R c c)
    (joined : (c d e : Change) → R c d → R d e → R c e)
    (kept : (who : Identity) (now : ℕ) (body : Change → Result Change)
      → Body who now body
      → (c d : Change) → body c ≡ ok d
      → R c d) where
  RowStep-related : (who : Identity) (now : ℕ) (c d : Change) → RowStep who now c d → R c d
  RowStep-related who now c d (RowStep.stays p) = subst (R c) (sym p) (unchanged c)
  RowStep-related who now c d (RowStep.runs body b r) = kept who now body b c d r

  after-related :
      (who : Identity) (now : ℕ) (call : Call) (t : Tables) (r : Result Tables) (id : ℕ)
      (c : Change)
      → handle who now call t ≡ r
      → find_row (λ c. c.id) id t.changes ≡ some c
      → (d : Change) × (find_row (λ c. c.id) id (after t r).changes ≡ some d) × R c d
  after-related who now call t (err x) id c e f = (c, f, unchanged c)
  after-related who now call t (ok u) id c e f =
      let (d, g, s) = handle-RowStep who now call t u id c e f in
      (d, g, RowStep-related who now c d s)

  pub serve-related :
      (t : Tables) (calls : List (Identity × ℕ × Call)) (id : ℕ) (c : Change)
      → find_row (λ c. c.id) id t.changes ≡ some c
      → (d : Change) × (find_row (λ c. c.id) id (serve t calls).changes ≡ some d) × R c d
  unfolding serve
  serve-related t [] id c f = (c, f, unchanged c)
  serve-related t ((who, now, call) ∷ calls) id c f =
      let (d, g, r) = after-related who now call t (handle who now call t) id c refl f in
      let (e, h, s) = serve-related (after t (handle who now call t)) calls id d g in
      (e, h, joined c d e r s)
