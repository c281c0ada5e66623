-- ===== src/Changes/Records.antt =====
-- What the requests leave in the audit log and in the outbox.
use bash_builder.Prelude.{
  ℕ, suc, ◌+◌, ◌≡◌, refl, sym, subst, inl, inr, List, [], ◌∷◌, Result, ok, err, is_ok, after, arith,
  length, Identity, String, write, InSync, write-InSync, if◌then◌else◌,
}
use bash_builder.Changes.Types.{Tables}
use bash_builder.Changes.Service.{Call, handle, serve}
use bash_builder.Changes.Histories.{handle-cases}

-- How many requests of a history succeed.
pub successes : Tables → List (Identity × ℕ × Call) → ℕ
successes t [] = 0
successes t ((who, now, call) ∷ calls) =
    let rest = successes (after t (handle who now call t)) calls in
    if is_ok (handle who now call t) then suc rest else rest

-- One entry by the caller in each of the two tables.
abbrev Recorded : Identity → Tables → Tables → Type 0
Recorded who t u =
    (action : String) × (resource_type : String) × (resource : ℕ) × (u.journal
      ≡ write who action resource_type resource t.journal)

handle-Recorded :
    (who : Identity) (now : ℕ) (call : Call) (t u : Tables)
    → handle who now call t ≡ ok u
    → Recorded who t u
handle-Recorded who now call t u e = elim (handle-cases who now call t u e) [
  | inl c ↦ ("change.created", "change", c.id, c.journal)
  | inr b ↦ (b.action, b.resource_type, b.resource, b.journal)
]

after-journal :
    (who : Identity) (now : ℕ) (call : Call) (t : Tables) (r : Result Tables)
    → handle who now call t ≡ r
    → InSync t.journal
    → InSync (after t r).journal
      × (length (after t r).journal.audit ≡ length t.journal.audit + (if is_ok r then 1 else 0))
unfolding write
after-journal who now call t (err x) e h = (h, omega arith)
after-journal who now call t (ok u) e h =
    let (action, resource_type, resource, p) = handle-Recorded who now call t u e in
    (
      subst InSync (sym p) (write-InSync who action resource_type resource t.journal h),
      rw p (omega arith),
    )

-- After any history the outbox holds the same actions on the same resources as the audit log, in the
-- same order, and the log has grown by one entry for each request that succeeded.
pub serve-journal :
    (t : Tables) (calls : List (Identity × ℕ × Call))
    → InSync t.journal
    → InSync (serve t calls).journal
      × (length (serve t calls).journal.audit ≡ length t.journal.audit + successes t calls)
unfolding serve successes
serve-journal t [] h = (h, omega arith)
serve-journal t ((who, now, call) ∷ calls) h =
    let (synced, grown) = after-journal who now call t (handle who now call t) refl h in
    let (synced', grown') = serve-journal (after t (handle who now call t)) calls synced in
    (synced', ground arith)
