-- ===== src/Hht/Frozen/Windows.antt =====
-- Windows: what a request leaves of a closed period.
use bash_builder.Prelude.{
  ℕ, ◌≡◌, ap, sym, ◌∙◌, subst, inl, inr, false, some, none, List, ◌∷◌, Bool-cases, Option-cases,
  of_some-eq, Result, ok, ◌>>=◌, >>=-eq-ok, ok-injective, arith, Identity, write, positive,
}
use bash_builder.Prelude.Select.{
  find_first, select, update_first, find_first-update_first, update_first-ran,
}
use bash_builder.Hht.Types.{Period, same_period, Window, closed, Report, is_draft, Tables}
use bash_builder.Hht.Schema.{WindowInput, parse_window, parse_period}
use bash_builder.Hht.Service.{window_of, reports_of, upsert_window, window_edited, new_window}
use bash_builder.Hht.Closing.{window_closed, close_window}
use bash_builder.Hht.Periods.{
  same_period-eq, same_period-other, IsClosed, reports_of-lock_reports, Same,
}

-- An update of the window of another period, or of a closed one, leaves the closed window alone.
window_kept :
    (q p : Period) (w : Window) (body : Window → Result Window) (ws vs : List Window)
    → window_of p ws ≡ some w
    → ((b : Window) → ¬ body w ≡ ok b)
    → ((a b : Window) → body a ≡ ok b → b.period ≡ a.period)
    → update_first (λ w. same_period w.period q) body ws ≡ ok vs
    → (same_period q p ≡ false) × (window_of p vs ≡ window_of p ws)
window_kept q p w body ws vs f refused keep e = elim (Bool-cases (same_period q p)) [
  | inl hit ↦
      let (a, b, g, r) = update_first-ran (λ w. same_period w.period q) body ws vs e in
      let g' = subst (λ x. window_of x ws ≡ some a) (same_period-eq q p hit) g in
      absurd (refused b (subst (λ x. body x ≡ ok b) (of_some-eq (sym g' ∙ f)) r))
  | inr miss ↦ (
    miss,
    find_first-update_first (λ w. same_period w.period p) (λ w. same_period w.period q) body
        (λ a b hit r.
          let other = same_period-other a.period q p miss hit in
          (other, subst (λ x. same_period x p ≡ false) (sym (keep a b r)) other))
        ws vs e,
  )
]

edit_refused :
    (input : WindowInput) (w : Window)
    → w.status ≡ closed
    → (b : Window) → ¬ window_edited input w ≡ ok b
unfolding window_edited
edit_refused input w shut b e = ground (arith, shut, e)

edit_period :
    (input : WindowInput) (a b : Window) → window_edited input a ≡ ok b → b.period ≡ a.period
unfolding window_edited
edit_period input a b e = ground (arith, e)

pub upsert_window-Same :
    (who : Identity) (id : ℕ) (raw : WindowInput) (p : Period) (w : Window) (t u : Tables)
    → IsClosed p w t
    → upsert_window who id raw t ≡ ok u
    → Same p t u
unfolding upsert_window find_first
upsert_window-Same who id raw p w t u c e =
    let (input, _, e₁) = >>=-eq-ok (parse_window raw) _ e in
    elim (Option-cases (window_of input.period t.windows)) [
      | inl missing ↦ created input missing (ground (arith, missing, e₁))
      | inr (old, found) ↦ edited input old (rw found at e₁)
    ]
  where
    created :
        (input : WindowInput)
        → window_of input.period t.windows ≡ none
        → (u.windows ≡ new_window id input ∷ t.windows) × (u.reports ≡ t.reports)
        → Same p t u
    created input missing h = elim (Bool-cases (same_period input.period p)) [
      | inl hit ↦
          let none_here =
            subst (λ x. window_of x t.windows ≡ none) (same_period-eq input.period p hit) missing in
          absurd (ground (arith, none_here, c.0))
      | inr miss ↦ (rw (h.0, miss), rw h.1)
    ]

    edited :
        (input : WindowInput) (old : Window)
        → (update_first (λ w. same_period w.period input.period) (window_edited input) t.windows
            >>= λ windows. ok (record t {
              windows = windows;
              journal = write who "hht_window.upserted" "hht_window" old.id t.journal;
            }))
          ≡ ok u
        → Same p t u
    edited input old h =
        let (ws, r, done) =
          >>=-eq-ok
            (update_first (λ w. same_period w.period input.period) (window_edited input) t.windows)
            _ h in
        let kept =
          window_kept input.period p w (window_edited input) t.windows ws c.0
            (edit_refused input w c.1) (edit_period input) r in
        (
          ap (λ (x : Tables). window_of p x.windows) (sym (ok-injective done)) ∙ kept.1,
          rw (sym (ap (λ (x : Tables). x.reports) (ok-injective done))),
        )

close_refused :
    (actor now : ℕ) (drafts : List Report) (version : ℕ) (w : Window)
    → w.status ≡ closed
    → (b : Window) → ¬ window_closed actor now drafts version w ≡ ok b
unfolding window_closed
close_refused actor now drafts version w shut b e = ground (arith, shut, e)

close_period :
    (actor now : ℕ) (drafts : List Report) (version : ℕ) (a b : Window)
    → window_closed actor now drafts version a ≡ ok b
    → b.period ≡ a.period
unfolding window_closed
close_period actor now drafts version a b e = ground (arith, e)

pub close_window-Same :
    (who : Identity) (now id : ℕ) (q : Period) (expected : ℕ) (p : Period) (w : Window)
    (t u : Tables)
    → IsClosed p w t
    → close_window who now id q expected t ≡ ok u
    → Same p t u
unfolding close_window
close_window-Same who now id q expected p w t u c e =
    let (version, _, e₁) = >>=-eq-ok (positive expected) _ e in
    let (q', _, e₂) = >>=-eq-ok (parse_period q) _ e₁ in
    let drafts = select (λ r. is_draft r.status) (reports_of q' t.reports) in
    let (ws, r, done) =
      >>=-eq-ok
        (update_first (λ w. same_period w.period q') (window_closed who.user now drafts version)
          t.windows)
        _ e₂ in
    let kept =
      window_kept q' p w (window_closed who.user now drafts version) t.windows ws c.0
        (close_refused who.user now drafts version w c.1) (close_period who.user now drafts version)
        r in
    (
      ap (λ (x : Tables). window_of p x.windows) (sym (ok-injective done)) ∙ kept.1,
      ap (λ (x : Tables). reports_of p x.reports) (sym (ok-injective done))
          ∙ reports_of-lock_reports q' p kept.0 t.reports,
    )
