-- ===== src/Hht/Locked.antt =====
-- What closing a period does to its window and its reports.
use bash_builder.Prelude.{
  ℕ, ◌+◌, ◌≡◌, refl, ap, sym, ◌∙◌, subst, inl, inr, Bool, true, false, ltb, all, is_empty, some,
  List, [], ◌∷◌, map, Bool-cases, ok, ◌>>=◌, >>=-eq-ok, ok-injective, arith, Identity, write,
  positive,
}
use bash_builder.Prelude.Select.{select, update_first, update_first-found}
use bash_builder.Hht.Types.{
  Period, same_period, Window, closed, Figures, Report, ReportStatus, draft, submitted, is_locked,
  is_draft, locked, Tables,
}
use bash_builder.Hht.Schema.{parse_period}
use bash_builder.Hht.Service.{window_of, reports_of}
use bash_builder.Hht.Closing.{lock_report, lock_reports, window_closed, close_window}
use bash_builder.Hht.Requests.{Call, serve}
use bash_builder.Hht.Periods.{lock_report-period}
use bash_builder.Hht.Frozen.{serve-Same}

abbrev pub drafts_of : Period → List Report → List Report
drafts_of p rs = select (λ r. is_draft r.status) (reports_of p rs)

abbrev pub all_locked : Period → List Report → Bool
all_locked p rs = all (λ r. is_locked r.status) (reports_of p rs)

lock_report-figures : (p : Period) (r : Report) → (lock_report p r).figures ≡ r.figures
unfolding lock_report
lock_report-figures p r = ground arith

lock_report-locks :
    (p : Period) (r : Report)
    → same_period r.period p ≡ true
    → is_draft r.status ≡ false
    → is_locked (lock_report p r).status ≡ true
unfolding lock_report
lock_report-locks p r hit sent = by_status r.status refl
  where
    by_status : (s : ReportStatus) → r.status ≡ s → is_locked (lock_report p r).status ≡ true
    by_status draft q = ground (arith, sent, q)
    by_status submitted q = rw (hit, q)
    by_status locked q = rw (hit, q)

all_locked-lock_reports :
    (p : Period) (rs : List Report)
    → is_empty (drafts_of p rs) ≡ true
    → all_locked p (lock_reports p rs) ≡ true
unfolding lock_reports select
all_locked-lock_reports p [] e = refl
all_locked-lock_reports p (r ∷ rs) e = elim (Bool-cases (same_period r.period p)) [
  | inr miss ↦ rw (lock_report-period p r, miss) (all_locked-lock_reports p rs (rw miss at e))
  | inl hit ↦ elim (Bool-cases (is_draft r.status)) [
    | inl early ↦ absurd (ground (arith, e, hit, early))
    | inr sent ↦
        rw (lock_report-period p r, hit, lock_report-locks p r hit sent)
          (all_locked-lock_reports p rs (rw (hit, sent) at e))
  ]
]

figures_kept :
    (p : Period) (rs : List Report)
    → map (λ r. r.figures) (reports_of p (lock_reports p rs))
      ≡ map (λ r. r.figures) (reports_of p rs)
unfolding lock_reports select
figures_kept p [] = refl
figures_kept p (r ∷ rs) = elim (Bool-cases (same_period r.period p)) [
  | inr miss ↦ rw (lock_report-period p r, miss) (figures_kept p rs)
  | inl hit ↦
      rw (lock_report-period p r, hit, lock_report-figures p r)
        (ap (λ (l : List Figures). r.figures ∷ l) (figures_kept p rs))
]

-- The window after a successful closing.
abbrev pub ClosedBy : ℕ → ℕ → ℕ → List Report → Window → Type 0
ClosedBy actor now expected drafts w =
    (w.status ≡ closed)
    × (w.closed_at ≡ some now)
    × (w.closed_by ≡ some actor)
    × (w.version ≡ expected + 1)
    × (is_empty drafts ≡ true)
    × (ltb now w.closes_at ≡ false)

window_closed-ClosedBy :
    (actor now : ℕ) (drafts : List Report) (expected : ℕ) (a b : Window)
    → window_closed actor now drafts expected a ≡ ok b
    → ClosedBy actor now expected drafts b × (b.period ≡ a.period)
unfolding window_closed
window_closed-ClosedBy actor now drafts expected a b e = ground (arith, e)

positive-same : (n m : ℕ) → positive n ≡ ok m → m ≡ n
unfolding positive
positive-same n m e = ground (arith, e)

parse_period-same : (p q : Period) → parse_period p ≡ ok q → q ≡ p
unfolding parse_period
parse_period-same p q e = ground (arith, e)

-- Closing a period that succeeds found the expected version of the window and no report of the
-- period left in draft, not before the window's end. After it and after any further history of
-- requests, the window is closed, with this time and this actor, all reports of the period are
-- locked, and their figures are those from before the closing.
pub close_window-locks :
    (who : Identity) (now id : ℕ) (p : Period) (expected : ℕ) (t u : Tables)
    (calls : List (Identity × ℕ × Call))
    → close_window who now id p expected t ≡ ok u
    → (w : Window) × (window_of p (serve u calls).windows ≡ some w)
      × ClosedBy who.user now expected (drafts_of p t.reports) w
      × (all_locked p (serve u calls).reports ≡ true)
      × (map (λ r. r.figures) (reports_of p (serve u calls).reports)
          ≡ map (λ r. r.figures) (reports_of p t.reports))
unfolding close_window
close_window-locks who now id p expected t u calls e =
    let (version, e₀, e₁) = >>=-eq-ok (positive expected) _ e in
    let (q, e₂, e₃) = >>=-eq-ok (parse_period p) _ e₁ in
    go version q (positive-same expected version e₀) (parse_period-same p q e₂) e₃
  where
    go :
        (version : ℕ) (q : Period)
        → version ≡ expected
        → q ≡ p
        → (update_first
              (λ w. same_period w.period q)
              (window_closed who.user now (drafts_of q t.reports) version)
              t.windows
            >>= λ windows. ok (record t {
              windows = windows;
              reports = lock_reports q t.reports;
              journal = write who "hht_window.closed" "hht_window" id t.journal;
            }))
          ≡ ok u
        → (w : Window) × (window_of p (serve u calls).windows ≡ some w)
          × ClosedBy who.user now expected (drafts_of p t.reports) w
          × (all_locked p (serve u calls).reports ≡ true)
          × (map (λ r. r.figures) (reports_of p (serve u calls).reports)
              ≡ map (λ r. r.figures) (reports_of p t.reports))
    go version q ve qe h =
        let body = window_closed who.user now (drafts_of p t.reports) expected in
        let h' : (update_first (λ w. same_period w.period p) body t.windows >>= λ windows.
        ok (record t {
          windows = windows;
          reports = lock_reports p t.reports;
          journal = write who "hht_window.closed" "hht_window" id t.journal;
        }))
            ≡ ok u =
          rw (← ve, ← qe) h in
        let (ws, r, done) =
          >>=-eq-ok (update_first (λ w. same_period w.period p) body t.windows) _ h' in
        let closed_by = window_closed-ClosedBy who.user now (drafts_of p t.reports) expected in
        let (a, b, ran, _, found) =
          update_first-found (λ w. same_period w.period p) body
            (λ a b hit r. subst (λ x. same_period x p ≡ true) (sym (closed_by a b r).1) hit)
            t.windows ws r in
        let is_closed = (closed_by a b ran).0 in
        let windows : window_of p u.windows ≡ some b =
          subst (λ x. window_of p x.windows ≡ some b) (ok-injective done) found in
        let s = serve-Same p b u calls (windows, is_closed.0) in
        let reports : reports_of p u.reports ≡ reports_of p (lock_reports p t.reports) =
          sym (ap (λ (x : Tables). reports_of p x.reports) (ok-injective done)) in
        let same = s.1 ∙ reports in
        (
          b,
          s.0,
          is_closed,
          ap (all (λ r. is_locked r.status)) same
              ∙ all_locked-lock_reports p t.reports (ground (arith, is_closed)),
          ap (map (λ r. r.figures)) same ∙ figures_kept p t.reports,
        )
