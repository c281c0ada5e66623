-- ===== src/Hht/Periods.antt =====
-- Rows of a period: the test on a period decides equality, and what closes a period.
use bash_builder.Prelude.{
  ℕ, ◌≡◌, refl, sym, inl, inr, ==_iff, true, false, some, List, [], ◌∷◌, Bool-cases, arith, subst,
}
use bash_builder.Prelude.Select.{select}
use bash_builder.Hht.Types.{Period, same_period, Window, closed, Report, Tables}
use bash_builder.Hht.Service.{window_of, reports_of, window_admits}
use bash_builder.Hht.Closing.{lock_report, lock_reports}

pub same_period-eq : (p q : Period) → same_period p q ≡ true → p ≡ q
same_period-eq p q e = λ i. record {
  year = (==_iff p.year q.year).0 (ground (arith, e)) i;
  month = (==_iff p.month q.month).0 (ground (arith, e)) i;
}

pub same_period_refl : (p : Period) → same_period p p ≡ true
same_period_refl p = rw ((==_iff p.year p.year).1 refl, (==_iff p.month p.month).1 refl)

-- A row of one period is no row of another.
pub same_period-other :
    (a q p : Period) → same_period q p ≡ false → same_period a q ≡ true → same_period a p ≡ false
same_period-other a q p ne e = subst (λ x. same_period x p ≡ false) (sym (same_period-eq a q e)) ne

-- The window of the period is closed.
abbrev pub IsClosed : Period → Window → Tables → Type 0
IsClosed p w t = (window_of p t.windows ≡ some w) × (w.status ≡ closed)

pub window_admits-closed :
    (now company : ℕ) (p : Period) (w : Window) (t : Tables)
    → IsClosed p w t
    → window_admits now company p t ≡ false
unfolding window_admits
window_admits-closed now company p w t c = ground (arith, c.0, c.1)

-- A window that admits a change belongs to another period than a closed one.
pub window_admits-other :
    (now company : ℕ) (q p : Period) (w : Window) (t : Tables)
    → IsClosed p w t
    → window_admits now company q t ≡ true
    → same_period q p ≡ false
window_admits-other now company q p w t c e = elim (Bool-cases (same_period q p)) [
  | inr miss ↦ miss
  | inl hit ↦
      let shut = window_admits-closed now company p w t c in
      let open' = subst (λ x. window_admits now company x t ≡ true) (same_period-eq q p hit) e in cc
]

pub lock_report-period : (q : Period) (r : Report) → (lock_report q r).period ≡ r.period
unfolding lock_report
lock_report-period q r = ground arith

lock_report-other : (q : Period) (r : Report) → same_period r.period q ≡ false → lock_report q r ≡ r
unfolding lock_report
lock_report-other q r miss = ground (arith, miss)

pub reports_of-lock_reports :
    (q p : Period)
    → same_period q p ≡ false
    → (rs : List Report) → reports_of p (lock_reports q rs) ≡ reports_of p rs
unfolding lock_reports select
reports_of-lock_reports q p ne [] = refl
reports_of-lock_reports q p ne (r ∷ rs) = elim (Bool-cases (same_period r.period q)) [
  | inr miss ↦ rw (lock_report-other q r miss, reports_of-lock_reports q p ne rs)
  | inl hit ↦
      let other = same_period-other r.period q p ne hit in
      rw (lock_report-period q r, other, reports_of-lock_reports q p ne rs)
]

-- The window and the reports of the period are the same.
abbrev pub Same : Period → Tables → Tables → Type 0
Same p t u =
    (window_of p u.windows ≡ window_of p t.windows)
    × (reports_of p u.reports ≡ reports_of p t.reports)
