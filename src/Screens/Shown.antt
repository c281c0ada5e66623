-- ===== src/Screens/Shown.antt =====
-- What a published display shows, and what is kept of it.
use bash_builder.Prelude.{
  ℕ, ◌≡◌, ◌≢◌, ◌∙◌, inl, inr, Bool, true, false, ◌==◌, Option, some, none, List, ◌∷◌, any,
  Bool-cases, Result, ok, arith, Text, All,
}
use bash_builder.Prelude.Table.{find_row, update_row, update_row-find_ne, find_row-fresh}
use bash_builder.Screens.Snapshots.{Snapshot, sanitize_tv_display_snapshot}
use bash_builder.Screens.Widgets.{Source, Filters}
use bash_builder.Screens.Types.{Dashboard, Display, Tables}
use bash_builder.Screens.Schema.{DashboardUpdate, PublishInput}
use bash_builder.Screens.Dashboards.{dashboard_updated, dashboard_published, withdraw_display}

abbrev pub When : Bool → Type 0 → Type 0
When true P = P
When false P = Unit

-- The display is active, its dashboard is published, and it shows what the dashboard makes public.
abbrev pub Derived : List Dashboard → Display → Type 0
Derived ds x =
    (x.active ≡ true)
    × (d : Dashboard) × (s : Snapshot) × (find_row (λ d. d.id) x.dashboard ds ≡ some d)
    × (d.release.published ≡ true)
    × (d.release.revoked_at ≡ none)
    × (sanitize_tv_display_snapshot d.release.snapshot ≡ ok s)
    × (x.release.snapshot ≡ some s)

abbrev pub IsShown : List Dashboard → Display → Type 0
IsShown ds x = When x.release.published (Derived ds x)

abbrev pub AllShown : Tables → Type 0
AllShown t = All (IsShown t.dashboards) t.displays

-- Dashboards that look the same to the display.
pub IsShown-dashboards :
    (ds es : List Dashboard) (x : Display)
    → (find_row (λ d. d.id) x.dashboard es ≡ find_row (λ d. d.id) x.dashboard ds)
    → IsShown ds x
    → IsShown es x
IsShown-dashboards ds es x same h = elim (Bool-cases x.release.published) [
  | inr off ↦ rw off tt
  | inl on ↦
      let k : Derived ds x = rw on at h in rw on (k.0, k.1, k.2, same ∙ k.3, k.4, k.5, k.6, k.7)
]

-- A new dashboard.
pub IsShown-fresh :
    (d : Dashboard) (ds : List Dashboard) (x : Display)
    → any (λ y. y.id == d.id) ds ≡ false
    → IsShown ds x
    → IsShown (d ∷ ds) x
IsShown-fresh d ds x fresh h = elim (Bool-cases x.release.published) [
  | inr off ↦ rw off tt
  | inl on ↦
      let k : Derived ds x = rw on at h in
      rw on
        (k.0, k.1, k.2, find_row-fresh (λ d. d.id) x.dashboard d ds fresh k.3, k.4, k.5, k.6, k.7)
]

-- The displays of a dashboard are withdrawn, and those of others do not see it.
pub withdraw_display-IsShown :
    (now id : ℕ) (body : Dashboard → Result Dashboard) (ds es : List Dashboard)
    → ((a b : Dashboard) → body a ≡ ok b → b.id ≡ a.id)
    → update_row (λ d. d.id) id body ds ≡ ok es
    → (x : Display) → IsShown ds x
    → IsShown es (withdraw_display now id x)
unfolding withdraw_display
withdraw_display-IsShown now id body ds es keep ran x h = elim (Bool-cases x.release.published) [
  | inr off ↦ elim (Bool-cases (x.dashboard == id)) [
    | inl hit ↦ rw (hit, off) tt
    | inr miss ↦ rw (miss, off) tt
  ]
  | inl on ↦ elim (Bool-cases (x.dashboard == id)) [
    | inl hit ↦ rw (hit, on) tt
    | inr miss ↦ rw miss (
        IsShown-dashboards ds es x
          (update_row-find_ne (λ d. d.id) id x.dashboard body keep ds es (other x.dashboard id miss)
            ran)
          h)
  ]
]
  where
    other : (a b : ℕ) → (a == b) ≡ false → b ≢ a
    other a b e p = ground (arith, e, p)

pub dashboard_updated-id :
    (u : DashboardUpdate) (a b : Dashboard) → dashboard_updated u a ≡ ok b → b.id ≡ a.id
unfolding dashboard_updated
dashboard_updated-id u a b e = ground (arith, e)

pub dashboard_published-id :
    (figures : Source → Filters → Text → Option Text) (now token : ℕ) (input : PublishInput)
    (a b : Dashboard)
    → dashboard_published figures now token input a ≡ ok b
    → b.id ≡ a.id
unfolding dashboard_published
dashboard_published-id figures now token input a b e = ground (arith, e)
