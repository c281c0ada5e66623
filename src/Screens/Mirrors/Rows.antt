-- ===== src/Screens/Mirrors/Rows.antt =====
-- What requests leave of one display.
use bash_builder.Prelude.{
  ◌+◌, ℕ, ◌≡◌, refl, sym, subst, inl, inr, Bool, true, false, not, ◌&&◌, ◌||◌, ◌==◌, ==_iff, Option,
  some, none, is_none, List, All, All-mono, if◌then◌else◌, Bool-cases, Result, ok, ◌>>=◌, ◌>>◌,
  >>=-eq-ok, throw_if-eq-ok, throw_if, or_throw, or_else, ok-injective, arith, conflict,
  bad_request, internal, All-map, or_else,
}
use bash_builder.Prelude.Table.{find_row, update_row, update_row-find_ne}
use bash_builder.Screens.Snapshots.{sanitize_tv_display_snapshot}
use bash_builder.Screens.Types.{released, withdrawn, Dashboard, Display, Tables}
use bash_builder.Screens.Schema.{
  DashboardUpdate, PublishInput, DisplayUpdate, parse_dashboard_update,
}
use bash_builder.Screens.Dashboards.{
  dashboard_updated, withdraw_display, withdraw_derived, was_published,
}
use bash_builder.Screens.Displays.{display_updated, display_published, is_unavailable}
use bash_builder.Screens.Playlists.{earliest_expiry}
use bash_builder.Screens.Shown.{
  AllShown, Derived, IsShown, IsShown-dashboards, withdraw_display-IsShown, dashboard_updated-id,
}

pub display_updated-IsShown :
    (ds : List Dashboard) (now : ℕ) (d : DisplayUpdate) (a b : Display)
    → IsShown ds a
    → display_updated now d a ≡ ok b
    → IsShown ds b
unfolding display_updated
display_updated-IsShown ds now d a b h e =
    let (_, done) = throw_if-eq-ok (not (a.version == d.expected_version)) conflict _ e in
    subst (IsShown ds) (ok-injective done) (go d.active)
  where
    go :
        (active : Option Bool)
        → IsShown ds (record a {
          name = or_else d.name a.name;
          refresh_seconds = or_else d.refresh_seconds a.refresh_seconds;
          active = or_else active a.active;
          release = if or_else active true then a.release else withdrawn now a.release;
          version = a.version + 1;
        })
    go none = h
    go (some false) = tt
    go (some true) = elim (Bool-cases a.release.published) [
      | inr off ↦ rw off tt
      | inl on ↦
          let k : Derived ds a = rw on at h in rw on (refl, k.1, k.2, k.3, k.4, k.5, k.6, k.7)
    ]

pub display_published-IsShown :
    (ds : List Dashboard) (now token : ℕ) (input : PublishInput) (a b : Display)
    → IsShown ds a
    → display_published now token input ds a ≡ ok b
    → IsShown ds b
unfolding display_published
display_published-IsShown ds now token input a b h e =
    let (d, found, e₁) = >>=-eq-ok (or_throw (find_row (λ d. d.id) a.dashboard ds) internal) _ e in
    elim (Bool-cases input.published) [
      | inr off ↦
          let (_, done) =
            throw_if-eq-ok (not (a.version == input.expected_version)) conflict _ (rw off at e₁) in
          subst (IsShown ds) (ok-injective done) tt
      | inl on ↦ shown d (ground (arith, found)) (rw on at e₁)
    ]
  where
    shown :
        (d : Dashboard)
        → find_row (λ d. d.id) a.dashboard ds ≡ some d
        → (throw_if (is_unavailable now a d) bad_request
            >> (sanitize_tv_display_snapshot d.release.snapshot >>= λ s.
                throw_if (not (a.version == input.expected_version)) conflict
                >> ok (record a {
                  release =
                      released now token (earliest_expiry input.expires_at d.release.expires_at) s;
                  version = a.version + 1;
                })))
          ≡ ok b
        → IsShown ds b
    shown d found k =
        let (fit, k₁) = throw_if-eq-ok (is_unavailable now a d) bad_request _ k in
        let (s, clean, k₂) = >>=-eq-ok (sanitize_tv_display_snapshot d.release.snapshot) _ k₁ in
        let (_, done) = throw_if-eq-ok (not (a.version == input.expected_version)) conflict _ k₂ in
        subst (IsShown ds) (ok-injective done)
          (ground (arith, fit), d, s, found, ground (arith, fit), ground (arith, fit), clean, refl)

-- A dashboard that is not published has no published display.
pub unpublished-IsShown :
    (id : ℕ) (body : Dashboard → Result Dashboard) (ds es : List Dashboard)
    → ((a b : Dashboard) → body a ≡ ok b → b.id ≡ a.id)
    → update_row (λ d. d.id) id body ds ≡ ok es
    → was_published (find_row (λ d. d.id) id ds) ≡ false
    → (x : Display) → IsShown ds x
    → IsShown es x
unpublished-IsShown id body ds es keep ran off x h = elim (Bool-cases x.release.published) [
  | inr hidden ↦ rw hidden tt
  | inl on ↦ elim (Bool-cases (id == x.dashboard)) [
    | inr miss ↦
        IsShown-dashboards ds es x
          (update_row-find_ne (λ d. d.id) id x.dashboard body keep ds es
            (λ p. ground (arith, miss, p)) ran)
          h
    | inl hit ↦
        let k : Derived ds x = rw on at h in
        absurd (
          clash k.1
            (subst (λ i. find_row (λ d. d.id) i ds ≡ some k.1) (sym ((==_iff id x.dashboard).0 hit))
              k.3)
            k.4)
  ]
]
  where
    clash : (d : Dashboard) → find_row (λ d. d.id) id ds ≡ some d → d.release.published ≡ true → ⊥
    clash d f p = ground (arith, off, f, p)

-- The schema lets through only what changes something.
pub parse_dashboard_update-changes :
    (raw u : DashboardUpdate)
    → parse_dashboard_update raw ≡ ok u
    → (not (is_none u.widgets) || not (is_none u.title) || not (is_none u.description)) ≡ true
unfolding parse_dashboard_update
parse_dashboard_update-changes raw u e = ground (arith, e)

-- What an edited dashboard leaves of the displays.
pub edited-IsShown :
    (now id : ℕ) (d : DashboardUpdate) (t : Tables) (ds : List Dashboard) (changes : Bool)
    → AllShown t
    → changes ≡ true
    → update_row (λ d. d.id) id (dashboard_updated d) t.dashboards ≡ ok ds
    → All
        (IsShown ds)
        (if was_published (find_row (λ d. d.id) id t.dashboards) && changes
          then withdraw_derived now id t
          else t).displays
unfolding withdraw_derived
edited-IsShown now id d t ds changes h some_change ran =
    elim (Bool-cases (was_published (find_row (λ d. d.id) id t.dashboards))) [
      | inl on ↦
          rw (on, some_change)
            (All-map (IsShown t.dashboards) (IsShown ds) (withdraw_display now id)
              (withdraw_display-IsShown now id (dashboard_updated d) t.dashboards ds
                (dashboard_updated-id d) ran)
              t.displays h)
      | inr off ↦ rw off (
          All-mono (IsShown t.dashboards) (IsShown ds)
            (unpublished-IsShown id (dashboard_updated d) t.dashboards ds (dashboard_updated-id d)
              ran off)
            t.displays h)
    ]
