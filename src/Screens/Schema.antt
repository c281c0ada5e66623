-- ===== src/Screens/Schema.antt =====
-- The input schemas of dashboards, displays and playlists. Dates and identifiers have been read, and
-- so have widgets; a number that is no natural number has been refused.
use bash_builder.Prelude.{
  ℕ, ltb, leb, Bool, false, not, ◌&&◌, ◌||◌, Option, none, some, is_none, List, [], ◌∷◌, length,
  includes, is_empty, Result, ok, ◌>>=◌, ◌>>◌, throw_if, bad_request, Text, text, optional_text,
  positive,
}
use bash_builder.Screens.Widgets.{Widget}

pub record DashboardInput : Type 0 where
  pub title : Text
  pub description : Option Text
  pub widgets : List Widget

-- `dashboardSchema`
unfoldable pub parse_dashboard : DashboardInput → Result DashboardInput
parse_dashboard r = do
  title ← text 2 160 r.title
  description ← optional_text 10000 r.description
  throw_if (ltb 24 (length r.widgets)) bad_request
  ok (record { title = title; description = description; widgets = r.widgets })

-- A description may be given as `null`.
pub record DashboardUpdate : Type 0 where
  pub title : Option Text
  pub description : Option (Option Text)
  pub widgets : Option (List Widget)
  pub expected_version : ℕ

abbrev pub optionally : {A B : Type 0} → (A → Result B) → Option A → Result (Option B)
optionally read none = ok none
optionally read (some a) = read a >>= λ b. ok (some b)

abbrev too_many_widgets : Option (List Widget) → Bool
too_many_widgets none = false
too_many_widgets (some ws) = ltb 24 (length ws)

-- `dashboardUpdateSchema`
unfoldable pub parse_dashboard_update : DashboardUpdate → Result DashboardUpdate
parse_dashboard_update r = do
  title ← optionally (text 2 160) r.title
  description ← optionally (optional_text 10000) r.description
  throw_if (too_many_widgets r.widgets) bad_request
  version ← positive r.expected_version
  throw_if (is_none r.title && is_none r.description && is_none r.widgets) bad_request
  ok (record {
    title = title;
    description = description;
    widgets = r.widgets;
    expected_version = version;
  })

pub record PublishInput : Type 0 where
  pub published : Bool
  pub expected_version : ℕ
  pub expires_at : Option ℕ

abbrev pub is_past : ℕ → Option ℕ → Bool
is_past now none = false
is_past now (some t) = leb t now

-- `dashboardPublishSchema`, `tvDisplayPublishSchema` and `tvPlaylistPublishSchema`
unfoldable pub parse_publish : ℕ → PublishInput → Result PublishInput
parse_publish now r = do
  version ← positive r.expected_version
  throw_if (r.published && is_past now r.expires_at) bad_request
  throw_if (not r.published && not (is_none r.expires_at)) bad_request
  ok (record r { expected_version = version })

abbrev pub seconds_outside : Option ℕ → Bool
seconds_outside none = false
seconds_outside (some s) = ltb s 5 || ltb 3600 s

pub record DisplayInput : Type 0 where
  pub name : Text
  pub dashboard : ℕ
  pub refresh_seconds : Option ℕ

-- `tvDisplaySchema`
unfoldable pub parse_display : DisplayInput → Result DisplayInput
parse_display r = do
  name ← text 2 160 r.name
  throw_if (seconds_outside r.refresh_seconds) bad_request
  ok (record r { name = name })

pub record DisplayUpdate : Type 0 where
  pub name : Option Text
  pub refresh_seconds : Option ℕ
  pub active : Option Bool
  pub expected_version : ℕ

-- `tvDisplayUpdateSchema`
unfoldable pub parse_display_update : DisplayUpdate → Result DisplayUpdate
parse_display_update r = do
  name ← optionally (text 2 160) r.name
  throw_if (seconds_outside r.refresh_seconds) bad_request
  version ← positive r.expected_version
  throw_if (is_none r.name && is_none r.refresh_seconds && is_none r.active) bad_request
  ok (record r { name = name; expected_version = version })

pub record PlaylistInput : Type 0 where
  pub name : Text
  pub interval_seconds : Option ℕ
  pub displays : List ℕ

-- `new Set(ids).size !== ids.length`
unfoldable pub has_duplicate : List ℕ → Bool
has_duplicate [] = false
has_duplicate (x ∷ xs) = includes xs x || has_duplicate xs

-- `tvPlaylistSchema`
unfoldable pub parse_playlist : PlaylistInput → Result PlaylistInput
unfolding has_duplicate
parse_playlist r = do
  name ← text 2 160 r.name
  throw_if (seconds_outside r.interval_seconds) bad_request
  throw_if (is_empty r.displays || ltb 30 (length r.displays)) bad_request
  throw_if (has_duplicate r.displays) bad_request
  ok (record r { name = name })
