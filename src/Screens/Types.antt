-- ===== src/Screens/Types.antt =====
-- prisma/schema.prisma: dashboards, displays and playlists of one tenant.
use bash_builder.Prelude.{ℕ, Bool, true, false, Option, none, some, List, Text, Journal}
use bash_builder.Screens.Widgets.{Widget}
use bash_builder.Screens.Snapshots.{Snapshot}

-- The columns `published` and `public_…`, which all three have.
pub record Release (S : Type 0) : Type 0 where
  pub published : Bool
  pub token_hash : Option ℕ
  pub snapshot : Option S
  pub published_at : Option ℕ
  pub expires_at : Option ℕ
  pub revoked_at : Option ℕ

abbrev pub unreleased : {S : Type 0} → Release S
unreleased = record {
  published = false;
  token_hash = none;
  snapshot = none;
  published_at = none;
  expires_at = none;
  revoked_at = none;
}

-- `published: true, publicTokenHash, publicSnapshot, publicPublishedAt, publicExpiresAt, …`
abbrev pub released : {S : Type 0} → ℕ → ℕ → Option ℕ → S → Release S
released now token expires_at snapshot = record {
  published = true;
  token_hash = some token;
  snapshot = some snapshot;
  published_at = some now;
  expires_at = expires_at;
  revoked_at = none;
}

-- `published: false, publicTokenHash: null, publicSnapshot: null, publicRevokedAt: new Date()`
abbrev pub withdrawn : {S : Type 0} → ℕ → Release S → Release S
withdrawn now r = record r {
  published = false;
  token_hash = none;
  snapshot = none;
  revoked_at = some now;
}

pub record Dashboard : Type 0 where
  pub id : ℕ
  pub title : Text
  pub description : Option Text
  pub widgets : List Widget
  pub release : Release Snapshot
  pub version : ℕ

pub record Display : Type 0 where
  pub id : ℕ
  pub dashboard : ℕ
  pub name : Text
  pub refresh_seconds : ℕ
  pub active : Bool
  pub release : Release Snapshot
  pub version : ℕ

pub record Item : Type 0 where
  pub display : ℕ
  pub position : ℕ

pub record PlaylistSnapshot : Type 0 where
  pub title : Text
  pub interval_seconds : ℕ
  pub displays : List (Text × Snapshot)

pub record Playlist : Type 0 where
  pub id : ℕ
  pub name : Text
  pub interval_seconds : ℕ
  pub items : List Item
  pub active : Bool
  pub release : Release PlaylistSnapshot
  pub version : ℕ

pub record Tables : Type 0 where
  pub dashboards : List Dashboard
  pub displays : List Display
  pub playlists : List Playlist
  pub journal : Journal
