-- ===== src/Files/Types.antt =====
-- The file assets of a tenant, and the requests on them that are running.
use bash_builder.Prelude.{ℕ, Bool, true, false, Option, List, Text, Error, Identity, Journal}

-- `FileAssetStatus`
pub data FileStatus : Type 0 where
  pending ready quarantined rejected : FileStatus

-- `allowedFileTypes`
pub data FileType : Type 0 where
  pdf jpeg png spreadsheet document : FileType

pub record Asset : Type 0 where
  pub id : ℕ
  pub original_name : Text
  pub content_type : FileType
  pub byte_size : ℕ
  pub checksum : Option Text
  pub status : FileStatus
  pub created_by : ℕ
  pub upload_expires_at : Option ℕ
  pub processing_lease_expires_at : Option ℕ
  pub scanned_at : Option ℕ
  pub storage_cleanup_at : Option ℕ

-- What `scan` answers; `broken` is a promise that is rejected.
pub data Scan : Type 0 where
  clean infected broken : Scan

-- Where a request stands: what it waits for, or the transaction that it runs next. `resetting` and
-- `scheduling` carry what the request throws afterwards.
pub data Stage : Type 0 where
  scanning storing verifying finishing rejecting unverified returned : Stage
  resetting thrown : Error → Stage
  scheduling : Option Error → Stage

-- A request with the row that it has read and the bytes that it was sent.
pub record Request : Type 0 where
  pub id : ℕ
  pub who : Identity
  pub asset : Asset
  pub content : Text
  pub stage : Stage

pub record System : Type 0 where
  pub assets : List Asset
  pub requests : List Request
  pub journal : Journal

abbrev pub is_pending : FileStatus → Bool
is_pending pending = true
is_pending _ = false

abbrev pub is_quarantined : FileStatus → Bool
is_quarantined quarantined = true
is_quarantined _ = false

abbrev pub is_ready : FileStatus → Bool
is_ready ready = true
is_ready _ = false

abbrev pub is_rejected : FileStatus → Bool
is_rejected rejected = true
is_rejected _ = false
