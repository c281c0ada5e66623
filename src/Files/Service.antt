-- ===== src/Files/Service.antt =====
-- The transactions of the upload. `enabled` says that the storage and the scanner are configured;
-- `sha256` is the digest of node:crypto in hexadecimal. A new identifier and the time (in
-- milliseconds) are arguments. The storage key is named by the row's identifier.
use bash_builder.Prelude.{
  ℕ, ◌+◌, ◌*◌, ◌==◌, Bool, not, ◌&&◌, ◌||◌, leb, Option, none, some, is_none, ◌∷◌, any, all, length,
  Text, text, trim, codes, text_eq, Result, ok, err, ◌>>=◌, ◌>>◌, throw_if, bad_request, not_found,
  conflict, unavailable, internal, Identity, write, positive, if◌then◌else◌, true, false,
}
use bash_builder.Files.Types.{
  FileType, pdf, jpeg, png, spreadsheet, document, Asset, pending, quarantined, ready, rejected,
  is_pending, is_quarantined, is_rejected, System,
}
use bash_builder.Files.Contents.{assert_file_content_matches_type}

-- The body of a request for an intent, and the data that the schema makes of it.
pub record IntentInput : Type 0 where
  pub original_name : Text
  pub content_type : Text
  pub byte_size : ℕ
  pub checksum : Text

pub record Intent : Type 0 where
  pub original_name : Text
  pub content_type : FileType
  pub byte_size : ℕ
  pub checksum : Text

unfoldable pub parse_file_type : Text → Result FileType
parse_file_type s =
    if text_eq s (codes "application/pdf")
    then ok pdf
    else if text_eq s (codes "image/jpeg")
    then ok jpeg
    else if text_eq s (codes "image/png")
    then ok png
    else if text_eq s (codes "application/vnd.openxmlformats-officedocument.spreadsheetml.sheet")
    then ok spreadsheet
    else if text_eq s
        (codes "application/vnd.openxmlformats-officedocument.wordprocessingml.document")
    then ok document
    else err bad_request

-- `[a-f0-9]` with the flag `i`.
abbrev is_hex : ℕ → Bool
is_hex c = (leb 48 c && leb c 57) || (leb 97 c && leb c 102) || (leb 65 c && leb c 70)

-- `fileIntentSchema`
unfoldable pub parse_intent : IntentInput → Result Intent
unfolding text trim parse_file_type positive
parse_intent r = do
  original_name ← text 1 255 r.original_name
  content_type ← parse_file_type r.content_type
  byte_size ← positive r.byte_size
  throw_if (not (leb byte_size (10 * 1024 * 1024))) bad_request
  let checksum = trim r.checksum
  throw_if (not ((length checksum == 64) && all is_hex checksum)) bad_request
  ok (record {
    original_name = original_name;
    content_type = content_type;
    byte_size = byte_size;
    checksum = checksum;
  })

-- `createFileIntent`
unfoldable pub create_file_intent : Bool → Identity → ℕ → ℕ → IntentInput → System → Result System
create_file_intent enabled who now id raw t = do
  data_ ← parse_intent raw
  throw_if (not enabled) unavailable
  throw_if (any (λ a. a.id == id) t.assets) internal
  ok (record t {
    assets =
        record {
          id = id;
          original_name = data_.original_name;
          content_type = data_.content_type;
          byte_size = data_.byte_size;
          checksum = some data_.checksum;
          status = pending;
          created_by = who.user;
          upload_expires_at = some (now + 30 * 60000);
          processing_lease_expires_at = none;
          scanned_at = none;
          storage_cleanup_at = none;
        }
        ∷ t.assets;
    journal = write who "file_asset.intent_created" "file_asset" id t.journal;
  })

-- `!asset.uploadExpiresAt || asset.uploadExpiresAt <= new Date()`
abbrev is_expired : ℕ → Option ℕ → Bool
is_expired now none = true
is_expired now (some at) = leb at now

-- `checksum !== asset.checksum`
abbrev pub same_checksum : Text → Option Text → Bool
same_checksum c none = false
same_checksum c (some d) = text_eq c d

-- The tests of the first transaction on the row, and the reservation.
unfoldable pub reserved : (Text → Text) → ℕ → Text → Asset → Result Asset
unfolding assert_file_content_matches_type
reserved sha256 now content a = do
  throw_if (not (is_pending a.status)) conflict
  throw_if (is_expired now a.upload_expires_at) conflict
  throw_if (not (length content == a.byte_size)) bad_request
  throw_if (not (same_checksum (sha256 content) a.checksum)) bad_request
  assert_file_content_matches_type a.content_type content
  ok (record a { status = quarantined; processing_lease_expires_at = some (now + 15 * 60000) })

-- An update that asks for the status QUARANTINED; `conflict` stands for a count of zero.
abbrev pub when_quarantined : (Asset → Asset) → Asset → Result Asset
when_quarantined f a = do throw_if (not (is_quarantined a.status)) conflict; ok (f a)

-- The rejection of an infected file.
unfoldable pub infected_rejected : ℕ → Asset → Result Asset
infected_rejected now = when_quarantined (λ a. record a {
  status = rejected;
  upload_expires_at = none;
  processing_lease_expires_at = none;
  scanned_at = some now;
})

-- `rejectUnverifiedUpload`
unfoldable pub unverified_rejected : ℕ → Asset → Result Asset
unverified_rejected now = when_quarantined (λ a. record a {
  status = rejected;
  upload_expires_at = none;
  processing_lease_expires_at = none;
  scanned_at = some now;
  storage_cleanup_at = none;
})

-- The last transaction of `uploadFileContent`.
unfoldable pub made_ready : ℕ → Asset → Result Asset
made_ready now = when_quarantined (λ a. record a {
  status = ready;
  upload_expires_at = none;
  processing_lease_expires_at = none;
  scanned_at = some now;
})

-- `resetQuarantinedUpload`
unfoldable pub quarantine_reset : Asset → Result Asset
quarantine_reset =
    when_quarantined (λ a. record a { status = pending; processing_lease_expires_at = none })

-- The first transaction of `cancelFileUpload`.
unfoldable pub upload_cancelled : Asset → Result Asset
upload_cancelled a = do
  throw_if (not (is_pending a.status || is_quarantined a.status)) not_found
  ok (record a { status = rejected; upload_expires_at = none; storage_cleanup_at = none })

-- `scheduleRejectedObjectCleanup`
unfoldable pub cleanup_scheduled : Asset → Result Asset
cleanup_scheduled a = do
  throw_if (not (is_rejected a.status)) conflict
  ok (record a { storage_cleanup_at = none })

-- `upload_expires_at IS NOT NULL AND upload_expires_at <= NOW()`
abbrev is_due : ℕ → Option ℕ → Bool
is_due now none = false
is_due now (some at) = leb at now

-- One row of the procedure `expire_file_uploads`.
unfoldable pub upload_expired : ℕ → Asset → Result Asset
upload_expired now a = do
  throw_if
      (not (
        (is_pending a.status && is_due now a.upload_expires_at)
        || (is_quarantined a.status && is_due now a.processing_lease_expires_at)
        || (is_rejected a.status
            && (is_none a.storage_cleanup_at || is_due now a.processing_lease_expires_at))))
      conflict
  let due = is_due now a.processing_lease_expires_at
  ok (record a {
    status = rejected;
    upload_expires_at = none;
    storage_cleanup_at = if is_rejected a.status && due then none else a.storage_cleanup_at;
    processing_lease_expires_at = if due then none else a.processing_lease_expires_at;
  })

-- The procedure `mark_file_object_deleted`.
unfoldable pub object_deleted : ℕ → Asset → Result Asset
object_deleted now a = do
  throw_if (not (is_rejected a.status && is_none a.storage_cleanup_at)) conflict
  ok (record a { storage_cleanup_at = some now })
