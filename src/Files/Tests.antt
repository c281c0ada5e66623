-- ===== src/Files/Tests.antt =====
-- Uploads of a small PDF, and the theorems at them.
use bash_builder.Prelude.{
  ℕ, ◌≡◌, refl, true, none, some, List, [], ◌∷◌, map, codes, Text, Identity, Journal, text, trim,
  positive, is_space, drop_spaces,
}
use bash_builder.Prelude.Table.{find_row, update_row}
use bash_builder.Files.Types.{System, Asset, pdf, ready, rejected, clean}
use bash_builder.Files.Contents.{
  starts_with, contains_ascii, matches_type, assert_file_content_matches_type,
}
use bash_builder.Files.Service.{
  IntentInput, parse_file_type, parse_intent, create_file_intent, reserved, infected_rejected,
  unverified_rejected, made_ready, quarantine_reset, upload_cancelled, cleanup_scheduled,
  upload_expired, object_deleted,
}
use bash_builder.Files.Steps.{
  FileEvent, create, upload, cancel_upload, scanned, stored, verified, proceeds, expires, deletes,
  on_row, on_request, upload_file_content, cancel_file_upload, proceed, step, serve, after_scan,
  after_put, after_verification,
}
use bash_builder.Files.Checks.{IsChecked}
use bash_builder.Files.Final.{serve-final}
use bash_builder.Files.Checked.{newest_first, no_files, serve-IsChecked}

-- Opens what a run of the service calls.
run : Unit {0}
unfolding serve step upload_file_content cancel_file_upload proceed on_request on_row after_scan
    after_put after_verification create_file_intent parse_intent parse_file_type reserved
    infected_rejected unverified_rejected made_ready quarantine_reset upload_cancelled
    cleanup_scheduled upload_expired object_deleted assert_file_content_matches_type matches_type
    contains_ascii starts_with text trim positive drop_spaces is_space find_row update_row
run = tt

abbrev ann : Identity
ann = record { user = 1; email = codes "ann@x"; organization = 9; membership = 11 }

abbrev journal : Journal
journal = record { audit = []; outbox = [] }

-- A digest that is the same for all bytes stands for SHA-256.
abbrev digest : Text
digest = codes "00112233445566778899aabbccddeeff00112233445566778899aabbccddeeff"

abbrev sha256 : Text → Text
sha256 content = digest

abbrev file : Text
file = codes "%PDF-1.7"

abbrev intent : IntentInput
intent = record {
  original_name = codes "plan.pdf";
  content_type = codes "application/pdf";
  byte_size = 8;
  checksum = digest;
}

-- Two uploads of one intent at the same time: the second finds the file reserved.
abbrev events : List (ℕ × FileEvent)
events =
    (1, create ann 7 intent)
    ∷ (2, upload ann 1 7 file)
    ∷ (3, upload ann 2 7 file)
    ∷ (4, scanned 1 clean)
    ∷ (5, stored 1 true)
    ∷ (6, verified 1 true)
    ∷ (7, proceeds 1)
    ∷ []

abbrev done : Asset
done = record {
  id = 7;
  original_name = codes "plan.pdf";
  content_type = pdf;
  byte_size = 8;
  checksum = some digest;
  status = ready;
  created_by = 1;
  upload_expires_at = none;
  processing_lease_expires_at = none;
  scanned_at = some 7;
  storage_cleanup_at = none;
}

uploaded : find_row (λ a. a.id) 7 (serve sha256 true (no_files journal) events).assets ≡ some done
unfolding run
uploaded = refl

serve-IsChecked_example : IsChecked sha256 (newest_first [] events) done
serve-IsChecked_example = serve-IsChecked sha256 true journal events 7 done uploaded refl

-- A cancellation comes between the scan and the end of the upload.
cancelled :
    map
      (λ a. a.status)
      (serve sha256 true (no_files journal) (
        (1, create ann 7 intent)
        ∷ (2, upload ann 1 7 file)
        ∷ (3, scanned 1 clean)
        ∷ (4, cancel_upload ann 2 7)
        ∷ (5, proceeds 2)
        ∷ (6, stored 1 true)
        ∷ (7, verified 1 true)
        ∷ (8, proceeds 1)
        ∷ (9, proceeds 1)
        ∷ (10, expires 7)
        ∷ (11, deletes 7)
        ∷ [])).assets
    ≡ rejected ∷ []
unfolding run
cancelled = refl

-- After the upload the file is ready, and a cancellation or the clean-up does not touch it.
abbrev later : List (ℕ × FileEvent)
later = (8, cancel_upload ann 3 7) ∷ (9999999, expires 7) ∷ (10000000, deletes 7) ∷ []

abbrev finished : System
finished = serve sha256 true (no_files journal) events

serve-final_example :
    (b : Asset) × (find_row (λ x. x.id) 7 (serve sha256 true finished later).assets ≡ some b)
    × (b.status ≡ ready)
serve-final_example = serve-final sha256 true finished later 7 done uploaded refl
