-- ===== src/Files/Steps.antt =====
-- The requests of `uploadFileContent` and `cancelFileUpload` step by step. A transaction is one step,
-- and the steps of different requests and of the worker may come in any order.
use bash_builder.Prelude.{
  ℕ, ◌==◌, Bool, true, false, not, Option, none, some, List, [], ◌∷◌, any, Text, Error, Result, ok,
  err, ◌>>=◌, ◌>>◌, throw_if, or_throw, after, bad_request, not_found, conflict, unavailable,
  internal, Identity, write, if◌then◌else◌, String,
}
use bash_builder.Prelude.Table.{find_row, update_row}
use bash_builder.Files.Types.{
  Asset, Scan, clean, infected, broken, Stage, scanning, storing, verifying, finishing, rejecting,
  unverified, returned, resetting, thrown, scheduling, Request, System,
}
use bash_builder.Files.Service.{
  IntentInput, create_file_intent, reserved, infected_rejected, unverified_rejected, made_ready,
  quarantine_reset, upload_cancelled, cleanup_scheduled, upload_expired, object_deleted,
}

-- What happens: a request comes in, the scanner or the storage answers a request (with `false` for a
-- promise that is rejected), a request runs its next transaction, or the worker cleans up.
pub data FileEvent : Type 0 where
  create : Identity → ℕ → IntentInput → FileEvent
  upload : Identity → ℕ → ℕ → Text → FileEvent
  cancel_upload : Identity → ℕ → ℕ → FileEvent
  scanned : ℕ → Scan → FileEvent
  stored verified : ℕ → Bool → FileEvent
  proceeds : ℕ → FileEvent
  expires deletes : ℕ → FileEvent

-- A transaction on one row.
unfoldable pub on_row : ℕ → (Asset → Result Asset) → List Asset → Result (List Asset)
on_row id body assets = update_row (λ a. a.id) id body assets

-- An `updateMany` whose count is not read: without a row it changes nothing.
abbrev pub on_rows : ℕ → (Asset → Result Asset) → List Asset → List Asset
on_rows id body assets = after assets (on_row id body assets)

-- `uploadFileContent` up to the end of its first transaction.
unfoldable pub upload_file_content :
    (Text → Text) → Bool → ℕ → Identity → ℕ → ℕ → Text → System → Result System
unfolding reserved on_row
upload_file_content sha256 enabled now who request id content t = do
  throw_if (any (λ r. r.id == request) t.requests) internal
  throw_if (not enabled) unavailable
  asset ← or_throw (find_row (λ a. a.id) id t.assets) not_found
  assets ← on_row id (reserved sha256 now content) t.assets
  ok (record t {
    assets = assets;
    requests =
        record { id = request; who = who; asset = asset; content = content; stage = scanning }
        ∷ t.requests;
  })

-- `cancelFileUpload` up to the end of its first transaction.
unfoldable pub cancel_file_upload : Identity → ℕ → ℕ → System → Result System
unfolding upload_cancelled on_row
cancel_file_upload who request id t = do
  throw_if (any (λ r. r.id == request) t.requests) internal
  asset ← or_throw (find_row (λ a. a.id) id t.assets) not_found
  assets ← on_row id upload_cancelled t.assets
  ok (record t {
    assets = assets;
    requests =
        record { id = request; who = who; asset = asset; content = []; stage = scheduling none }
        ∷ t.requests;
    journal = write who "file_asset.upload_cancelled" "file_asset" id t.journal;
  })

-- An answer of the scanner or the storage moves a request that waits for it.
abbrev pub answer_at : (Stage → Bool) → Stage → Stage → Stage
answer_at waits next stage = if waits stage then next else stage

abbrev pub is_scanning : Stage → Bool
is_scanning scanning = true
is_scanning _ = false

abbrev pub is_storing : Stage → Bool
is_storing storing = true
is_storing _ = false

abbrev pub is_verifying : Stage → Bool
is_verifying verifying = true
is_verifying _ = false

unfoldable pub after_scan : Scan → Stage
after_scan clean = storing
after_scan infected = rejecting
after_scan broken = resetting unavailable

unfoldable pub after_put : Bool → Stage
after_put true = verifying
after_put false = resetting unavailable

unfoldable pub after_verification : Bool → Stage
after_verification true = finishing
after_verification false = unverified

abbrev pub at_stage : (Stage → Stage) → Request → Result Request
at_stage f r = ok (record r { stage = f r.stage })

abbrev pub to_stage : Stage → Request → Result Request
to_stage stage r = ok (record r { stage = stage })

unfoldable pub on_request : ℕ → (Request → Result Request) → System → Result System
on_request id body t = do
  requests ← update_row (λ r. r.id) id body t.requests
  ok (record t { requests = requests })

-- A transaction of a request on its row that succeeds is written to the journal.
abbrev pub settle :
    String → Request → (Asset → Result Asset) → Stage → Stage → System → Result System
settle action r body won lost t = elim (on_row r.asset.id body t.assets) [
  | ok assets ↦
      on_request r.id (to_stage won) (record t {
        assets = assets;
        journal = write r.who action "file_asset" r.asset.id t.journal;
      })
  | err e ↦ on_request r.id (to_stage lost) t
]

-- A transaction that changes the row or not, and is not written to the journal.
abbrev pub adjust : Request → (Asset → Result Asset) → Stage → System → Result System
adjust r body next t =
    on_request r.id (to_stage next) (record t { assets = on_rows r.asset.id body t.assets })

abbrev pub after_cleanup : Option Error → Stage
after_cleanup none = returned
after_cleanup (some e) = thrown e

-- The next transaction of a request.
unfoldable pub proceed : ℕ → Request → Stage → System → Result System
unfolding on_request on_row infected_rejected unverified_rejected made_ready quarantine_reset
    cleanup_scheduled
proceed now r rejecting t =
    settle "file_asset.rejected" r (infected_rejected now) (thrown bad_request) (thrown conflict) t
proceed now r (resetting e) t = adjust r quarantine_reset (thrown e) t
proceed now r unverified t =
    settle "file_asset.rejected" r (unverified_rejected now) (scheduling (some unavailable))
      (scheduling (some unavailable)) t
proceed now r finishing t =
    settle "file_asset.ready" r (made_ready now) returned (scheduling (some conflict)) t
proceed now r (scheduling e) t = adjust r cleanup_scheduled (after_cleanup e) t
proceed now r stage t = err conflict

unfoldable pub step : (Text → Text) → Bool → ℕ → FileEvent → System → Result System
unfolding upload_file_content cancel_file_upload proceed on_request on_row upload_expired
    object_deleted
step sha256 enabled now (create who id raw) t = create_file_intent enabled who now id raw t
step sha256 enabled now (upload who request id content) t =
    upload_file_content sha256 enabled now who request id content t
step sha256 enabled now (cancel_upload who request id) t = cancel_file_upload who request id t
step sha256 enabled now (scanned request answer) t =
    on_request request (at_stage (answer_at is_scanning (after_scan answer))) t
step sha256 enabled now (stored request answer) t =
    on_request request (at_stage (answer_at is_storing (after_put answer))) t
step sha256 enabled now (verified request answer) t =
    on_request request (at_stage (answer_at is_verifying (after_verification answer))) t
step sha256 enabled now (proceeds request) t =
    or_throw (find_row (λ r. r.id) request t.requests) not_found >>= λ r. proceed now r r.stage t
step sha256 enabled now (expires id) t =
    on_row id (upload_expired now) t.assets >>= λ assets. ok (record t { assets = assets })
step sha256 enabled now (deletes id) t =
    on_row id (object_deleted now) t.assets >>= λ assets. ok (record t { assets = assets })

-- Steps in the order in which they happen; one that throws leaves the system as it was.
unfoldable pub serve : (Text → Text) → Bool → System → List (ℕ × FileEvent) → System
unfolding step
serve sha256 enabled t [] = t
serve sha256 enabled t ((now, e) ∷ events) =
    serve sha256 enabled (after t (step sha256 enabled now e t)) events
