-- ===== src/Files/Checked.antt =====
-- A file is ready only after its checks, whatever the order of the steps.
use bash_builder.Prelude.{
  ℕ, ◌≡◌, some, subst, inl, inr, Bool, true, List, [], ◌∷◌, Text, ok, Result-cases, after,
  ok-injective, >>=-eq-ok, or_throw, not_found, Journal,
}
use bash_builder.Prelude.Table.{find_row, update_row, find_row-All}
use bash_builder.Files.Types.{Asset, Request, Stage, is_ready, System}
use bash_builder.Files.Service.{upload_expired, object_deleted}
use bash_builder.Files.Steps.{
  FileEvent, create, upload, cancel_upload, scanned, stored, verified, proceeds, expires, deletes,
  on_row, on_request, at_stage, step, serve, answer_at, is_scanning, is_storing, is_verifying,
  after_scan, after_put, after_verification,
}
use bash_builder.Files.Checks.{
  Reached, IsChecked, after_scan-Reached, after_put-Reached, after_verification-Reached,
}
use bash_builder.Files.Kept.{upload_expired-IsQuiet, object_deleted-IsQuiet}
use bash_builder.Files.Invariant.{IsFollowed, IsSound, Inv, Inv-skip, Inv-answer}
use bash_builder.Files.Sound.{on_row-Good, proceed-Good}
use bash_builder.Files.Entries.{
  or_throw-some, create_file_intent-Inv, upload_file_content-Inv, cancel_file_upload-Inv,
}

-- An answer that moves the request it is for.
answer-Inv :
    (sha256 : Text → Text) (past : List FileEvent) (id : ℕ) (e : FileEvent) (f : Stage → Stage)
    (t u : System)
    → ((r : Request)
        → r.id ≡ id
        → Reached sha256 past r r.stage
        → Reached sha256 (e ∷ past) r (f r.stage))
    → on_request id (at_stage f) t ≡ ok u
    → Inv sha256 past t.assets t.requests
    → Inv sha256 (e ∷ past) u.assets u.requests
unfolding on_request
answer-Inv sha256 past id e f t u moves h good =
    let (requests, ran, done) = >>=-eq-ok (update_row (λ r. r.id) id (at_stage f) t.requests) _ h in
    subst (λ (x : System). Inv sha256 (e ∷ past) x.assets x.requests) (ok-injective done)
      (Inv-answer sha256 past id e f t.assets t.requests requests moves ran good)

step-Inv :
    (sha256 : Text → Text) (enabled : Bool) (past : List FileEvent) (now : ℕ) (e : FileEvent)
    (t u : System)
    → step sha256 enabled now e t ≡ ok u
    → Inv sha256 past t.assets t.requests
    → Inv sha256 (e ∷ past) u.assets u.requests
unfolding step
step-Inv sha256 enabled past now (create who id raw) t u e good =
    create_file_intent-Inv sha256 (create who id raw ∷ past) enabled who now id raw t u e
      (Inv-skip sha256 past (create who id raw) t.assets t.requests good)
step-Inv sha256 enabled past now (upload who request id content) t u e good =
    upload_file_content-Inv sha256 past enabled now who request id content t u e good
step-Inv sha256 enabled past now (cancel_upload who request id) t u e good =
    cancel_file_upload-Inv sha256 (cancel_upload who request id ∷ past) who request id t u e
      (Inv-skip sha256 past (cancel_upload who request id) t.assets t.requests good)
step-Inv sha256 enabled past now (scanned request answer) t u e good =
    answer-Inv sha256 past request (scanned request answer)
      (answer_at is_scanning (after_scan answer)) t u
      (λ r same way.
        subst
          (λ i.
            Reached sha256 (scanned i answer ∷ past) r
              (answer_at is_scanning (after_scan answer) r.stage))
          same (after_scan-Reached sha256 answer past r way))
      e good
step-Inv sha256 enabled past now (stored request answer) t u e good =
    answer-Inv sha256 past request (stored request answer) (answer_at is_storing (after_put answer))
      t u
      (λ r same way.
        subst
          (λ i.
            Reached sha256 (stored i answer ∷ past) r
              (answer_at is_storing (after_put answer) r.stage))
          same (after_put-Reached sha256 answer past r way))
      e good
step-Inv sha256 enabled past now (verified request answer) t u e good =
    answer-Inv sha256 past request (verified request answer)
      (answer_at is_verifying (after_verification answer)) t u
      (λ r same way.
        subst
          (λ i.
            Reached sha256 (verified i answer ∷ past) r
              (answer_at is_verifying (after_verification answer) r.stage))
          same (after_verification-Reached sha256 answer past r way))
      e good
step-Inv sha256 enabled past now (proceeds request) t u e good =
    let skipped = Inv-skip sha256 past (proceeds request) t.assets t.requests good in
    let (r, there, run) =
      >>=-eq-ok (or_throw (find_row (λ r. r.id) request t.requests) not_found) _ e in
    let (way, seen) =
      find_row-All (λ r. r.id) (IsFollowed sha256 (proceeds request ∷ past) t.assets) request
        t.requests (skipped.0) (or_throw-some (find_row (λ r. r.id) request t.requests) there) in
    proceed-Good sha256 (proceeds request ∷ past) now r r.stage t u way seen run skipped
step-Inv sha256 enabled past now (expires id) t u e good =
    let (assets, ran, done) = >>=-eq-ok (on_row id (upload_expired now) t.assets) _ e in
    subst (λ (x : System). Inv sha256 (expires id ∷ past) x.assets x.requests) (ok-injective done)
      (on_row-Good sha256 (expires id ∷ past) id (upload_expired now) (upload_expired-IsQuiet now)
        t.assets assets t.requests ran (Inv-skip sha256 past (expires id) t.assets t.requests good))
step-Inv sha256 enabled past now (deletes id) t u e good =
    let (assets, ran, done) = >>=-eq-ok (on_row id (object_deleted now) t.assets) _ e in
    subst (λ (x : System). Inv sha256 (deletes id ∷ past) x.assets x.requests) (ok-injective done)
      (on_row-Good sha256 (deletes id ∷ past) id (object_deleted now) (object_deleted-IsQuiet now)
        t.assets assets t.requests ran (Inv-skip sha256 past (deletes id) t.assets t.requests good))

-- The events of a history, newest first, before those of an earlier past.
abbrev pub newest_first : List FileEvent → List (ℕ × FileEvent) → List FileEvent
newest_first past [] = past
newest_first past ((now, e) ∷ events) = newest_first (e ∷ past) events

serve-Inv :
    (sha256 : Text → Text) (enabled : Bool) (past : List FileEvent) (t : System)
    (events : List (ℕ × FileEvent))
    → Inv sha256 past t.assets t.requests
    → let u = serve sha256 enabled t events in
      Inv sha256 (newest_first past events) u.assets u.requests
unfolding serve
serve-Inv sha256 enabled past t [] good = good
serve-Inv sha256 enabled past t ((now, e) ∷ events) good =
    serve-Inv sha256 enabled (e ∷ past) (after t (step sha256 enabled now e t)) events
      (elim (Result-cases (step sha256 enabled now e t)) [
        | inl (x, thrown) ↦ rw thrown (Inv-skip sha256 past e t.assets t.requests good)
        | inr (u, ran) ↦ rw ran (step-Inv sha256 enabled past now e t u ran good)
      ])

-- The files of an organisation before any has been announced.
abbrev pub no_files : Journal → System
no_files j = record { assets = []; requests = []; journal = j }

-- Whatever the order in which the steps of requests and of the worker's clean-up interleave, a file
-- is ready only if one request was sent bytes for it of the size, checksum and type that its intent
-- declares, the scanner then found that request's bytes clean, and the storage then took and verified
-- them, in this order.
pub serve-IsChecked :
    (sha256 : Text → Text) (enabled : Bool) (j : Journal) (events : List (ℕ × FileEvent)) (id : ℕ)
    (a : Asset)
    → find_row (λ x. x.id) id (serve sha256 enabled (no_files j) events).assets ≡ some a
    → is_ready a.status ≡ true
    → IsChecked sha256 (newest_first [] events) a
serve-IsChecked sha256 enabled j events id a found is =
    find_row-All (λ x. x.id) (IsSound sha256 (newest_first [] events)) id
      (serve sha256 enabled (no_files j) events).assets
      (serve-Inv sha256 enabled [] (no_files j) events (tt, tt)).1 found is
