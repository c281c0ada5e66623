-- ===== src/Files/Final.antt =====
-- A file that is ready or rejected stays so.
use bash_builder.Prelude.{
  ℕ, ◌≡◌, refl, sym, ap, ◌∙◌, subst, inl, inr, Bool, true, false, not, ◌==◌, any, some, List, [],
  ◌∷◌, Text, Result, ok, err, Result-cases, after, ok-injective, >>=-eq-ok, throw_if-eq-ok,
  or_throw, ◌>>=◌, Identity, String, internal, unavailable, not_found, write, bad_request, conflict,
}
use bash_builder.Prelude.Table.{find_row, update_row, find_row-fresh}
use bash_builder.Files.Types.{
  Asset, FileStatus, ready, rejected, Request, Stage, scanning, storing, verifying, finishing,
  rejecting, unverified, returned, resetting, thrown, scheduling, System,
}
use bash_builder.Files.Service.{
  IntentInput, parse_intent, create_file_intent, reserved, infected_rejected, unverified_rejected,
  made_ready, quarantine_reset, upload_cancelled, cleanup_scheduled, upload_expired, object_deleted,
}
use bash_builder.Files.Steps.{
  FileEvent, create, upload, cancel_upload, scanned, stored, verified, proceeds, expires, deletes,
  on_row, on_rows, on_request, to_stage, after_cleanup, settle, adjust, proceed,
  upload_file_content, cancel_file_upload, step, serve,
}
use bash_builder.Files.Moves.{
  Moves, stay, reserve, reset, accept, withdraw, refuse, Tracks, Tracks-refl, on_row-Tracks,
  on_rows-Tracks, reserved-IsMove, IsMove, infected_rejected-IsMove, unverified_rejected-IsMove,
  made_ready-IsMove, quarantine_reset-IsMove, upload_cancelled-IsMove, cleanup_scheduled-IsMove,
  upload_expired-IsMove, object_deleted-IsMove,
}

on_request-assets :
    (id : ℕ) (body : Request → Result Request) (t u : System)
    → on_request id body t ≡ ok u
    → u.assets ≡ t.assets
unfolding on_request
on_request-assets id body t u e =
    let (requests, _, done) = >>=-eq-ok (update_row (λ r. r.id) id body t.requests) _ e in
    sym (ap (λ (x : System). x.assets) (ok-injective done))

on_request-Tracks :
    (id : ℕ) (body : Request → Result Request) (xs : List Asset) (t u : System)
    → on_request id body t ≡ ok u
    → Tracks xs t.assets
    → Tracks xs u.assets
on_request-Tracks id body xs t u e h = subst (Tracks xs) (sym (on_request-assets id body t u e)) h

-- What a transaction of a request does to the files.
settle-Tracks :
    (action : String) (r : Request) (body : Asset → Result Asset) (won lost : Stage)
    → IsMove body
    → (t u : System) → settle action r body won lost t ≡ ok u
    → Tracks t.assets u.assets
settle-Tracks action r body won lost move t u e = by_result (on_row r.asset.id body t.assets) refl e
  where
    by_result :
        (x : Result (List Asset))
        → on_row r.asset.id body t.assets ≡ x
        → elim x [
          | ok assets ↦ on_request r.id (to_stage won) (record t {
            assets = assets;
            journal = write r.who action "file_asset" r.asset.id t.journal;
          })
          | err e ↦ on_request r.id (to_stage lost) t
        ]
          ≡ ok u
        → Tracks t.assets u.assets
    by_result (ok assets) same k =
        on_request-Tracks r.id (to_stage won) t.assets
          (record t {
            assets = assets;
            journal = write r.who action "file_asset" r.asset.id t.journal;
          })
          u k (on_row-Tracks r.asset.id body move t.assets assets same)
    by_result (err x) same k =
        on_request-Tracks r.id (to_stage lost) t.assets t u k (Tracks-refl t.assets)

adjust-Tracks :
    (r : Request) (body : Asset → Result Asset) (next : Stage)
    → IsMove body
    → (t u : System) → adjust r body next t ≡ ok u
    → Tracks t.assets u.assets
adjust-Tracks r body next move t u e =
    on_request-Tracks r.id (to_stage next) t.assets
      (record t { assets = on_rows r.asset.id body t.assets }) u e
      (on_rows-Tracks r.asset.id body move t.assets)

proceed-Tracks :
    (now : ℕ) (r : Request) (stage : Stage) (t u : System)
    → proceed now r stage t ≡ ok u
    → Tracks t.assets u.assets
unfolding proceed
proceed-Tracks now r rejecting t u e =
    settle-Tracks "file_asset.rejected" r (infected_rejected now) (thrown bad_request)
      (thrown conflict) (infected_rejected-IsMove now) t u e
proceed-Tracks now r (resetting x) t u e =
    adjust-Tracks r quarantine_reset (thrown x) quarantine_reset-IsMove t u e
proceed-Tracks now r unverified t u e =
    settle-Tracks "file_asset.rejected" r (unverified_rejected now) (scheduling (some unavailable))
      (scheduling (some unavailable)) (unverified_rejected-IsMove now) t u e
proceed-Tracks now r finishing t u e =
    settle-Tracks "file_asset.ready" r (made_ready now) returned (scheduling (some conflict))
      (made_ready-IsMove now) t u e
proceed-Tracks now r (scheduling x) t u e =
    adjust-Tracks r cleanup_scheduled (after_cleanup x) cleanup_scheduled-IsMove t u e
proceed-Tracks now r scanning t u e = cc
proceed-Tracks now r storing t u e = cc
proceed-Tracks now r verifying t u e = cc
proceed-Tracks now r returned t u e = cc
proceed-Tracks now r (thrown x) t u e = cc

created-Tracks :
    (enabled : Bool) (who : Identity) (now id : ℕ) (raw : IntentInput) (t u : System)
    → create_file_intent enabled who now id raw t ≡ ok u
    → Tracks t.assets u.assets
unfolding create_file_intent
created-Tracks enabled who now id raw t u e j a found =
    let (d, _, e₁) = >>=-eq-ok (parse_intent raw) _ e in
    let (_, e₂) = throw_if-eq-ok (not enabled) unavailable _ e₁ in
    let (fresh, e₃) = throw_if-eq-ok (any (λ a. a.id == id) t.assets) internal _ e₂ in
    (
      a,
      subst (λ (x : System). find_row (λ x. x.id) j x.assets ≡ some a) (ok-injective e₃)
          (find_row-fresh (λ x. x.id) j _ t.assets fresh found),
      stay,
    )

-- The transaction at the beginning of a request.
began-Tracks :
    (id : ℕ) (body : Asset → Result Asset) (make : Asset → List Asset → System) (t u : System)
    → IsMove body
    → ((a : Asset) (xs : List Asset) → (make a xs).assets ≡ xs)
    → (or_throw (find_row (λ a. a.id) id t.assets) not_found >>= λ a.
        (on_row id body t.assets >>= λ xs. ok (make a xs)))
      ≡ ok u
    → Tracks t.assets u.assets
began-Tracks id body make t u move keeps e =
    let (a, _, e₁) = >>=-eq-ok (or_throw (find_row (λ a. a.id) id t.assets) not_found) _ e in
    let (assets, ran, done) = >>=-eq-ok (on_row id body t.assets) _ e₁ in
    subst (Tracks t.assets)
      (sym (keeps a assets) ∙ ap (λ (x : System). x.assets) (ok-injective done))
      (on_row-Tracks id body move t.assets assets ran)

cleaned-Tracks :
    (id : ℕ) (body : Asset → Result Asset) (t u : System)
    → IsMove body
    → (on_row id body t.assets >>= λ assets. ok (record t { assets = assets })) ≡ ok u
    → Tracks t.assets u.assets
cleaned-Tracks id body t u move e =
    let (assets, ran, done) = >>=-eq-ok (on_row id body t.assets) _ e in
    subst (Tracks t.assets) (ap (λ (x : System). x.assets) (ok-injective done))
      (on_row-Tracks id body move t.assets assets ran)

step-Tracks :
    (sha256 : Text → Text) (enabled : Bool) (now : ℕ) (e : FileEvent) (t u : System)
    → step sha256 enabled now e t ≡ ok u
    → Tracks t.assets u.assets
unfolding step upload_file_content cancel_file_upload
step-Tracks sha256 enabled now (create who id raw) t u e =
    created-Tracks enabled who now id raw t u e
step-Tracks sha256 enabled now (upload who request id content) t u e =
    let (_, e₁) = throw_if-eq-ok (any (λ r. r.id == request) t.requests) internal _ e in
    let (_, e₂) = throw_if-eq-ok (not enabled) unavailable _ e₁ in
    began-Tracks id (reserved sha256 now content) _ t u (reserved-IsMove sha256 now content)
      (λ a xs. refl) e₂
step-Tracks sha256 enabled now (cancel_upload who request id) t u e =
    let (_, e₁) = throw_if-eq-ok (any (λ r. r.id == request) t.requests) internal _ e in
    began-Tracks id upload_cancelled _ t u upload_cancelled-IsMove (λ a xs. refl) e₁
step-Tracks sha256 enabled now (scanned request answer) t u e =
    on_request-Tracks request _ t.assets t u e (Tracks-refl t.assets)
step-Tracks sha256 enabled now (stored request answer) t u e =
    on_request-Tracks request _ t.assets t u e (Tracks-refl t.assets)
step-Tracks sha256 enabled now (verified request answer) t u e =
    on_request-Tracks request _ t.assets t u e (Tracks-refl t.assets)
step-Tracks sha256 enabled now (proceeds request) t u e =
    let (r, _, run) =
      >>=-eq-ok (or_throw (find_row (λ r. r.id) request t.requests) not_found) _ e in
    proceed-Tracks now r r.stage t u run
step-Tracks sha256 enabled now (expires id) t u e =
    cleaned-Tracks id (upload_expired now) t u (upload_expired-IsMove now) e
step-Tracks sha256 enabled now (deletes id) t u e =
    cleaned-Tracks id (object_deleted now) t u (object_deleted-IsMove now) e

abbrev pub is_final : FileStatus → Bool
is_final ready = true
is_final rejected = true
is_final _ = false

final_stays : (s r : FileStatus) → Moves s r → is_final s ≡ true → r ≡ s
final_stays s r stay h = refl
final_stays s r reserve h = cc
final_stays s r reset h = cc
final_stays s r accept h = cc
final_stays s r withdraw h = cc
final_stays s r refuse h = cc

after-Tracks :
    (sha256 : Text → Text) (enabled : Bool) (now : ℕ) (e : FileEvent) (t : System)
    → Tracks t.assets (after t (step sha256 enabled now e t)).assets
after-Tracks sha256 enabled now e t = elim (Result-cases (step sha256 enabled now e t)) [
  | inl (x, failed) ↦ rw failed (Tracks-refl t.assets)
  | inr (u, ran) ↦ rw ran (step-Tracks sha256 enabled now e t u ran)
]

-- A file that is ready or rejected has the same status after any steps of requests and of the
-- worker's clean-up: an upload that has been cancelled or has expired never becomes ready, and a file
-- that is ready is never reserved, reset or rejected again.
pub serve-final :
    (sha256 : Text → Text) (enabled : Bool) (t : System) (events : List (ℕ × FileEvent)) (id : ℕ)
    (a : Asset)
    → find_row (λ x. x.id) id t.assets ≡ some a
    → is_final a.status ≡ true
    → (b : Asset) × (find_row (λ x. x.id) id (serve sha256 enabled t events).assets ≡ some b)
      × (b.status ≡ a.status)
unfolding serve
serve-final sha256 enabled t [] id a found final = (a, found, refl)
serve-final sha256 enabled t ((now, e) ∷ events) id a found final =
    let (b, there, move) = after-Tracks sha256 enabled now e t id a found in
    let same = final_stays a.status b.status move final in
    let (c, last, still) =
      serve-final sha256 enabled (after t (step sha256 enabled now e t)) events id b there
        (ap is_final same ∙ final) in
    (c, last, still ∙ same)
