-- ===== src/Files/Sound.antt =====
-- A file is ready only after its checks, whatever the order of the steps.
use bash_builder.Prelude.{
  ℕ, ◌≡◌, refl, subst, inl, inr, Option, some, none, List, Text, Error, Result, ok, err,
  Result-cases, ok-injective, >>=-eq-ok, bad_request, unavailable, conflict, write, String,
}
use bash_builder.Prelude.Table.{update_row}
use bash_builder.Files.Types.{
  Asset, Request, Stage, scanning, storing, verifying, finishing, rejecting, unverified, returned,
  resetting, thrown, scheduling, System,
}
use bash_builder.Files.Service.{
  infected_rejected, unverified_rejected, made_ready, quarantine_reset, cleanup_scheduled,
}
use bash_builder.Files.Steps.{
  FileEvent, on_row, on_rows, on_request, to_stage, after_cleanup, settle, adjust, proceed,
}
use bash_builder.Files.Checks.{Reached}
use bash_builder.Files.Kept.{
  IsQuiet, Agrees, infected_rejected-IsQuiet, unverified_rejected-IsQuiet, quarantine_reset-IsQuiet,
  cleanup_scheduled-IsQuiet,
}
use bash_builder.Files.Invariant.{Inv, Inv-quiet, Inv-to_stage, Inv-made_ready}

module _ (sha256 : Text → Text) (past : List FileEvent) where
  abbrev Good : System → Type 0
  Good t = Inv sha256 past t.assets t.requests

  on_request-Good :
      (id : ℕ) (stage : Stage)
      → ((r : Request) → Reached sha256 past r stage)
      → (t u : System) → on_request id (to_stage stage) t ≡ ok u
      → Good t
      → Good u
  unfolding on_request
  on_request-Good id stage free t u e good =
      let (requests, ran, done) =
        >>=-eq-ok (update_row (λ r. r.id) id (to_stage stage) t.requests) _ e in
      subst Good (ok-injective done)
        (Inv-to_stage sha256 past id stage free t.assets t.requests requests ran good)

  pub on_row-Good :
      (id : ℕ) (body : Asset → Result Asset)
      → IsQuiet body
      → (assets assets' : List Asset) (requests : List Request) → on_row id body assets ≡ ok assets'
      → Inv sha256 past assets requests
      → Inv sha256 past assets' requests
  unfolding on_row
  on_row-Good id body quiet assets assets' requests e good =
      Inv-quiet sha256 past id body quiet assets assets' requests e good

  on_rows-Good :
      (id : ℕ) (body : Asset → Result Asset)
      → IsQuiet body
      → (assets : List Asset) (requests : List Request) → Inv sha256 past assets requests
      → Inv sha256 past (on_rows id body assets) requests
  on_rows-Good id body quiet assets requests good = elim (Result-cases (on_row id body assets)) [
    | inl (x, e) ↦ rw e good
    | inr (ys, e) ↦ rw e (on_row-Good id body quiet assets ys requests e good)
  ]

  made_ready-Good :
      (now : ℕ) (r : Request) (assets assets' : List Asset) (requests : List Request)
      → Reached sha256 past r finishing
      → Agrees assets r.asset
      → on_row r.asset.id (made_ready now) assets ≡ ok assets'
      → Inv sha256 past assets requests
      → Inv sha256 past assets' requests
  unfolding on_row
  made_ready-Good now r assets assets' requests way seen e good =
      Inv-made_ready sha256 past now r assets assets' requests way seen e good

  adjust-Good :
      (r : Request) (body : Asset → Result Asset) (next : Stage)
      → IsQuiet body
      → ((x : Request) → Reached sha256 past x next)
      → (t u : System) → adjust r body next t ≡ ok u
      → Good t
      → Good u
  adjust-Good r body next quiet free t u e good =
      on_request-Good r.id next free (record t { assets = on_rows r.asset.id body t.assets }) u e
        (on_rows-Good r.asset.id body quiet t.assets t.requests good)

  settle-Good :
      (action : String) (r : Request) (body : Asset → Result Asset) (won lost : Stage)
      → ((x : Request) → Reached sha256 past x won)
      → ((x : Request) → Reached sha256 past x lost)
      → (t u : System)
      → ((assets : List Asset)
          → on_row r.asset.id body t.assets ≡ ok assets
          → Inv sha256 past assets t.requests)
      → settle action r body won lost t ≡ ok u
      → Good t
      → Good u
  settle-Good action r body won lost free other t u runs e good =
      by_result (on_row r.asset.id body t.assets) refl e
    where
      by_result :
          (x : Result (List Asset))
          → on_row r.asset.id body t.assets ≡ x
          → elim x [
            | ok assets ↦ on_request r.id (to_stage won) (record t {
              assets = assets;
              journal = write r.who action "file_asset" r.asset.id t.journal;
            })
            | err e ↦ on_request r.id (to_stage lost) t
          ]
            ≡ ok u
          → Good u
      by_result (ok assets) same k =
          on_request-Good r.id won free
            (record t {
              assets = assets;
              journal = write r.who action "file_asset" r.asset.id t.journal;
            })
            u k (runs assets same)
      by_result (err x) same k = on_request-Good r.id lost other t u k good

  after_cleanup-free : (e : Option Error) (x : Request) → Reached sha256 past x (after_cleanup e)
  after_cleanup-free none x = tt
  after_cleanup-free (some e) x = tt

  pub proceed-Good :
      (now : ℕ) (r : Request) (stage : Stage) (t u : System)
      → Reached sha256 past r stage
      → Agrees t.assets r.asset
      → proceed now r stage t ≡ ok u
      → Good t
      → Good u
  unfolding proceed
  proceed-Good now r rejecting t u way seen e good =
      settle-Good "file_asset.rejected" r (infected_rejected now) (thrown bad_request)
        (thrown conflict) (λ x. tt) (λ x. tt) t u
        (λ ys ran.
          on_row-Good r.asset.id (infected_rejected now) (infected_rejected-IsQuiet now) t.assets ys
            t.requests ran good)
        e good
  proceed-Good now r (resetting x) t u way seen e good =
      adjust-Good r quarantine_reset (thrown x) quarantine_reset-IsQuiet (λ y. tt) t u e good
  proceed-Good now r unverified t u way seen e good =
      settle-Good "file_asset.rejected" r (unverified_rejected now) (scheduling (some unavailable))
        (scheduling (some unavailable)) (λ x. tt) (λ x. tt) t u
        (λ ys ran.
          on_row-Good r.asset.id (unverified_rejected now) (unverified_rejected-IsQuiet now)
            t.assets ys t.requests ran good)
        e good
  proceed-Good now r finishing t u way seen e good =
      settle-Good "file_asset.ready" r (made_ready now) returned (scheduling (some conflict))
        (λ x. tt) (λ x. tt) t u
        (λ ys ran. made_ready-Good now r t.assets ys t.requests way seen ran good) e good
  proceed-Good now r (scheduling x) t u way seen e good =
      adjust-Good r cleanup_scheduled (after_cleanup x) cleanup_scheduled-IsQuiet
        (after_cleanup-free x) t u e good
  proceed-Good now r scanning t u way seen e good = cc
  proceed-Good now r storing t u way seen e good = cc
  proceed-Good now r verifying t u way seen e good = cc
  proceed-Good now r returned t u way seen e good = cc
  proceed-Good now r (thrown x) t u way seen e good = cc
