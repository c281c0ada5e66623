-- ===== src/Files/Entries.antt =====
-- The steps that bring in a row or a request.
use bash_builder.Prelude.{
  ℕ, ◌≡◌, refl, sym, ap, ◌∙◌, subst, Bool, not, ◌==◌, any, Option, some, none, List, ◌∷◌, Text, ok,
  ok-injective, >>=-eq-ok, throw_if-eq-ok, or_throw, Identity, not_found, unavailable, internal,
  of_some-eq,
}
use bash_builder.Prelude.Table.{find_row, update_row, find_row-key, update_row-find}
use bash_builder.Files.Types.{Asset, System}
use bash_builder.Files.Service.{
  IntentInput, parse_intent, create_file_intent, reserved, upload_cancelled,
}
use bash_builder.Files.Steps.{FileEvent, upload, on_row, upload_file_content, cancel_file_upload}
use bash_builder.Files.Checks.{begin, take, Within, came, IsDeclared}
use bash_builder.Files.Kept.{
  Agrees, Agrees-update, reserved-IsQuiet, reserved-tests, upload_cancelled-IsQuiet,
}
use bash_builder.Files.Invariant.{Inv, Inv-quiet, Inv-fresh, Inv-skip}

pub or_throw-some {ℓ} :
    {A : Type ℓ} (o : Option A) {a : A} → or_throw o not_found ≡ ok a → o ≡ some a
or_throw-some none h = cc
or_throw-some (some b) h = ap some (ok-injective h)

find_row-Agrees :
    (id : ℕ) (assets : List Asset) (a : Asset)
    → find_row (λ x. x.id) id assets ≡ some a
    → Agrees assets a
find_row-Agrees id assets a found = (
  a,
  subst (λ i. find_row (λ x. x.id) i assets ≡ some a)
      (sym (find_row-key (λ x. x.id) id assets found)) found,
  (refl, refl, refl, refl),
)

reserved-IsDeclared :
    (sha256 : Text → Text) (now id : ℕ) (content : Text) (assets assets' : List Asset) (a : Asset)
    → find_row (λ x. x.id) id assets ≡ some a
    → update_row (λ x. x.id) id (reserved sha256 now content) assets ≡ ok assets'
    → IsDeclared sha256 a content
reserved-IsDeclared sha256 now id content assets assets' a found e =
    let (x, y, there, ran, _) =
      update_row-find (λ x. x.id) id (reserved sha256 now content)
        (λ a b r. (reserved-IsQuiet sha256 now content a b r).0.0) assets assets' e in
    let (size, checksum, type) =
      reserved-tests sha256 now content a y
        (subst (λ z. reserved sha256 now content z ≡ ok y) (of_some-eq (sym there ∙ found)) ran) in
    record { size = size; checksum = checksum; type = type }

module _ (sha256 : Text → Text) (past : List FileEvent) where
  pub create_file_intent-Inv :
      (enabled : Bool) (who : Identity) (now id : ℕ) (raw : IntentInput) (t u : System)
      → create_file_intent enabled who now id raw t ≡ ok u
      → Inv sha256 past t.assets t.requests
      → Inv sha256 past u.assets u.requests
  unfolding create_file_intent
  create_file_intent-Inv enabled who now id raw t u e good =
      let (d, _, e₁) = >>=-eq-ok (parse_intent raw) _ e in
      let (_, e₂) = throw_if-eq-ok (not enabled) unavailable _ e₁ in
      let (fresh, e₃) = throw_if-eq-ok (any (λ a. a.id == id) t.assets) internal _ e₂ in
      subst (λ (x : System). Inv sha256 past x.assets x.requests) (ok-injective e₃)
        (Inv-fresh sha256 past _ t.assets t.requests fresh refl good)

  pub upload_file_content-Inv :
      (enabled : Bool) (now : ℕ) (who : Identity) (request id : ℕ) (content : Text) (t u : System)
      → upload_file_content sha256 enabled now who request id content t ≡ ok u
      → Inv sha256 past t.assets t.requests
      → Inv sha256 (upload who request id content ∷ past) u.assets u.requests
  unfolding upload_file_content on_row
  upload_file_content-Inv enabled now who request id content t u e good =
      let (_, e₁) = throw_if-eq-ok (any (λ r. r.id == request) t.requests) internal _ e in
      let (_, e₂) = throw_if-eq-ok (not enabled) unavailable _ e₁ in
      let (a, there, e₃) = >>=-eq-ok (or_throw (find_row (λ a. a.id) id t.assets) not_found) _ e₂ in
      let (assets, ran, done) =
        >>=-eq-ok (update_row (λ a. a.id) id (reserved sha256 now content) t.assets) _ e₃ in
      let found = or_throw-some (find_row (λ a. a.id) id t.assets) there in
      let event = upload who request id content in
      let kept =
        Inv-quiet sha256 (event ∷ past) id (reserved sha256 now content)
          (reserved-IsQuiet sha256 now content) t.assets assets t.requests ran
          (Inv-skip sha256 past event t.assets t.requests good) in
      let seen =
        Agrees-update id (reserved sha256 now content)
          (λ x y r. (reserved-IsQuiet sha256 now content x y r).0) t.assets assets a ran
          (find_row-Agrees id t.assets a found) in
      let way =
        subst (λ i. Within (came who request i content) (event ∷ past))
          (sym (find_row-key (λ a. a.id) id t.assets found)) (take begin) in
      subst (λ (x : System). Inv sha256 (event ∷ past) x.assets x.requests) (ok-injective done)
        (
          (
            ((way, reserved-IsDeclared sha256 now id content t.assets assets a found ran), seen),
            kept.0,
          ),
          kept.1,
        )

  pub cancel_file_upload-Inv :
      (who : Identity) (request id : ℕ) (t u : System)
      → cancel_file_upload who request id t ≡ ok u
      → Inv sha256 past t.assets t.requests
      → Inv sha256 past u.assets u.requests
  unfolding cancel_file_upload on_row
  cancel_file_upload-Inv who request id t u e good =
      let (_, e₁) = throw_if-eq-ok (any (λ r. r.id == request) t.requests) internal _ e in
      let (a, there, e₂) = >>=-eq-ok (or_throw (find_row (λ a. a.id) id t.assets) not_found) _ e₁ in
      let (assets, ran, done) =
        >>=-eq-ok (update_row (λ a. a.id) id upload_cancelled t.assets) _ e₂ in
      let found = or_throw-some (find_row (λ a. a.id) id t.assets) there in
      let kept =
        Inv-quiet sha256 past id upload_cancelled upload_cancelled-IsQuiet t.assets assets
          t.requests ran good in
      let seen =
        Agrees-update id upload_cancelled (λ x y r. (upload_cancelled-IsQuiet x y r).0) t.assets
          assets a ran (find_row-Agrees id t.assets a found) in
      subst (λ (x : System). Inv sha256 past x.assets x.requests) (ok-injective done)
        (((tt, seen), kept.0), kept.1)
