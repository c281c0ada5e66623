-- ===== src/Worker/Webhooks/Ready.antt =====
-- What is known of an attempt that sends.
use bash_builder.Prelude.{
  ℕ, ◌-◌, ◌≤◌, ◌≡◌, refl, sym, ap, ◌∙◌, subst, Bool, true, false, not, leb, Option, some, none,
  List, [], ◌∷◌, any, if◌then◌else◌, Text, ok, >>=-eq-ok, throw_if-eq-ok, or_throw, ok-injective,
  internal, arith, of_some-eq,
}
use bash_builder.Worker.Webhooks.Addresses.{is_public_webhook_address}
use bash_builder.Worker.Webhooks.Delivery.{
  Delivery, Prepared, Url, Endpoint, World, Limits, is_allowed_url, first_public,
  resolve_public_webhook_endpoint, is_blank, resolve_in_time, prepare_held, prepare,
}

-- An endpoint that the worker may send to.
pub record IsAllowed (w : World) (e : Endpoint) : Type 0 where
  pub url : is_allowed_url w.is_ip e.url ≡ true
  pub address : is_public_webhook_address w.is_ip e.address ≡ true

first_public-address :
    (is_ip : Text → ℕ) (url : Url) (addresses : List Text) (e : Endpoint)
    → first_public is_ip url addresses ≡ ok e
    → (e.url ≡ url) × (is_public_webhook_address is_ip e.address ≡ true)
unfolding first_public
first_public-address is_ip url [] e h = cc
first_public-address is_ip url (a ∷ addresses) e h =
    let (all_public, done) =
      throw_if-eq-ok (any (λ b. not (is_public_webhook_address is_ip b)) (a ∷ addresses)) internal _
        h in
    let same : record { url = url; address = a } ≡ e = ok-injective done in
    (
      sym (ap (λ (x : Endpoint). x.url) same),
      subst (λ (x : Endpoint). is_public_webhook_address is_ip x.address ≡ true) same
          (ground (arith, all_public)),
    )

of_not : (b : Bool) → not b ≡ false → b ≡ true
of_not true h = refl
of_not false h = cc

pub or_throw-ok {ℓ} : {A : Type ℓ} (o : Option A) {a : A} → or_throw o internal ≡ ok a → o ≡ some a
or_throw-ok none h = cc
or_throw-ok (some b) h = ap some (ok-injective h)

resolve_public_webhook_endpoint-IsAllowed :
    (w : World) (endpoint : Text) (e : Endpoint)
    → resolve_public_webhook_endpoint w endpoint ≡ ok e
    → IsAllowed w e
unfolding resolve_public_webhook_endpoint
resolve_public_webhook_endpoint-IsAllowed w endpoint e h =
    let (url, _, h₁) = >>=-eq-ok (or_throw (w.parse_url endpoint) internal) _ h in
    let (allowed, h₂) = throw_if-eq-ok (not (is_allowed_url w.is_ip url)) internal _ h₁ in
    let (addresses, _, h₃) = >>=-eq-ok (or_throw (w.lookup url.hostname) internal) _ h₂ in
    let (same, address) = first_public-address w.is_ip url addresses e h₃ in
    record {
      url = ap (is_allowed_url w.is_ip) same ∙ of_not (is_allowed_url w.is_ip url) allowed;
      address = address;
    }

-- What an attempt has found out when it sends.
pub record Ready (w : World) (limits : Limits) (d : Delivery) (p : Prepared) : Type 0 where
  pub held : w.first ≡ some true
  pub still_held : w.again ≡ some true
  pub known : w.secret_of d.secret_ref ≡ some p.secret
  pub filled : is_blank p.secret ≡ false
  pub allowed : IsAllowed w p.endpoint
  pub in_time : (1 ≤ p.remaining) × (p.remaining ≤ limits.timeout_ms)

time_left :
    (timeout now : ℕ) → leb timeout now ≡ false → (1 ≤ timeout - now) × (timeout - now ≤ timeout)
time_left timeout now h = ground (arith, h)

prepare_held-Ready :
    (w : World) (limits : Limits) (d : Delivery) (p : Prepared)
    → w.first ≡ some true
    → prepare_held w limits d ≡ ok (some p)
    → Ready w limits d p
unfolding prepare_held resolve_in_time
prepare_held-Ready w limits d p held h =
    let (s, known, h₁) = >>=-eq-ok (or_throw (w.secret_of d.secret_ref) internal) _ h in
    let (filled, h₂) = throw_if-eq-ok (is_blank s) internal _ h₁ in
    let (found, resolved, h₃) = >>=-eq-ok (resolve_in_time w limits.timeout_ms d.endpoint) _ h₂ in
    let (still, again, h₄) = >>=-eq-ok (or_throw w.again internal) _ h₃ in
    let (soon, r₁) = throw_if-eq-ok (leb limits.timeout_ms w.resolved) internal _ resolved in
    let (end, ran, r₂) = >>=-eq-ok (resolve_public_webhook_endpoint w d.endpoint) _ r₁ in
    let allowed = resolve_public_webhook_endpoint-IsAllowed w d.endpoint end ran in
    ready s end still (or_throw-ok _ known) filled allowed soon (or_throw-ok _ again) (
      ap
        (λ (x : Endpoint × ℕ).
          if still then some (record { secret = s; endpoint = x.0; remaining = x.1 }) else none)
        (ok-injective r₂)
      ∙ ok-injective h₄)
  where
    ready :
        (s : Text) (end : Endpoint) (still : Bool)
        → w.secret_of d.secret_ref ≡ some s
        → is_blank s ≡ false
        → IsAllowed w end
        → leb limits.timeout_ms w.resolved ≡ false
        → w.again ≡ some still
        → (if still
            then some
                (record { secret = s; endpoint = end; remaining = limits.timeout_ms - w.resolved })
            else none)
          ≡ some p
        → Ready w limits d p
    ready s end false known filled allowed soon again same = cc
    ready s end true known filled allowed soon again same =
        subst (Ready w limits d) (of_some-eq same) (record {
          held = held;
          still_held = again;
          known = known;
          filled = filled;
          allowed = allowed;
          in_time = time_left limits.timeout_ms w.resolved soon;
        })

pub prepare-Ready :
    (w : World) (limits : Limits) (d : Delivery) (p : Prepared)
    → prepare w limits d ≡ ok (some p)
    → Ready w limits d p
unfolding prepare
prepare-Ready w limits d p h =
    let (held, first, h₁) = >>=-eq-ok (or_throw w.first internal) _ h in
    by_lease held (or_throw-ok w.first first) h₁
  where
    by_lease :
        (held : Bool)
        → w.first ≡ some held
        → (if held then prepare_held w limits d else ok none) ≡ ok (some p)
        → Ready w limits d p
    by_lease true first e = prepare_held-Ready w limits d p first e
    by_lease false first e = cc
