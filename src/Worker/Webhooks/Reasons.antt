-- ===== src/Worker/Webhooks/Reasons.antt =====
-- Why an attempt to deliver a webhook sends nothing.
use bash_builder.Prelude.{
  ℕ, ◌≤◌, ◌<◌, ◌≡◌, refl, ◌⊎◌, inl, inr, Bool, true, false, not, any, Option, some, none, List, [],
  ◌∷◌, if◌then◌else◌, Bool-cases, Text, Result, ok, err, Error, >>=-eq-ok, throw_if-eq-ok, throw_if,
  ◌>>=◌, leb, leb→le, ◌-◌, or_throw, internal, arith,
}
use bash_builder.Worker.Webhooks.Ready.{or_throw-ok}
use bash_builder.Worker.Webhooks.Addresses.{is_public_webhook_address}
use bash_builder.Worker.Webhooks.Delivery.{
  Url, is_allowed_url, first_public, Delivery, Prepared, Endpoint, World, Limits, is_blank,
  resolve_in_time, prepare_held, prepare, resolve_public_webhook_endpoint, body_of,
}

-- Why a text resolves to no endpoint.
pub data HasNoEndpoint (w : World) (endpoint : Text) : Type 0 where
  no_url : w.parse_url endpoint ≡ none → HasNoEndpoint w endpoint
  not_allowed :
      (url : Url)
      → w.parse_url endpoint ≡ some url
      → is_allowed_url w.is_ip url ≡ false
      → HasNoEndpoint w endpoint
  unresolved :
      (url : Url)
      → w.parse_url endpoint ≡ some url
      → w.lookup url.hostname ≡ none
      → HasNoEndpoint w endpoint
  not_public :
      (url : Url) (addresses : List Text)
      → w.parse_url endpoint ≡ some url
      → w.lookup url.hostname ≡ some addresses
      → (addresses ≡ []) ⊎ (any (λ a. not (is_public_webhook_address w.is_ip a)) addresses ≡ true)
      → HasNoEndpoint w endpoint

-- Why an attempt sends nothing and is marked as failed, in the order of the tests: a later reason
-- counts only where the first test of the lease has held.
pub data Reason (w : World) (limits : Limits) (d : Delivery) : Type 0 where
  no_answer : w.first ≡ none → Reason w limits d
  no_secret : w.first ≡ some true → w.secret_of d.secret_ref ≡ none → Reason w limits d
  blank_secret :
      (secret : Text)
      → w.first ≡ some true
      → w.secret_of d.secret_ref ≡ some secret
      → is_blank secret ≡ true
      → Reason w limits d
  too_late : w.first ≡ some true → limits.timeout_ms ≤ w.resolved → Reason w limits d
  no_endpoint : w.first ≡ some true → HasNoEndpoint w d.endpoint → Reason w limits d
  no_second_answer : w.first ≡ some true → w.again ≡ none → Reason w limits d
  too_large :
      w.first ≡ some true
      → w.again ≡ some true
      → limits.max_bytes < w.byte_length (body_of w d)
      → Reason w limits d

-- The second test of the lease comes after the secret and the endpoint have been found in time.
pub record Found (w : World) (limits : Limits) (d : Delivery) : Type 0 where
  pub held : w.first ≡ some true
  pub secret : Text
  pub known : w.secret_of d.secret_ref ≡ some secret
  pub filled : is_blank secret ≡ false
  pub in_time : w.resolved < limits.timeout_ms
  pub endpoint : Endpoint
  pub resolves : resolve_public_webhook_endpoint w d.endpoint ≡ ok endpoint

-- What comes of an attempt that prepares no request.
abbrev pub Ends : World → Limits → Delivery → Result (Option Prepared) → Type 0
Ends w limits d (err e) = Reason w limits d
Ends w limits d (ok none) = (w.first ≡ some false) ⊎ (Found w limits d × (w.again ≡ some false))
Ends w limits d (ok (some p)) = Unit

>>=-Ends :
    {T : Type 0} (w : World) (limits : Limits) (d : Delivery) (m : Result T)
    (rest : T → Result (Option Prepared))
    → ((e : Error) → m ≡ err e → Reason w limits d)
    → ((v : T) → m ≡ ok v → Ends w limits d (rest v))
    → Ends w limits d (m >>= rest)
>>=-Ends w limits d (err e) rest fails goes = fails e refl
>>=-Ends w limits d (ok v) rest fails goes = goes v refl

or_throw-err : {A : Type 0} (o : Option A) (e : Error) → or_throw o internal ≡ err e → o ≡ none
or_throw-err none e h = refl
or_throw-err (some a) e h = cc

throw_if-err : (b : Bool) (e : Error) → throw_if b internal ≡ err e → b ≡ true
throw_if-err true e h = refl
throw_if-err false e h = cc

throw_if-ok : (b : Bool) (v : Unit {0}) → throw_if b internal ≡ ok v → b ≡ false
throw_if-ok true v h = cc
throw_if-ok false v h = refl

>>=-eq-err :
    {T U : Type 0} (P : Type 0) (m : Result T) (rest : T → Result U) (e : Error)
    → (m >>= rest) ≡ err e
    → ((x : Error) → m ≡ err x → P)
    → ((v : T) → m ≡ ok v → rest v ≡ err e → P)
    → P
>>=-eq-err P (err x) rest e h fails goes = fails x refl
>>=-eq-err P (ok v) rest e h fails goes = goes v refl h

first_public-refused :
    (is_ip : Text → ℕ) (url : Url) (addresses : List Text) (e : Error)
    → first_public is_ip url addresses ≡ err e
    → (addresses ≡ []) ⊎ (any (λ a. not (is_public_webhook_address is_ip a)) addresses ≡ true)
unfolding first_public
first_public-refused is_ip url [] e h = inl refl
first_public-refused is_ip url (a ∷ addresses) e h =
    >>=-eq-err _
      (throw_if (any (λ b. not (is_public_webhook_address is_ip b)) (a ∷ addresses)) internal) _ e h
      (λ x t. inr (throw_if-err _ x t)) (λ v t r. cc)

denied : (b : Bool) → not b ≡ true → b ≡ false
denied true h = cc
denied false h = refl

resolve_public_webhook_endpoint-HasNoEndpoint :
    (w : World) (endpoint : Text) (e : Error)
    → resolve_public_webhook_endpoint w endpoint ≡ err e
    → HasNoEndpoint w endpoint
unfolding resolve_public_webhook_endpoint
resolve_public_webhook_endpoint-HasNoEndpoint w endpoint e h =
    >>=-eq-err _ (or_throw (w.parse_url endpoint) internal) _ e h
      (λ x t. no_url (or_throw-err _ x t))
      (λ url parsed h₁.
        >>=-eq-err _ (throw_if (not (is_allowed_url w.is_ip url)) internal) _ e h₁
          (λ x t. not_allowed url (or_throw-ok _ parsed) (denied _ (throw_if-err _ x t)))
          (λ done t h₂.
            >>=-eq-err _ (or_throw (w.lookup url.hostname) internal) _ e h₂
              (λ x t. unresolved url (or_throw-ok _ parsed) (or_throw-err _ x t))
              (λ addresses looked h₃.
                not_public url addresses (or_throw-ok _ parsed) (or_throw-ok _ looked)
                  (first_public-refused w.is_ip url addresses e h₃))))

not_late : (timeout now : ℕ) → leb timeout now ≡ false → now < timeout
not_late timeout now h = ground (arith, h)

module _ (w : World) (limits : Limits) (d : Delivery) (held : w.first ≡ some true) where
  resolve_in_time-Reason :
      (e : Error) → resolve_in_time w limits.timeout_ms d.endpoint ≡ err e → Reason w limits d
  unfolding resolve_in_time
  resolve_in_time-Reason e h = elim (Bool-cases (leb limits.timeout_ms w.resolved)) [
    | inl late ↦ too_late held (leb→le _ _ late)
    | inr soon ↦ by_endpoint (resolve_public_webhook_endpoint w d.endpoint) refl (rw soon at h)
  ]
    where
      by_endpoint :
          (r : Result Endpoint)
          → resolve_public_webhook_endpoint w d.endpoint ≡ r
          → ◌>>=◌ {U = Endpoint × ℕ} r (λ found. ok (found, limits.timeout_ms - w.resolved)) ≡ err e
          → Reason w limits d
      by_endpoint (err x) same k =
          no_endpoint held (resolve_public_webhook_endpoint-HasNoEndpoint w d.endpoint x same)
      by_endpoint (ok x) same k = cc

  resolve_in_time-Found :
      (secret : Text) (found : Endpoint × ℕ)
      → w.secret_of d.secret_ref ≡ some secret
      → is_blank secret ≡ false
      → resolve_in_time w limits.timeout_ms d.endpoint ≡ ok found
      → Found w limits d
  unfolding resolve_in_time
  resolve_in_time-Found secret found known filled h =
      let (soon, h₁) = throw_if-eq-ok (leb limits.timeout_ms w.resolved) internal _ h in
      let (endpoint, resolves, _) = >>=-eq-ok (resolve_public_webhook_endpoint w d.endpoint) _ h₁ in
      record {
        held = held;
        secret = secret;
        known = known;
        filled = filled;
        in_time = not_late limits.timeout_ms w.resolved soon;
        endpoint = endpoint;
        resolves = resolves;
      }

  still-Ends :
      (secret : Text) (found : Endpoint × ℕ) (still : Bool)
      → Found w limits d
      → w.again ≡ some still
      → Ends w limits d (
          ok (
            if◌then◌else◌ {A = Option Prepared} still
              (some (record { secret = secret; endpoint = found.0; remaining = found.1 }))
              none))
  still-Ends secret found true ready again = tt
  still-Ends secret found false ready again = inr (ready, again)

  prepare_held-Ends : Ends w limits d (prepare_held w limits d)
  unfolding prepare_held
  prepare_held-Ends =
      >>=-Ends w limits d (or_throw (w.secret_of d.secret_ref) internal) _
        (λ e h. no_secret held (or_throw-err _ e h))
        (λ secret known.
          >>=-Ends w limits d (throw_if (is_blank secret) internal) _
            (λ e h. blank_secret secret held (or_throw-ok _ known) (throw_if-err _ e h))
            (λ done filled.
              >>=-Ends w limits d (resolve_in_time w limits.timeout_ms d.endpoint) _
                resolve_in_time-Reason
                (λ found resolved.
                  >>=-Ends w limits d (or_throw w.again internal) _
                    (λ e h. no_second_answer held (or_throw-err w.again e h))
                    (λ still again.
                      still-Ends secret found still
                        (resolve_in_time-Found secret found (or_throw-ok _ known)
                          (throw_if-ok _ done filled) resolved)
                        (or_throw-ok w.again again)))))

pub prepare-Ends :
    (w : World) (limits : Limits) (d : Delivery) → Ends w limits d (prepare w limits d)
unfolding prepare
prepare-Ends w limits d =
    >>=-Ends w limits d (or_throw w.first internal) _ (λ e h. no_answer (or_throw-err w.first e h))
      (λ held h. by_lease held (or_throw-ok w.first h))
  where
    by_lease :
        (held : Bool)
        → w.first ≡ some held
        → Ends w limits d (if held then prepare_held w limits d else ok none)
    by_lease true first = prepare_held-Ends w limits d first
    by_lease false first = inl first
