-- ===== src/Files/Checks.antt =====
-- What is known of a request at its stage, and of a file that is ready.
use bash_builder.Prelude.{
  ℕ, ◌≡◌, Bool, true, false, List, [], ◌∷◌, length, Text, Identity, subst, Bool-cases, inl, inr,
  sym, arith,
}
use bash_builder.Files.Types.{
  Asset, Scan, clean, infected, broken, Stage, scanning, storing, verifying, finishing, rejecting,
  unverified, returned, resetting, thrown, scheduling, Request,
}
use bash_builder.Files.Contents.{matches_type}
use bash_builder.Files.Service.{same_checksum}
use bash_builder.Files.Steps.{
  FileEvent, upload, scanned, stored, verified, after_scan, after_put, after_verification,
  answer_at, is_scanning, is_storing, is_verifying,
}

-- Some of the events of a history, both newest first.
pub data Within : List FileEvent → List FileEvent → Type 0 where
  begin : {past : List FileEvent} → Within [] past
  skip :
      {e : FileEvent} {events past : List FileEvent} → Within events past → Within events (e ∷ past)
  take :
      {e : FileEvent} {events past : List FileEvent}
      → Within events past
      → Within (e ∷ events) (e ∷ past)

-- The way of a request to a file that is ready, newest first.
abbrev pub came : Identity → ℕ → ℕ → Text → List FileEvent
came who request id content = upload who request id content ∷ []

abbrev pub was_clean : Identity → ℕ → ℕ → Text → List FileEvent
was_clean who request id content = scanned request clean ∷ came who request id content

abbrev pub was_stored : Identity → ℕ → ℕ → Text → List FileEvent
was_stored who request id content = stored request true ∷ was_clean who request id content

abbrev pub was_verified : Identity → ℕ → ℕ → Text → List FileEvent
was_verified who request id content = verified request true ∷ was_stored who request id content

at_scanning : (s : Stage) → is_scanning s ≡ true → scanning ≡ s
at_scanning s h = ground (arith, h)

at_storing : (s : Stage) → is_storing s ≡ true → storing ≡ s
at_storing s h = ground (arith, h)

at_verifying : (s : Stage) → is_verifying s ≡ true → verifying ≡ s
at_verifying s h = ground (arith, h)

module _ (sha256 : Text → Text) where
  -- The bytes are those that the intent has declared.
  pub record IsDeclared (a : Asset) (content : Text) : Type 0 where
    pub size : length content ≡ a.byte_size
    pub checksum : same_checksum (sha256 content) a.checksum ≡ true
    pub type : matches_type a.content_type content ≡ true

  -- Bytes as declared were uploaded, found clean, stored and verified, in this order and by one
  -- request.
  abbrev pub IsChecked : List FileEvent → Asset → Type 0
  IsChecked past a =
      (who : Identity) × (request : ℕ) × (content : Text) × Within
        (was_verified who request a.id content) past
      × IsDeclared a content

  abbrev pub Reached : List FileEvent → Request → Stage → Type 0
  Reached past r scanning =
      Within (came r.who r.id r.asset.id r.content) past × IsDeclared r.asset r.content
  Reached past r storing =
      Within (was_clean r.who r.id r.asset.id r.content) past × IsDeclared r.asset r.content
  Reached past r verifying =
      Within (was_stored r.who r.id r.asset.id r.content) past × IsDeclared r.asset r.content
  Reached past r finishing =
      Within (was_verified r.who r.id r.asset.id r.content) past × IsDeclared r.asset r.content
  Reached past r stage = Unit

  pub Reached-skip :
      (e : FileEvent) (past : List FileEvent) (r : Request) (stage : Stage)
      → Reached past r stage
      → Reached (e ∷ past) r stage
  Reached-skip e past r scanning h = (skip h.0, h.1)
  Reached-skip e past r storing h = (skip h.0, h.1)
  Reached-skip e past r verifying h = (skip h.0, h.1)
  Reached-skip e past r finishing h = (skip h.0, h.1)
  Reached-skip e past r rejecting h = tt
  Reached-skip e past r unverified h = tt
  Reached-skip e past r returned h = tt
  Reached-skip e past r (resetting x) h = tt
  Reached-skip e past r (thrown x) h = tt
  Reached-skip e past r (scheduling x) h = tt

  -- An answer moves the request that waits for it and leaves another where it is.
  answer_at-Reached :
      (waits : Stage → Bool) (next : Stage) (e : FileEvent) (past : List FileEvent) (r : Request)
      (stage : Stage)
      → (waits stage ≡ true → Reached past r stage → Reached (e ∷ past) r next)
      → Reached past r stage
      → Reached (e ∷ past) r (answer_at waits next stage)
  answer_at-Reached waits next e past r stage moves h = elim (Bool-cases (waits stage)) [
    | inl hit ↦ rw hit (moves hit h)
    | inr miss ↦ rw miss (Reached-skip e past r stage h)
  ]

  pub after_scan-Reached :
      (answer : Scan) (past : List FileEvent) (r : Request)
      → Reached past r r.stage
      → Reached (scanned r.id answer ∷ past) r (answer_at is_scanning (after_scan answer) r.stage)
  unfolding after_scan
  after_scan-Reached answer past r h =
      answer_at-Reached is_scanning (after_scan answer) (scanned r.id answer) past r r.stage
        (λ hit k. moves answer (subst (Reached past r) (sym (at_scanning r.stage hit)) k)) h
    where
      moves :
          (answer : Scan)
          → Reached past r scanning
          → Reached (scanned r.id answer ∷ past) r (after_scan answer)
      moves clean k = (take k.0, k.1)
      moves infected k = tt
      moves broken k = tt

  pub after_put-Reached :
      (answer : Bool) (past : List FileEvent) (r : Request)
      → Reached past r r.stage
      → Reached (stored r.id answer ∷ past) r (answer_at is_storing (after_put answer) r.stage)
  unfolding after_put
  after_put-Reached answer past r h =
      answer_at-Reached is_storing (after_put answer) (stored r.id answer) past r r.stage
        (λ hit k. moves answer (subst (Reached past r) (sym (at_storing r.stage hit)) k)) h
    where
      moves :
          (answer : Bool)
          → Reached past r storing
          → Reached (stored r.id answer ∷ past) r (after_put answer)
      moves true k = (take k.0, k.1)
      moves false k = tt

  pub after_verification-Reached :
      (answer : Bool) (past : List FileEvent) (r : Request)
      → Reached past r r.stage
      → Reached
          (verified r.id answer ∷ past)
          r
          (answer_at is_verifying (after_verification answer) r.stage)
  unfolding after_verification
  after_verification-Reached answer past r h =
      answer_at-Reached is_verifying (after_verification answer) (verified r.id answer) past r
        r.stage (λ hit k. moves answer (subst (Reached past r) (sym (at_verifying r.stage hit)) k))
        h
    where
      moves :
          (answer : Bool)
          → Reached past r verifying
          → Reached (verified r.id answer ∷ past) r (after_verification answer)
      moves true k = (take k.0, k.1)
      moves false k = tt
