-- ===== src/Files/Moves.antt =====
-- The states of a file and the moves between them.
use bash_builder.Prelude.{
  ℕ, ◌≡◌, refl, sym, subst, inl, inr, some, List, Text, Result, ok, Result-cases, arith,
}
use bash_builder.Prelude.Table.{find_row, update_row-row}
use bash_builder.Files.Types.{Asset, FileStatus, pending, quarantined, ready, rejected}
use bash_builder.Files.Service.{
  reserved, infected_rejected, unverified_rejected, made_ready, quarantine_reset, upload_cancelled,
  cleanup_scheduled, upload_expired, object_deleted,
}
use bash_builder.Files.Steps.{on_row, on_rows}
use bash_builder.Files.Kept.{
  made_ready-Keeps, reserved-IsQuiet, infected_rejected-IsQuiet, unverified_rejected-IsQuiet,
  upload_expired-IsQuiet, object_deleted-IsQuiet, quarantine_reset-IsQuiet,
  upload_cancelled-IsQuiet, cleanup_scheduled-IsQuiet,
}

-- The edges of the state diagram of a file. A file that is ready or rejected stays so.
pub data Moves : FileStatus → FileStatus → Type 0 where
  stay : {s : FileStatus} → Moves s s
  reserve : Moves pending quarantined
  reset : Moves quarantined pending
  accept : Moves quarantined ready
  withdraw : Moves pending rejected
  refuse : Moves quarantined rejected

abbrev pub IsMove : (Asset → Result Asset) → Type 0
IsMove body = (a b : Asset) → body a ≡ ok b → (b.id ≡ a.id) × Moves a.status b.status

pub reserved-IsMove :
    (sha256 : Text → Text) (now : ℕ) (content : Text) → IsMove (reserved sha256 now content)
unfolding reserved
reserved-IsMove sha256 now content a b e =
    let (from, to) : (a.status ≡ pending) × (b.status ≡ quarantined) = ground (arith, e) in
    ((reserved-IsQuiet sha256 now content a b e).0.0, rw (from, to) reserve)

pub upload_expired-IsMove : (now : ℕ) → IsMove (upload_expired now)
unfolding upload_expired
upload_expired-IsMove now a b e = by_status a.status refl
  where
    to : b.status ≡ rejected
    to = ground (arith, e)

    by_status : (s : FileStatus) → a.status ≡ s → (b.id ≡ a.id) × Moves a.status b.status
    by_status pending p = ((upload_expired-IsQuiet now a b e).0.0, rw (p, to) withdraw)
    by_status quarantined p = ((upload_expired-IsQuiet now a b e).0.0, rw (p, to) refuse)
    by_status rejected p = ((upload_expired-IsQuiet now a b e).0.0, rw (p, to) stay)
    by_status ready p = absurd (ground (arith, e, p))

pub infected_rejected-IsMove : (now : ℕ) → IsMove (infected_rejected now)
unfolding infected_rejected
infected_rejected-IsMove now a b e =
    let (from, to) : (a.status ≡ quarantined) × (b.status ≡ rejected) = ground (arith, e) in
    ((infected_rejected-IsQuiet now a b e).0.0, rw (from, to) refuse)

pub unverified_rejected-IsMove : (now : ℕ) → IsMove (unverified_rejected now)
unfolding unverified_rejected
unverified_rejected-IsMove now a b e =
    let (from, to) : (a.status ≡ quarantined) × (b.status ≡ rejected) = ground (arith, e) in
    ((unverified_rejected-IsQuiet now a b e).0.0, rw (from, to) refuse)

pub made_ready-IsMove : (now : ℕ) → IsMove (made_ready now)
unfolding made_ready
made_ready-IsMove now a b e =
    let (from, to) : (a.status ≡ quarantined) × (b.status ≡ ready) = ground (arith, e) in
    ((made_ready-Keeps now a b e).0, rw (from, to) accept)

pub quarantine_reset-IsMove : IsMove quarantine_reset
unfolding quarantine_reset
quarantine_reset-IsMove a b e =
    let (from, to) : (a.status ≡ quarantined) × (b.status ≡ pending) = ground (arith, e) in
    ((quarantine_reset-IsQuiet a b e).0.0, rw (from, to) reset)

pub object_deleted-IsMove : (now : ℕ) → IsMove (object_deleted now)
unfolding object_deleted
object_deleted-IsMove now a b e =
    let same : b.status ≡ a.status = ground (arith, e) in
    ((object_deleted-IsQuiet now a b e).0.0, rw same stay)

pub cleanup_scheduled-IsMove : IsMove cleanup_scheduled
unfolding cleanup_scheduled
cleanup_scheduled-IsMove a b e =
    let same : b.status ≡ a.status = ground (arith, e) in
    ((cleanup_scheduled-IsQuiet a b e).0.0, rw same stay)

pub upload_cancelled-IsMove : IsMove upload_cancelled
unfolding upload_cancelled
upload_cancelled-IsMove a b e = by_status a.status refl
  where
    to : b.status ≡ rejected
    to = ground (arith, e)

    by_status : (s : FileStatus) → a.status ≡ s → (b.id ≡ a.id) × Moves a.status b.status
    by_status pending p = ((upload_cancelled-IsQuiet a b e).0.0, rw (p, to) withdraw)
    by_status quarantined p = ((upload_cancelled-IsQuiet a b e).0.0, rw (p, to) refuse)
    by_status rejected p = absurd (ground (arith, e, p))
    by_status ready p = absurd (ground (arith, e, p))

-- Every file of a table is in a later one, at the end of an edge.
abbrev pub Tracks : List Asset → List Asset → Type 0
Tracks xs ys =
    (id : ℕ) (a : Asset)
    → find_row (λ x. x.id) id xs ≡ some a
    → (b : Asset) × (find_row (λ x. x.id) id ys ≡ some b) × Moves a.status b.status

pub Tracks-refl : (xs : List Asset) → Tracks xs xs
Tracks-refl xs id a found = (a, found, stay)

pub on_row-Tracks :
    (target : ℕ) (body : Asset → Result Asset)
    → IsMove body
    → (xs ys : List Asset) → on_row target body xs ≡ ok ys
    → Tracks xs ys
unfolding on_row
on_row-Tracks target body move xs ys e id a found =
    let (b, there, how) =
      update_row-row (λ x. x.id) target id body (λ a b r. (move a b r).0) xs ys a e found in
    (
      b,
      there,
      elim how [
        | inl still ↦ subst (λ (x : Asset). Moves a.status x.status) (sym still) stay
        | inr ran ↦ (move a b ran).1
      ],
    )

pub on_rows-Tracks :
    (target : ℕ) (body : Asset → Result Asset)
    → IsMove body
    → (xs : List Asset) → Tracks xs (on_rows target body xs)
on_rows-Tracks target body move xs = elim (Result-cases (on_row target body xs)) [
  | inl (x, e) ↦ rw e (Tracks-refl xs)
  | inr (ys, e) ↦ rw e (on_row-Tracks target body move xs ys e)
]
