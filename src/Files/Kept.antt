-- ===== src/Files/Kept.antt =====
-- What the transactions on a row keep of it.
use bash_builder.Prelude.{
  ℕ, ◌≡◌, length, sym, ◌∙◌, subst, inl, inr, true, false, ◌==◌, any, some, List, ◌∷◌, Text, Result,
  ok, arith,
}
use bash_builder.Prelude.Table.{find_row, update_row, update_row-row, find_row-fresh}
use bash_builder.Files.Types.{Asset, is_ready}
use bash_builder.Files.Service.{
  reserved, same_checksum, infected_rejected, unverified_rejected, made_ready, quarantine_reset,
  upload_cancelled, cleanup_scheduled, upload_expired, object_deleted,
}
use bash_builder.Files.Contents.{assert_file_content_matches_type, matches_type}

-- What is declared of a file never changes.
abbrev pub Same : Asset → Asset → Type 0
Same a b =
    (b.id ≡ a.id)
    × (b.byte_size ≡ a.byte_size)
    × (b.checksum ≡ a.checksum)
    × (b.content_type ≡ a.content_type)

pub Same-trans : (a b c : Asset) → Same a b → Same b c → Same a c
Same-trans a b c h k = (k.0 ∙ h.0, k.1 ∙ h.1, k.2 ∙ h.2, k.3 ∙ h.3)

abbrev pub Keeps : (Asset → Result Asset) → Type 0
Keeps body = (a b : Asset) → body a ≡ ok b → Same a b

-- A transaction that keeps what is declared and does not make the file ready.
abbrev pub IsQuiet : (Asset → Result Asset) → Type 0
IsQuiet body = (a b : Asset) → body a ≡ ok b → Same a b × (is_ready b.status ≡ false)

pub made_ready-Keeps : (now : ℕ) → Keeps (made_ready now)
unfolding made_ready
made_ready-Keeps now a b e = ground (arith, e)

pub reserved-IsQuiet :
    (sha256 : Text → Text) (now : ℕ) (content : Text) → IsQuiet (reserved sha256 now content)
unfolding reserved
reserved-IsQuiet sha256 now content a b e = ground (arith, e)

pub infected_rejected-IsQuiet : (now : ℕ) → IsQuiet (infected_rejected now)
unfolding infected_rejected
infected_rejected-IsQuiet now a b e = ground (arith, e)

pub unverified_rejected-IsQuiet : (now : ℕ) → IsQuiet (unverified_rejected now)
unfolding unverified_rejected
unverified_rejected-IsQuiet now a b e = ground (arith, e)

pub upload_expired-IsQuiet : (now : ℕ) → IsQuiet (upload_expired now)
unfolding upload_expired
upload_expired-IsQuiet now a b e = ground (arith, e)

pub object_deleted-IsQuiet : (now : ℕ) → IsQuiet (object_deleted now)
unfolding object_deleted
object_deleted-IsQuiet now a b e = ground (arith, e)

pub quarantine_reset-IsQuiet : IsQuiet quarantine_reset
unfolding quarantine_reset
quarantine_reset-IsQuiet a b e = ground (arith, e)

pub upload_cancelled-IsQuiet : IsQuiet upload_cancelled
unfolding upload_cancelled
upload_cancelled-IsQuiet a b e = ground (arith, e)

pub cleanup_scheduled-IsQuiet : IsQuiet cleanup_scheduled
unfolding cleanup_scheduled
cleanup_scheduled-IsQuiet a b e = ground (arith, e)

-- What the first transaction of an upload has tested.
pub reserved-tests :
    (sha256 : Text → Text) (now : ℕ) (content : Text) (a b : Asset)
    → reserved sha256 now content a ≡ ok b
    → (length content ≡ a.byte_size)
      × (same_checksum (sha256 content) a.checksum ≡ true)
      × (matches_type a.content_type content ≡ true)
unfolding reserved assert_file_content_matches_type
reserved-tests sha256 now content a b e = ground (arith, e)

-- The row that a request has read is still there, as it was declared.
abbrev pub Agrees : List Asset → Asset → Type 0
Agrees assets seen = (a : Asset) × (find_row (λ a. a.id) seen.id assets ≡ some a) × Same seen a

pub Agrees-update :
    (id : ℕ) (body : Asset → Result Asset)
    → Keeps body
    → (xs ys : List Asset) (seen : Asset) → update_row (λ a. a.id) id body xs ≡ ok ys
    → Agrees xs seen
    → Agrees ys seen
Agrees-update id body keeps xs ys seen e (a, found, same) =
    let (b, there, how) =
      update_row-row (λ a. a.id) id seen.id body (λ a b r. (keeps a b r).0) xs ys a e found in
    (
      b,
      there,
      elim how [
        | inl still ↦ subst (Same seen) (sym still) same
        | inr ran ↦ Same-trans seen a b same (keeps a b ran)
      ],
    )

pub Agrees-fresh :
    (x : Asset) (xs : List Asset) (seen : Asset)
    → any (λ a. a.id == x.id) xs ≡ false
    → Agrees xs seen
    → Agrees (x ∷ xs) seen
Agrees-fresh x xs seen fresh (a, found, same) =
    (a, find_row-fresh (λ a. a.id) seen.id x xs fresh found, same)
