-- ===== src/Files/Invariant.antt =====
-- What holds of the assets and the requests after a history.
use bash_builder.Prelude.{
  ℕ, ◌≡◌, sym, ap, ◌∙◌, subst, Bool, true, false, ◌==◌, any, List, [], ◌∷◌, All, All-mono, Text,
  Result, ok, ok-injective, of_some-eq,
}
use bash_builder.Prelude.Table.{update_row, update_row-All_found, update_row-All, find_row-key}
use bash_builder.Files.Types.{Asset, Request, Stage, finishing, is_ready}
use bash_builder.Files.Service.{made_ready, same_checksum}
use bash_builder.Files.Contents.{matches_type}
use bash_builder.Files.Steps.{FileEvent, to_stage, at_stage}
use bash_builder.Files.Checks.{
  Within, skip, IsDeclared, IsChecked, Reached, Reached-skip, was_verified,
}
use bash_builder.Files.Kept.{
  Same, Same-trans, IsQuiet, Agrees, Agrees-update, Agrees-fresh, made_ready-Keeps,
}

module _ (sha256 : Text → Text) (past : List FileEvent) where
  abbrev pub IsFollowed : List Asset → Request → Type 0
  IsFollowed assets r = Reached sha256 past r r.stage × Agrees assets r.asset

  abbrev pub IsSound : Asset → Type 0
  IsSound a = is_ready a.status ≡ true → IsChecked sha256 past a

  abbrev pub Inv : List Asset → List Request → Type 0
  Inv assets requests = All (IsFollowed assets) requests × All IsSound assets

  IsDeclared-Same :
      (a b : Asset) (content : Text)
      → Same a b
      → IsDeclared sha256 a content
      → IsDeclared sha256 b content
  IsDeclared-Same a b content same h = record {
    size = h.size ∙ sym (same.1);
    checksum = ap (same_checksum (sha256 content)) (same.2) ∙ h.checksum;
    type = ap (λ t. matches_type t content) (same.3) ∙ h.type;
  }

  IsChecked-Same : (a b : Asset) → Same a b → IsChecked sha256 past a → IsChecked sha256 past b
  IsChecked-Same a b same (who, request, content, way, declared) = (
    who,
    request,
    content,
    subst (λ i. Within (was_verified who request i content) past) (sym (same.0)) way,
    IsDeclared-Same a b content same declared,
  )

  not_both : (b : Bool) → b ≡ false → b ≡ true → ⊥
  not_both b p q = cc

  -- A quiet transaction on a row.
  pub Inv-quiet :
      (id : ℕ) (body : Asset → Result Asset)
      → IsQuiet body
      → (assets assets' : List Asset) (requests : List Request)
      → update_row (λ a. a.id) id body assets ≡ ok assets'
      → Inv assets requests
      → Inv assets' requests
  Inv-quiet id body quiet assets assets' requests e (followed, sound) = (
    All-mono (IsFollowed assets) (IsFollowed assets')
        (λ r h. (
          h.0,
          Agrees-update id body (λ a b ran. (quiet a b ran).0) assets assets' r.asset e (h.1),
        ))
        requests followed,
    update_row-All (λ a. a.id) IsSound id body
        (λ a b h ran is. absurd (not_both (is_ready b.status) (quiet a b ran).1 is)) assets assets'
        sound e,
  )

  -- A new row that is not ready.
  pub Inv-fresh :
      (x : Asset) (assets : List Asset) (requests : List Request)
      → any (λ a. a.id == x.id) assets ≡ false
      → is_ready x.status ≡ false
      → Inv assets requests
      → Inv (x ∷ assets) requests
  Inv-fresh x assets requests fresh idle (followed, sound) = (
    All-mono (IsFollowed assets) (IsFollowed (x ∷ assets))
        (λ r h. (h.0, Agrees-fresh x assets r.asset fresh (h.1))) requests followed,
    ((λ is. absurd (not_both (is_ready x.status) idle is)), sound),
  )

  -- A request that goes to a stage of which nothing is asked.
  pub Inv-to_stage :
      (id : ℕ) (stage : Stage)
      → ((r : Request) → Reached sha256 past r stage)
      → (assets : List Asset) (requests requests' : List Request)
      → update_row (λ r. r.id) id (to_stage stage) requests ≡ ok requests'
      → Inv assets requests
      → Inv assets requests'
  Inv-to_stage id stage free assets requests requests' e (followed, sound) = (
    update_row-All (λ r. r.id) (IsFollowed assets) id (to_stage stage)
        (λ a b h ran. subst (IsFollowed assets) (ok-injective ran) (free a, h.1)) requests requests'
        followed e,
    sound,
  )

  -- The transaction that makes a file ready, of a request that has come to it.
  pub Inv-made_ready :
      (now : ℕ) (r : Request) (assets assets' : List Asset) (requests : List Request)
      → Reached sha256 past r finishing
      → Agrees assets r.asset
      → update_row (λ a. a.id) r.asset.id (made_ready now) assets ≡ ok assets'
      → Inv assets requests
      → Inv assets' requests
  Inv-made_ready now r assets assets' requests (way, declared) (seen, found, same) e
        (followed, sound) =
      (
        All-mono (IsFollowed assets) (IsFollowed assets')
            (λ x h. (
              h.0,
              Agrees-update r.asset.id (made_ready now) (made_ready-Keeps now) assets assets'
                  x.asset e (h.1),
            ))
            requests followed,
        update_row-All_found (λ a. a.id) IsSound IsSound r.asset.id (made_ready now) (λ a h. h)
            assets assets'
            (λ a b there h ran is.
              IsChecked-Same r.asset b
                (Same-trans r.asset a b (subst (Same r.asset) (of_some-eq (sym found ∙ there)) same)
                  (made_ready-Keeps now a b ran))
                (r.who, r.id, r.content, way, declared))
            sound e,
      )

pub Inv-skip :
    (sha256 : Text → Text) (past : List FileEvent) (e : FileEvent) (assets : List Asset)
    (requests : List Request)
    → Inv sha256 past assets requests
    → Inv sha256 (e ∷ past) assets requests
Inv-skip sha256 past e assets requests (followed, sound) = (
  All-mono (IsFollowed sha256 past assets) (IsFollowed sha256 (e ∷ past) assets)
      (λ r h. (Reached-skip sha256 e past r r.stage (h.0), h.1)) requests followed,
  All-mono (IsSound sha256 past) (IsSound sha256 (e ∷ past))
      (λ a h is.
        let (who, request, content, way, declared) = h is in
        (who, request, content, skip way, declared))
      assets sound,
)

-- An answer to a request.
pub Inv-answer :
    (sha256 : Text → Text) (past : List FileEvent) (id : ℕ) (e : FileEvent) (f : Stage → Stage)
    (assets : List Asset) (requests requests' : List Request)
    → ((r : Request)
        → r.id ≡ id
        → Reached sha256 past r r.stage
        → Reached sha256 (e ∷ past) r (f r.stage))
    → update_row (λ r. r.id) id (at_stage f) requests ≡ ok requests'
    → Inv sha256 past assets requests
    → Inv sha256 (e ∷ past) assets requests'
Inv-answer sha256 past id e f assets requests requests' moves ran (followed, sound) = (
  update_row-All_found (λ r. r.id) (IsFollowed sha256 past assets)
      (IsFollowed sha256 (e ∷ past) assets) id (at_stage f)
      (λ r h. (Reached-skip sha256 e past r r.stage (h.0), h.1)) requests requests'
      (λ a b there h done.
        subst (IsFollowed sha256 (e ∷ past) assets) (ok-injective done)
          (moves a (find_row-key (λ r. r.id) id requests there) (h.0), h.1))
      followed ran,
  (Inv-skip sha256 past e assets [] (tt, sound)).1,
)
