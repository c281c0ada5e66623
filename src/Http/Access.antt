-- ===== src/Http/Access.antt =====
-- Who gets to which handler.
use mathlib.Core.List.{Memᴰ}
use bash_builder.Prelude.{
  ◌≤◌, ◌≡◌, refl, Bool, true, false, not, ◌&&◌, ◌||◌, none, some, List, [], ◌∷◌, all, err, is_ok,
  arith, subst, sym, any, String, text_eq, codes, unauthorized, forbidden,
}
use bash_builder.Contracts.Roles.{Role, owner, admin, member, viewer, has_capability}
use bash_builder.Contracts.Guards.{role_rank}
use bash_builder.Http.Types.{
  Route, route, method_of, guards_of, handler_of, is_get, session, capabilities, roles,
}
use bash_builder.Http.Guards.{run_guards}
use bash_builder.Http.Routes.{member_area}

-- A member of this role, with no change of password due, gets to the handler.
unfoldable pub reaches : Role → Route → Bool
unfolding run_guards
reaches role r = is_ok (
    run_guards (guards_of r) (some (record { role = role; requires_password_change = false })) none)

all-Memᴰ :
    {A : Type 0} (p : A → Bool) (xs : List A) (a : A) → all p xs ≡ true → Memᴰ a xs → p a ≡ true
all-Memᴰ p [] a h m = elim m [ ]
all-Memᴰ p (x ∷ xs) a h (Memᴰ.head e) = subst (λ y. p y ≡ true) (sym e) (ground (arith, h))
all-Memᴰ p (x ∷ xs) a h (Memᴰ.tail m) = all-Memᴰ p xs a (ground (arith, h)) m

abbrev same_bool : Bool → Bool → Bool
same_bool true b = b
same_bool false b = not b

-- The handlers that read the administration of an organisation.
abbrev pub administration : List String
administration =
    "listClassifications" ∷ "listIntegrations" ∷ "fileUploadConfiguration" ∷ "listFiles"
    ∷ "openFileDownload" ∷ "listDeadLetters" ∷ "listWebhookDeadLetters" ∷ "listAuditEntries"
    ∷ "operationalSummary" ∷ "exportSubmissions" ∷ []

-- The handlers that read what was sent in with a form.
abbrev pub submissions : List String
submissions = "listSubmissions" ∷ "openSubmissionAttachmentDownload" ∷ []

abbrev pub is_one_of : List String → Route → Bool
is_one_of handlers r = any (λ h. text_eq (codes h) (codes (handler_of r))) handlers

-- What each role is for, by the method and the name of a handler: a viewer reads, but neither the
-- administration nor submissions; a member reads, but not the administration, and decides an
-- approval; an administrator and an owner do everything.
abbrev pub is_meant_for : Role → Route → Bool
is_meant_for viewer r =
    is_get (method_of r) && not (is_one_of administration r || is_one_of submissions r)
is_meant_for member r =
    (is_get (method_of r) && not (is_one_of administration r))
    || is_one_of ("decideChangeApproval" ∷ []) r
is_meant_for _ r = true

-- The guards and the purpose of the roles agree on a handler.
abbrev agrees : Role → Route → Bool
agrees role r = same_bool (reaches role r) (is_meant_for role r)

abbrev opens_with_session : Route → Bool
opens_with_session (route method path (session ∷ gs) handler) = true
opens_with_session _ = false

member_area_opens : all opens_with_session member_area ≡ true
member_area_opens = refl

-- Nobody without a session gets to a handler behind `SessionContextGuard`, and nobody who has still
-- to change a temporary password: the first is answered as unauthorized and the second as
-- forbidden, whatever the role.
pub member_area-closed :
    (r : Route) (role : Role)
    → Memᴰ r member_area
    → (run_guards (guards_of r) none none ≡ err unauthorized)
      × (run_guards
            (guards_of r)
            (some (record { role = role; requires_password_change = true }))
            none
          ≡ err forbidden)
unfolding run_guards
member_area-closed r role m =
    closed r (all-Memᴰ opens_with_session member_area r member_area_opens m)
  where
    closed :
        (r : Route)
        → opens_with_session r ≡ true
        → (run_guards (guards_of r) none none ≡ err unauthorized)
          × (run_guards
                (guards_of r)
                (some (record { role = role; requires_password_change = true }))
                none
              ≡ err forbidden)
    closed (route method path (session ∷ gs) handler) e = (refl, refl)
    closed (route method path (capabilities cs ∷ gs) handler) e = cc
    closed (route method path (roles rs ∷ gs) handler) e = cc
    closed (route method path [] handler) e = cc

rises :
    all
      (λ r.
        (not (reaches viewer r) || reaches member r)
        && (not (reaches member r) || reaches admin r)
        && (not (reaches admin r) || reaches owner r))
      member_area
    ≡ true
unfolding reaches has_capability
rises = refl

-- A handler that a role gets to is open to every role of the same or a higher rank.
pub reaches_mono :
    (r : Route) (low high : Role)
    → Memᴰ r member_area
    → role_rank low ≤ role_rank high
    → reaches low r ≡ true
    → reaches high r ≡ true
reaches_mono r low high m le h = go low high le h (
    all-Memᴰ
      (λ r.
        (not (reaches viewer r) || reaches member r)
        && (not (reaches member r) || reaches admin r)
        && (not (reaches admin r) || reaches owner r))
      member_area r rises m)
  where
    go :
        (low high : Role)
        → role_rank low ≤ role_rank high
        → reaches low r ≡ true
        → ((not (reaches viewer r) || reaches member r)
            && (not (reaches member r) || reaches admin r)
            && (not (reaches admin r) || reaches owner r))
          ≡ true
        → reaches high r ≡ true
    go viewer viewer le h k = h
    go viewer member le h k = ground (arith, h, k)
    go viewer admin le h k = ground (arith, h, k)
    go viewer owner le h k = ground (arith, h, k)
    go member member le h k = h
    go member admin le h k = ground (arith, h, k)
    go member owner le h k = ground (arith, h, k)
    go admin admin le h k = h
    go admin owner le h k = ground (arith, h, k)
    go owner owner le h k = h
    go _ _ le h k = absurd (omega arith)
