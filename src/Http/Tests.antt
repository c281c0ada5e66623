-- ===== src/Http/Tests.antt =====
-- Requests to handlers of the API, and the theorems at them.
use mathlib.Core.List.{Memᴰ}
use bash_builder.Prelude.{◌≡◌, refl, true, none, some, [], ◌∷◌, err, arith, unauthorized, forbidden}
use bash_builder.Contracts.Roles.{member, admin, owner, changes_approve, has_capability}
use bash_builder.Http.Types.{Route, route, post, fixed, param, session, capabilities, guards_of}
use bash_builder.Http.Guards.{run_guards}
use bash_builder.Http.Routes.{member_area}
use bash_builder.Http.Access.{reaches, member_area-closed, reaches_mono}

-- `decideChangeApproval`
abbrev decision : Route
decision =
    route post
      (fixed "v1"
        ∷ fixed "changes"
        ∷ param "changeId"
        ∷ fixed "approvals"
        ∷ param "approvalId"
        ∷ fixed "decision"
        ∷ [])
      (session ∷ capabilities (changes_approve ∷ []) ∷ []) "decideChangeApproval"

decision-member_area : Memᴰ decision member_area
decision-member_area = Memᴰ.tail (
    Memᴰ.tail (
      Memᴰ.tail (
        Memᴰ.tail (
          Memᴰ.tail (
            Memᴰ.tail (
              Memᴰ.tail (
                Memᴰ.tail (
                  Memᴰ.tail (
                    Memᴰ.tail (
                      Memᴰ.tail
                        (Memᴰ.tail (Memᴰ.tail (Memᴰ.tail (Memᴰ.tail (Memᴰ.head refl)))))))))))))))

member_area-closed_example :
    (run_guards (guards_of decision) none none ≡ err unauthorized)
    × (run_guards
          (guards_of decision)
          (some (record { role = owner; requires_password_change = true }))
          none
        ≡ err forbidden)
member_area-closed_example = member_area-closed decision owner decision-member_area

reaches_mono_example : reaches admin decision ≡ true
unfolding reaches has_capability
reaches_mono_example = reaches_mono decision member admin decision-member_area (omega arith) refl
