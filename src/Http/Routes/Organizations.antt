-- ===== src/Http/Routes/Organizations.antt =====
-- apps/api/src/organizations/organization-access.controller.ts.
use bash_builder.Prelude.{List, [], ◌∷◌}
use bash_builder.Contracts.Roles.{admin, owner}
use bash_builder.Http.Types.{delete, get, patch, post, fixed, param, session, roles, Route, route}

abbrev pub account_routes : List Route
account_routes =
    route get (fixed "v1" ∷ fixed "organizations" ∷ []) (session ∷ []) "listAccessibleOrganizations"
    ∷ route post (fixed "v1" ∷ fixed "organizations" ∷ []) (session ∷ []) "createOrganization"
    ∷ route post (fixed "v1" ∷ fixed "organizations" ∷ fixed "switch" ∷ []) (session ∷ [])
        "switchOrganization"
    ∷ []

abbrev pub membership_routes : List Route
membership_routes =
    route get (fixed "v1" ∷ fixed "organizations" ∷ fixed "current" ∷ fixed "members" ∷ [])
      (session ∷ roles (owner ∷ admin ∷ []) ∷ []) "listCurrentMembers"
    ∷ route post (fixed "v1" ∷ fixed "organizations" ∷ fixed "current" ∷ fixed "invitations" ∷ [])
        (session ∷ roles (owner ∷ admin ∷ []) ∷ []) "createInvitation"
    ∷ route get (fixed "v1" ∷ fixed "organizations" ∷ fixed "current" ∷ fixed "invitations" ∷ [])
        (session ∷ roles (owner ∷ admin ∷ []) ∷ []) "listCurrentInvitations"
    ∷ route delete
        (fixed "v1"
          ∷ fixed "organizations"
          ∷ fixed "current"
          ∷ fixed "invitations"
          ∷ param "invitationId"
          ∷ [])
        (session ∷ roles (owner ∷ admin ∷ []) ∷ []) "revokeCurrentInvitation"
    ∷ route post
        (fixed "v1"
          ∷ fixed "organizations"
          ∷ fixed "current"
          ∷ fixed "invitations"
          ∷ fixed "accept"
          ∷ [])
        (session ∷ []) "acceptInvitationForExistingIdentity"
    ∷ route patch
        (fixed "v1"
          ∷ fixed "organizations"
          ∷ fixed "current"
          ∷ fixed "members"
          ∷ param "membershipId"
          ∷ [])
        (session ∷ roles (owner ∷ admin ∷ []) ∷ []) "updateCurrentMember"
    ∷ []

abbrev pub group_routes : List Route
group_routes =
    route get (fixed "v1" ∷ fixed "organizations" ∷ fixed "current" ∷ fixed "groups" ∷ [])
      (session ∷ roles (owner ∷ []) ∷ []) "listCurrentGroups"
    ∷ route post (fixed "v1" ∷ fixed "organizations" ∷ fixed "current" ∷ fixed "groups" ∷ [])
        (session ∷ roles (owner ∷ []) ∷ []) "createGroup"
    ∷ route patch
        (fixed "v1"
          ∷ fixed "organizations"
          ∷ fixed "current"
          ∷ fixed "groups"
          ∷ param "groupId"
          ∷ [])
        (session ∷ roles (owner ∷ []) ∷ []) "updateGroup"
    ∷ route post
        (fixed "v1"
          ∷ fixed "organizations"
          ∷ fixed "current"
          ∷ fixed "groups"
          ∷ param "groupId"
          ∷ fixed "members"
          ∷ [])
        (session ∷ roles (owner ∷ []) ∷ []) "replaceGroupMembers"
    ∷ route delete
        (fixed "v1"
          ∷ fixed "organizations"
          ∷ fixed "current"
          ∷ fixed "groups"
          ∷ param "groupId"
          ∷ [])
        (session ∷ roles (owner ∷ []) ∷ []) "deleteGroup"
    ∷ []
