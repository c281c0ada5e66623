-- ===== src/Http/Routes/Open.antt =====
-- The routes without a guard, apart from those of public forms: apps/api/src/identity/
-- identity.controller.ts and apps/api/src/organizations/organization-invitation.controller.ts.
use bash_builder.Prelude.{List, [], ◌∷◌}
use bash_builder.Http.Types.{get, post, fixed, Route, route}

abbrev pub session_routes : List Route
session_routes =
    route get (fixed "v1" ∷ fixed "auth" ∷ fixed "bootstrap-status" ∷ []) [] "bootstrapStatus"
    ∷ route post (fixed "v1" ∷ fixed "auth" ∷ fixed "bootstrap" ∷ []) [] "bootstrap"
    ∷ route post (fixed "v1" ∷ fixed "auth" ∷ fixed "login" ∷ []) [] "login"
    ∷ route post (fixed "v1" ∷ fixed "auth" ∷ fixed "change-password" ∷ []) [] "changePassword"
    ∷ route get (fixed "v1" ∷ fixed "auth" ∷ fixed "session" ∷ []) [] "session"
    ∷ route post (fixed "v1" ∷ fixed "auth" ∷ fixed "logout" ∷ []) [] "logout"
    ∷ []

abbrev pub invitation_routes : List Route
invitation_routes =
    route post (fixed "v1" ∷ fixed "invitations" ∷ fixed "accept" ∷ []) [] "acceptInvitation" ∷ []
