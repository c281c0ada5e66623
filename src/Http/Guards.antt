-- ===== src/Http/Guards.antt =====
-- apps/api/src/identity/session-context.guard.ts, and the run of a handler's guards.
use bash_builder.Prelude.{
  Bool, Option, some, List, [], ◌∷◌, Result, ok, ◌>>=◌, ◌>>◌, throw_if, unauthorized, forbidden,
  internal, or_throw,
}
use bash_builder.Contracts.Roles.{Role}
use bash_builder.Contracts.Guards.{capability_guard, role_guard}
use bash_builder.Http.Types.{Guard, session, capabilities, roles}

-- What `IdentityService.session` gives for a cookie, as far as the guards read it.
pub record Session : Type 0 where
  pub role : Role
  pub requires_password_change : Bool

-- `SessionContextGuard.canActivate`, from the answer of `session` to the identity of the request.
unfoldable pub session_guard : Option Session → Result Session
session_guard found = do
  s ← or_throw found unauthorized
  throw_if s.requires_password_change forbidden
  ok s

-- One guard: the cookie's session, and the identity that earlier guards left in the request. A guard
-- that reads an identity that is not there fails with a TypeError.
unfoldable pub run_guard : Guard → Option Session → Option Session → Result (Option Session)
unfolding session_guard capability_guard role_guard
run_guard session cookie found = session_guard cookie >>= λ s. ok (some s)
run_guard (capabilities cs) cookie found =
    or_throw found internal >>= λ s. capability_guard cs s.role >>= λ done. ok found
run_guard (roles rs) cookie found =
    or_throw found internal >>= λ s. role_guard rs s.role >>= λ done. ok found

-- The guards in their order; the handler runs if none throws.
unfoldable pub run_guards : List Guard → Option Session → Option Session → Result (Option Session)
unfolding run_guard
run_guards [] cookie found = ok found
run_guards (g ∷ gs) cookie found =
    run_guard g cookie found >>= λ identity. run_guards gs cookie identity
