-- ===== src/Contracts/Guards/Tests.antt =====
-- Runs of the guards.
use bash_builder.Prelude.{◌≡◌, refl, true, [], ◌∷◌, arith, ok}
use bash_builder.Contracts.Roles.{member, admin, forms_view, changes_approve, has_capability}
use bash_builder.Contracts.Guards.{capability_guard, capability_guard_mono}

capability_guard_mono_example : capability_guard (forms_view ∷ changes_approve ∷ []) admin ≡ ok true
unfolding capability_guard has_capability
capability_guard_mono_example =
    capability_guard_mono member admin (forms_view ∷ changes_approve ∷ []) (omega arith) refl
