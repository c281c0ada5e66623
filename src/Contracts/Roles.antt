-- ===== src/Contracts/Roles.antt =====
-- packages/contracts/src/index.ts: `roleCapabilities` and `hasCapability`.
use bash_builder.Prelude.{ℕ, Bool, List, [], ◌∷◌, ◌==◌, if◌then◌else◌, any}

pub data Role : Type 0 where
  owner admin member viewer : Role

pub data Capability : Type 0 where
  workspace_view organization_manage : Capability
  forms_view forms_manage forms_submissions_view : Capability
  forms_submissions_manage forms_submissions_export : Capability
  events_view events_manage changes_view changes_manage changes_approve : Capability
  notifications_view bash_view bash_manage hht_view hht_manage : Capability
  dashboards_view dashboards_manage tv_view tv_manage : Capability
  integrations_view integrations_manage operations_view operations_manage : Capability

-- The position in the array `capabilities`; two capabilities are equal when it is.
abbrev pub capability_rank : Capability → ℕ
capability_rank workspace_view = 0
capability_rank organization_manage = 1
capability_rank forms_view = 2
capability_rank forms_manage = 3
capability_rank forms_submissions_view = 4
capability_rank forms_submissions_manage = 5
capability_rank forms_submissions_export = 6
capability_rank events_view = 7
capability_rank events_manage = 8
capability_rank changes_view = 9
capability_rank changes_manage = 10
capability_rank changes_approve = 11
capability_rank notifications_view = 12
capability_rank bash_view = 13
capability_rank bash_manage = 14
capability_rank hht_view = 15
capability_rank hht_manage = 16
capability_rank dashboards_view = 17
capability_rank dashboards_manage = 18
capability_rank tv_view = 19
capability_rank tv_manage = 20
capability_rank integrations_view = 21
capability_rank integrations_manage = 22
capability_rank operations_view = 23
capability_rank operations_manage = 24

abbrev pub same_capability : Capability → Capability → Bool
same_capability a b = capability_rank a == capability_rank b

abbrev pub all_capabilities : List Capability
all_capabilities =
    workspace_view ∷ organization_manage ∷ forms_view ∷ forms_manage ∷ forms_submissions_view
    ∷ forms_submissions_manage ∷ forms_submissions_export ∷ events_view ∷ events_manage
    ∷ changes_view ∷ changes_manage ∷ changes_approve ∷ notifications_view ∷ bash_view ∷ bash_manage
    ∷ hht_view ∷ hht_manage ∷ dashboards_view ∷ dashboards_manage ∷ tv_view ∷ tv_manage
    ∷ integrations_view ∷ integrations_manage ∷ operations_view ∷ operations_manage ∷ []

-- `Array.prototype.filter` with `capability !== excluded`.
abbrev pub without : Capability → List Capability → List Capability
without excluded [] = []
without excluded (c ∷ cs) =
    let rest = without excluded cs in if same_capability c excluded then rest else c ∷ rest

abbrev pub administrator_capabilities : List Capability
administrator_capabilities = without organization_manage all_capabilities

abbrev pub member_capabilities : List Capability
member_capabilities =
    workspace_view ∷ forms_view ∷ forms_submissions_view ∷ events_view ∷ changes_view
    ∷ changes_approve ∷ notifications_view ∷ bash_view ∷ hht_view ∷ dashboards_view ∷ tv_view ∷ []

abbrev pub viewer_capabilities : List Capability
viewer_capabilities =
    workspace_view ∷ forms_view ∷ events_view ∷ changes_view ∷ notifications_view ∷ bash_view
    ∷ hht_view ∷ dashboards_view ∷ tv_view ∷ []

unfoldable pub role_capabilities : Role → List Capability
role_capabilities owner = all_capabilities
role_capabilities admin = administrator_capabilities
role_capabilities member = member_capabilities
role_capabilities viewer = viewer_capabilities

unfoldable pub has_capability : Role → Capability → Bool
unfolding role_capabilities
has_capability role capability = any (λ c. same_capability c capability) (role_capabilities role)
