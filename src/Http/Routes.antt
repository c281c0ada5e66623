-- ===== src/Http/Routes.antt =====
-- The routes of the API, by controller.
pub mod Safety
pub mod Planning
pub mod Displays
pub mod Forms
pub mod Organizations
pub mod Open
use bash_builder.Prelude.{List, ◌++◌}
use bash_builder.Http.Types.{Route}
use bash_builder.Http.Routes.Safety.{classification_routes, event_routes, change_routes}
use bash_builder.Http.Routes.Planning.{card_routes, hht_routes}
use bash_builder.Http.Routes.Displays.{
  dashboard_routes, tv_routes, integration_routes, file_routes, operational_routes,
}
use bash_builder.Http.Routes.Forms.{form_routes, public_form_routes, notification_routes}
use bash_builder.Http.Routes.Organizations.{account_routes, membership_routes, group_routes}

-- `OperationsController`
abbrev pub operations_controller : List Route
operations_controller =
    classification_routes ++ event_routes ++ change_routes ++ card_routes ++ hht_routes
    ++ dashboard_routes ++ tv_routes ++ integration_routes ++ file_routes ++ operational_routes

-- `OrganizationAccessController`
abbrev pub organizations_controller : List Route
organizations_controller = account_routes ++ membership_routes ++ group_routes

-- The routes behind `SessionContextGuard`.
abbrev pub member_area : List Route
member_area =
    operations_controller ++ form_routes ++ notification_routes ++ organizations_controller

-- The routes of the operations and of forms.
abbrev pub module_area : List Route
module_area = operations_controller ++ form_routes
