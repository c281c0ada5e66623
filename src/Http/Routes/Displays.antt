-- ===== src/Http/Routes/Displays.antt =====
-- apps/api/src/operations/operations.controller.ts: dashboards, television, integrations, files and
-- the outbox.
use bash_builder.Prelude.{List, [], ◌∷◌}
use bash_builder.Contracts.Roles.{
  dashboards_manage, dashboards_view, integrations_manage, integrations_view, operations_manage,
  operations_view, tv_manage, tv_view,
}
use bash_builder.Http.Types.{get, patch, post, fixed, param, session, capabilities, Route, route}

abbrev pub dashboard_routes : List Route
dashboard_routes =
    route get (fixed "v1" ∷ fixed "dashboards" ∷ [])
      (session ∷ capabilities (dashboards_view ∷ []) ∷ []) "listDashboards"
    ∷ route get (fixed "v1" ∷ fixed "analytics" ∷ fixed "summary" ∷ [])
        (session ∷ capabilities (dashboards_view ∷ []) ∷ []) "analyticsSummary"
    ∷ route get (fixed "v1" ∷ fixed "analytics" ∷ fixed "sources" ∷ param "source" ∷ [])
        (session ∷ capabilities (dashboards_view ∷ []) ∷ []) "analyticsSource"
    ∷ route post (fixed "v1" ∷ fixed "dashboards" ∷ [])
        (session ∷ capabilities (dashboards_manage ∷ []) ∷ []) "createDashboard"
    ∷ route patch (fixed "v1" ∷ fixed "dashboards" ∷ param "dashboardId" ∷ [])
        (session ∷ capabilities (dashboards_manage ∷ []) ∷ []) "updateDashboard"
    ∷ route post (fixed "v1" ∷ fixed "dashboards" ∷ param "dashboardId" ∷ fixed "publish" ∷ [])
        (session ∷ capabilities (dashboards_manage ∷ []) ∷ []) "publishDashboard"
    ∷ []

abbrev pub tv_routes : List Route
tv_routes =
    route get (fixed "v1" ∷ fixed "tv" ∷ []) (session ∷ capabilities (tv_view ∷ []) ∷ []) "listTv"
    ∷ route post (fixed "v1" ∷ fixed "tv" ∷ fixed "displays" ∷ [])
        (session ∷ capabilities (tv_manage ∷ []) ∷ []) "createTvDisplay"
    ∷ route patch (fixed "v1" ∷ fixed "tv" ∷ fixed "displays" ∷ param "displayId" ∷ [])
        (session ∷ capabilities (tv_manage ∷ []) ∷ []) "updateTvDisplay"
    ∷ route post
        (fixed "v1" ∷ fixed "tv" ∷ fixed "displays" ∷ param "displayId" ∷ fixed "publish" ∷ [])
        (session ∷ capabilities (tv_manage ∷ []) ∷ []) "publishTvDisplay"
    ∷ route post (fixed "v1" ∷ fixed "tv" ∷ fixed "playlists" ∷ [])
        (session ∷ capabilities (tv_manage ∷ []) ∷ []) "createTvPlaylist"
    ∷ route post
        (fixed "v1" ∷ fixed "tv" ∷ fixed "playlists" ∷ param "playlistId" ∷ fixed "publish" ∷ [])
        (session ∷ capabilities (tv_manage ∷ []) ∷ []) "publishTvPlaylist"
    ∷ []

abbrev pub integration_routes : List Route
integration_routes =
    route get (fixed "v1" ∷ fixed "integrations" ∷ [])
      (session ∷ capabilities (integrations_view ∷ []) ∷ []) "listIntegrations"
    ∷ route post (fixed "v1" ∷ fixed "integrations" ∷ [])
        (session ∷ capabilities (integrations_manage ∷ []) ∷ []) "createIntegration"
    ∷ route patch (fixed "v1" ∷ fixed "integrations" ∷ param "integrationId" ∷ [])
        (session ∷ capabilities (integrations_manage ∷ []) ∷ []) "updateIntegration"
    ∷ route post
        (fixed "v1"
          ∷ fixed "integrations"
          ∷ param "integrationId"
          ∷ fixed "configuration"
          ∷ fixed "check"
          ∷ [])
        (session ∷ capabilities (integrations_manage ∷ []) ∷ []) "checkIntegrationConfiguration"
    ∷ []

abbrev pub file_routes : List Route
file_routes =
    route get (fixed "v1" ∷ fixed "files" ∷ fixed "configuration" ∷ [])
      (session ∷ capabilities (operations_view ∷ []) ∷ []) "fileUploadConfiguration"
    ∷ route get (fixed "v1" ∷ fixed "files" ∷ [])
        (session ∷ capabilities (operations_view ∷ []) ∷ []) "listFiles"
    ∷ route post (fixed "v1" ∷ fixed "files" ∷ fixed "intents" ∷ [])
        (session ∷ capabilities (operations_manage ∷ []) ∷ []) "createFileIntent"
    ∷ route post (fixed "v1" ∷ fixed "files" ∷ param "fileId" ∷ fixed "content" ∷ [])
        (session ∷ capabilities (operations_manage ∷ []) ∷ []) "uploadFileContent"
    ∷ route post (fixed "v1" ∷ fixed "files" ∷ param "fileId" ∷ fixed "cancel" ∷ [])
        (session ∷ capabilities (operations_manage ∷ []) ∷ []) "cancelFileUpload"
    ∷ route get (fixed "v1" ∷ fixed "files" ∷ param "fileId" ∷ fixed "download" ∷ [])
        (session ∷ capabilities (operations_view ∷ []) ∷ []) "openFileDownload"
    ∷ []

abbrev pub operational_routes : List Route
operational_routes =
    route get (fixed "v1" ∷ fixed "operations" ∷ fixed "outbox" ∷ fixed "dead-letter" ∷ [])
      (session ∷ capabilities (operations_view ∷ []) ∷ []) "listDeadLetters"
    ∷ route get (fixed "v1" ∷ fixed "operations" ∷ fixed "webhooks" ∷ fixed "dead-letter" ∷ [])
        (session ∷ capabilities (operations_view ∷ []) ∷ []) "listWebhookDeadLetters"
    ∷ route get (fixed "v1" ∷ fixed "operations" ∷ fixed "audit" ∷ [])
        (session ∷ capabilities (operations_view ∷ []) ∷ []) "listAuditEntries"
    ∷ route get (fixed "v1" ∷ fixed "operations" ∷ fixed "summary" ∷ [])
        (session ∷ capabilities (operations_view ∷ []) ∷ []) "operationalSummary"
    ∷ route post
        (fixed "v1"
          ∷ fixed "operations"
          ∷ fixed "outbox"
          ∷ fixed "dead-letter"
          ∷ param "eventId"
          ∷ fixed "redrive"
          ∷ [])
        (session ∷ capabilities (operations_manage ∷ []) ∷ []) "redriveDeadLetter"
    ∷ route post
        (fixed "v1"
          ∷ fixed "operations"
          ∷ fixed "webhooks"
          ∷ fixed "dead-letter"
          ∷ param "deliveryId"
          ∷ fixed "redrive"
          ∷ [])
        (session ∷ capabilities (operations_manage ∷ []) ∷ []) "redriveWebhookDeadLetter"
    ∷ []
