-- ===== src/Http/Routes/Forms.antt =====
-- apps/api/src/forms/forms.controller.ts and apps/api/src/notifications/notifications.controller.ts.
use bash_builder.Prelude.{List, [], ◌∷◌}
use bash_builder.Contracts.Roles.{
  forms_manage, forms_submissions_export, forms_submissions_manage, forms_submissions_view,
  forms_view, notifications_view,
}
use bash_builder.Http.Types.{
  get, patch, post, put, fixed, param, session, capabilities, Route, route,
}

abbrev pub form_routes : List Route
form_routes =
    route get (fixed "v1" ∷ fixed "forms" ∷ []) (session ∷ capabilities (forms_view ∷ []) ∷ [])
      "list"
    ∷ route get (fixed "v1" ∷ fixed "forms" ∷ param "formId" ∷ [])
        (session ∷ capabilities (forms_view ∷ []) ∷ []) "get"
    ∷ route post (fixed "v1" ∷ fixed "forms" ∷ []) (session ∷ capabilities (forms_manage ∷ []) ∷ [])
        "create"
    ∷ route patch (fixed "v1" ∷ fixed "forms" ∷ param "formId" ∷ [])
        (session ∷ capabilities (forms_manage ∷ []) ∷ []) "update"
    ∷ route put (fixed "v1" ∷ fixed "forms" ∷ param "formId" ∷ fixed "fields" ∷ [])
        (session ∷ capabilities (forms_manage ∷ []) ∷ []) "replaceFields"
    ∷ route post (fixed "v1" ∷ fixed "forms" ∷ param "formId" ∷ fixed "status" ∷ [])
        (session ∷ capabilities (forms_manage ∷ []) ∷ []) "setStatus"
    ∷ route post (fixed "v1" ∷ fixed "forms" ∷ param "formId" ∷ fixed "publication" ∷ [])
        (session ∷ capabilities (forms_manage ∷ []) ∷ []) "publish"
    ∷ route post
        (fixed "v1" ∷ fixed "forms" ∷ param "formId" ∷ fixed "publication" ∷ fixed "revoke" ∷ [])
        (session ∷ capabilities (forms_manage ∷ []) ∷ []) "revokePublication"
    ∷ route get (fixed "v1" ∷ fixed "forms" ∷ param "formId" ∷ fixed "submissions" ∷ [])
        (session ∷ capabilities (forms_submissions_view ∷ []) ∷ []) "listSubmissions"
    ∷ route get
        (fixed "v1" ∷ fixed "forms" ∷ param "formId" ∷ fixed "submissions" ∷ fixed "export" ∷ [])
        (session ∷ capabilities (forms_submissions_export ∷ []) ∷ []) "exportSubmissions"
    ∷ route patch
        (fixed "v1"
          ∷ fixed "forms"
          ∷ param "formId"
          ∷ fixed "submissions"
          ∷ param "submissionId"
          ∷ [])
        (session ∷ capabilities (forms_submissions_manage ∷ []) ∷ []) "updateSubmissionStatus"
    ∷ route post
        (fixed "v1"
          ∷ fixed "forms"
          ∷ param "formId"
          ∷ fixed "submissions"
          ∷ param "submissionId"
          ∷ fixed "treatments"
          ∷ [])
        (session ∷ capabilities (forms_submissions_manage ∷ []) ∷ []) "createSubmissionTreatment"
    ∷ route post
        (fixed "v1"
          ∷ fixed "forms"
          ∷ param "formId"
          ∷ fixed "submissions"
          ∷ param "submissionId"
          ∷ fixed "attachments"
          ∷ [])
        (session ∷ capabilities (forms_submissions_manage ∷ []) ∷ []) "attachSubmissionFile"
    ∷ route get
        (fixed "v1"
          ∷ fixed "forms"
          ∷ param "formId"
          ∷ fixed "submissions"
          ∷ param "submissionId"
          ∷ fixed "attachments"
          ∷ param "attachmentId"
          ∷ fixed "download"
          ∷ [])
        (session ∷ capabilities (forms_submissions_view ∷ []) ∷ [])
        "openSubmissionAttachmentDownload"
    ∷ []

abbrev pub public_form_routes : List Route
public_form_routes =
    route get (fixed "v1" ∷ fixed "public" ∷ fixed "forms" ∷ param "publicId" ∷ []) []
      "publicDefinition"
    ∷ route post
        (fixed "v1" ∷ fixed "public" ∷ fixed "forms" ∷ param "publicId" ∷ fixed "submissions" ∷ [])
        [] "submitPublic"
    ∷ []

abbrev pub notification_routes : List Route
notification_routes =
    route get (fixed "v1" ∷ fixed "notifications" ∷ [])
      (session ∷ capabilities (notifications_view ∷ []) ∷ []) "list"
    ∷ route patch (fixed "v1" ∷ fixed "notifications" ∷ param "notificationId" ∷ fixed "read" ∷ [])
        (session ∷ capabilities (notifications_view ∷ []) ∷ []) "markRead"
    ∷ route post (fixed "v1" ∷ fixed "notifications" ∷ fixed "read-all" ∷ [])
        (session ∷ capabilities (notifications_view ∷ []) ∷ []) "markAllRead"
    ∷ []
