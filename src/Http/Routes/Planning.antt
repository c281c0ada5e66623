-- ===== src/Http/Routes/Planning.antt =====
-- apps/api/src/operations/operations.controller.ts: cards and worked hours.
use bash_builder.Prelude.{List, [], ◌∷◌}
use bash_builder.Contracts.Roles.{bash_manage, bash_view, hht_manage, hht_view}
use bash_builder.Http.Types.{
  get, patch, post, put, fixed, param, session, capabilities, Route, route,
}

abbrev pub card_routes : List Route
card_routes =
    route get (fixed "v1" ∷ fixed "bash" ∷ fixed "cards" ∷ [])
      (session ∷ capabilities (bash_view ∷ []) ∷ []) "listCards"
    ∷ route post (fixed "v1" ∷ fixed "bash" ∷ fixed "cards" ∷ [])
        (session ∷ capabilities (bash_manage ∷ []) ∷ []) "createCard"
    ∷ route post
        (fixed "v1" ∷ fixed "bash" ∷ fixed "cards" ∷ param "cardId" ∷ fixed "comments" ∷ [])
        (session ∷ capabilities (bash_manage ∷ []) ∷ []) "addCardComment"
    ∷ route post
        (fixed "v1" ∷ fixed "bash" ∷ fixed "cards" ∷ param "cardId" ∷ fixed "attachments" ∷ [])
        (session ∷ capabilities (bash_manage ∷ []) ∷ []) "addCardAttachment"
    ∷ route get
        (fixed "v1"
          ∷ fixed "bash"
          ∷ fixed "cards"
          ∷ param "cardId"
          ∷ fixed "attachments"
          ∷ param "attachmentId"
          ∷ fixed "download"
          ∷ [])
        (session ∷ capabilities (bash_view ∷ []) ∷ []) "openCardAttachmentDownload"
    ∷ route patch (fixed "v1" ∷ fixed "bash" ∷ fixed "cards" ∷ param "cardId" ∷ fixed "move" ∷ [])
        (session ∷ capabilities (bash_manage ∷ []) ∷ []) "moveCard"
    ∷ []

abbrev pub hht_routes : List Route
hht_routes =
    route get (fixed "v1" ∷ fixed "hht" ∷ []) (session ∷ capabilities (hht_view ∷ []) ∷ [])
      "listHht"
    ∷ route post (fixed "v1" ∷ fixed "hht" ∷ fixed "companies" ∷ [])
        (session ∷ capabilities (hht_manage ∷ []) ∷ []) "createHhtCompany"
    ∷ route put (fixed "v1" ∷ fixed "hht" ∷ fixed "reports" ∷ [])
        (session ∷ capabilities (hht_manage ∷ []) ∷ []) "upsertHhtReport"
    ∷ route post
        (fixed "v1" ∷ fixed "hht" ∷ fixed "reports" ∷ param "reportId" ∷ fixed "status" ∷ [])
        (session ∷ capabilities (hht_manage ∷ []) ∷ []) "setHhtReportStatus"
    ∷ route put (fixed "v1" ∷ fixed "hht" ∷ fixed "windows" ∷ [])
        (session ∷ capabilities (hht_manage ∷ []) ∷ []) "upsertHhtWindow"
    ∷ route put (fixed "v1" ∷ fixed "hht" ∷ fixed "reference-targets" ∷ [])
        (session ∷ capabilities (hht_manage ∷ []) ∷ []) "upsertHhtReferenceTarget"
    ∷ route post (fixed "v1" ∷ fixed "hht" ∷ fixed "late-exceptions" ∷ [])
        (session ∷ capabilities (hht_manage ∷ []) ∷ []) "grantHhtLateException"
    ∷ route post
        (fixed "v1"
          ∷ fixed "hht"
          ∷ fixed "late-exceptions"
          ∷ param "exceptionId"
          ∷ fixed "revoke"
          ∷ [])
        (session ∷ capabilities (hht_manage ∷ []) ∷ []) "revokeHhtLateException"
    ∷ route post
        (fixed "v1"
          ∷ fixed "hht"
          ∷ fixed "windows"
          ∷ param "year"
          ∷ param "month"
          ∷ fixed "close"
          ∷ [])
        (session ∷ capabilities (hht_manage ∷ []) ∷ []) "closeHhtWindow"
    ∷ route post
        (fixed "v1" ∷ fixed "hht" ∷ fixed "publications" ∷ param "year" ∷ param "month" ∷ [])
        (session ∷ capabilities (hht_manage ∷ []) ∷ []) "publishHhtPeriod"
    ∷ []
