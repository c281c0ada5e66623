-- ===== src/Http/Routes/Safety.antt =====
-- apps/api/src/operations/operations.controller.ts: classifications, events and changes.
use bash_builder.Prelude.{List, [], ◌∷◌}
use bash_builder.Contracts.Roles.{
  changes_approve, changes_manage, changes_view, events_manage, events_view, operations_manage,
  operations_view,
}
use bash_builder.Http.Types.{get, patch, post, fixed, param, session, capabilities, Route, route}

abbrev pub classification_routes : List Route
classification_routes =
    route get (fixed "v1" ∷ fixed "classifications" ∷ [])
      (session ∷ capabilities (operations_view ∷ []) ∷ []) "listClassifications"
    ∷ route post (fixed "v1" ∷ fixed "classifications" ∷ [])
        (session ∷ capabilities (operations_manage ∷ []) ∷ []) "createClassification"
    ∷ route patch (fixed "v1" ∷ fixed "classifications" ∷ param "classificationId" ∷ [])
        (session ∷ capabilities (operations_manage ∷ []) ∷ []) "updateClassification"
    ∷ []

abbrev pub event_routes : List Route
event_routes =
    route get (fixed "v1" ∷ fixed "events" ∷ []) (session ∷ capabilities (events_view ∷ []) ∷ [])
      "listEvents"
    ∷ route post (fixed "v1" ∷ fixed "events" ∷ [])
        (session ∷ capabilities (events_manage ∷ []) ∷ []) "createEvent"
    ∷ route post (fixed "v1" ∷ fixed "events" ∷ param "eventId" ∷ fixed "actions" ∷ [])
        (session ∷ capabilities (events_manage ∷ []) ∷ []) "addEventAction"
    ∷ route post (fixed "v1" ∷ fixed "events" ∷ param "eventId" ∷ fixed "attachments" ∷ [])
        (session ∷ capabilities (events_manage ∷ []) ∷ []) "addEventAttachment"
    ∷ route get
        (fixed "v1"
          ∷ fixed "events"
          ∷ param "eventId"
          ∷ fixed "attachments"
          ∷ param "attachmentId"
          ∷ fixed "download"
          ∷ [])
        (session ∷ capabilities (events_view ∷ []) ∷ []) "openEventAttachmentDownload"
    ∷ route patch
        (fixed "v1"
          ∷ fixed "events"
          ∷ param "eventId"
          ∷ fixed "actions"
          ∷ param "actionId"
          ∷ fixed "complete"
          ∷ [])
        (session ∷ capabilities (events_manage ∷ []) ∷ []) "completeEventAction"
    ∷ route post (fixed "v1" ∷ fixed "events" ∷ param "eventId" ∷ fixed "status" ∷ [])
        (session ∷ capabilities (events_manage ∷ []) ∷ []) "transitionEvent"
    ∷ []

abbrev pub change_routes : List Route
change_routes =
    route get (fixed "v1" ∷ fixed "changes" ∷ []) (session ∷ capabilities (changes_view ∷ []) ∷ [])
      "listChanges"
    ∷ route get (fixed "v1" ∷ fixed "changes" ∷ param "changeId" ∷ [])
        (session ∷ capabilities (changes_view ∷ []) ∷ []) "getChange"
    ∷ route post (fixed "v1" ∷ fixed "changes" ∷ [])
        (session ∷ capabilities (changes_manage ∷ []) ∷ []) "createChange"
    ∷ route post (fixed "v1" ∷ fixed "changes" ∷ param "changeId" ∷ fixed "risks" ∷ [])
        (session ∷ capabilities (changes_manage ∷ []) ∷ []) "addChangeRisk"
    ∷ route post (fixed "v1" ∷ fixed "changes" ∷ param "changeId" ∷ fixed "approvals" ∷ [])
        (session ∷ capabilities (changes_manage ∷ []) ∷ []) "addChangeApproval"
    ∷ route post
        (fixed "v1"
          ∷ fixed "changes"
          ∷ param "changeId"
          ∷ fixed "approvals"
          ∷ param "approvalId"
          ∷ fixed "decision"
          ∷ [])
        (session ∷ capabilities (changes_approve ∷ []) ∷ []) "decideChangeApproval"
    ∷ route post (fixed "v1" ∷ fixed "changes" ∷ param "changeId" ∷ fixed "evidence" ∷ [])
        (session ∷ capabilities (changes_manage ∷ []) ∷ []) "addChangeEvidence"
    ∷ route get
        (fixed "v1"
          ∷ fixed "changes"
          ∷ param "changeId"
          ∷ fixed "evidence"
          ∷ param "evidenceId"
          ∷ fixed "download"
          ∷ [])
        (session ∷ capabilities (changes_view ∷ []) ∷ []) "openChangeEvidenceDownload"
    ∷ route post
        (fixed "v1"
          ∷ fixed "changes"
          ∷ param "changeId"
          ∷ fixed "steps"
          ∷ param "step"
          ∷ fixed "complete"
          ∷ [])
        (session ∷ capabilities (changes_manage ∷ []) ∷ []) "completeChangeWorkflowStep"
    ∷ route post (fixed "v1" ∷ fixed "changes" ∷ param "changeId" ∷ fixed "status" ∷ [])
        (session ∷ capabilities (changes_manage ∷ []) ∷ []) "transitionChange"
    ∷ []
