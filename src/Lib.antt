-- ===== src/Lib.antt =====
-- Verification of the Builder Solutions platform.
--
-- The platform is a multi-tenant back end for safety at work: an API (apps/api), a worker
-- (apps/worker), a web client (apps/web) and the contracts that they share (packages/contracts). A
-- request of a member of an organisation passes the guards of apps/api/src/identity, which read the
-- capabilities of packages/contracts/src/index.ts, and runs one operation of a service inside one
-- database transaction that sees the rows of one tenant (platform/tenant). An operation reads its
-- input with a schema, reads rows, tests them, writes rows, and ends with `record`, which adds one
-- entry to the audit log and one to the outbox. An operation that throws changes nothing, because
-- the transaction is rolled back. The worker publishes the outbox.
--
-- The parts that are modelled, and where:
--
-- Contracts is packages/contracts/src/index.ts and the guards apps/api/src/identity/
-- capability.guard.ts and membership-role.guard.ts: Contracts/Roles has the table of capabilities,
-- Contracts/Guards the tests that let a request pass.
--
-- Changes, Hht and Safety are three parts of apps/api/src/operations/operations.service.ts, over
-- tables of prisma/schema.prisma. Each has the same shape. Types has the tables of a tenant as a
-- record `Tables`, a row as a record and an enum as a data type. Schema has the input schemas.
-- Service (with Rows in Changes, Catalogue in Safety and Closing in Hht) has one function for each
-- method of the service that changes state, named as the method in snake_case, from the tables to
-- the tables or to the exception: create_change, add_change_risk, add_change_approval,
-- decide_change_approval, add_change_evidence, complete_change_workflow_step and transition_change
-- in Changes; create_company, upsert_report, set_report_status, upsert_window, grant_exception,
-- revoke_exception, close_window and publish_period for createHhtCompany, upsertHhtReport,
-- setHhtReportStatus, upsertHhtWindow, grantHhtLateException, revokeHhtLateException,
-- closeHhtWindow and publishHhtPeriod in Hht; create_classification, update_classification,
-- create_event, add_event_action, complete_event_action, add_event_attachment and transition_event
-- in Safety. A `Call` is one request, `handle` runs it, and `serve` runs a list of them, each by
-- any user at any time, where a request that throws leaves the tables as they were.
--
-- Members is apps/api/src/organizations/organization-access.service.ts: update_current_member and
-- revoke_current_invitation for updateCurrentMember and revokeCurrentInvitation, in the same shape;
-- the role of the caller, which the session gives, stands beside each request. Members/Groups is the
-- part of the same file on groups: create_group, update_group, replace_group_members and
-- delete_group, where the comparison of names and the database's error are parameters.
--
-- Screens is the part of operations.service.ts on dashboards, TV displays and playlists:
-- create_dashboard, update_dashboard, publish_dashboard and their like for displays and playlists
-- (Dashboards, Displays, Playlists), public_widgets for what a dashboard makes public and
-- sanitize_tv_display_snapshot for what a display shows of it (Widgets, Snapshots). The figures that
-- the analytics of a widget compute when it is published are an argument.
--
-- Files is the upload of operations.service.ts with platform/storage/file-content-validation.ts
-- (Contents) and the worker's procedures of prisma/migrations. Service has the transactions on a row;
-- Steps has uploadFileContent and cancelFileUpload as requests that stand at a stage, and `step` runs
-- one transaction or takes one answer of the scanner or the storage, so that the steps of different
-- requests and of the clean-up interleave freely.
--
-- Accounts is apps/api/src/identity/password.service.ts: hash and verify (Passwords), where argon2, the
-- salt and the coding of bytes are parameters.
--
-- Http is the controllers of apps/api/src and identity/session-context.guard.ts: the routes with their
-- guards in the order of the decorators (Routes), and the run of the guards for a session (Guards).
--
-- Worker is apps/worker/src/kafka. Outbox and Retry are outbox-dispatcher.service.ts:
-- retry_delay_seconds, publish_one and dispatch, with outboxEventSchema of the contracts as accepts;
-- the events that the database hands out are the argument, and the answers of the broker and of the
-- database are parameters. Webhooks is webhook-delivery-dispatcher.service.ts:
-- is_public_webhook_address (Addresses), and deliver_one with what it calls (Delivery), where the
-- record `World` has the runtime's answers. What the worker did is a list of effects.
--
-- Prelude has what they share: exceptions as values (Errors), the text schemas (Texts), `record` and
-- its two tables (Journals), and rows found and updated by key (Table) or by a test (Select).
--
-- The correspondence: rows that Prisma keeps in tables of their own with a foreign key to one owner
-- (the risks, approvals, evidence and steps of a change, the actions and attachments of an event)
-- stand in the row of their owner. Identifiers, times and hashes of tokens are numbers; hours are
-- numbers of hundredths. A new identifier, the present time and a new token's hash are arguments of
-- an operation. The application's procedure that looks up an approver is a parameter: its answer is
-- an argument. Nothing is bounded and nothing runs on fuel: every function is structurally
-- recursive.
--
-- Outside Files an operation is one atomic step. For the HHT operations `lockHhtPeriod` orders the
-- transactions of one period; for the others, interleavings inside transactions of the isolation
-- level Read Committed are not modelled. In Files a transaction is one step.
--
-- Not modelled: lists, downloads and exports that only read; the metadata of audit and outbox
-- entries; the rates of HHT (floating-point numbers) and the reference target; the board and the
-- integrations of operations.service.ts; forms, login and sessions, and notifications; the consumer
-- and the monitors of the worker; the web client; the storage, the scanner, the SQL procedures
-- outside Files and row-level security, which are not TypeScript or are input and output.
pub mod Prelude
pub mod Contracts
pub mod Changes
pub mod Hht
pub mod Safety
pub mod Members
pub mod Accounts
pub mod Worker
pub mod Http
pub mod Screens
pub mod Files
