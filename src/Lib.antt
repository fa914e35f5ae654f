-- ===== src/Lib.antt =====
-- The Agent Financial Action Layer: budgets and reservations (ATS), authorization with approval
-- sessions (AMN), identities and credentials (AIP), external agent clients, settlement and its
-- notifications, and the AFAL runtime that composes them into payments and uses of resources.
--
-- Parts and files
--   Base, Base/Int, Base/Map, Base/Action, Base/Ids: shared names, integers, JavaScript's
--     insertion-ordered `Map`, service methods as functions from a state to a result and a state,
--     and generated ids.
--   Types, Types/Ats, Types/Amn, Types/Aip, Types/Afal: sdk/types/common.ts, ats.ts, amn.ts, aip.ts
--     and afal.ts.
--   Money: `toMoney` and `fromMoney` of backend/ats/service.ts.
--   Ats: backend/ats/store.ts (`InMemoryAtsStore`) and the reads of backend/ats/service.ts;
--     Ats/Monetary: consumeMonetaryBudget, reserveMonetaryBudget, settleMonetaryReservation and
--     releaseMonetaryReservation; Ats/Resource: consumeResourceBudget, consumeResourceQuota,
--     reserveResourceCapacity, settleResourceReservation and releaseResourceReservation.
--   Amn: backend/amn/store.ts and backend/amn/service.ts (`InMemoryAmnService`).
--   Aip: backend/aip/store.ts and backend/aip/service.ts (`InMemoryAipService`).
--   Clients/Store, Clients/Auth, Clients/Callbacks: backend/afal/clients/store.ts and service.ts.
--   Notifications, Notifications/Entries: backend/afal/notifications.ts
--     (`HttpSettlementNotificationPort` on the in-memory outbox); Notifications/Worker: the calls of
--     `SettlementNotificationOutboxWorker`.
--   AdminAudit: backend/afal/admin-audit.ts (`InMemoryAfalAdminAuditStore`).
--   State: backend/afal/state/store.ts and service.ts, intents and pending executions.
--   Outputs: backend/afal/outputs/store.ts and service.ts, receipts and capability responses.
--   Settlement: backend/afal/settlement/store.ts and service.ts; Settlement/Seeded: adapters.ts;
--     Settlement/Http: http-adapters.ts.
--   Runtime: backend/afal/service/runtime.ts (`AfalRuntimeService`): the ports and helpers;
--     Runtime/Request: requestPaymentApproval and requestResourceApproval; Runtime/Resume,
--     Runtime/Pay and Runtime/Provide: the branches of resumeApprovedPaymentAction and
--     resumeApprovedResourceAction; Runtime/Approval: applyApprovalResult, resumeApprovalSession and
--     resumeApprovedAction; Runtime/Status: getActionStatus; Runtime/Admin: the commands on
--     notification deliveries, the worker and the audit log; Runtime/Command: invoke.
--   Failures: backend/afal/api/failures.ts, the answers to errors.
--   Orchestrator, Orchestrator/Resource: backend/afal/mock/orchestrator.ts, the flows that run to
--     the end with a trusted surface.
--   Stores, Stores/File and the modules of each file: the file-store.ts of ats, aip, amn and of
--     afal/outputs, afal/settlement and afal/state.
--   Tests: concrete stores, and the theorems at them.
-- A function keeps the name of its method, in snake case. The runtime calls ATS to hold a budget
-- before a payment and to settle or release it after, AMN for the decision between, the settlement
-- for the payment itself, and the notification port at the end; clients' registered URLs are what
-- the port's resolver gives.
--
-- How the code is modelled
--   A method reads and writes a store, and returns or throws; what was written before a throw stays.
--   Stores hold immutable values, so `clone` is the identity. Calls are whole steps: awaits inside
--   one call are not interleaved with other calls.
--   `new Date().toISOString()` and other readings of the clock are arguments, and one command sees one
--   reading. The hash of node:crypto, `Date.parse`, random keys, `fetch` and the order of
--   `localeCompare` are arguments too. Instants are whole milliseconds since 1970.
--   Money is counted in whole hundredths, or is not a number, where the code computes with doubles.
--   Both agree on texts with two fraction digits whose value is a quarter of a whole number, up to
--   2^50 hundredths, which the exact results on reserving, settling and consuming ask for. On other
--   amounts the code's comparisons with 0 see the rounding of doubles, which the model does not.
--   Numbers that are no whole hundredths (more fraction digits, an exponent, a blank or a plus in
--   front, no whole part) are one value, `inexact`, which no hypothesis on amounts admits. Quantities
--   of resources are integers. Printing a number of hundredths `n` has fuel `n + 1`, which is more
--   than it has digits, as the round trip shows; a generated id is printed the same way.
--   Fields whose type is one literal are left out, and a `Record<string, unknown>` is a map to
--   texts, as is the subject of a credential.
--   Texts that the source tests for truth are ids, which are not empty.
--   The loop of `postNotification` recurses on the attempts that are left; `sleep` between attempts
--   changes no state. The next attempt's time is kept as its instant in milliseconds. The loop of
--   `executeWithRetry` recurses on the attempts that are left as well.
--   The runtime's ports are those of `createMockAfalPorts`, with each operation that a `can...`
--   test looks for. Fixtures, adapters and the trusted surface are arguments. An adapter's answer
--   may depend on all calls made before: the settlement store keeps these calls as a list that no
--   operation reads back. The module's counters of receipts and responses are kept with their store.
--   A file store is the list of entries that its file holds.
--
-- Not modelled: the SQLite stores, JSON text and the file system, HTTP routers and servers, the
-- handlers of the APIs, the timer of the outbox's worker and two of its ticks at once, and the
-- harnesses, samples and scripts, which surround the parts above.
pub mod Base
pub mod Money
pub mod Types
pub mod Ats
pub mod Amn
pub mod Aip
pub mod Clients
pub mod Notifications
pub mod Stores
pub mod State
pub mod Outputs
pub mod Settlement
pub mod AdminAudit
pub mod Runtime
pub mod Failures
pub mod Orchestrator
pub mod Tests
