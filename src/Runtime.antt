-- ===== src/Runtime.antt =====
-- backend/afal/service/runtime.ts (`AfalRuntimeService`): the ports that it calls, as one state, and
-- its helpers. The ports are the services of backend/afal/mock/orchestrator.ts
-- (`createMockAfalPorts`), which have all the operations that `can…` asks for.
pub mod Request
pub mod Resume
pub mod Pay
pub mod Provide
pub mod Approval
pub mod Calls
pub mod Quiet
pub mod Paying
pub mod Status
pub mod Admin
pub mod Administering
pub mod Command
pub mod Authorized
pub mod Settled
pub mod Unreserved
pub mod Bypass
pub mod Again
pub mod BestEffort
pub mod Refuse
use agent_financial_action_l.Base.{
  ℕ, String, Bool, true, false, not, Option, none, some, ◌or_else◌, ◌or_some◌, List, [], ◌∷◌, ◌==◌,
  if◌then◌else◌, eqb, ◌||◌,
}
use agent_financial_action_l.Base.Action.{
  Action, Error, Result, ok, err, pure, gets, throw_if, ◌>>=◌, ◌>>◌, credential_not_verified,
}
use agent_financial_action_l.Base.Ids.{text_of}
use Prim.Native.String.{◌++◌}
use Prim.Native.Char.{code}
use agent_financial_action_l.Types.{Did, IdRef, Timestamp, AuthorizationResult}
use agent_financial_action_l.Types.Amn.{Fields}
use agent_financial_action_l.Types.Afal.{PaymentIntent, CapabilityResponse}
use agent_financial_action_l.Clients.Store.{truthy}
use agent_financial_action_l.Aip.{AipStore, verify_credential, resolve_identity}
use agent_financial_action_l.Ats.{AtsStore, get_account_state}
use agent_financial_action_l.Amn.{AmnStore, Templates, ContextOverrides}
use agent_financial_action_l.State.{IntentStore, IntentTemplates}
use agent_financial_action_l.Settlement.{SettlementStore, Adapters}
use agent_financial_action_l.Outputs.{OutputStore, OutputTemplates, set_field}
use agent_financial_action_l.Notifications.Entries.{
  Outbox, PaymentNotification, ResourceNotification, DeliveryRecord,
}
use agent_financial_action_l.Notifications.Worker.{WorkerStatus}
use agent_financial_action_l.AdminAudit.{AuditStore}

-- The stores behind the ports, and the worker and the log of a service that is configured with them.
pub record AfalState : Type 0 where
  pub aip : AipStore
  pub ats : AtsStore
  pub amn : AmnStore
  pub intents : IntentStore
  pub settlement : SettlementStore
  pub outputs : OutputStore
  pub outbox : Outbox
  pub worker : Option WorkerStatus
  pub audit : Option AuditStore

-- A call of one port changes its store only.
abbrev pub on_aip : {A : Type 0} → Action AipStore A → Action AfalState A
on_aip m s = let (r, t) = m s.aip in (r, record s { aip = t })

abbrev pub on_ats : {A : Type 0} → Action AtsStore A → Action AfalState A
on_ats m s = let (r, t) = m s.ats in (r, record s { ats = t })

abbrev pub on_amn : {A : Type 0} → Action AmnStore A → Action AfalState A
on_amn m s = let (r, t) = m s.amn in (r, record s { amn = t })

abbrev pub on_intents : {A : Type 0} → Action IntentStore A → Action AfalState A
on_intents m s = let (r, t) = m s.intents in (r, record s { intents = t })

abbrev pub on_settlement : {A : Type 0} → Action SettlementStore A → Action AfalState A
on_settlement m s = let (r, t) = m s.settlement in (r, record s { settlement = t })

abbrev pub on_outputs : {A : Type 0} → Action OutputStore A → Action AfalState A
on_outputs m s = let (r, t) = m s.outputs in (r, record s { outputs = t })

abbrev pub on_outbox : {A : Type 0} → Action Outbox A → Action AfalState A
on_outbox m s = let (r, t) = m s.outbox in (r, record s { outbox = t })

-- try { … } catch (error) { … }
abbrev caught : {S A : Type 0} → Result A → S → (Error → Action S A) → Result A × S
caught (ok a) s handler = (ok a, s)
caught (err e) s handler = handler e s

abbrev pub catching : {S A : Type 0} → Action S A → (Error → Action S A) → Action S A
catching m handler s = let (r, t) = m s in caught r t handler

-- The notification port (`SettlementNotificationPort`).
pub record NotificationPort : Type 0 where
  pub notify_payment_settlement : PaymentNotification → Action Outbox (Unit {0})
  pub notify_resource_settlement : ResourceNotification → Action Outbox (Unit {0})

-- What a notification port has that `canAdministerNotifications` accepts.
pub record NotificationAdmin : Type 0 where
  pub list_delivery_records : Outbox → List DeliveryRecord
  pub redeliver_notification : IdRef → Action Outbox (Unit {0})

-- What the runtime reads of sdk/fixtures/payment.ts and resource.ts.
pub record Fixtures : Type 0 where
  pub intent_id : IdRef
  pub ownership_credential : IdRef
  pub authority_credential : IdRef
  pub policy_credential : IdRef
  pub budget_id : IdRef
  pub quota_id : IdRef
  pub receipt_issued_at : Timestamp
  pub receipt_evidence : Fields
  pub response_message : Option String

-- Everything that a command reads besides the stores. `is_after` is the order of `localeCompare`;
-- one command sees one reading of the clock. `redeliver_failed` is what the worker's port does.
pub record Environment : Type 0 where
  pub now : Timestamp
  pub now_ms : ℕ
  pub parse_time : Timestamp → Option ℕ
  pub is_after : Timestamp → Timestamp → Bool
  pub amn_templates : Templates
  pub intent_templates : IntentTemplates
  pub output_templates : OutputTemplates
  pub adapters : Adapters
  pub notifications : NotificationPort
  pub notification_admin : Option NotificationAdmin
  pub redeliver_failed : Action Outbox ℕ
  pub payment_fixtures : Fixtures
  pub resource_fixtures : Fixtures

abbrev pub assert_credential_verified : Environment → IdRef → String → Action AfalState (Unit {0})
assert_credential_verified env id label = do
  is_valid ← gets (λ (s : AfalState). verify_credential env.parse_time env.now_ms id s.aip)
  throw_if (not is_valid) (credential_not_verified label id)

-- The checks that every flow begins with, on the agent and its account.
unfoldable pub check_agent : Environment → Fixtures → Did → IdRef → Action AfalState (Unit {0})
check_agent env fixtures agent_did account_id = do
  on_aip (resolve_identity agent_did)
  assert_credential_verified env fixtures.ownership_credential "ownership"
  assert_credential_verified env fixtures.authority_credential "authority"
  assert_credential_verified env fixtures.policy_credential "policy"
  on_ats (get_account_state account_id)
  pure tt

-- getPaymentFixtures and getResourceFixtures: one intent is supported.
abbrev pub get_fixtures : Fixtures → IdRef → (IdRef → Error) → Action AfalState (Unit {0})
get_fixtures fixtures intent_id unsupported =
    throw_if (not (intent_id == fixtures.intent_id)) (unsupported fixtures.intent_id)

-- `resv-${intentState.intentId}`
abbrev pub reservation_id_of : IdRef → IdRef
reservation_id_of intent_id = "resv-" ++ intent_id

unfoldable has_colon : String → Bool
has_colon String.[] = false
has_colon (String.◌∷◌ c rest) = eqb (code c) b':' || has_colon rest

-- text.split(":").at(-1)
unfoldable pub last_segment : String → String
unfolding has_colon
last_segment String.[] = String.[]
last_segment (String.◌∷◌ c rest) =
    let later = last_segment rest in
    if has_colon rest then later else if eqb (code c) b':' then rest else String.◌∷◌ c rest

-- describePaymentPayee
abbrev pub describe_payment_payee : PaymentIntent → String
describe_payment_payee intent = last_segment intent.payee.payee_did

abbrev pub purpose_description : PaymentIntent → String
purpose_description intent =
    truthy (some intent.purpose.description)
    or_some truthy intent.purpose.reference_id
    or_else intent.purpose.category

unfoldable pub build_payment_approval_context_override : PaymentIntent → ContextOverrides
unfolding last_segment text_of
build_payment_approval_context_override intent = record {
  headline = some ("Approve payment to " ++ describe_payment_payee intent);
  summary = some (
      text_of intent.amount
      ++ " "
      ++ intent.asset
      ++ " on "
      ++ intent.chain
      ++ " for "
      ++ purpose_description intent);
  human_visible_fields = some (
      ("payerAccountRef", intent.payer.account_id)
      ∷ ("payeeDid", intent.payee.payee_did)
      ∷ set_field "settlementAddress" intent.payee.settlement_address (
          ("asset", intent.asset)
          ∷ ("amount", text_of intent.amount)
          ∷ ("chain", intent.chain)
          ∷ ("purpose", purpose_description intent)
          ∷ ("mandateRef", intent.mandate_ref)
          ∷ set_field "policyRef" intent.policy_ref (("riskSignals", "new-counterparty") ∷ [])));
}

-- isUnknownIntentError and isInactiveReservationError, by the message.
abbrev pub is_unknown_intent_error : Error → Bool
is_unknown_intent_error (Error.unknown_payment_intent ref) = true
is_unknown_intent_error (Error.unknown_resource_intent ref) = true
is_unknown_intent_error _ = false

abbrev pub is_inactive_reservation_error : Error → Bool
is_inactive_reservation_error (Error.monetary_reservation_not_active ref) = true
is_inactive_reservation_error (Error.resource_reservation_not_active ref) = true
is_inactive_reservation_error _ = false

-- The text of a result, as messages and reason codes show it.
abbrev pub result_text : AuthorizationResult → String
result_text AuthorizationResult.approved = "approved"
result_text AuthorizationResult.rejected = "rejected"
result_text AuthorizationResult.challenge_required = "challenge-required"
result_text AuthorizationResult.pending_approval = "pending-approval"
result_text AuthorizationResult.suspended = "suspended"
result_text AuthorizationResult.expired = "expired"

-- The first of the responses that no other is after.
unfoldable pub select_latest :
    (Timestamp → Timestamp → Bool) → List CapabilityResponse → Option CapabilityResponse
select_latest is_after [] = none
select_latest is_after (r ∷ rs) = elim (select_latest is_after rs) [
  | none ↦ some r
  | some later ↦ if is_after later.responded_at r.responded_at then some later else some r
]
