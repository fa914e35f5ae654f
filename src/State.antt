-- ===== src/State.antt =====
-- backend/afal/state/store.ts (`InMemoryAfalIntentStore`) and backend/afal/state/service.ts
-- (`AfalIntentStateService`). The template resolver is two maps from an intent's id.
use agent_financial_action_l.Base.{Option, none, some, ◌or_else◌, ◌or_some◌, List}
use agent_financial_action_l.Base.Map.{Map, lookup, insert, values}
use agent_financial_action_l.Base.Action.{
  Action, pure, gets, modify, assert_found, ◌>>=◌, ◌>>◌, unknown_payment_intent,
  unknown_resource_intent, unknown_pending_execution,
}
use agent_financial_action_l.Types.{IdRef, Timestamp, ChallengeState, CommonActionStatus}
use agent_financial_action_l.Types.Afal.{
  PaymentIntent, ResourceIntent, PendingApprovalExecution, PendingApprovalExecutionStatus,
}

pub record IntentStore : Type 0 where
  pub payment_intents : Map PaymentIntent
  pub resource_intents : Map ResourceIntent
  pub pending_executions : Map PendingApprovalExecution

pub record IntentTemplates : Type 0 where
  pub payment_intents : Map PaymentIntent
  pub resource_intents : Map ResourceIntent

abbrev pub put_payment_intent : PaymentIntent → Action IntentStore (Unit {0})
put_payment_intent i =
    modify (λ s. record s { payment_intents = insert i.intent_id i s.payment_intents })

abbrev pub put_resource_intent : ResourceIntent → Action IntentStore (Unit {0})
put_resource_intent i =
    modify (λ s. record s { resource_intents = insert i.intent_id i s.resource_intents })

abbrev pub put_pending_execution : PendingApprovalExecution → Action IntentStore (Unit {0})
put_pending_execution e =
    modify
      (λ s. record s { pending_executions = insert e.approval_session_ref e s.pending_executions })

-- The reads: each throws at an unknown reference.
abbrev pub get_payment_intent : IdRef → Action IntentStore PaymentIntent
get_payment_intent ref = do
  assert_found (← gets (λ s. lookup ref s.payment_intents)) (unknown_payment_intent ref)

abbrev pub get_resource_intent : IdRef → Action IntentStore ResourceIntent
get_resource_intent ref = do
  assert_found (← gets (λ s. lookup ref s.resource_intents)) (unknown_resource_intent ref)

abbrev pub get_pending_execution : IdRef → Action IntentStore PendingApprovalExecution
get_pending_execution ref = do
  assert_found (← gets (λ s. lookup ref s.pending_executions)) (unknown_pending_execution ref)

abbrev pub list_payment_intents : IntentStore → List PaymentIntent
list_payment_intents s = values s.payment_intents

abbrev pub list_resource_intents : IntentStore → List ResourceIntent
list_resource_intents s = values s.resource_intents

abbrev pub list_pending_executions : IntentStore → List PendingApprovalExecution
list_pending_executions s = values s.pending_executions

-- `{ ...template, ...intent }`: only optional fields can be left to the template.
abbrev pub overlay_payment_intent : Option PaymentIntent → PaymentIntent → PaymentIntent
overlay_payment_intent none intent = intent
overlay_payment_intent (some template) intent = record intent {
  policy_ref = intent.policy_ref or_some template.policy_ref;
  expires_at = intent.expires_at or_some template.expires_at;
  decision_ref = intent.decision_ref or_some template.decision_ref;
  challenge_ref = intent.challenge_ref or_some template.challenge_ref;
  settlement_ref = intent.settlement_ref or_some template.settlement_ref;
  receipt_ref = intent.receipt_ref or_some template.receipt_ref;
}

abbrev pub overlay_resource_intent : Option ResourceIntent → ResourceIntent → ResourceIntent
overlay_resource_intent none intent = intent
overlay_resource_intent (some template) intent = record intent {
  policy_ref = intent.policy_ref or_some template.policy_ref;
  expires_at = intent.expires_at or_some template.expires_at;
  decision_ref = intent.decision_ref or_some template.decision_ref;
  challenge_ref = intent.challenge_ref or_some template.challenge_ref;
  settlement_ref = intent.settlement_ref or_some template.settlement_ref;
  usage_receipt_ref = intent.usage_receipt_ref or_some template.usage_receipt_ref;
}

unfoldable pub create_payment_intent :
    IntentTemplates → PaymentIntent → Action IntentStore PaymentIntent
create_payment_intent templates intent = do
  let next = overlay_payment_intent (lookup intent.intent_id templates.payment_intents) intent
  put_payment_intent next
  pure next

unfoldable pub create_resource_intent :
    IntentTemplates → ResourceIntent → Action IntentStore ResourceIntent
create_resource_intent templates intent = do
  let next = overlay_resource_intent (lookup intent.intent_id templates.resource_intents) intent
  put_resource_intent next
  pure next

unfoldable pub create_pending_execution :
    PendingApprovalExecution → Action IntentStore PendingApprovalExecution
create_pending_execution execution = do put_pending_execution execution; pure execution

-- The arguments of `markPendingExecution`.
pub record PendingMark : Type 0 where
  pub approval_session_ref : IdRef
  pub status : PendingApprovalExecutionStatus
  pub updated_at : Option Timestamp
  pub final_decision_ref : Option IdRef
  pub settlement_ref : Option IdRef
  pub receipt_ref : Option IdRef
  pub usage_receipt_ref : Option IdRef

unfoldable pub mark_pending_execution : PendingMark → Action IntentStore PendingApprovalExecution
mark_pending_execution args = do
  current ← get_pending_execution args.approval_session_ref
  let next = record current {
    status = args.status;
    updated_at = args.updated_at or_else current.updated_at;
    final_decision_ref = args.final_decision_ref or_some current.final_decision_ref;
    settlement_ref = args.settlement_ref or_some current.settlement_ref;
    receipt_ref = args.receipt_ref or_some current.receipt_ref;
    usage_receipt_ref = args.usage_receipt_ref or_some current.usage_receipt_ref;
  }
  put_pending_execution next
  pure next

-- The arguments that the four marks of an intent share.
pub record Mark : Type 0 where
  pub intent_id : IdRef
  pub decision_ref : Option IdRef
  pub challenge_ref : Option IdRef
  pub challenge_state : ChallengeState
  pub status : CommonActionStatus

unfoldable pub mark_payment_challenge : Mark → Action IntentStore PaymentIntent
mark_payment_challenge args = do
  current ← get_payment_intent args.intent_id
  let next = record current {
    decision_ref = args.decision_ref or_some current.decision_ref;
    challenge_ref = args.challenge_ref or_some current.challenge_ref;
    challenge_state = args.challenge_state;
    status = args.status;
  }
  put_payment_intent next
  pure next

unfoldable pub mark_payment_settlement :
    Mark → (settlement_ref receipt_ref : IdRef) → Action IntentStore PaymentIntent
mark_payment_settlement args settlement_ref receipt_ref = do
  current ← get_payment_intent args.intent_id
  let next = record current {
    decision_ref = args.decision_ref or_some current.decision_ref;
    challenge_ref = args.challenge_ref or_some current.challenge_ref;
    challenge_state = args.challenge_state;
    settlement_ref = some settlement_ref;
    receipt_ref = some receipt_ref;
    status = args.status;
  }
  put_payment_intent next
  pure next

unfoldable pub mark_resource_challenge : Mark → Action IntentStore ResourceIntent
mark_resource_challenge args = do
  current ← get_resource_intent args.intent_id
  let next = record current {
    decision_ref = args.decision_ref or_some current.decision_ref;
    challenge_ref = args.challenge_ref or_some current.challenge_ref;
    challenge_state = args.challenge_state;
    status = args.status;
  }
  put_resource_intent next
  pure next

unfoldable pub mark_resource_settlement :
    Mark → (usage_receipt_ref settlement_ref : IdRef) → Action IntentStore ResourceIntent
mark_resource_settlement args usage_receipt_ref settlement_ref = do
  current ← get_resource_intent args.intent_id
  let next = record current {
    decision_ref = args.decision_ref or_some current.decision_ref;
    challenge_ref = args.challenge_ref or_some current.challenge_ref;
    challenge_state = args.challenge_state;
    usage_receipt_ref = some usage_receipt_ref;
    settlement_ref = some settlement_ref;
    status = args.status;
  }
  put_resource_intent next
  pure next
