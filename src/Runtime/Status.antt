-- ===== src/Runtime/Status.antt =====
-- backend/afal/service/runtime.ts: getActionStatus.
use agent_financial_action_l.Base.{Option, none, some, if◌then◌else◌}
use agent_financial_action_l.Base.Action.{Action, pure, throw, ◌>>=◌, unknown_action}
use agent_financial_action_l.Types.{IdRef}
use agent_financial_action_l.Types.Amn.{AuthorizationDecision}
use agent_financial_action_l.Types.Afal.{
  PaymentIntent, ResourceIntent, SettlementRecord, ActionReceipt, CapabilityResponse,
  ProviderUsageConfirmation,
}
use agent_financial_action_l.Amn.{get_decision}
use agent_financial_action_l.State.{get_payment_intent, get_resource_intent}
use agent_financial_action_l.Settlement.{get_settlement, get_usage_confirmation}
use agent_financial_action_l.Runtime.{
  AfalState, Environment, on_amn, on_intents, on_settlement, catching, is_unknown_intent_error,
}
use agent_financial_action_l.Runtime.Resume.{
  find_receipt, latest_response, is_approval, is_payment, is_resource,
}

pub record PaymentActionStatusOutput : Type 0 where
  pub intent : PaymentIntent
  pub final_decision : Option AuthorizationDecision
  pub settlement : Option SettlementRecord
  pub approval_receipt : Option ActionReceipt
  pub payment_receipt : Option ActionReceipt
  pub capability_response : Option CapabilityResponse

pub record ResourceActionStatusOutput : Type 0 where
  pub intent : ResourceIntent
  pub final_decision : Option AuthorizationDecision
  pub usage_confirmation : Option ProviderUsageConfirmation
  pub settlement : Option SettlementRecord
  pub approval_receipt : Option ActionReceipt
  pub resource_receipt : Option ActionReceipt
  pub capability_response : Option CapabilityResponse

pub data ActionStatusOutput : Type 0 where
  payment_status : PaymentActionStatusOutput → ActionStatusOutput
  resource_status : ResourceActionStatusOutput → ActionStatusOutput

-- `ref ? await get(ref) : undefined`
abbrev pub read_if :
    {A : Type 0} → Option IdRef → (IdRef → Action AfalState A) → Action AfalState (Option A)
read_if none get = pure none
read_if (some ref) get = do a ← get ref; pure (some a)

unfoldable pub build_payment_action_status :
    Environment → PaymentIntent → Action AfalState ActionStatusOutput
build_payment_action_status env intent = do
  final_decision ← read_if intent.decision_ref (λ ref. on_amn (get_decision ref))
  settlement ← read_if intent.settlement_ref (λ ref. on_settlement (get_settlement ref))
  approval_receipt ← find_receipt intent.intent_id (λ r. is_approval r.receipt_type)
  payment_receipt ← find_receipt intent.intent_id (λ r. is_payment r.receipt_type)
  capability_response ← latest_response env intent.intent_id
  pure (
      ActionStatusOutput.payment_status (record {
        intent = intent;
        final_decision = final_decision;
        settlement = settlement;
        approval_receipt = approval_receipt;
        payment_receipt = payment_receipt;
        capability_response = capability_response;
      }))

unfoldable pub build_resource_action_status :
    Environment → ResourceIntent → Action AfalState ActionStatusOutput
build_resource_action_status env intent = do
  final_decision ← read_if intent.decision_ref (λ ref. on_amn (get_decision ref))
  usage_confirmation ←
      read_if intent.usage_receipt_ref (λ ref. on_settlement (get_usage_confirmation ref))
  settlement ← read_if intent.settlement_ref (λ ref. on_settlement (get_settlement ref))
  approval_receipt ← find_receipt intent.intent_id (λ r. is_approval r.receipt_type)
  resource_receipt ← find_receipt intent.intent_id (λ r. is_resource r.receipt_type)
  capability_response ← latest_response env intent.intent_id
  pure (
      ActionStatusOutput.resource_status (record {
        intent = intent;
        final_decision = final_decision;
        usage_confirmation = usage_confirmation;
        settlement = settlement;
        approval_receipt = approval_receipt;
        resource_receipt = resource_receipt;
        capability_response = capability_response;
      }))

-- A read of an intent whose "unknown" error gives `none`; any other error is thrown again.
abbrev pub known_or_none : {A : Type 0} → Action AfalState A → Action AfalState (Option A)
known_or_none get =
    catching (do a ← get; pure (some a))
      (λ error. if is_unknown_intent_error error then pure none else throw error)

abbrev pub resource_status_or_throw :
    Environment → IdRef → Option ResourceIntent → Action AfalState ActionStatusOutput
resource_status_or_throw env action_ref (some intent) = build_resource_action_status env intent
resource_status_or_throw env action_ref none = throw (unknown_action action_ref)

abbrev pub status_or_resource :
    Environment → IdRef → Option PaymentIntent → Action AfalState ActionStatusOutput
status_or_resource env action_ref (some intent) = build_payment_action_status env intent
status_or_resource env action_ref none = do
  intent ← known_or_none (on_intents (get_resource_intent action_ref))
  resource_status_or_throw env action_ref intent

-- The status is built outside the two `try` blocks: its errors are not caught.
unfoldable pub get_action_status : Environment → IdRef → Action AfalState ActionStatusOutput
get_action_status env action_ref = do
  intent ← known_or_none (on_intents (get_payment_intent action_ref))
  status_or_resource env action_ref intent
