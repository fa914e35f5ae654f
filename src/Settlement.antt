-- ===== src/Settlement.antt =====
-- backend/afal/settlement/store.ts (`InMemoryAfalSettlementStore`) and
-- backend/afal/settlement/service.ts (`AfalSettlementService`).
pub mod Seeded
pub mod Http
use agent_financial_action_l.Base.{some, List, ◌∷◌}
use agent_financial_action_l.Base.Map.{Map, lookup, insert, values}
use agent_financial_action_l.Base.Action.{
  Action, Result, pure, gets, modify, assert_found, ◌>>=◌, ◌>>◌, unknown_settlement,
  unknown_usage_receipt,
}
use agent_financial_action_l.Types.{IdRef}
use agent_financial_action_l.Types.Amn.{AuthorizationDecision}
use agent_financial_action_l.Types.Afal.{
  PaymentIntent, ResourceIntent, SettlementRecord, ProviderUsageConfirmation, Destination,
}

-- A call to the payment rail or to the provider.
pub data Call : Type 0 where
  execute_payment_call : PaymentIntent → AuthorizationDecision → Call
  confirm_usage_call : ResourceIntent → Call
  settle_usage_call : ResourceIntent → AuthorizationDecision → ProviderUsageConfirmation → Call

-- The adapters of the rail and of the provider. What one answers may depend on all calls before.
pub record Adapters : Type 0 where
  pub execute_payment : List Call → PaymentIntent → AuthorizationDecision → Result SettlementRecord
  pub confirm_resource_usage : List Call → ResourceIntent → Result ProviderUsageConfirmation
  pub settle_resource_usage :
      List Call
      → ResourceIntent
      → AuthorizationDecision
      → ProviderUsageConfirmation
      → Result SettlementRecord

-- The store, and the calls that the adapters got so far, the latest first.
pub record SettlementStore : Type 0 where
  pub settlements : Map SettlementRecord
  pub usage_confirmations : Map ProviderUsageConfirmation
  pub calls : List Call

abbrev pub put_settlement : SettlementRecord → Action SettlementStore (Unit {0})
put_settlement r = modify (λ s. record s { settlements = insert r.settlement_id r s.settlements })

abbrev pub put_usage_confirmation : ProviderUsageConfirmation → Action SettlementStore (Unit {0})
put_usage_confirmation r =
    modify
      (λ s. record s { usage_confirmations = insert r.usage_receipt_ref r s.usage_confirmations })

abbrev pub get_settlement : IdRef → Action SettlementStore SettlementRecord
get_settlement ref = do
  assert_found (← gets (λ s. lookup ref s.settlements)) (unknown_settlement ref)

abbrev pub list_settlements : SettlementStore → List SettlementRecord
list_settlements s = values s.settlements

abbrev pub get_usage_confirmation : IdRef → Action SettlementStore ProviderUsageConfirmation
get_usage_confirmation ref = do
  assert_found (← gets (λ s. lookup ref s.usage_confirmations)) (unknown_usage_receipt ref)

abbrev pub list_usage_confirmations : SettlementStore → List ProviderUsageConfirmation
list_usage_confirmations s = values s.usage_confirmations

-- One call to an adapter: it is made, whether it is answered or fails.
abbrev pub calling : {A : Type 0} → Call → (List Call → Result A) → Action SettlementStore A
calling call answer s = (answer s.calls, record s { calls = call ∷ s.calls })

unfoldable pub execute_payment :
    Adapters → PaymentIntent → AuthorizationDecision → Action SettlementStore SettlementRecord
execute_payment adapters intent decision = do
  adapter_settlement ←
      calling (execute_payment_call intent decision)
        (λ calls. adapters.execute_payment calls intent decision)
  let settlement = record adapter_settlement {
    action_ref = intent.intent_id;
    decision_ref = some decision.decision_id;
    source_account_ref = intent.payer.account_id;
  }
  put_settlement settlement
  pure settlement

unfoldable pub confirm_resource_usage :
    Adapters → ResourceIntent → Action SettlementStore ProviderUsageConfirmation
confirm_resource_usage adapters intent = do
  answer ←
      calling (confirm_usage_call intent) (λ calls. adapters.confirm_resource_usage calls intent)
  let confirmation = record answer {
    provider_id = intent.provider.provider_id;
    provider_did = intent.provider.provider_did;
    resource_class = intent.resource.resource_class;
    resource_unit = intent.resource.resource_unit;
    quantity = intent.resource.quantity;
  }
  put_usage_confirmation confirmation
  pure confirmation

unfoldable pub settle_resource_usage :
    Adapters
    → ResourceIntent
    → AuthorizationDecision
    → ProviderUsageConfirmation
    → Action SettlementStore SettlementRecord
settle_resource_usage adapters intent decision usage = do
  answer ←
      calling (settle_usage_call intent decision usage)
        (λ calls. adapters.settle_resource_usage calls intent decision usage)
  let settlement = record answer {
    action_ref = intent.intent_id;
    decision_ref = some decision.decision_id;
    source_account_ref = intent.requester.account_id;
    destination = Destination.provider intent.provider;
    asset = intent.pricing.asset;
    amount = intent.pricing.max_spend;
  }
  put_usage_confirmation usage
  put_settlement settlement
  pure settlement
