-- ===== src/Settlement/Seeded.antt =====
-- backend/afal/settlement/adapters.ts: the seeded adapters. A counter that only grows by calls
-- without a template is read off the calls made so far.
use agent_financial_action_l.Base.{ℕ, suc, ◌+◌, some, none, List, [], ◌∷◌, is_some, if◌then◌else◌}
use agent_financial_action_l.Base.Ids.{generated_id}
use agent_financial_action_l.Base.Map.{Map, lookup}
use agent_financial_action_l.Base.Action.{ok}
use agent_financial_action_l.Types.{Timestamp, IdRef}
use agent_financial_action_l.Types.Amn.{AuthorizationDecision}
use agent_financial_action_l.Types.Afal.{
  PaymentIntent, ResourceIntent, SettlementRecord, ProviderUsageConfirmation, Destination,
  SettlementType, SettlementStatus,
}
use agent_financial_action_l.Settlement.{Call, Adapters}

pub record SettlementTemplates : Type 0 where
  pub payment_settlements : Map SettlementRecord
  pub usages : Map ProviderUsageConfirmation
  pub resource_settlements : Map SettlementRecord

-- How far a call moves `settlementCounter` and `usageCounter`.
abbrev settlement_step : SettlementTemplates → Call → ℕ
settlement_step t (Call.execute_payment_call intent decision) =
    if is_some (lookup intent.intent_id t.payment_settlements) then 0 else 1
settlement_step t (Call.confirm_usage_call intent) = 0
settlement_step t (Call.settle_usage_call intent decision usage) =
    if is_some (lookup intent.intent_id t.resource_settlements) then 0 else 1

abbrev usage_step : SettlementTemplates → Call → ℕ
usage_step t (Call.execute_payment_call intent decision) = 0
usage_step t (Call.confirm_usage_call intent) =
    if is_some (lookup intent.intent_id t.usages) then 0 else 1
usage_step t (Call.settle_usage_call intent decision usage) = 0

-- A counter after some calls.
unfoldable pub counted : (Call → ℕ) → List Call → ℕ
counted step [] = 0
counted step (c ∷ calls) = step c + counted step calls

unfoldable pub next_settlement_id : SettlementTemplates → List Call → IdRef
unfolding counted generated_id
next_settlement_id t calls = generated_id "stl-generated-" (suc (counted (settlement_step t) calls))

unfoldable pub next_usage_receipt_id : SettlementTemplates → List Call → IdRef
unfolding counted generated_id
next_usage_receipt_id t calls = generated_id "usage-generated-" (suc (counted (usage_step t) calls))

unfoldable pub seeded_execute_payment :
    SettlementTemplates
    → Timestamp
    → List Call
    → PaymentIntent
    → AuthorizationDecision
    → SettlementRecord
unfolding next_settlement_id
seeded_execute_payment templates now calls intent decision =
    elim (lookup intent.intent_id templates.payment_settlements) [
      | some template ↦ template
      | none ↦ record {
        settlement_id = next_settlement_id templates calls;
        settlement_type = SettlementType.onchain_transfer;
        action_ref = intent.intent_id;
        decision_ref = some decision.decision_id;
        source_account_ref = intent.payer.account_id;
        destination = Destination.counterparty intent.payee;
        asset = intent.asset;
        amount = intent.amount;
        chain = some intent.chain;
        tx_hash = none;
        status = SettlementStatus.settled;
        executed_at = some now;
        settled_at = some now;
      }
    ]

unfoldable pub seeded_confirm_resource_usage :
    SettlementTemplates → Timestamp → List Call → ResourceIntent → ProviderUsageConfirmation
unfolding next_usage_receipt_id
seeded_confirm_resource_usage templates now calls intent =
    elim (lookup intent.intent_id templates.usages) [
      | some template ↦ template
      | none ↦ record {
        usage_receipt_ref = next_usage_receipt_id templates calls;
        provider_id = intent.provider.provider_id;
        provider_did = intent.provider.provider_did;
        resource_class = intent.resource.resource_class;
        resource_unit = intent.resource.resource_unit;
        quantity = intent.resource.quantity;
        workflow_id = none;
        task_class = none;
        confirmed_at = now;
      }
    ]

unfoldable pub seeded_settle_resource_usage :
    SettlementTemplates
    → Timestamp
    → List Call
    → ResourceIntent
    → AuthorizationDecision
    → SettlementRecord
unfolding next_settlement_id
seeded_settle_resource_usage templates now calls intent decision =
    elim (lookup intent.intent_id templates.resource_settlements) [
      | some template ↦ template
      | none ↦ record {
        settlement_id = next_settlement_id templates calls;
        settlement_type = SettlementType.provider_settlement;
        action_ref = intent.intent_id;
        decision_ref = some decision.decision_id;
        source_account_ref = intent.requester.account_id;
        destination = Destination.provider intent.provider;
        asset = intent.pricing.asset;
        amount = intent.pricing.max_spend;
        chain = none;
        tx_hash = none;
        status = SettlementStatus.settled;
        executed_at = some now;
        settled_at = some now;
      }
    ]

-- Both seeded adapters: they never fail.
unfoldable pub seeded_adapters : SettlementTemplates → Timestamp → Adapters
unfolding seeded_execute_payment seeded_confirm_resource_usage seeded_settle_resource_usage
seeded_adapters templates now = record {
  execute_payment =
      λ calls intent decision. ok (seeded_execute_payment templates now calls intent decision);
  confirm_resource_usage =
      λ calls intent. ok (seeded_confirm_resource_usage templates now calls intent);
  settle_resource_usage = λ calls intent decision usage.
      ok (seeded_settle_resource_usage templates now calls intent decision);
}
