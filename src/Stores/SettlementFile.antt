-- ===== src/Stores/SettlementFile.antt =====
-- backend/afal/settlement/file-store.ts (`JsonFileAfalSettlementStore`): what the snapshot of its file holds.
use agent_financial_action_l.Base.{List, Option}
use agent_financial_action_l.Types.{IdRef}
use agent_financial_action_l.Types.Afal.{SettlementRecord, ProviderUsageConfirmation}
use agent_financial_action_l.Stores.File.{find_entry, put_entry}

pub record SettlementSnapshot : Type 0 where
  pub settlements : List SettlementRecord
  pub usage_confirmations : List ProviderUsageConfirmation

unfoldable pub get_settlement : IdRef → SettlementSnapshot → Option SettlementRecord
unfolding find_entry
get_settlement ref s = find_entry (λ (v : SettlementRecord). v.settlement_id) ref s.settlements

unfoldable pub put_settlement : SettlementRecord → SettlementSnapshot → SettlementSnapshot
unfolding put_entry
put_settlement v s = record s {
  settlements = put_entry (λ (w : SettlementRecord). w.settlement_id) v s.settlements;
}

abbrev pub list_settlements : SettlementSnapshot → List SettlementRecord
list_settlements s = s.settlements

unfoldable pub get_usage_confirmation :
    IdRef → SettlementSnapshot → Option ProviderUsageConfirmation
unfolding find_entry
get_usage_confirmation ref s =
    find_entry (λ (v : ProviderUsageConfirmation). v.usage_receipt_ref) ref s.usage_confirmations

unfoldable pub put_usage_confirmation :
    ProviderUsageConfirmation → SettlementSnapshot → SettlementSnapshot
unfolding put_entry
put_usage_confirmation v s = record s {
  usage_confirmations =
      put_entry (λ (w : ProviderUsageConfirmation). w.usage_receipt_ref) v s.usage_confirmations;
}

abbrev pub list_usage_confirmations : SettlementSnapshot → List ProviderUsageConfirmation
list_usage_confirmations s = s.usage_confirmations
