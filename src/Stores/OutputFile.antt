-- ===== src/Stores/OutputFile.antt =====
-- backend/afal/outputs/file-store.ts (`JsonFileAfalOutputStore`): what the snapshot of its file holds.
use agent_financial_action_l.Base.{List, Option}
use agent_financial_action_l.Types.{IdRef}
use agent_financial_action_l.Types.Afal.{ActionReceipt, CapabilityResponse}
use agent_financial_action_l.Stores.File.{find_entry, put_entry}

pub record OutputSnapshot : Type 0 where
  pub receipts : List ActionReceipt
  pub capability_responses : List CapabilityResponse

unfoldable pub get_receipt : IdRef → OutputSnapshot → Option ActionReceipt
unfolding find_entry
get_receipt ref s = find_entry (λ (v : ActionReceipt). v.receipt_id) ref s.receipts

unfoldable pub put_receipt : ActionReceipt → OutputSnapshot → OutputSnapshot
unfolding put_entry
put_receipt v s = record s {
  receipts = put_entry (λ (w : ActionReceipt). w.receipt_id) v s.receipts;
}

abbrev pub list_receipts : OutputSnapshot → List ActionReceipt
list_receipts s = s.receipts

unfoldable pub get_capability_response : IdRef → OutputSnapshot → Option CapabilityResponse
unfolding find_entry
get_capability_response ref s =
    find_entry (λ (v : CapabilityResponse). v.response_id) ref s.capability_responses

unfoldable pub put_capability_response : CapabilityResponse → OutputSnapshot → OutputSnapshot
unfolding put_entry
put_capability_response v s = record s {
  capability_responses =
      put_entry (λ (w : CapabilityResponse). w.response_id) v s.capability_responses;
}

abbrev pub list_capability_responses : OutputSnapshot → List CapabilityResponse
list_capability_responses s = s.capability_responses
