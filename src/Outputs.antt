-- ===== src/Outputs.antt =====
-- backend/afal/outputs/store.ts (`InMemoryAfalOutputStore`) and backend/afal/outputs/service.ts
-- (`AfalOutputService`). The two counters of the module are kept with the store.
use agent_financial_action_l.Base.{
  ℕ, suc, String, Bool, false, Option, none, some, ◌or_else◌, ◌or_some◌, List, [], ◌∷◌, ◌==◌,
}
use agent_financial_action_l.Base.Ids.{generated_id}
use agent_financial_action_l.Base.Map.{Map, lookup, insert, values}
use agent_financial_action_l.Base.Action.{
  Action, pure, gets, modify, assert_found, ◌>>=◌, ◌>>◌, unknown_receipt, unknown_response,
}
use agent_financial_action_l.Types.{IdRef, Timestamp, AuthorizationResult}
use agent_financial_action_l.Types.Amn.{Fields, ApprovalResult}
use agent_financial_action_l.Types.Afal.{
  ActionReceipt, CapabilityResponse, ReceiptType, ReceiptStatus,
}

pub record OutputStore : Type 0 where
  pub receipts : Map ActionReceipt
  pub capability_responses : Map CapabilityResponse
  pub receipt_counter : ℕ
  pub response_counter : ℕ

-- The template resolver, which selects by type or capability and by the action.
pub record OutputTemplates : Type 0 where
  pub receipts : ReceiptType → IdRef → Option ActionReceipt
  pub capability_responses : String → IdRef → Option CapabilityResponse

abbrev pub put_receipt : ActionReceipt → Action OutputStore (Unit {0})
put_receipt r = modify (λ s. record s { receipts = insert r.receipt_id r s.receipts })

abbrev pub put_capability_response : CapabilityResponse → Action OutputStore (Unit {0})
put_capability_response r =
    modify (λ s. record s { capability_responses = insert r.response_id r s.capability_responses })

abbrev pub get_receipt : IdRef → Action OutputStore ActionReceipt
get_receipt ref = do assert_found (← gets (λ s. lookup ref s.receipts)) (unknown_receipt ref)

abbrev pub list_receipts : OutputStore → List ActionReceipt
list_receipts s = values s.receipts

abbrev pub get_capability_response : IdRef → Action OutputStore CapabilityResponse
get_capability_response ref = do
  assert_found (← gets (λ s. lookup ref s.capability_responses)) (unknown_response ref)

abbrev pub list_capability_responses : OutputStore → List CapabilityResponse
list_capability_responses s = values s.capability_responses

abbrev pub next_receipt_id : Action OutputStore IdRef
next_receipt_id s =
    pure (generated_id "rcpt-generated-" (suc s.receipt_counter))
      (record s { receipt_counter = suc s.receipt_counter })

abbrev pub next_response_id : Action OutputStore IdRef
next_response_id s =
    pure (generated_id "resp-generated-" (suc s.response_counter))
      (record s { response_counter = suc s.response_counter })

-- What is spread first into a receipt: the template, or a blank receipt with the next id.
abbrev base_receipt :
    Option ActionReceipt → ReceiptType → IdRef → Timestamp → Action OutputStore ActionReceipt
base_receipt (some template) receipt_type action_ref issued_at = pure template
base_receipt none receipt_type action_ref issued_at = do
  receipt_id ← next_receipt_id
  pure (record {
    receipt_id = receipt_id;
    receipt_type = receipt_type;
    action_ref = action_ref;
    decision_ref = none;
    settlement_ref = none;
    status = ReceiptStatus.final;
    issued_at = issued_at;
    evidence = [];
  })

-- map.delete(key)
unfoldable pub remove : String → Fields → Fields
remove key [] = []
remove key ((k, v) ∷ fields) =
    let rest = remove key fields in elim (k == key) [ Bool.true ↦ rest | false ↦ (k, v) ∷ rest ]

-- An object's field: `undefined` leaves the copy that `clone` makes.
abbrev pub set_field : String → Option String → Fields → Fields
set_field key (some value) fields = insert key value fields
set_field key none fields = remove key fields

abbrev pub approval_evidence : Fields → ApprovalResult → Fields
approval_evidence template result = set_field "comment" result.comment (
    insert "approvalChannel" result.approval_channel (
      insert "approvedBy" result.approved_by (insert "challengeRef" result.challenge_ref template)))

unfoldable pub create_approval_receipt :
    OutputTemplates → IdRef → Option IdRef → ApprovalResult → Action OutputStore ActionReceipt
unfolding remove
create_approval_receipt templates action_ref decision_ref approval_result = do
  base ←
      base_receipt (templates.receipts ReceiptType.approval action_ref) ReceiptType.approval
        action_ref approval_result.decided_at
  let receipt = record base {
    action_ref = action_ref;
    decision_ref = decision_ref or_some base.decision_ref;
    issued_at = approval_result.decided_at;
    evidence = approval_evidence base.evidence approval_result;
  }
  put_receipt receipt
  pure receipt

-- The arguments of `createActionReceipt`.
pub record ReceiptArgs : Type 0 where
  pub receipt_type : ReceiptType
  pub action_ref : IdRef
  pub decision_ref : Option IdRef
  pub settlement_ref : Option IdRef
  pub evidence : Fields
  pub issued_at : Option Timestamp

unfoldable pub create_action_receipt :
    OutputTemplates → Timestamp → ReceiptArgs → Action OutputStore ActionReceipt
create_action_receipt templates now args = do
  base ←
      base_receipt (templates.receipts args.receipt_type args.action_ref) args.receipt_type
        args.action_ref (args.issued_at or_else now)
  let receipt = record base {
    action_ref = args.action_ref;
    decision_ref = args.decision_ref or_some base.decision_ref;
    settlement_ref = args.settlement_ref or_some base.settlement_ref;
    issued_at = args.issued_at or_else base.issued_at;
    evidence = args.evidence;
  }
  put_receipt receipt
  pure receipt

-- The arguments of `createCapabilityResponse`.
pub record ResponseArgs : Type 0 where
  pub capability : String
  pub request_ref : IdRef
  pub action_ref : IdRef
  pub result : AuthorizationResult
  pub decision_ref : Option IdRef
  pub challenge_ref : Option IdRef
  pub settlement_ref : Option IdRef
  pub receipt_ref : Option IdRef
  pub message : Option String

abbrev base_response :
    Option CapabilityResponse → ResponseArgs → Timestamp → Action OutputStore CapabilityResponse
base_response (some template) args now = pure template
base_response none args now = do
  response_id ← next_response_id
  pure (record {
    response_id = response_id;
    capability = args.capability;
    request_ref = args.request_ref;
    action_ref = none;
    result = args.result;
    decision_ref = none;
    challenge_ref = none;
    settlement_ref = none;
    receipt_ref = none;
    message = none;
    responded_at = now;
  })

unfoldable pub create_capability_response :
    OutputTemplates → Timestamp → ResponseArgs → Action OutputStore CapabilityResponse
create_capability_response templates now args = do
  base ← base_response (templates.capability_responses args.capability args.action_ref) args now
  let response = record base {
    capability = args.capability;
    request_ref = args.request_ref;
    action_ref = some args.action_ref;
    result = args.result;
    decision_ref = args.decision_ref;
    challenge_ref = args.challenge_ref;
    settlement_ref = args.settlement_ref;
    receipt_ref = args.receipt_ref;
    message = args.message or_some base.message;
  }
  put_capability_response response
  pure response
