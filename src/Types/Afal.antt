-- ===== src/Types/Afal.antt =====
-- sdk/types/afal.ts, the references of sdk/types/common.ts, and the records that the AFAL services
-- exchange (backend/afal/interfaces.ts and backend/afal/state/interfaces.ts).
use agent_financial_action_l.Base.{String, Option}
use agent_financial_action_l.Base.Int.{ℤ}
use agent_financial_action_l.Money.{DecimalString}
use agent_financial_action_l.Types.{
  Did, IdRef, Timestamp, AuthorizationResult, ChallengeState, CommonActionStatus,
}
use agent_financial_action_l.Types.Amn.{Fields}

pub record AgentActorRef : Type 0 where
  pub agent_did : Did
  pub account_id : IdRef

pub record CounterpartyRef : Type 0 where
  pub payee_did : Did
  pub settlement_address : Option String

pub record ProviderRef : Type 0 where
  pub provider_id : String
  pub provider_did : Did

pub data ExecutionMode : Type 0 where
  human_in_the_loop pre_authorized fully_agent_native : ExecutionMode

pub record Purpose : Type 0 where
  pub category : String
  pub description : String
  pub reference_id : Option IdRef

pub record PaymentIntent : Type 0 where
  pub intent_id : IdRef
  pub payer : AgentActorRef
  pub payee : CounterpartyRef
  pub asset : String
  pub amount : DecimalString
  pub chain : String
  pub purpose : Purpose
  pub mandate_ref : IdRef
  pub policy_ref : Option IdRef
  pub execution_mode : ExecutionMode
  pub challenge_state : ChallengeState
  pub status : CommonActionStatus
  pub expires_at : Option Timestamp
  pub nonce : String
  pub created_at : Timestamp
  pub decision_ref : Option IdRef
  pub challenge_ref : Option IdRef
  pub settlement_ref : Option IdRef
  pub receipt_ref : Option IdRef

pub record Resource : Type 0 where
  pub resource_class : String
  pub resource_unit : String
  pub quantity : ℤ

pub record Pricing : Type 0 where
  pub max_spend : DecimalString
  pub asset : String

pub record ResourceIntent : Type 0 where
  pub intent_id : IdRef
  pub requester : AgentActorRef
  pub provider : ProviderRef
  pub resource : Resource
  pub pricing : Pricing
  pub budget_source : IdRef
  pub mandate_ref : IdRef
  pub policy_ref : Option IdRef
  pub execution_mode : ExecutionMode
  pub challenge_state : ChallengeState
  pub status : CommonActionStatus
  pub expires_at : Option Timestamp
  pub nonce : String
  pub created_at : Timestamp
  pub decision_ref : Option IdRef
  pub challenge_ref : Option IdRef
  pub settlement_ref : Option IdRef
  pub usage_receipt_ref : Option IdRef

pub data SettlementType : Type 0 where
  onchain_transfer provider_settlement internal_ledger : SettlementType

pub data SettlementStatus : Type 0 where
  pending executing settled failed reversed : SettlementStatus

-- CounterpartyRef | ProviderRef
pub data Destination : Type 0 where
  counterparty : CounterpartyRef → Destination
  provider : ProviderRef → Destination

pub record SettlementRecord : Type 0 where
  pub settlement_id : IdRef
  pub settlement_type : SettlementType
  pub action_ref : IdRef
  pub decision_ref : Option IdRef
  pub source_account_ref : IdRef
  pub destination : Destination
  pub asset : String
  pub amount : DecimalString
  pub chain : Option String
  pub tx_hash : Option String
  pub status : SettlementStatus
  pub executed_at : Option Timestamp
  pub settled_at : Option Timestamp

pub data ReceiptType : Type 0 where
  payment resource approval : ReceiptType

pub data ReceiptStatus : Type 0 where
  provisional final void : ReceiptStatus

pub record ActionReceipt : Type 0 where
  pub receipt_id : IdRef
  pub receipt_type : ReceiptType
  pub action_ref : IdRef
  pub decision_ref : Option IdRef
  pub settlement_ref : Option IdRef
  pub status : ReceiptStatus
  pub issued_at : Timestamp
  pub evidence : Fields

-- A reference that is null is `none`, like one that is absent.
pub record CapabilityResponse : Type 0 where
  pub response_id : IdRef
  pub capability : String
  pub request_ref : IdRef
  pub action_ref : Option IdRef
  pub result : AuthorizationResult
  pub decision_ref : Option IdRef
  pub challenge_ref : Option IdRef
  pub settlement_ref : Option IdRef
  pub receipt_ref : Option IdRef
  pub message : Option String
  pub responded_at : Timestamp

pub record ProviderUsageConfirmation : Type 0 where
  pub usage_receipt_ref : IdRef
  pub provider_id : String
  pub provider_did : Did
  pub resource_class : String
  pub resource_unit : String
  pub quantity : ℤ
  pub workflow_id : Option IdRef
  pub task_class : Option String
  pub confirmed_at : Timestamp

pub data PendingApprovalExecutionStatus : Type 0 where
  pending resumed released failed : PendingApprovalExecutionStatus

pub data ActionType : Type 0 where
  payment resource : ActionType

pub record PendingApprovalExecution : Type 0 where
  pub approval_session_ref : IdRef
  pub action_ref : IdRef
  pub action_type : ActionType
  pub request_ref : IdRef
  pub reservation_ref : Option IdRef
  pub monetary_budget_ref : Option IdRef
  pub resource_budget_ref : Option IdRef
  pub resource_quota_ref : Option IdRef
  pub status : PendingApprovalExecutionStatus
  pub created_at : Timestamp
  pub updated_at : Timestamp
  pub final_decision_ref : Option IdRef
  pub settlement_ref : Option IdRef
  pub receipt_ref : Option IdRef
  pub usage_receipt_ref : Option IdRef
