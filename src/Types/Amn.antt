-- ===== src/Types/Amn.antt =====
-- sdk/types/amn.ts. A `Record<string, unknown>` is a map to texts, which no modelled code looks into.
use agent_financial_action_l.Base.{String, Bool, Option, List}
use agent_financial_action_l.Base.Map.{Map}
use agent_financial_action_l.Types.{Did, IdRef, Timestamp, AuthorizationResult, ChallengeState}

abbrev pub Fields : Type 0
Fields = Map String

pub data MandateType : Type 0 where
  payment resource trade venue_access settlement : MandateType

pub data MandateStatus : Type 0 where
  draft issued active challenged suspended expired revoked : MandateStatus

pub record Mandate : Type 0 where
  pub mandate_id : IdRef
  pub mandate_type : MandateType
  pub issuer : Did
  pub subject : Did
  pub status : MandateStatus
  pub issued_at : Timestamp
  pub expires_at : Option Timestamp
  pub scope : Fields
  pub policy_ref : Option IdRef
  pub challenge_rules : Option Fields
  pub metadata : Option Fields

pub record AuthorizationDecision : Type 0 where
  pub decision_id : IdRef
  pub action_ref : IdRef
  pub action_type : String
  pub subject_did : Did
  pub mandate_ref : IdRef
  pub policy_ref : Option IdRef
  pub account_ref : Option IdRef
  pub result : AuthorizationResult
  pub challenge_state : ChallengeState
  pub reason_code : Option String
  pub evaluated_at : Timestamp
  pub expires_at : Option Timestamp
  pub audit_ref : Option IdRef

pub record ChallengeRecord : Type 0 where
  pub challenge_id : IdRef
  pub action_ref : IdRef
  pub action_type : String
  pub subject_did : Did
  pub mandate_ref : Option IdRef
  pub policy_ref : Option IdRef
  pub state : ChallengeState
  pub reason_code : String
  pub risk_signals : List String
  pub trusted_surface_ref : String
  pub approval_context_ref : Option IdRef
  pub created_at : Timestamp
  pub updated_at : Timestamp
  pub expires_at : Option Timestamp

pub record ApprovalContext : Type 0 where
  pub approval_context_id : IdRef
  pub challenge_ref : IdRef
  pub action_ref : IdRef
  pub action_type : String
  pub headline : String
  pub summary : String
  pub subject_did : Did
  pub human_visible_fields : Fields
  pub created_at : Timestamp

-- The answers that a trusted surface gives.
pub data ApprovalOutcome : Type 0 where
  approved rejected expired cancelled : ApprovalOutcome

pub record ApprovalResult : Type 0 where
  pub approval_result_id : IdRef
  pub challenge_ref : IdRef
  pub action_ref : IdRef
  pub result : ApprovalOutcome
  pub approved_by : Did
  pub approval_channel : String
  pub step_up_auth_used : Bool
  pub comment : Option String
  pub approval_receipt_ref : Option IdRef
  pub decided_at : Timestamp

pub data ApprovalSessionStatus : Type 0 where
  pending approved rejected expired cancelled finalized : ApprovalSessionStatus

pub record ApprovalSession : Type 0 where
  pub approval_session_id : IdRef
  pub action_ref : IdRef
  pub action_type : String
  pub subject_did : Did
  pub mandate_ref : Option IdRef
  pub policy_ref : Option IdRef
  pub prior_decision_ref : IdRef
  pub challenge_ref : IdRef
  pub approval_context_ref : IdRef
  pub approval_result_ref : Option IdRef
  pub final_decision_ref : Option IdRef
  pub trusted_surface_ref : String
  pub status : ApprovalSessionStatus
  pub created_at : Timestamp
  pub updated_at : Timestamp
  pub expires_at : Option Timestamp
