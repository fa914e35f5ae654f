-- ===== src/Types.antt =====
-- sdk/types/common.ts. A field whose type is one literal, such as `schemaVersion: "0.1"`, holds no
-- information and is left out of the records below. An optional field is an `Option`.
pub mod Ats
pub mod Amn
pub mod Aip
pub mod Afal
use agent_financial_action_l.Base.{String}

abbrev pub Did : Type 0
Did = String

abbrev pub IdRef : Type 0
IdRef = String

abbrev pub Timestamp : Type 0
Timestamp = String

pub data AuthorizationResult : Type 0 where
  approved rejected challenge_required pending_approval suspended expired : AuthorizationResult

pub data ChallengeState : Type 0 where
  not_required required pending_approval approved rejected expired cancelled : ChallengeState

pub data CommonActionStatus : Type 0 where
  created evaluating challenge_required pending_approval approved rejected executing executed :
      CommonActionStatus
  settled failed expired cancelled : CommonActionStatus
