-- ===== src/Types/Ats.antt =====
-- sdk/types/ats.ts
use agent_financial_action_l.Base.{String, Bool, Option}
use agent_financial_action_l.Base.Int.{ℤ}
use agent_financial_action_l.Money.{DecimalString}
use agent_financial_action_l.Types.{Did, IdRef, Timestamp}

pub data AccountType : Type 0 where
  treasury operating settlement : AccountType

pub data AccountStatus : Type 0 where
  proposed pending_funding active restricted frozen closed revoked : AccountStatus

pub record FreezeState : Type 0 where
  pub is_frozen : Bool
  pub reason_code : Option String
  pub frozen_by : Option Did
  pub frozen_at : Option Timestamp
  pub review_ref : Option IdRef

pub record SmartAccount : Type 0 where
  pub standard : String
  pub factory_ref : IdRef

pub record AccountRecord : Type 0 where
  pub account_id : IdRef
  pub account_type : AccountType
  pub status : AccountStatus
  pub owner_did : Option Did
  pub institution_did : Option Did
  pub agent_did : Option Did
  pub parent_account_ref : Option IdRef
  pub chain : Option String
  pub settlement_asset : Option String
  pub account_address : Option String
  pub smart_account : Option SmartAccount
  pub freeze_state : Option FreezeState
  pub created_at : Timestamp
  pub updated_at : Timestamp

-- The status of budgets and quotas.
pub data BudgetStatus : Type 0 where
  active restricted exhausted revoked : BudgetStatus

pub record MonetaryBudget : Type 0 where
  pub budget_id : IdRef
  pub subject_did : Did
  pub account_ref : IdRef
  pub asset : String
  pub period : String
  pub limit_amount : DecimalString
  pub consumed_amount : DecimalString
  pub reserved_amount : Option DecimalString
  pub available_amount : DecimalString
  pub status : BudgetStatus
  pub created_at : Timestamp
  pub updated_at : Timestamp

-- Quantities are whole numbers.
pub record ResourceBudget : Type 0 where
  pub budget_id : IdRef
  pub subject_did : Did
  pub account_ref : IdRef
  pub resource_class : String
  pub resource_unit : String
  pub period : String
  pub limit_quantity : ℤ
  pub consumed_quantity : ℤ
  pub reserved_quantity : Option ℤ
  pub available_quantity : ℤ
  pub max_spend_amount : Option DecimalString
  pub pricing_asset : Option String
  pub status : BudgetStatus
  pub created_at : Timestamp
  pub updated_at : Timestamp

pub record ResourceQuota : Type 0 where
  pub quota_id : IdRef
  pub subject_did : Did
  pub provider_id : String
  pub provider_did : Did
  pub resource_class : String
  pub resource_unit : String
  pub period : String
  pub max_quantity : ℤ
  pub used_quantity : ℤ
  pub reserved_quantity : Option ℤ
  pub status : BudgetStatus
  pub created_at : Timestamp
  pub updated_at : Timestamp

pub data ReservationStatus : Type 0 where
  reserved settled released : ReservationStatus

pub record MonetaryReservation : Type 0 where
  pub reservation_id : IdRef
  pub budget_ref : IdRef
  pub account_ref : IdRef
  pub action_ref : IdRef
  pub amount : DecimalString
  pub status : ReservationStatus
  pub created_at : Timestamp
  pub updated_at : Timestamp
  pub settled_at : Option Timestamp
  pub released_at : Option Timestamp
  pub release_reason_code : Option String

pub record ResourceReservation : Type 0 where
  pub reservation_id : IdRef
  pub budget_ref : IdRef
  pub quota_ref : IdRef
  pub account_ref : IdRef
  pub action_ref : IdRef
  pub quantity : ℤ
  pub status : ReservationStatus
  pub created_at : Timestamp
  pub updated_at : Timestamp
  pub settled_at : Option Timestamp
  pub released_at : Option Timestamp
  pub release_reason_code : Option String

-- `reservation.status === "reserved"`
abbrev pub is_reserved : ReservationStatus → Bool
is_reserved reserved = Bool.true
is_reserved _ = Bool.false
