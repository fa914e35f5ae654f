-- ===== src/Types/Aip.antt =====
-- sdk/types/aip.ts. The subject of a credential is a map to texts, of which the service reads `id`.
use agent_financial_action_l.Base.{String, Option, List}
use agent_financial_action_l.Base.Map.{Map}
use agent_financial_action_l.Types.{Did, IdRef, Timestamp}

pub data IdentitySubjectType : Type 0 where
  owner institution agent : IdentitySubjectType

pub data IdentityStatus : Type 0 where
  proposed created active restricted frozen revoked retired : IdentityStatus

pub record VerificationMethod : Type 0 where
  pub id : String
  pub kind : String
  pub public_key_multibase : String

pub record ServiceEndpoint : Type 0 where
  pub id : String
  pub kind : String
  pub service_endpoint : String

pub record IdentityRecord : Type 0 where
  pub id : Did
  pub subject_type : IdentitySubjectType
  pub status : IdentityStatus
  pub controller : List Did
  pub created_at : Timestamp
  pub updated_at : Timestamp
  pub verification_methods : List VerificationMethod
  pub service_endpoints : Option (List ServiceEndpoint)
  pub metadata : Option (Map String)

pub data CredentialLifecycleStatus : Type 0 where
  active suspended expired revoked : CredentialLifecycleStatus

pub record CredentialStatusEntry : Type 0 where
  pub id : IdRef
  pub kind : String
  pub status : CredentialLifecycleStatus

pub record CredentialEnvelope : Type 0 where
  pub id : IdRef
  pub kinds : List String
  pub issuer : Did
  pub issuance_date : Timestamp
  pub expiration_date : Option Timestamp
  pub credential_subject : Map String
  pub credential_status : Option CredentialStatusEntry

pub record CredentialRecord : Type 0 where
  pub credential : CredentialEnvelope
  pub status : CredentialLifecycleStatus
  pub updated_at : Timestamp
  pub revoked_at : Option Timestamp
  pub suspension_reason : Option String
