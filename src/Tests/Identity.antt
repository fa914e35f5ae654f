-- ===== src/Tests/Identity.antt =====
-- An active identity with one credential.
use agent_financial_action_l.Types.{Timestamp}
use agent_financial_action_l.Base.{◌≡◌, refl, none, some, [], ◌∷◌, false, true, Option, ℕ}
use agent_financial_action_l.Base.Map.{lookup, insert}
use agent_financial_action_l.Types.Aip.{
  IdentityRecord, CredentialRecord, IdentityStatus, IdentitySubjectType, CredentialLifecycleStatus,
}
use agent_financial_action_l.Aip.{AipStore, verify_credential, freeze_identity, revoke_credential}
use agent_financial_action_l.Aip.Verification.{
  Administers, revoked_never_verifies, frozen_never_verifies,
}

abbrev identity : IdentityRecord
identity = record {
  id = "did:afal:agent:1";
  subject_type = IdentitySubjectType.agent;
  status = IdentityStatus.active;
  controller = [];
  created_at = "t0";
  updated_at = "t0";
  verification_methods = [];
  service_endpoints = none;
  metadata = none;
}

abbrev credential : CredentialRecord
credential = record {
  credential = record {
    id = "cred-1";
    kinds = "OwnershipCredential" ∷ [];
    issuer = "did:afal:owner:1";
    issuance_date = "t0";
    expiration_date = none;
    credential_subject = ("id", "did:afal:agent:1") ∷ [];
    credential_status = none;
  };
  status = CredentialLifecycleStatus.active;
  updated_at = "t0";
  revoked_at = none;
  suspension_reason = none;
}

abbrev store : AipStore
store = record {
  identities = ("did:afal:agent:1", identity) ∷ [];
  credentials = ("cred-1", credential) ∷ [];
}

abbrev parse_time : Timestamp → Option ℕ
parse_time time = some 0

verifies_at_first : verify_credential parse_time 100 "cred-1" store ≡ true
unfolding verify_credential lookup
verifies_at_first = refl

known-store : lookup "cred-1" store.credentials ≡ some credential
unfolding lookup
known-store = refl

identity-store : lookup "did:afal:agent:1" store.identities ≡ some identity
unfolding lookup
identity-store = refl

subject-store : lookup "id" credential.credential.credential_subject ≡ some "did:afal:agent:1"
unfolding lookup
subject-store = refl

known-frozen :
    lookup "cred-1" (freeze_identity "did:afal:agent:1" "t1" store).1.credentials ≡ some credential
unfolding freeze_identity lookup insert
known-frozen = refl

revoked_never_verifies_example :
    verify_credential parse_time 100 "cred-1"
      (freeze_identity "did:afal:agent:1" "t2" (revoke_credential "cred-1" "t1" store).1).1
    ≡ false
revoked_never_verifies_example =
    revoked_never_verifies parse_time 100 "cred-1" "t1" store
      (freeze_identity "did:afal:agent:1" "t2" (revoke_credential "cred-1" "t1" store).1).1
      credential known-store refl (Administers.freezes "did:afal:agent:1" "t2" Administers.start)

frozen_never_verifies_example :
    verify_credential parse_time 100 "cred-1" (freeze_identity "did:afal:agent:1" "t1" store).1
    ≡ false
frozen_never_verifies_example =
    frozen_never_verifies parse_time 100 "did:afal:agent:1" "t1" store
      (freeze_identity "did:afal:agent:1" "t1" store).1 identity "cred-1" credential identity-store
      refl Administers.start known-frozen subject-store
