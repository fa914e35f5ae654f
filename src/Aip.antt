-- ===== src/Aip.antt =====
-- backend/aip/store.ts (`InMemoryAipStore`) and backend/aip/service.ts (`InMemoryAipService`).
-- `Date.parse` is the argument `parse_time`, `none` where it is not a number.
pub mod Verification
use agent_financial_action_l.Types.{Did, IdRef, Timestamp}
use agent_financial_action_l.Types.Aip.{
  IdentityRecord, CredentialRecord, IdentityStatus, CredentialLifecycleStatus,
  CredentialStatusEntry, CredentialEnvelope,
}
use agent_financial_action_l.Base.Map.{Map, insert, lookup}
use Prim.Native.String.{◌++◌}
use agent_financial_action_l.Base.Action.{
  Action, ◌>>=◌, ◌>>◌, modify, assert_found, pure, gets, unknown_did, unknown_credential,
}
use agent_financial_action_l.Base.{
  String, Option, none, some, ◌or_else◌, ℕ, Bool, if◌then◌else◌, false, true, ◌==◌, leb, not, ◌||◌,
}

pub record AipStore : Type 0 where
  pub identities : Map IdentityRecord
  pub credentials : Map CredentialRecord

abbrev pub put_identity : IdentityRecord → Action AipStore (Unit {0})
put_identity i = modify (λ s. record s { identities = insert i.id i s.identities })

abbrev pub put_credential : CredentialRecord → Action AipStore (Unit {0})
put_credential c = modify (λ s. record s { credentials = insert c.credential.id c s.credentials })

abbrev pub resolve_identity : Did → Action AipStore IdentityRecord
resolve_identity did = do assert_found (← gets (λ s. lookup did s.identities)) (unknown_did did)

abbrev pub get_credential : IdRef → Action AipStore CredentialRecord
get_credential id = do assert_found (← gets (λ s. lookup id s.credentials)) (unknown_credential id)

abbrev past : ℕ → Option ℕ → Bool
past now none = false
past now (some time) = leb time now

-- Boolean(credential.expirationDate && Date.parse(credential.expirationDate) <= now.getTime())
abbrev pub is_credential_expired : (Timestamp → Option ℕ) → ℕ → Option Timestamp → Bool
is_credential_expired parse_time now none = false
is_credential_expired parse_time now (some date) =
    if date == "" then false else past now (parse_time date)

abbrev pub is_identity_usable : IdentityStatus → Bool
is_identity_usable IdentityStatus.frozen = false
is_identity_usable IdentityStatus.revoked = false
is_identity_usable IdentityStatus.retired = false
is_identity_usable _ = true

-- The record's own status lets it be verified: it is not revoked, suspended or expired.
abbrev pub is_current : CredentialLifecycleStatus → Bool
is_current CredentialLifecycleStatus.active = true
is_current _ = false

abbrev identity_of : AipStore → Option Did → Option IdentityRecord
identity_of s none = none
identity_of s (some did) = if did == "" then none else lookup did s.identities

abbrev is_usable : Option IdentityRecord → Bool
is_usable none = false
is_usable (some identity) = is_identity_usable identity.status

abbrev verify_record : (Timestamp → Option ℕ) → ℕ → AipStore → Option CredentialRecord → Bool
verify_record parse_time now s none = false
verify_record parse_time now s (some r) =
    if not (is_current r.status)
      || is_credential_expired parse_time now r.credential.expiration_date
    then false
    else is_usable (identity_of s (lookup "id" r.credential.credential_subject))

unfoldable pub verify_credential : (Timestamp → Option ℕ) → ℕ → IdRef → AipStore → Bool
verify_credential parse_time now id s = verify_record parse_time now s (lookup id s.credentials)

unfoldable pub freeze_identity : Did → Timestamp → Action AipStore IdentityRecord
freeze_identity did updated_at = do
  identity ← resolve_identity did
  let updated = record identity { status = IdentityStatus.frozen; updated_at = updated_at }
  put_identity updated
  pure updated

-- `credentialStatus?.id` and `credentialStatus?.type`.
abbrev entry_id : Option CredentialStatusEntry → Option IdRef
entry_id none = none
entry_id (some e) = some e.id

abbrev entry_kind : Option CredentialStatusEntry → Option String
entry_kind none = none
entry_kind (some e) = some e.kind

abbrev pub revoked_record : CredentialRecord → Timestamp → CredentialRecord
revoked_record r revoked_at = record r {
  status = CredentialLifecycleStatus.revoked;
  updated_at = revoked_at;
  revoked_at = some revoked_at;
  credential = record (r.credential) {
    credential_status = some (record {
      id = entry_id r.credential.credential_status or_else (r.credential.id ++ "#status");
      kind = entry_kind r.credential.credential_status or_else "StatusList2021Entry";
      status = CredentialLifecycleStatus.revoked;
    });
  };
}

unfoldable pub revoke_credential : IdRef → Timestamp → Action AipStore CredentialRecord
revoke_credential id revoked_at = do
  r ← get_credential id
  let updated = revoked_record r revoked_at
  put_credential updated
  pure updated

abbrev pub create_credential_record :
    CredentialEnvelope → Option CredentialLifecycleStatus → Option Timestamp → CredentialRecord
create_credential_record credential status updated_at = record {
  credential = credential;
  status = status or_else CredentialLifecycleStatus.active;
  updated_at = updated_at or_else credential.issuance_date;
  revoked_at = none;
  suspension_reason = none;
}
