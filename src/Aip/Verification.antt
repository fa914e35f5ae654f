-- ===== src/Aip/Verification.antt =====
-- Revocations and freezes are final for `verifyCredential`.
use agent_financial_action_l.Base.{
  ◌≡◌, refl, true, false, some, none, arith, Option-cases, inl, inr, Option, String, Bool, ℕ,
}
use agent_financial_action_l.Base.Map.{lookup, lookup-insert_self, lookup-insert}
use agent_financial_action_l.Aip.{
  AipStore, verify_credential, freeze_identity, revoke_credential, Did, CredentialLifecycleStatus,
  IdentityStatus, IdRef, Timestamp, CredentialRecord, IdentityRecord, assert_found, revoked_record,
}

-- What the service's administration does over time, whether the calls return or throw.
pub data Administers (s : AipStore) : AipStore → Type 0 where
  start : Administers s s
  freezes :
      {t : AipStore} (did : Did) (at : Timestamp)
      → Administers s t
      → Administers s (freeze_identity did at t).1
  revokes :
      {t : AipStore} (id : IdRef) (at : Timestamp)
      → Administers s t
      → Administers s (revoke_credential id at t).1

is_revoked : CredentialLifecycleStatus → Bool
is_revoked CredentialLifecycleStatus.revoked = true
is_revoked _ = false

is_frozen : IdentityStatus → Bool
is_frozen IdentityStatus.frozen = true
is_frozen _ = false

-- The record that a reference names, if any, has been revoked.
abbrev credential_revoked : Option CredentialRecord → Bool
credential_revoked none = false
credential_revoked (some r) = is_revoked r.status

abbrev identity_frozen : Option IdentityRecord → Bool
identity_frozen none = false
identity_frozen (some i) = is_frozen i.status

revoke-keeps :
    (id at key : String) (t : AipStore)
    → credential_revoked (lookup key t.credentials) ≡ true
    → credential_revoked (lookup key (revoke_credential id at t).1.credentials) ≡ true
unfolding revoke_credential is_revoked
revoke-keeps id at key t h = elim (Option-cases (lookup id t.credentials)) [
  | inl missing ↦ rw (missing, assert_found) h
  | inr (r, found) ↦
      rw (found, assert_found)
        (ground (arith, lookup-insert r.credential.id key (revoked_record r at) t.credentials))
]

freeze-keeps :
    (did at key : String) (t : AipStore)
    → identity_frozen (lookup key t.identities) ≡ true
    → identity_frozen (lookup key (freeze_identity did at t).1.identities) ≡ true
unfolding freeze_identity is_frozen
freeze-keeps did at key t h = elim (Option-cases (lookup did t.identities)) [
  | inl missing ↦ rw (missing, assert_found) h
  | inr (i, found) ↦
      rw (found, assert_found)
        (ground (
          arith,
          lookup-insert i.id key (record i { status = IdentityStatus.frozen; updated_at = at })
              t.identities,
        ))
]

freeze-credentials :
    (did at : String) (t : AipStore) → (freeze_identity did at t).1.credentials ≡ t.credentials
unfolding freeze_identity
freeze-credentials did at t = ground arith

revoke-identities :
    (id at : String) (t : AipStore) → (revoke_credential id at t).1.identities ≡ t.identities
unfolding revoke_credential
revoke-identities id at t = ground arith

stays_revoked :
    (key : IdRef) (s t : AipStore)
    → credential_revoked (lookup key s.credentials) ≡ true
    → Administers s t
    → credential_revoked (lookup key t.credentials) ≡ true
stays_revoked key s t h start = h
stays_revoked key s t h (freezes {t = u} did at acts) =
    rw freeze-credentials (stays_revoked key s u h acts)
stays_revoked key s t h (revokes {t = u} id at acts) =
    revoke-keeps id at key u (stays_revoked key s u h acts)

stays_frozen :
    (key : Did) (s t : AipStore)
    → identity_frozen (lookup key s.identities) ≡ true
    → Administers s t
    → identity_frozen (lookup key t.identities) ≡ true
stays_frozen key s t h start = h
stays_frozen key s t h (freezes {t = u} did at acts) =
    freeze-keeps did at key u (stays_frozen key s u h acts)
stays_frozen key s t h (revokes {t = u} id at acts) =
    rw revoke-identities (stays_frozen key s u h acts)

module _ (parse_time : Timestamp → Option ℕ) (now : ℕ) where
  revoked_fails :
      (id : IdRef) (t : AipStore)
      → credential_revoked (lookup id t.credentials) ≡ true
      → verify_credential parse_time now id t ≡ false
  unfolding verify_credential is_revoked
  revoked_fails id t h = ground arith

  frozen_fails :
      (id : IdRef) (t : AipStore) (r : CredentialRecord) (did : Did)
      → lookup id t.credentials ≡ some r
      → lookup "id" r.credential.credential_subject ≡ some did
      → identity_frozen (lookup did t.identities) ≡ true
      → verify_credential parse_time now id t ≡ false
  unfolding verify_credential is_frozen
  frozen_fails id t r did found subject h = rw (found, subject) (ground arith)

  -- A credential that was revoked never verifies again, at any time and whatever identities and
  -- credentials are frozen or revoked later. It stood under its own id.
  pub revoked_never_verifies :
      (id : IdRef) (at : Timestamp) (s t : AipStore) (r : CredentialRecord)
      → lookup id s.credentials ≡ some r
      → r.credential.id ≡ id
      → Administers (revoke_credential id at s).1 t
      → verify_credential parse_time now id t ≡ false
  unfolding revoke_credential is_revoked
  revoked_never_verifies id at s t r found keyed acts = revoked_fails id t (
      stays_revoked id (revoke_credential id at s).1 t
        (rw (found, assert_found, keyed, lookup-insert_self) refl) acts)

  -- Once an identity was frozen, no credential about it verifies, at any time and whatever identities
  -- and credentials are frozen or revoked later. The identity stood under its own DID.
  pub frozen_never_verifies :
      (did : Did) (at : Timestamp) (s t : AipStore) (i : IdentityRecord) (id : IdRef)
      (r : CredentialRecord)
      → lookup did s.identities ≡ some i
      → i.id ≡ did
      → Administers (freeze_identity did at s).1 t
      → lookup id t.credentials ≡ some r
      → lookup "id" r.credential.credential_subject ≡ some did
      → verify_credential parse_time now id t ≡ false
  unfolding freeze_identity is_frozen
  frozen_never_verifies did at s t i id r found keyed acts known subject =
      frozen_fails id t r did known subject (
        stays_frozen did (freeze_identity did at s).1 t
          (rw (found, assert_found, keyed, lookup-insert_self) refl) acts)
