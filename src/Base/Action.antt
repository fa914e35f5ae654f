-- ===== src/Base/Action.antt =====
-- A method of a service: it reads and writes the state `S`, and returns or throws. What was written
-- before a throw stays written. The errors are the messages that the sources throw.
use Prim.Native.String.{String}
use mathlib.Core.Path.{◌≡◌, refl}
use mathlib.Core.Logic.{◌⊎◌, inl, inr}
use mathlib.Core.Bool.{Bool, cond}
use mathlib.Core.Option.{Option, none, some}

pub data Error : Type 0 where
  unknown_account unknown_monetary_budget unknown_resource_budget unknown_resource_quota :
      String → Error
  unknown_monetary_reservation unknown_resource_reservation : String → Error
  monetary_reservation_not_active resource_reservation_not_active : String → Error
  monetary_budget_exceeded resource_budget_exceeded resource_quota_exceeded : String → Error
  unknown_mandate unknown_decision unknown_challenge unknown_approval_context : String → Error
  unknown_approval_result unknown_approval_session : String → Error
  unknown_action_for_evaluation unknown_action_for_challenge : String → Error
  unknown_action_for_context unknown_action_for_finalization : String → Error
  no_approval_result : String → Error
  unknown_did unknown_credential : String → Error
  unknown_payment_intent unknown_resource_intent unknown_pending_execution : String → Error
  unknown_client inactive_client scope_violation replay_detected : String → Error
  missing_auth_metadata bad_timestamp stale_timestamp bad_signature : Error
  callback_url_missing event_types_empty payment_url_required resource_url_required : Error
  not_payment_receiver not_resource_receiver : String → Error
  unknown_notification no_callback_target : String → Error
  outbox_not_configured worker_not_configured audit_not_configured : Error
  unknown_admin_audit : String → Error
  callback_failed : String → Error
  unknown_receipt unknown_response unknown_settlement unknown_usage_receipt : String → Error
  unknown_pending_session unknown_action : String → Error
  unsupported_payment_intent unsupported_resource_intent : String → Error
  credential_not_verified : (label id : String) → Error
  approval_not_required payment_not_approved resource_not_approved : (result : String) → Error
  receipt_not_found : (receipt intent : String) → Error
  no_payment_template no_usage_template no_settlement_template : String → Error
  adapter_failed : String → Error

pub data Result {ℓ} (A : Type ℓ) : Type ℓ where
  ok : A → Result A
  err : Error → Result A

-- A call has thrown or returned.
pub Result-cases {ℓ} :
    {A : Type ℓ} (p : Result A)
    → ((back : A) × (p ≡ ok back)) ⊎ ((thrown : Error) × (p ≡ err thrown))
Result-cases (err thrown) = inr (thrown, refl)
Result-cases (ok back) = inl (back, refl)

abbrev pub Action : Type 0 → Type 0 → Type 0
Action S A = S → Result A × S

module _ {S A : Type 0} where
  abbrev pub pure : A → Action S A
  pure a s = (ok a, s)

  abbrev pub throw : Error → Action S A
  throw e s = (err e, s)

  abbrev pub gets : (S → A) → Action S A
  gets f s = (ok (f s), s)

  -- assertFound(value, message)
  abbrev pub assert_found : Option A → Error → Action S A
  assert_found none e = throw e
  assert_found (some a) e = pure a

module _ {S : Type 0} where
  abbrev pub modify : (S → S) → Action S (Unit {0})
  modify f s = (ok tt, f s)

  abbrev pub throw_if : Bool → Error → Action S (Unit {0})
  throw_if b e s = (cond b (err e) (ok tt), s)

-- The rest of a block runs on the value that was returned, or not at all.
abbrev pub proceed : {S A B : Type 0} → Result A → S → (A → Action S B) → Result B × S
proceed (ok a) s f = f a s
proceed (err e) s f = (err e, s)

infixl 5 ◌>>=◌ ◌>>◌
abbrev pub ◌>>=◌ : {S A B : Type 0} → Action S A → (A → Action S B) → Action S B
◌>>=◌ m f s = let (r, s') = m s in proceed r s' f

abbrev pub ◌>>◌ : {S A B : Type 0} → Action S A → Action S B → Action S B
m >> k = m >>= λ _. k

-- A call that throws has written nothing.
abbrev pub IsAtomic : {S A : Type 0} → S → Result A × S → Type 0
IsAtomic s (ok a, s') = Unit
IsAtomic s (err e, s') = s' ≡ s

pub IsAtomic-intro :
    {S A : Type 0} (s : S) (p : Result A × S) → ((e : Error) → p.0 ≡ err e → p.1 ≡ s) → IsAtomic s p
IsAtomic-intro s (ok a, s') h = tt
IsAtomic-intro s (err e, s') h = h e refl
