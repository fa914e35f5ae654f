-- ===== src/Runtime/Authorized.antt =====
-- Money and resources move only with an approved decision.
use agent_financial_action_l.Amn.{get_approval_session, resume_authorization_session}
use agent_financial_action_l.Runtime.Paying.{resume_approved_action-Keeps}
use agent_financial_action_l.Orchestrator.Paying.{
  execute_payment_flow-Keeps, execute_resource_flow-Keeps,
}
use agent_financial_action_l.Runtime.Approval.{resume_approval_session, read_approval_session}
use agent_financial_action_l.Base.Action.{assert_found}
use agent_financial_action_l.Base.Map.{lookup}
use agent_financial_action_l.Runtime.Administering.{
  read_delivery-Keeps, redeliver_one-Keeps, read_deliveries-Keeps, worker_status-Keeps, start-Keeps,
  stop-Keeps, run-Keeps, audit_entry-Keeps, audit_entries-Keeps,
}
use agent_financial_action_l.Runtime.Command.{mapped, Command, invoke}
use agent_financial_action_l.Orchestrator.{TrustedSurface}
use agent_financial_action_l.Runtime.Resume.{is_result_approved}
use agent_financial_action_l.Runtime.Status.{
  build_payment_action_status, build_resource_action_status, get_action_status, read_if,
  known_or_none, resource_status_or_throw, status_or_resource,
}
use agent_financial_action_l.Types.Amn.{AuthorizationDecision}
use agent_financial_action_l.Types.Afal.{PaymentIntent, ResourceIntent, ProviderUsageConfirmation}
use agent_financial_action_l.Runtime.{AfalState, Environment, IdRef, Action, on_settlement}
use agent_financial_action_l.Settlement.{
  Call, confirm_usage_call, execute_payment_call, settle_usage_call, get_usage_confirmation,
}
use agent_financial_action_l.Base.{
  List, [], ◌∷◌, ◌≡◌, refl, true, Bool, ◌&&◌, Option, none, some, inl, inr, Option-cases,
}
use agent_financial_action_l.Runtime.Calls.{
  Keeps, quiet, bind-Keeps, pure-Keeps, catching-Keeps, throw-Keeps, on_intents-Keeps, if-Keeps,
  on_amn-Keeps,
}
use agent_financial_action_l.Runtime.{is_unknown_intent_error}
use agent_financial_action_l.Runtime.Command.{approval_session, resumed_session}
use agent_financial_action_l.Runtime.Quiet.{
  quiet_parts, request_payment_approval-Keeps, request_resource_approval-Keeps, apply_result-Keeps,
}

-- The decision of a call that moves money or resources is an approval.
unfoldable pub is_authorized : Call → Bool
is_authorized (execute_payment_call intent decision) = is_result_approved decision.result
is_authorized (confirm_usage_call intent) = true
is_authorized (settle_usage_call intent decision usage) = is_result_approved decision.result

unfoldable pub all_authorized : List Call → Bool
all_authorized [] = true
all_authorized (call ∷ calls) = is_authorized call && all_authorized calls

abbrev pub AreAuthorized : List Call → Type 0
AreAuthorized calls = all_authorized calls ≡ true

-- The states that a service reaches from `s` by commands, whether they return or throw; the clock,
-- the adapters and the trusted surface may change in between.
pub data Serves (s : AfalState) : AfalState → Type 0 where
  start : Serves s s
  serves :
      {t : AfalState} (env : Environment) (surface : TrustedSurface) (command : Command)
      → Serves s t
      → Serves s (invoke env surface command t).1

pays :
    (intent : PaymentIntent) (decision : AuthorizationDecision) (calls : List Call)
    → is_result_approved decision.result ≡ true
    → AreAuthorized calls
    → AreAuthorized (execute_payment_call intent decision ∷ calls)
unfolding all_authorized is_authorized
pays intent decision calls approved h = rw (approved, h) refl

confirms :
    (intent : ResourceIntent) (calls : List Call)
    → AreAuthorized calls
    → AreAuthorized (confirm_usage_call intent ∷ calls)
unfolding all_authorized is_authorized
confirms intent calls h = h

settles :
    (intent : ResourceIntent) (decision : AuthorizationDecision) (usage : ProviderUsageConfirmation)
    (calls : List Call)
    → is_result_approved decision.result ≡ true
    → AreAuthorized calls
    → AreAuthorized (settle_usage_call intent decision usage ∷ calls)
unfolding all_authorized is_authorized
settles intent decision usage calls approved h = rw (approved, h) refl

module _ {P : List Call → Type 0} where
  read_if-Keeps :
      {A : Type 0} (o : Option IdRef) (get : IdRef → Action AfalState A)
      → ((ref : IdRef) → Keeps P (get ref))
      → Keeps P (read_if o get)
  read_if-Keeps none get h = pure-Keeps _
  read_if-Keeps (some ref) get h = search quiet depth 20

  get_usage_confirmation-Keeps :
      (ref : IdRef) → Keeps P (on_settlement (get_usage_confirmation ref))
  get_usage_confirmation-Keeps ref = record {
    keep = λ s h. elim (Option-cases (lookup ref s.settlement.usage_confirmations)) [
      | inl missing ↦ rw (missing, assert_found) h
      | inr (r, found) ↦ rw (found, assert_found) h
    ];
  }

  build_payment-Keeps :
      (env : Environment) (intent : PaymentIntent)
      → Keeps P (build_payment_action_status env intent)
  unfolding build_payment_action_status
  build_payment-Keeps env intent = search (quiet_parts, read_if-Keeps) depth 40 fits 3000

  build_resource-Keeps :
      (env : Environment) (intent : ResourceIntent)
      → Keeps P (build_resource_action_status env intent)
  unfolding build_resource_action_status
  build_resource-Keeps env intent =
      search (quiet_parts, read_if-Keeps, get_usage_confirmation-Keeps) depth 40 fits 3000

  known_or_none-Keeps :
      {A : Type 0} (get : Action AfalState A) → Keeps P get → Keeps P (known_or_none get)
  known_or_none-Keeps get h =
      catching-Keeps (bind-Keeps h (λ a. pure-Keeps _))
        (λ e. if-Keeps (is_unknown_intent_error e) (λ _. pure-Keeps _) (λ _. throw-Keeps e))

  resource_status-Keeps :
      (env : Environment) (ref : IdRef) (o : Option ResourceIntent)
      → Keeps P (resource_status_or_throw env ref o)
  resource_status-Keeps env ref none = throw-Keeps _
  resource_status-Keeps env ref (some intent) = build_resource-Keeps env intent

  status_or_resource-Keeps :
      (env : Environment) (ref : IdRef) (o : Option PaymentIntent)
      → Keeps P (status_or_resource env ref o)
  status_or_resource-Keeps env ref none =
      bind-Keeps (known_or_none-Keeps _ (on_intents-Keeps _)) (resource_status-Keeps env ref)
  status_or_resource-Keeps env ref (some intent) = build_payment-Keeps env intent

  get_action_status-Keeps : (env : Environment) (ref : IdRef) → Keeps P (get_action_status env ref)
  unfolding get_action_status
  get_action_status-Keeps env ref =
      bind-Keeps (known_or_none-Keeps _ (on_intents-Keeps _)) (status_or_resource-Keeps env ref)

  mapped-Keeps :
      {A B : Type 0} (f : A → B) (m : Action AfalState A) → Keeps P m → Keeps P (mapped f m)
  mapped-Keeps f m h = bind-Keeps h (λ a. pure-Keeps _)

  -- Every command keeps what calls with approved decisions keep.
  pub invoke-Keeps :
      (env : Environment) (surface : TrustedSurface)
      → ((intent : PaymentIntent) (decision : AuthorizationDecision) (calls : List Call)
          → is_result_approved decision.result ≡ true
          → P calls
          → P (execute_payment_call intent decision ∷ calls))
      → ((intent : ResourceIntent) (calls : List Call)
          → P calls
          → P (confirm_usage_call intent ∷ calls))
      → ((intent : ResourceIntent) (decision : AuthorizationDecision)
            (usage : ProviderUsageConfirmation) (calls : List Call)
          → is_result_approved decision.result ≡ true
          → P calls
          → P (settle_usage_call intent decision usage ∷ calls))
      → (command : Command) → Keeps P (invoke env surface command)
  unfolding invoke resume_approval_session
  invoke-Keeps env surface p c s
        (Command.request_payment_approval_of request_ref input budget_ref) =
      mapped-Keeps _ _ (request_payment_approval-Keeps env request_ref input budget_ref)
  invoke-Keeps env surface p c s (Command.execute_payment_of request_ref input budget_ref) =
      mapped-Keeps _ _ (execute_payment_flow-Keeps env p c s surface request_ref input budget_ref)
  invoke-Keeps env surface p c s
        (Command.request_resource_approval_of request_ref input budget_ref quota_ref) =
      mapped-Keeps _ _ (request_resource_approval-Keeps env request_ref input budget_ref quota_ref)
  invoke-Keeps env surface p c s
        (Command.settle_resource_usage_of request_ref input budget_ref quota_ref) =
      mapped-Keeps _ _
        (execute_resource_flow-Keeps env p c s surface request_ref input budget_ref quota_ref)
  invoke-Keeps env surface p c s (Command.get_action_status_of ref) =
      mapped-Keeps _ _ (get_action_status-Keeps env ref)
  invoke-Keeps env surface p c s (Command.get_approval_session_of ref) =
      mapped-Keeps approval_session (read_approval_session ref)
        (on_amn-Keeps (get_approval_session ref))
  invoke-Keeps env surface p c s (Command.resume_approval_session_of ref) =
      mapped-Keeps resumed_session (resume_approval_session env ref)
        (on_amn-Keeps (resume_authorization_session env.amn_templates ref))
  invoke-Keeps env surface p c s (Command.resume_approved_action_of ref) =
      mapped-Keeps _ _ (resume_approved_action-Keeps env p c s ref)
  invoke-Keeps env surface p c s (Command.apply_approval_result_of ref result) =
      mapped-Keeps _ _ (apply_result-Keeps env ref result)
  invoke-Keeps env surface p c s (Command.get_notification_delivery_of request_ref id) =
      mapped-Keeps _ _ (read_delivery-Keeps env request_ref id)
  invoke-Keeps env surface p c s (Command.redeliver_notification_of request_ref id) =
      mapped-Keeps _ _ (redeliver_one-Keeps env request_ref id)
  invoke-Keeps env surface p c s (Command.list_notification_deliveries_of request_ref) =
      mapped-Keeps _ _ (read_deliveries-Keeps env request_ref)
  invoke-Keeps env surface p c s (Command.get_notification_worker_status_of request_ref) =
      mapped-Keeps _ _ (worker_status-Keeps env request_ref)
  invoke-Keeps env surface p c s (Command.start_notification_worker_of request_ref) =
      mapped-Keeps _ _ (start-Keeps env request_ref)
  invoke-Keeps env surface p c s (Command.stop_notification_worker_of request_ref) =
      mapped-Keeps _ _ (stop-Keeps env request_ref)
  invoke-Keeps env surface p c s (Command.run_notification_worker_of request_ref) =
      mapped-Keeps _ _ (run-Keeps env request_ref)
  invoke-Keeps env surface p c s (Command.get_admin_audit_entry_of id) =
      mapped-Keeps _ _ (audit_entry-Keeps id)
  invoke-Keeps env surface p c s Command.list_admin_audit_entries_of =
      mapped-Keeps _ _ (audit_entries-Keeps env)

-- Whatever commands a service gets, whether they return or throw, and whatever the adapters, the
-- trusted surface and the clock do: each payment and each settlement of resources that was called
-- for carries an approved decision.
pub only_approved_calls :
    (s t : AfalState)
    → AreAuthorized s.settlement.calls
    → Serves s t
    → AreAuthorized t.settlement.calls
only_approved_calls s t h start = h
only_approved_calls s t h (serves {t = u} env surface command before) =
    (invoke-Keeps env surface pays confirms settles command).keep u
      (only_approved_calls s u h before)
