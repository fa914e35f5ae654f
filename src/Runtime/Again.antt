-- ===== src/Runtime/Again.antt =====
-- A resource action that is resumed again is settled again.
use agent_financial_action_l.State.{mark_pending_execution}
use agent_financial_action_l.Outputs.{create_approval_receipt}
use agent_financial_action_l.Base.Map.{lookup, insert}
use agent_financial_action_l.Settlement.{
  Call, settle_usage_call, confirm_resource_usage, confirm_usage_call, settle_resource_usage,
}
use agent_financial_action_l.Runtime.Resume.{Resumption, is_result_approved, ended_mark}
use agent_financial_action_l.Types.Amn.{AuthorizationDecision}
use agent_financial_action_l.Runtime.Provide.{
  resume_approved_resource_action, provide_or_release, provide, release_capacity,
}
use agent_financial_action_l.Runtime.{Environment, AfalState, on_intents}
use agent_financial_action_l.Types.Afal.{
  ResourceIntent, ProviderUsageConfirmation, PendingApprovalExecutionStatus,
}
use agent_financial_action_l.Base.{List, ◌≡◌, refl, true, some, none, inl, inr, ◌∷◌, ◌==◌}
use agent_financial_action_l.Base.Action.{◌>>◌, Error, ok, Result-cases, assert_found, throw}
use agent_financial_action_l.Runtime.Calls.{Keeps}
use agent_financial_action_l.Runtime.Quiet.{quiet_parts, record_resource-Keeps}
use agent_financial_action_l.Runtime.Bypass.{receipt_returns}

-- The usage that the service passes on: the provider's, with the intent's own resource.
abbrev pub confirmation_of : ResourceIntent → ProviderUsageConfirmation → ProviderUsageConfirmation
confirmation_of intent answer = record answer {
  provider_id = intent.provider.provider_id;
  provider_did = intent.provider.provider_did;
  resource_class = intent.resource.resource_class;
  resource_unit = intent.resource.resource_unit;
  quantity = intent.resource.quantity;
}

-- The two calls of a settlement.
abbrev pub settling_calls :
    ResourceIntent → AuthorizationDecision → ProviderUsageConfirmation → List Call → List Call
settling_calls intent decision answer calls =
    settle_usage_call intent decision (confirmation_of intent answer)
    ∷ confirm_usage_call intent
    ∷ calls

module _ (env : Environment) (args : Resumption) (intent : ResourceIntent)
    (answer : ProviderUsageConfirmation) where
  failed-Keeps :
      {P : List Call → Type 0} {A : Type 0} (error : Error)
      → Keeps {A = A} P (do
        release_capacity env args.pending.reservation_ref none "settlement-failed"
        on_intents (
            mark_pending_execution
              (ended_mark args.resumed PendingApprovalExecutionStatus.failed env.now))
        throw error)
  failed-Keeps error = search quiet_parts depth 30

  provided :
      (u : AfalState)
      → env.adapters.confirm_resource_usage u.settlement.calls intent ≡ ok answer
      → (provide_or_release env args intent u).1.settlement.calls
        ≡ settling_calls intent args.resumed.final_decision answer u.settlement.calls
  unfolding provide_or_release confirm_resource_usage settle_resource_usage
  provided u confirmed =
      elim (Result-cases (
        env.adapters.settle_resource_usage (confirm_usage_call intent ∷ u.settlement.calls) intent
          args.resumed.final_decision (confirmation_of intent answer))) [
            | inl (r, answered) ↦ rw (confirmed, answered) refl
            | inr (e, failed) ↦
                rw (confirmed, failed)
                  ((failed-Keeps
                      {P = λ c.
                        c
                        ≡ settling_calls intent args.resumed.final_decision answer
                            u.settlement.calls}
                      e).keep
                    (record u {
                      settlement = record (u.settlement) {
                        usage_confirmations =
                            insert answer.usage_receipt_ref (confirmation_of intent answer)
                              u.settlement.usage_confirmations;
                        calls =
                            settling_calls intent args.resumed.final_decision answer
                              u.settlement.calls;
                      };
                    })
                    refl)
          ]

  provide_calls :
      (t : AfalState)
      → env.adapters.confirm_resource_usage t.settlement.calls intent ≡ ok answer
      → (provide env args intent t).1.settlement.calls
        ≡ settling_calls intent args.resumed.final_decision answer t.settlement.calls
  unfolding provide
  provide_calls t confirmed =
      elim (Result-cases
        (create_approval_receipt env.output_templates intent.intent_id
          (some args.resumed.final_decision.decision_id) args.resumed.approval_result
          t.outputs).0) [
            | inr (e, thrown) ↦ absurd (
                receipt_returns env.output_templates intent.intent_id
                  (some args.resumed.final_decision.decision_id) args.resumed.approval_result
                  t.outputs e thrown)
            | inl (receipt, returned) ↦
                let u = record t {
                  outputs =
                      (create_approval_receipt env.output_templates intent.intent_id
                        (some args.resumed.final_decision.decision_id) args.resumed.approval_result
                        t.outputs).1;
                } in
                elim (Result-cases (provide_or_release env args intent u).0) [
                  | inr (e, failed) ↦ rw (returned, failed) (provided u confirmed)
                  | inl (both, done) ↦
                      rw (returned, done)
                        ((record_resource-Keeps
                            {P = λ c.
                              c
                              ≡ settling_calls intent args.resumed.final_decision answer
                                  t.settlement.calls}
                            env args intent receipt both.0 both.1).keep
                          (provide_or_release env args intent u).1 (provided u confirmed))
                ]
          ]

-- Resuming an approved resource action whose provider confirms the usage calls for its settlement,
-- whatever the status of the intent is: also where it was settled before.
pub resource_is_settled_again :
    (env : Environment) (args : Resumption) (intent : ResourceIntent)
    (answer : ProviderUsageConfirmation) (t : AfalState)
    → (args.pending.action_ref == env.resource_fixtures.intent_id) ≡ true
    → lookup args.pending.action_ref t.intents.resource_intents ≡ some intent
    → is_result_approved args.resumed.final_decision.result ≡ true
    → env.adapters.confirm_resource_usage t.settlement.calls intent ≡ ok answer
    → (resume_approved_resource_action env args t).1.settlement.calls
      ≡ settling_calls intent args.resumed.final_decision answer t.settlement.calls
unfolding resume_approved_resource_action
resource_is_settled_again env args intent answer t supported known approved confirmed =
    rw (supported, known, assert_found, approved) (provide_calls env args intent answer t confirmed)
