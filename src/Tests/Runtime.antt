-- ===== src/Tests/Runtime.antt =====
-- A payment and a resource action of a small service: approved, settled before, and without a
-- reservation.
use agent_financial_action_l.Notifications.Worker.{new_worker}
use agent_financial_action_l.AdminAudit.{AuditStore, AdminAuditEntry, get_audit_entry}
use agent_financial_action_l.Runtime.Admin.{run_notification_worker, tick, record_admin_audit}
use agent_financial_action_l.Runtime.Refuse.{refused_payment_is_released}
use agent_financial_action_l.Runtime.BestEffort.{with_port, notifications_are_best_effort}
use agent_financial_action_l.Types.Amn.{ApprovalSession}
use agent_financial_action_l.Runtime.Pay.{resume_approved_payment_action}
use agent_financial_action_l.Runtime.Approval.{resume_approved_action, apply_result}
use agent_financial_action_l.Runtime.Command.{invoke}
use agent_financial_action_l.Runtime.Provide.{resume_approved_resource_action}
use agent_financial_action_l.Runtime.Resume.{settled_refs, Resumption}
use agent_financial_action_l.Base.{[], ◌∷◌, ◌≡◌, refl, none, some, false, codes, Option}
use agent_financial_action_l.Base.Int.{pos}
use agent_financial_action_l.Base.Map.{lookup, insert}
use agent_financial_action_l.Base.Action.{Result, ok, pure, throw, callback_failed}
use agent_financial_action_l.Types.{Timestamp, ChallengeState, CommonActionStatus}
use agent_financial_action_l.Types.Ats.{MonetaryReservation, ReservationStatus}
use agent_financial_action_l.Types.Afal.{
  PaymentIntent, ResourceIntent, ExecutionMode, PendingApprovalExecution, ActionType,
  PendingApprovalExecutionStatus, ProviderUsageConfirmation,
}
use agent_financial_action_l.Ats.{AtsStore}
use agent_financial_action_l.Settlement.{execute_payment_call}
use agent_financial_action_l.Settlement.Seeded.{
  SettlementTemplates, seeded_adapters, seeded_confirm_resource_usage,
}
use agent_financial_action_l.Runtime.{AfalState, Environment, Fixtures, NotificationPort}
use agent_financial_action_l.Runtime.Authorized.{
  only_approved_calls, AreAuthorized, Serves, all_authorized,
}
use agent_financial_action_l.Runtime.Settled.{settled_calls_nothing}
use agent_financial_action_l.Runtime.Bypass.{closed_reservation_is_paid}
use agent_financial_action_l.Runtime.Again.{resource_is_settled_again, settling_calls}
use agent_financial_action_l.Runtime.Command.{Command, ServiceResult}
use agent_financial_action_l.Tests.Approval
use agent_financial_action_l.Tests.Monetary

abbrev fixtures : Fixtures
fixtures = record {
  intent_id = "act-1";
  ownership_credential = "crd-1";
  authority_credential = "crd-2";
  policy_credential = "crd-3";
  budget_id = "bgt-1";
  quota_id = "quo-1";
  receipt_issued_at = "t2";
  receipt_evidence = [];
  response_message = none;
}

abbrev no_templates : SettlementTemplates
no_templates = record { payment_settlements = []; usages = []; resource_settlements = [] }

abbrev env : Environment
env = record {
  now = "t3";
  now_ms = 0;
  parse_time = λ t. none;
  is_after = λ s t. false;
  amn_templates = Approval.templates;
  intent_templates = record { payment_intents = []; resource_intents = [] };
  output_templates = record { receipts = λ t r. none; capability_responses = λ c r. none };
  adapters = seeded_adapters no_templates "t3";
  notifications = record {
    notify_payment_settlement = λ n. pure tt;
    notify_resource_settlement = λ n. pure tt;
  };
  notification_admin = none;
  redeliver_failed = pure 0;
  payment_fixtures = fixtures;
  resource_fixtures = fixtures;
}

abbrev intent : PaymentIntent
intent = record {
  intent_id = "act-1";
  payer = record { agent_did = "did:afal:agent:1"; account_id = "acc-1" };
  payee = record { payee_did = "did:afal:payee:1"; settlement_address = none };
  asset = "USDC";
  amount = codes "20.00";
  chain = "base";
  purpose = record { category = "service"; description = "work"; reference_id = none };
  mandate_ref = "mnd-1";
  policy_ref = none;
  execution_mode = ExecutionMode.human_in_the_loop;
  challenge_state = ChallengeState.pending_approval;
  status = CommonActionStatus.pending_approval;
  expires_at = none;
  nonce = "n-1";
  created_at = "t0";
  decision_ref = some "dec-1";
  challenge_ref = some "chl-1";
  settlement_ref = none;
  receipt_ref = none;
}

abbrev settled_intent : PaymentIntent
settled_intent = record intent {
  status = CommonActionStatus.settled;
  settlement_ref = some "stl-1";
  receipt_ref = some "rcp-1";
}

abbrev resource_intent : ResourceIntent
resource_intent = record {
  intent_id = "act-1";
  requester = record { agent_did = "did:afal:agent:1"; account_id = "acc-1" };
  provider = record { provider_id = "prv-1"; provider_did = "did:afal:provider:1" };
  resource = record { resource_class = "compute"; resource_unit = "token"; quantity = pos 5 };
  pricing = record { max_spend = codes "20.00"; asset = "USDC" };
  budget_source = "bgt-1";
  mandate_ref = "mnd-1";
  policy_ref = none;
  execution_mode = ExecutionMode.human_in_the_loop;
  challenge_state = ChallengeState.approved;
  status = CommonActionStatus.settled;
  expires_at = none;
  nonce = "n-1";
  created_at = "t0";
  decision_ref = some "dec-2";
  challenge_ref = some "chl-1";
  settlement_ref = some "stl-1";
  usage_receipt_ref = some "usg-1";
}

abbrev pending : PendingApprovalExecution
pending = record {
  approval_session_ref = "aps-chl-1";
  action_ref = "act-1";
  action_type = ActionType.payment;
  request_ref = "req-1";
  reservation_ref = some "res-1";
  monetary_budget_ref = some "bgt-1";
  resource_budget_ref = none;
  resource_quota_ref = none;
  status = PendingApprovalExecutionStatus.pending;
  created_at = "t0";
  updated_at = "t0";
  final_decision_ref = none;
  settlement_ref = none;
  receipt_ref = none;
  usage_receipt_ref = none;
}

abbrev serving : ApprovalSession → PaymentIntent → AtsStore → AfalState
serving session payment ats = record {
  aip = record { identities = []; credentials = [] };
  ats = ats;
  amn = Approval.store_with session;
  intents = record {
    payment_intents = ("act-1", payment) ∷ [];
    resource_intents = ("act-1", resource_intent) ∷ [];
    pending_executions = ("aps-chl-1", pending) ∷ [];
  };
  settlement = record { settlements = []; usage_confirmations = []; calls = [] };
  outputs = record {
    receipts = [];
    capability_responses = [];
    receipt_counter = 0;
    response_counter = 0;
  };
  outbox = [];
  worker = none;
  audit = none;
}

abbrev service : PaymentIntent → AtsStore → AfalState
service = serving Approval.approved_session

only_approved_calls_example :
    AreAuthorized
      (invoke env
        (λ c. ok Approval.result)
        (Command.resume_approved_action_of "aps-chl-1")
        (service intent Monetary.store)).1.settlement.calls
unfolding all_authorized
only_approved_calls_example =
    only_approved_calls (service intent Monetary.store)
      (invoke env (λ c. ok Approval.result) (Command.resume_approved_action_of "aps-chl-1")
        (service intent Monetary.store)).1
      refl
      (Serves.serves env (λ c. ok Approval.result) (Command.resume_approved_action_of "aps-chl-1")
        Serves.start)

settled_calls_nothing_example :
    (resume_approved_action env "aps-chl-1"
      (service settled_intent Monetary.store)).1.settlement.calls
    ≡ []
unfolding lookup settled_refs
settled_calls_nothing_example =
    settled_calls_nothing env "aps-chl-1" (service settled_intent Monetary.store) pending
      settled_intent "stl-1" "rcp-1" refl refl refl refl

-- The arguments of a resumption with an approval.
abbrev args : Resumption
args = record {
  pending = pending;
  initial_decision = Approval.prior;
  approval_context = Approval.context;
  resumed = record {
    final_decision = Approval.final_template;
    approval_result = Approval.result;
    approval_session = Approval.final_session;
    challenge = Approval.challenge;
  };
}

-- The reservation after a payment that failed.
abbrev closed_reservation : MonetaryReservation
closed_reservation = record (Monetary.reservation) {
  status = ReservationStatus.released;
  released_at = some "t2";
  release_reason_code = some "settlement-failed";
}

abbrev after_failure : AtsStore
after_failure = record (Monetary.store) {
  monetary_reservations = ("res-1", closed_reservation) ∷ [];
}

closed_reservation_is_paid_example :
    ((resume_approved_payment_action env args (service intent after_failure)).1.settlement.calls
      ≡ execute_payment_call intent Approval.final_template ∷ [])
    × ((resume_approved_payment_action env args (service intent after_failure)).1.ats
        ≡ after_failure)
unfolding lookup settled_refs
closed_reservation_is_paid_example =
    closed_reservation_is_paid env args intent "res-1" closed_reservation
      (service intent after_failure) refl refl refl refl refl refl refl

abbrev usage : ProviderUsageConfirmation
usage = seeded_confirm_resource_usage no_templates "t3" [] resource_intent

resource_is_settled_again_example :
    (resume_approved_resource_action env args (service intent Monetary.store)).1.settlement.calls
    ≡ settling_calls resource_intent Approval.final_template usage []
unfolding lookup seeded_adapters
resource_is_settled_again_example =
    resource_is_settled_again env args resource_intent usage (service intent Monetary.store) refl
      refl refl refl

-- A port that always fails, and one that does nothing.
abbrev failing : NotificationPort
failing = record {
  notify_payment_settlement = λ n. throw (callback_failed n.notification_id);
  notify_resource_settlement = λ n. throw (callback_failed n.notification_id);
}

abbrev silent : NotificationPort
silent = record {
  notify_payment_settlement = λ n. pure tt;
  notify_resource_settlement = λ n. pure tt;
}

notifications_are_best_effort_example :
    (resume_approved_payment_action (with_port env failing) args (service intent Monetary.store)).0
    ≡ (resume_approved_payment_action (with_port env silent) args (service intent Monetary.store)).0
notifications_are_best_effort_example =
    notifications_are_best_effort env failing silent args (service intent Monetary.store)

abbrev waiting : AfalState
waiting = serving Approval.session intent Monetary.store

refused_payment_is_released_example :
    ((r' : MonetaryReservation) × (lookup "res-1"
          (apply_result env "aps-chl-1" Approval.rejection waiting).1.ats.monetary_reservations
        ≡ some r')
      × (r'.status ≡ ReservationStatus.released)
      × (r'.released_at ≡ some "t1"))
    × ((pending' : PendingApprovalExecution) × (lookup "aps-chl-1"
            (apply_result env "aps-chl-1" Approval.rejection waiting).1.intents.pending_executions
          ≡ some pending')
        × (pending'.status ≡ PendingApprovalExecutionStatus.released))
unfolding lookup
refused_payment_is_released_example =
    refused_payment_is_released env waiting "aps-chl-1" Approval.session Approval.challenge
      Approval.rejection Approval.prior pending intent "res-1" Monetary.reservation Monetary.budget
      refl refl refl refl refl refl refl refl refl refl refl refl refl refl refl refl refl

abbrev ap_log : (AuditStore → Option AdminAuditEntry) → Option AuditStore → Option Timestamp
ap_log get none = none
ap_log get (some log) = elim (get log) [ none ↦ none | some entry ↦ some entry.created_at ]

-- A tick of a worker that redelivers nothing, and the entry that the log then has.
abbrev worked : Result ServiceResult × AfalState
worked =
    invoke env (λ c. ok Approval.result) (Command.run_notification_worker_of "req-9")
      (record (service intent Monetary.store) { worker = some (new_worker none); audit = some [] })

worker_runs :
    worked.0
    ≡ ok (
        ServiceResult.worker_run 0
          (record (new_worker none) { last_run_at = some "t3"; last_result = some 0 }))
unfolding invoke run_notification_worker tick record_admin_audit
worker_runs = refl

run_is_logged : ap_log (get_audit_entry "admin-audit-req-9") worked.1.audit ≡ some "t3"
unfolding invoke run_notification_worker tick record_admin_audit insert lookup
run_is_logged = refl
