-- ===== src/Stores/IntentFile.antt =====
-- backend/afal/state/file-store.ts (`JsonFileAfalIntentStore`): what the snapshot of its file holds.
use agent_financial_action_l.Base.{List, Option}
use agent_financial_action_l.Types.{IdRef}
use agent_financial_action_l.Types.Afal.{PaymentIntent, ResourceIntent, PendingApprovalExecution}
use agent_financial_action_l.Stores.File.{find_entry, put_entry}

pub record IntentSnapshot : Type 0 where
  pub payment_intents : List PaymentIntent
  pub resource_intents : List ResourceIntent
  pub pending_executions : List PendingApprovalExecution

unfoldable pub get_payment_intent : IdRef → IntentSnapshot → Option PaymentIntent
unfolding find_entry
get_payment_intent ref s = find_entry (λ (v : PaymentIntent). v.intent_id) ref s.payment_intents

unfoldable pub put_payment_intent : PaymentIntent → IntentSnapshot → IntentSnapshot
unfolding put_entry
put_payment_intent v s = record s {
  payment_intents = put_entry (λ (w : PaymentIntent). w.intent_id) v s.payment_intents;
}

abbrev pub list_payment_intents : IntentSnapshot → List PaymentIntent
list_payment_intents s = s.payment_intents

unfoldable pub get_resource_intent : IdRef → IntentSnapshot → Option ResourceIntent
unfolding find_entry
get_resource_intent ref s = find_entry (λ (v : ResourceIntent). v.intent_id) ref s.resource_intents

unfoldable pub put_resource_intent : ResourceIntent → IntentSnapshot → IntentSnapshot
unfolding put_entry
put_resource_intent v s = record s {
  resource_intents = put_entry (λ (w : ResourceIntent). w.intent_id) v s.resource_intents;
}

abbrev pub list_resource_intents : IntentSnapshot → List ResourceIntent
list_resource_intents s = s.resource_intents

unfoldable pub get_pending_execution : IdRef → IntentSnapshot → Option PendingApprovalExecution
unfolding find_entry
get_pending_execution ref s =
    find_entry (λ (v : PendingApprovalExecution). v.approval_session_ref) ref s.pending_executions

unfoldable pub put_pending_execution : PendingApprovalExecution → IntentSnapshot → IntentSnapshot
unfolding put_entry
put_pending_execution v s = record s {
  pending_executions =
      put_entry (λ (w : PendingApprovalExecution). w.approval_session_ref) v s.pending_executions;
}

abbrev pub list_pending_executions : IntentSnapshot → List PendingApprovalExecution
list_pending_executions s = s.pending_executions
