-- ===== src/Clients/Store.antt =====
-- backend/afal/clients/store.ts, and the reads of backend/afal/clients/service.ts.
use agent_financial_action_l.Base.{String, Bool, Option, List, ◌==◌, if◌then◌else◌, none, some}
use agent_financial_action_l.Base.Map.{Map, lookup, insert, values}
use agent_financial_action_l.Base.Action.{Action, gets, modify, assert_found, unknown_client, ◌>>=◌}
use agent_financial_action_l.Types.{Did, IdRef, Timestamp}
use Prim.Native.String.{◌++◌}

pub data EventType : Type 0 where
  payment_settled resource_settled : EventType

pub record CallbackRegistration : Type 0 where
  pub event_types : List EventType
  pub payment_settlement_url : Option String
  pub resource_settlement_url : Option String
  pub verified_at : Option Timestamp

pub record AuthConfig : Type 0 where
  pub signing_key : String
  pub active : Bool
  pub created_at : Timestamp
  pub rotated_at : Option Timestamp

pub record ClientRecord : Type 0 where
  pub client_id : IdRef
  pub tenant_id : IdRef
  pub agent_id : IdRef
  pub subject_did : Did
  pub mandate_refs : List IdRef
  pub monetary_budget_refs : Option (List IdRef)
  pub resource_budget_refs : Option (List IdRef)
  pub resource_quota_refs : Option (List IdRef)
  pub payment_payee_did : Option Did
  pub resource_provider_did : Option Did
  pub callback_registration : Option CallbackRegistration
  pub auth : AuthConfig
  pub created_at : Timestamp
  pub updated_at : Timestamp

pub record ReplayRecord : Type 0 where
  pub client_id : IdRef
  pub replay_key : String
  pub request_ref : IdRef
  pub timestamp : Timestamp
  pub seen_at : Timestamp

pub record ClientStore : Type 0 where
  pub clients : Map ClientRecord
  pub replay_records : Map ReplayRecord

abbrev pub replay_composite_key : IdRef → String → String
replay_composite_key client_id replay_key = client_id ++ (":" ++ replay_key)

abbrev pub put_client : ClientRecord → Action ClientStore (Unit {0})
put_client c = modify (λ s. record s { clients = insert c.client_id c s.clients })

abbrev pub get_replay_record : IdRef → String → ClientStore → Option ReplayRecord
get_replay_record client_id replay_key s =
    lookup (replay_composite_key client_id replay_key) s.replay_records

abbrev pub put_replay_record : ReplayRecord → Action ClientStore (Unit {0})
put_replay_record r = modify (λ s. record s {
  replay_records = insert (replay_composite_key r.client_id r.replay_key) r s.replay_records;
})

abbrev pub list_clients : ClientStore → List ClientRecord
list_clients s = values s.clients

abbrev pub get_client : IdRef → Action ClientStore ClientRecord
get_client client_id = do
  assert_found (← gets (λ s. lookup client_id s.clients)) (unknown_client client_id)

-- JavaScript's truth of an optional text: it is there, and not empty.
abbrev pub truthy : Option String → Option String
truthy none = none
truthy (some s) = if s == "" then none else some s
