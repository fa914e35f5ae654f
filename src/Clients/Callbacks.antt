-- ===== src/Clients/Callbacks.antt =====
-- backend/afal/clients/service.ts: provisioning a client and registering its callbacks.
pub mod Registration
use agent_financial_action_l.Base.Action.{
  ◌>>=◌, ◌>>◌, throw_if, pure, callback_url_missing, not_payment_receiver, not_resource_receiver,
  event_types_empty, payment_url_required, resource_url_required,
}
use agent_financial_action_l.Base.Map.{Map, insert}
use agent_financial_action_l.Base.Action.{Action}
use agent_financial_action_l.Clients.Store.{
  EventType, CallbackRegistration, ClientRecord, ClientStore, truthy, list_clients, put_client,
  get_client,
}
use agent_financial_action_l.Types.{IdRef, Timestamp, Did}
use agent_financial_action_l.Base.{
  Option, some, none, List, String, Bool, if◌then◌else◌, is_some, true, not, false, ◌∷◌, ◌||◌,
  ◌or_else◌, [], ◌++◌, ◌&&◌, ◌or_some◌,
}

pub record ProvisioningInput : Type 0 where
  pub client_id : IdRef
  pub tenant_id : IdRef
  pub agent_id : IdRef
  pub subject_did : Did
  pub mandate_refs : List IdRef
  pub monetary_budget_refs : Option (List IdRef)
  pub resource_budget_refs : Option (List IdRef)
  pub resource_quota_refs : Option (List IdRef)
  pub payment_payee_did : Option Did
  pub resource_provider_did : Option Did
  pub payment_settlement_url : Option String
  pub resource_settlement_url : Option String
  pub event_types : Option (List EventType)
  pub signing_key : Option String

pub record CallbackInput : Type 0 where
  pub event_types : Option (List EventType)
  pub payment_settlement_url : Option String
  pub resource_settlement_url : Option String
  pub verified_at : Option Timestamp

pub record CallbackOutput : Type 0 where
  pub client_id : IdRef
  pub tenant_id : IdRef
  pub agent_id : IdRef
  pub subject_did : Did
  pub payment_payee_did : Option Did
  pub resource_provider_did : Option Did
  pub callback_registration : Option CallbackRegistration

-- `!!s`
abbrev pub is_given : Option String → Bool
is_given s = is_some (truthy s)

abbrev pub is_payment : EventType → Bool
is_payment EventType.payment_settled = true
is_payment EventType.resource_settled = false

abbrev pub is_resource : EventType → Bool
is_resource t = not (is_payment t)

abbrev pub is_empty : List EventType → Bool
is_empty [] = true
is_empty _ = false

-- eventTypes.includes(...)
unfoldable pub includes : (EventType → Bool) → List EventType → Bool
includes test [] = false
includes test (t ∷ types) = test t || includes test types

abbrev pub inferred_event_types : Option String → Option String → List EventType
inferred_event_types payment resource =
    (if is_given payment then EventType.payment_settled ∷ [] else [])
    ++ (if is_given resource then EventType.resource_settled ∷ [] else [])

abbrev pub initial_registration : ProvisioningInput → Option CallbackRegistration
initial_registration input =
    if is_given input.payment_settlement_url || is_given input.resource_settlement_url
    then some (record {
      event_types =
          input.event_types
          or_else inferred_event_types input.payment_settlement_url input.resource_settlement_url;
      payment_settlement_url = input.payment_settlement_url;
      resource_settlement_url = input.resource_settlement_url;
      verified_at = none;
    })
    else none

-- `random_key` is the text that randomBytes(16) gave.
unfoldable pub provision_client :
    Timestamp → String → ProvisioningInput → Action ClientStore ClientRecord
provision_client now random_key input =
    let client : ClientRecord = record {
      client_id = input.client_id;
      tenant_id = input.tenant_id;
      agent_id = input.agent_id;
      subject_did = input.subject_did;
      mandate_refs = input.mandate_refs;
      monetary_budget_refs = input.monetary_budget_refs;
      resource_budget_refs = input.resource_budget_refs;
      resource_quota_refs = input.resource_quota_refs;
      payment_payee_did = input.payment_payee_did;
      resource_provider_did = input.resource_provider_did;
      callback_registration = initial_registration input;
      auth = record {
        signing_key = input.signing_key or_else random_key;
        active = true;
        created_at = now;
        rotated_at = none;
      };
      created_at = now;
      updated_at = now;
    } in
    do put_client client; pure client

unfoldable pub normalize_callback_registration :
    ClientRecord → CallbackInput → Action ClientStore CallbackRegistration
normalize_callback_registration client input = do
  throw_if
      (not (is_given input.payment_settlement_url) && not (is_given input.resource_settlement_url))
      callback_url_missing
  throw_if (is_given input.payment_settlement_url && not (is_given client.payment_payee_did))
      (not_payment_receiver client.client_id)
  throw_if (is_given input.resource_settlement_url && not (is_given client.resource_provider_did))
      (not_resource_receiver client.client_id)
  let event_types =
      input.event_types
      or_else inferred_event_types input.payment_settlement_url input.resource_settlement_url
  throw_if (is_empty event_types) event_types_empty
  throw_if (not (is_some input.payment_settlement_url) && includes is_payment event_types)
      payment_url_required
  throw_if (not (is_some input.resource_settlement_url) && includes is_resource event_types)
      resource_url_required
  pure (record {
    event_types = event_types;
    payment_settlement_url = input.payment_settlement_url;
    resource_settlement_url = input.resource_settlement_url;
    verified_at = input.verified_at;
  })

abbrev pub to_callback_registration_output : ClientRecord → CallbackOutput
to_callback_registration_output client = record {
  client_id = client.client_id;
  tenant_id = client.tenant_id;
  agent_id = client.agent_id;
  subject_did = client.subject_did;
  payment_payee_did = client.payment_payee_did;
  resource_provider_did = client.resource_provider_did;
  callback_registration = client.callback_registration;
}

unfoldable pub register_callback :
    Timestamp → IdRef → CallbackInput → Action ClientStore CallbackOutput
register_callback now client_id input = do
  client ← get_client client_id
  registration ← normalize_callback_registration client input
  let updated_client = record client {
    callback_registration =
        some (record registration {
          verified_at = input.verified_at or_some registration.verified_at;
        });
    updated_at = now;
  }
  put_client updated_client
  pure (to_callback_registration_output updated_client)

unfoldable pub get_callback_registration : IdRef → Action ClientStore CallbackOutput
get_callback_registration client_id = do
  client ← get_client client_id
  pure (to_callback_registration_output client)

unfoldable pub list_callback_registrations : IdRef → Action ClientStore (List CallbackOutput)
list_callback_registrations client_id = do
  registration ← get_callback_registration client_id
  pure (if is_some registration.callback_registration then registration ∷ [] else [])

-- `urls[did] = callbackUrl`, where both are given.
abbrev pub add_url : Option Did → Option String → Map String → Map String
add_url (some did) (some url) urls = insert did url urls
add_url _ _ urls = urls

-- `client.callbackRegistration?.paymentSettlementUrl`, where it is not empty.
abbrev pub payment_url : Option CallbackRegistration → Option String
payment_url none = none
payment_url (some r) = truthy r.payment_settlement_url

abbrev pub resource_url : Option CallbackRegistration → Option String
resource_url none = none
resource_url (some r) = truthy r.resource_settlement_url

unfoldable pub payment_urls : List ClientRecord → Map String → Map String
payment_urls [] urls = urls
payment_urls (c ∷ clients) urls =
    payment_urls clients
      (add_url (truthy c.payment_payee_did) (payment_url c.callback_registration) urls)

unfoldable pub resource_urls : List ClientRecord → Map String → Map String
resource_urls [] urls = urls
resource_urls (c ∷ clients) urls =
    resource_urls clients
      (add_url (truthy c.resource_provider_did) (resource_url c.callback_registration) urls)

abbrev pub get_payment_callback_urls : ClientStore → Map String
get_payment_callback_urls s = payment_urls (list_clients s) []

abbrev pub get_resource_callback_urls : ClientStore → Map String
get_resource_callback_urls s = resource_urls (list_clients s) []
