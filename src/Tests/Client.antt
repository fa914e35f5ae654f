-- ===== src/Tests/Client.antt =====
-- A client with both callbacks, and a platform whose hash is the text itself.
use mathlib.Core.List.{Memᴰ}
use agent_financial_action_l.Base.{
  ◌≡◌, refl, none, some, [], ◌∷◌, true, ◌↔◌, ◌≢◌, ℕ, ◌⊎◌, ne_of_eqb,
}
use agent_financial_action_l.Base.Map.{lookup, insert, values}
use agent_financial_action_l.Base.Action.{ok, err, Error}
use agent_financial_action_l.Tests.{lookup_only}
use agent_financial_action_l.Clients.Store.{
  ClientRecord, ClientStore, EventType, list_clients, CallbackRegistration, truthy,
}
use agent_financial_action_l.Clients.Auth.{
  Platform, Clock, AuthenticationRequest, Credentials, authenticate_request, create_signed_headers,
  signed_text,
}
use agent_financial_action_l.Clients.Auth.Admission.{IsAdmitted, authenticate_exact, remembered}
use agent_financial_action_l.Clients.Auth.Headers.{signed_headers_accepted, carrying}
use agent_financial_action_l.Clients.Auth.Replay.{replay_refused, Serves, IsKeyed}
use agent_financial_action_l.Clients.Callbacks.{
  CallbackInput, payment_urls, resource_urls, register_callback, get_callback_registration,
  CallbackOutput, get_payment_callback_urls, get_resource_callback_urls, payment_url, resource_url,
}
use agent_financial_action_l.Clients.Callbacks.Registration.{
  register_then_get, payment_urls_sound, resource_urls_sound, IsRegistrable,
}

abbrev client : ClientRecord
client = record {
  client_id = "client-1";
  tenant_id = "tenant-1";
  agent_id = "agent-1";
  subject_did = "did:afal:agent:1";
  mandate_refs = "mnd-1" ∷ [];
  monetary_budget_refs = none;
  resource_budget_refs = none;
  resource_quota_refs = none;
  payment_payee_did = some "did:afal:payee:1";
  resource_provider_did = some "did:afal:provider:1";
  callback_registration = some (record {
    event_types = EventType.payment_settled ∷ EventType.resource_settled ∷ [];
    payment_settlement_url = some "https://a";
    resource_settlement_url = some "https://b";
    verified_at = none;
  });
  auth = record { signing_key = "key"; active = true; created_at = "t0"; rotated_at = none };
  created_at = "t0";
  updated_at = "t0";
}

abbrev store : ClientStore
store = record { clients = ("client-1", client) ∷ []; replay_records = [] }

abbrev platform : Platform
platform = record { sha256 = λ text. text; parse_time = λ time. some 1000 }

abbrev clock : Clock
clock = record { now_ms = 1500; now_iso = "t1"; max_request_age_ms = 1000 }

abbrev given : Credentials
given = record {
  client_id = "client-1";
  timestamp = "t0";
  signature = signed_text client "req-1" "t0";
}

abbrev request : AuthenticationRequest
request = record {
  client_id = some "client-1";
  request_ref = "req-1";
  timestamp = some "t0";
  signature = some (signed_text client "req-1" "t0");
  subject_did = some "did:afal:agent:1";
}

in-store : lookup "client-1" store.clients ≡ some client
unfolding lookup
in-store = refl

store-IsKeyed : IsKeyed store
store-IsKeyed id c h = let (e, e') = lookup_only "client-1" id client c h in rw (← e') e

accepted : (authenticate_request platform clock request store).0 ≡ ok client
unfolding authenticate_request lookup
accepted = refl

is_admitted : IsAdmitted platform clock request store client given 1000
unfolding lookup
is_admitted = record {
  given_eq = refl;
  client_eq = refl;
  active = refl;
  time_eq = refl;
  fresh = refl;
  signed = refl;
  scoped = refl;
  unseen = refl;
}

authenticate_exact_example : ((authenticate_request platform clock request store).0 ≡ ok client) ↔ (
    (g : Credentials) × (time : ℕ) × IsAdmitted platform clock request store client g time
    × ((authenticate_request platform clock request store).1
        ≡ remembered clock request client g store))
authenticate_exact_example = authenticate_exact platform clock request store client

replay_refused_example :
    (authenticate_request platform clock request
      (authenticate_request platform clock request store).1).0
    ≢ ok client
replay_refused_example =
    replay_refused platform platform clock clock request request store
      (authenticate_request platform clock request store).1 client client given given store-IsKeyed
      refl accepted Serves.start refl refl refl refl

signed_headers_accepted_example :
    (create_signed_headers platform clock "client-1" "req-1" (some "t0") store ≡ (
      ok (record {
        client_id = "client-1";
        request_timestamp = "t0";
        request_signature = signed_text client "req-1" "t0";
      }),
      store,
    ))
    × ((authenticate_request platform clock
          (carrying
            (record {
              client_id = "client-1";
              request_timestamp = "t0";
              request_signature = signed_text client "req-1" "t0";
            })
            "req-1"
            none)
          store).0
        ≡ ok client)
unfolding lookup
signed_headers_accepted_example =
    signed_headers_accepted platform clock clock store "client-1" "req-1" "t0" none client 1000
      in-store refl (ne_of_eqb "client-1" "" refl) (ne_of_eqb "t0" "" refl)
      (ne_of_eqb (signed_text client "req-1" "t0") "" refl) refl refl refl refl refl

abbrev input : CallbackInput
input = record {
  event_types = none;
  payment_settlement_url = some "https://c";
  resource_settlement_url = none;
  verified_at = none;
}

register_then_get_example :
    ((out : CallbackOutput) × (r : CallbackRegistration) × (register_callback "t1" "client-1" input
          store).0
        ≡ ok out
      × out.callback_registration ≡ some r
      × IsRegistrable client r
      × r.verified_at ≡ input.verified_at
      × (get_callback_registration "client-1" (register_callback "t1" "client-1" input store).1
          ≡ (ok out, (register_callback "t1" "client-1" input store).1)))
    ⊎ ((e : Error) × (register_callback "t1" "client-1" input store ≡ (err e, store)))
register_then_get_example = register_then_get "t1" "client-1" input store client in-store refl

called : lookup "did:afal:payee:1" (get_payment_callback_urls store) ≡ some "https://a"
unfolding lookup payment_urls insert values
called = refl

called_provider : lookup "did:afal:provider:1" (get_resource_callback_urls store) ≡ some "https://b"
unfolding lookup resource_urls insert values
called_provider = refl

payment_urls_sound_example :
    (c : ClientRecord) × Memᴰ c (list_clients store)
    × (truthy c.payment_payee_did ≡ some "did:afal:payee:1")
    × (payment_url c.callback_registration ≡ some "https://a")
payment_urls_sound_example = payment_urls_sound store "did:afal:payee:1" "https://a" called

resource_urls_sound_example :
    (c : ClientRecord) × Memᴰ c (list_clients store)
    × (truthy c.resource_provider_did ≡ some "did:afal:provider:1")
    × (resource_url c.callback_registration ≡ some "https://b")
resource_urls_sound_example =
    resource_urls_sound store "did:afal:provider:1" "https://b" called_provider
