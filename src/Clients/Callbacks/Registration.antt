-- ===== src/Clients/Callbacks/Registration.antt =====
-- What registering a callback does, and which URLs are called.
use agent_financial_action_l.Base.Map.{lookup, lookup-insert_inv, lookup-insert_self}
use agent_financial_action_l.Clients.Callbacks.{
  normalize_callback_registration, CallbackRegistration, CallbackInput, is_given, ClientStore,
  is_empty, includes, is_payment, is_resource, register_callback, payment_urls,
  get_callback_registration, Did, Timestamp, Map, IdRef, add_url, CallbackOutput,
  to_callback_registration_output, truthy, payment_url, resource_urls, get_payment_callback_urls,
  resource_url, list_clients, get_resource_callback_urls,
}
use agent_financial_action_l.Clients.Store.{ClientRecord}
use agent_financial_action_l.Base.{
  ◌∷◌, ◌≡◌, true, false, arith, ◌||◌, is_some, Option, List, String, some, ◌⊎◌, inl, inr, ◌or_some◌,
  refl, [], ◌≢◌,
}
use agent_financial_action_l.Base.Action.{ok, Error, err, Result-cases, assert_found}
use mathlib.Core.List.{Memᴰ}

-- The client with a registration.
unfoldable pub registered :
    Timestamp → ClientRecord → CallbackInput → CallbackRegistration → ClientRecord
registered now c input r = record c {
  callback_registration = some (record r { verified_at = input.verified_at or_some r.verified_at });
  updated_at = now;
}

-- What a registration that was accepted guarantees: a URL is given, each URL belongs to a receiver
-- that the client is provisioned for, some event is chosen, and each chosen event has its URL.
pub record IsRegistrable (client : ClientRecord) (r : CallbackRegistration) : Type 0 where
  pub reachable : (is_given r.payment_settlement_url || is_given r.resource_settlement_url) ≡ true
  pub pays : is_given r.payment_settlement_url ≡ true → is_given client.payment_payee_did ≡ true
  pub provides :
      is_given r.resource_settlement_url ≡ true → is_given client.resource_provider_did ≡ true
  pub listens : is_empty r.event_types ≡ false
  pub payment_events :
      includes is_payment r.event_types ≡ true → is_some r.payment_settlement_url ≡ true
  pub resource_events :
      includes is_resource r.event_types ≡ true → is_some r.resource_settlement_url ≡ true

normalized :
    (client : ClientRecord) (input : CallbackInput) (s : ClientStore) (r : CallbackRegistration)
    → (normalize_callback_registration client input s).0 ≡ ok r
    → IsRegistrable client r × (r.verified_at ≡ input.verified_at)
unfolding normalize_callback_registration
normalized client input s r h = (
  record {
    reachable = ground arith;
    pays = λ e. ground arith;
    provides = λ e. ground arith;
    listens = ground arith;
    payment_events = λ e. ground arith;
    resource_events = λ e. ground arith;
  },
  ground arith,
)

pub normalize_reads :
    (c : ClientRecord) (input : CallbackInput) (s : ClientStore)
    → (normalize_callback_registration c input s).1 ≡ s
unfolding normalize_callback_registration
normalize_reads c input s = ground arith

or_some_self : (o : Option Timestamp) → o or_some o ≡ o
or_some_self Option.none = refl
or_some_self (some a) = refl

reregistrable :
    (c : ClientRecord) (r : CallbackRegistration) (at : Option Timestamp)
    → IsRegistrable c r
    → IsRegistrable c (record r { verified_at = at })
reregistrable c r at i = record {
  reachable = i.reachable;
  pays = i.pays;
  provides = i.provides;
  listens = i.listens;
  payment_events = i.payment_events;
  resource_events = i.resource_events;
}

-- A registration that returns names a known client that it may call back, and what it returns is
-- what a later read returns, with the time of verification that was given. A registration that
-- throws writes nothing. The client stands under its own id.
pub register_then_get :
    (now : Timestamp) (id : IdRef) (input : CallbackInput) (s : ClientStore) (client : ClientRecord)
    → lookup id s.clients ≡ some client
    → client.client_id ≡ id
    → ((out : CallbackOutput) × (r : CallbackRegistration) × (register_callback now id input s).0
          ≡ ok out
        × out.callback_registration ≡ some r
        × IsRegistrable client r
        × r.verified_at ≡ input.verified_at
        × (get_callback_registration id (register_callback now id input s).1
            ≡ (ok out, (register_callback now id input s).1)))
      ⊎ ((e : Error) × (register_callback now id input s ≡ (err e, s)))
unfolding register_callback get_callback_registration registered
register_then_get now id input s client found keyed =
    elim (Result-cases (normalize_callback_registration client input s).0) [
      | inl (r, e) ↦
          let (i, verified) = normalized client input s r e in
          inl (
            to_callback_registration_output (registered now client input r),
            record r { verified_at = input.verified_at or_some r.verified_at },
            rw (found, assert_found, e) refl,
            refl,
            reregistrable client r (input.verified_at or_some r.verified_at) i,
            rw verified (or_some_self input.verified_at),
            rw (found, assert_found, e, normalize_reads, keyed, lookup-insert_self) refl,
          )
      | inr (x, e) ↦ inr (x, rw (found, assert_found, e, normalize_reads) refl)
    ]

add_url_inv :
    (o : Option Did) (p : Option String) (urls : Map String) (d : Did) (u : String)
    → lookup d (add_url o p urls) ≡ some u
    → (lookup d urls ≡ some u) ⊎ ((o ≡ some d) × (p ≡ some u))
add_url_inv Option.none p urls d u h = inl h
add_url_inv (some did) Option.none urls d u h = inl h
add_url_inv (some did) (some url) urls d u h = elim (lookup-insert_inv did d url u urls h) [
  | inl (e1, e2) ↦ inr (rw e1 refl, rw e2 refl)
  | inr (e1, e2) ↦ inl e2
]

payment_urls_inv :
    (clients : List ClientRecord) (urls : Map String) (d : Did) (u : String)
    → lookup d (payment_urls clients urls) ≡ some u
    → (lookup d urls ≡ some u)
      ⊎ ((c : ClientRecord) × Memᴰ c clients
          × (truthy c.payment_payee_did ≡ some d)
          × (payment_url c.callback_registration ≡ some u))
unfolding payment_urls
payment_urls_inv [] urls d u h = inl h
payment_urls_inv (c ∷ clients) urls d u h = elim (payment_urls_inv clients _ d u h) [
  | inl e ↦ elim (add_url_inv _ _ urls d u e) [
    | inl e' ↦ inl e'
    | inr (e1, e2) ↦ inr (c, Memᴰ.head refl, e1, e2)
  ]
  | inr (c', m, e1, e2) ↦ inr (c', Memᴰ.tail m, e1, e2)
]

resource_urls_inv :
    (clients : List ClientRecord) (urls : Map String) (d : Did) (u : String)
    → lookup d (resource_urls clients urls) ≡ some u
    → (lookup d urls ≡ some u)
      ⊎ ((c : ClientRecord) × Memᴰ c clients
          × (truthy c.resource_provider_did ≡ some d)
          × (resource_url c.callback_registration ≡ some u))
unfolding resource_urls
resource_urls_inv [] urls d u h = inl h
resource_urls_inv (c ∷ clients) urls d u h = elim (resource_urls_inv clients _ d u h) [
  | inl e ↦ elim (add_url_inv _ _ urls d u e) [
    | inl e' ↦ inl e'
    | inr (e1, e2) ↦ inr (c, Memᴰ.head refl, e1, e2)
  ]
  | inr (c', m, e1, e2) ↦ inr (c', Memᴰ.tail m, e1, e2)
]

no_url : (d : Did) (u : String) → lookup d [] ≢ some u
unfolding lookup
no_url d u h = ground arith

-- A URL that is called for a payee was registered by a client of the store that is this payee, and
-- is not empty.
pub payment_urls_sound :
    (s : ClientStore) (d : Did) (u : String)
    → lookup d (get_payment_callback_urls s) ≡ some u
    → (c : ClientRecord) × Memᴰ c (list_clients s)
      × (truthy c.payment_payee_did ≡ some d)
      × (payment_url c.callback_registration ≡ some u)
payment_urls_sound s d u h = elim (payment_urls_inv (list_clients s) [] d u h) [
  | inl e ↦ elim (no_url d u e) [ ]
  | inr found ↦ found
]

-- A URL that is called for a provider was registered by a client of the store that is this provider,
-- and is not empty.
pub resource_urls_sound :
    (s : ClientStore) (d : Did) (u : String)
    → lookup d (get_resource_callback_urls s) ≡ some u
    → (c : ClientRecord) × Memᴰ c (list_clients s)
      × (truthy c.resource_provider_did ≡ some d)
      × (resource_url c.callback_registration ≡ some u)
resource_urls_sound s d u h = elim (resource_urls_inv (list_clients s) [] d u h) [
  | inl e ↦ elim (no_url d u e) [ ]
  | inr found ↦ found
]
