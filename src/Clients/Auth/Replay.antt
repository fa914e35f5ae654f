-- ===== src/Clients/Auth/Replay.antt =====
-- A request that was admitted once is not admitted again, and signed headers are accepted.
use agent_financial_action_l.Clients.Auth.{
  authenticate_request, Platform, IdRef, ReplayRecord, Timestamp, Clock, AuthenticationRequest,
  Credentials, credentials, replay_key_of,
}
use agent_financial_action_l.Clients.Callbacks.{
  normalize_callback_registration, register_callback, CallbackInput, ProvisioningInput,
  provision_client,
}
use agent_financial_action_l.Clients.Store.{
  ClientStore, ClientRecord, put_client, replay_composite_key,
}
use agent_financial_action_l.Base.{
  ◌≡◌, refl, true, some, none, Option-cases, inl, inr, arith, String, is_some, ◌⊎◌, ◌≢◌, ◌∙◌, ap,
  sym,
}
use agent_financial_action_l.Base.Action.{ok, assert_found, Result-cases}
use agent_financial_action_l.Base.Map.{
  lookup, lookup-insert_self, lookup-insert, lookup-insert_inv, Map, insert,
}
use agent_financial_action_l.Clients.Callbacks.Registration.{registered, normalize_reads}
use agent_financial_action_l.Clients.Auth.Admission.{IsAdmitted-inv, admitted}

-- What the client service does over time: it authenticates requests, with any outcome, provisions
-- clients and registers callbacks.
pub data Serves (s : ClientStore) : ClientStore → Type 0 where
  start : Serves s s
  authenticates :
      {s' : ClientStore} (platform : Platform) (clock : Clock) (request : AuthenticationRequest)
      → Serves s s'
      → Serves s (authenticate_request platform clock request s').1
  provisions :
      {s' : ClientStore} (now : Timestamp) (random_key : String) (input : ProvisioningInput)
      → Serves s s'
      → Serves s (provision_client now random_key input s').1
  registers :
      {s' : ClientStore} (now : Timestamp) (client_id : IdRef) (input : CallbackInput)
      → Serves s s'
      → Serves s (register_callback now client_id input s').1

-- Each client stands under its own id.
abbrev pub IsKeyed : ClientStore → Type 0
IsKeyed s = (id : IdRef) (c : ClientRecord) → lookup id s.clients ≡ some c → c.client_id ≡ id

abbrev pub IsSeen : String → ClientStore → Type 0
IsSeen key s = is_some (lookup key s.replay_records) ≡ true

insert-is_some :
    (k j : String) (v : ReplayRecord) (m : Map ReplayRecord)
    → is_some (lookup j m) ≡ true
    → is_some (lookup j (insert k v m)) ≡ true
insert-is_some k j v m h = ground (arith, lookup-insert k j v m)

pub IsKeyed-put : (c : ClientRecord) (s : ClientStore) → IsKeyed s → IsKeyed (put_client c s).1
IsKeyed-put c s keyed id d h = elim (lookup-insert_inv c.client_id id c d s.clients h) [
  | inl (e1, e2) ↦ ground arith
  | inr (e1, e2) ↦ keyed id d e2
]

authenticate-clients :
    (platform : Platform) (clock : Clock) (request : AuthenticationRequest) (s : ClientStore)
    → (authenticate_request platform clock request s).1.clients ≡ s.clients
unfolding authenticate_request
authenticate-clients platform clock request s = ground arith

authenticate-IsSeen :
    (platform : Platform) (clock : Clock) (request : AuthenticationRequest) (s : ClientStore)
    (key : String)
    → IsSeen key s
    → IsSeen key (authenticate_request platform clock request s).1
unfolding authenticate_request
authenticate-IsSeen platform clock request s key h = grind (arith, insert-is_some)

register_changes :
    (now : Timestamp) (client_id : IdRef) (input : CallbackInput) (s : ClientStore)
    → ((register_callback now client_id input s).1 ≡ s)
      ⊎ ((c : ClientRecord) × (c' : ClientRecord) × (lookup client_id s.clients ≡ some c)
          × (c'.client_id ≡ c.client_id)
          × ((register_callback now client_id input s).1 ≡ (put_client c' s).1))
unfolding register_callback registered
register_changes now client_id input s = elim (Option-cases (lookup client_id s.clients)) [
  | inl missing ↦ inl (rw (missing, assert_found) refl)
  | inr (c, found) ↦ elim (Result-cases (normalize_callback_registration c input s).0) [
    | inl (r, e) ↦ inr (
      c,
      registered now c input r,
      found,
      refl,
      rw (found, assert_found, e, normalize_reads) refl,
    )
    | inr (x, e) ↦ inl (rw (found, assert_found, e, normalize_reads) refl)
  ]
]

register-replays :
    (now : Timestamp) (client_id : IdRef) (input : CallbackInput) (s : ClientStore)
    → (register_callback now client_id input s).1.replay_records ≡ s.replay_records
unfolding register_callback normalize_callback_registration
register-replays now client_id input s = ground arith

Serves-IsKeyed : (s s' : ClientStore) → IsKeyed s → Serves s s' → IsKeyed s'
unfolding provision_client
Serves-IsKeyed s s' keyed start = keyed
Serves-IsKeyed s s' keyed (authenticates {s' = s''} p clock r h) =
    λ id c e. Serves-IsKeyed s s'' keyed h id c (rw authenticate-clients at e)
Serves-IsKeyed s s' keyed (provisions {s' = s''} now random_key input h) =
    IsKeyed-put _ s'' (Serves-IsKeyed s s'' keyed h)
Serves-IsKeyed s s' keyed (registers {s' = s''} now client_id input h) =
    elim (register_changes now client_id input s'') [
      | inl same ↦ rw same (Serves-IsKeyed s s'' keyed h)
      | inr (c, c', found, e, put) ↦ rw put (IsKeyed-put c' s'' (Serves-IsKeyed s s'' keyed h))
    ]

Serves-IsSeen : (key : String) (s s' : ClientStore) → IsSeen key s → Serves s s' → IsSeen key s'
unfolding provision_client
Serves-IsSeen key s s' seen start = seen
Serves-IsSeen key s s' seen (authenticates {s' = s''} p clock r h) =
    authenticate-IsSeen p clock r s'' key (Serves-IsSeen key s s'' seen h)
Serves-IsSeen key s s' seen (provisions {s' = s''} now random_key input h) =
    Serves-IsSeen key s s'' seen h
Serves-IsSeen key s s' seen (registers {s' = s''} now client_id input h) =
    rw register-replays (Serves-IsSeen key s s'' seen h)

some_inj : (a b : Credentials) → some a ≡ some b → a ≡ b
some_inj a b h = ground arith

seen-unseen : (key : String) (s : ClientStore) → IsSeen key s → lookup key s.replay_records ≢ none
seen-unseen key s seen unseen = ground arith

-- Once a request was admitted, whatever the service does next, a request by the same client with
-- the same reference and timestamp is not admitted: at no time, with no signature and for no
-- subject. Clients stand under their own ids.
pub replay_refused :
    (platform platform' : Platform) (clock clock' : Clock)
    (request request' : AuthenticationRequest) (s s' : ClientStore) (client client' : ClientRecord)
    (given given' : Credentials)
    → IsKeyed s
    → credentials request ≡ some given
    → (authenticate_request platform clock request s).0 ≡ ok client
    → Serves (authenticate_request platform clock request s).1 s'
    → credentials request' ≡ some given'
    → given'.client_id ≡ given.client_id
    → given'.timestamp ≡ given.timestamp
    → request'.request_ref ≡ request.request_ref
    → (authenticate_request platform' clock' request' s').0 ≢ ok client'
replay_refused platform platform' clock clock' request request' s s' client client' given given'
      keyed given_eq accepted serves given_eq' same_id same_time same_ref again =
    let (g, time, i) = IsAdmitted-inv platform clock request s client accepted in
    let (g', time', i') = IsAdmitted-inv platform' clock' request' s' client' again in
    let keyed' =
      Serves-IsKeyed (authenticate_request platform clock request s).1 s'
        (λ id c e. keyed id c (rw authenticate-clients at e)) serves in
    let key =
      replay_composite_key client.client_id (replay_key_of request.request_ref g.timestamp) in
    let seen : IsSeen key (authenticate_request platform clock request s).1 =
      rw (admitted platform clock request s client g time i, lookup-insert_self) refl in
    let seen' = Serves-IsSeen key _ s' seen serves in
    let named : client'.client_id ≡ client.client_id =
      keyed' g'.client_id client' i'.client_eq
      ∙ ap (λ x. x.client_id) (some_inj _ _ (sym i'.given_eq ∙ given_eq'))
      ∙ same_id
      ∙ ap (λ x. x.client_id) (some_inj _ _ (sym given_eq ∙ i.given_eq))
      ∙ sym (keyed g.client_id client i.client_eq) in
    let timed : g'.timestamp ≡ g.timestamp =
      ap (λ x. x.timestamp) (some_inj _ _ (sym i'.given_eq ∙ given_eq'))
      ∙ same_time
      ∙ ap (λ x. x.timestamp) (some_inj _ _ (sym given_eq ∙ i.given_eq)) in
    seen-unseen key s' seen' (rw (named, same_ref, timed) at i'.unseen)
