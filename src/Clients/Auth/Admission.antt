-- ===== src/Clients/Auth/Admission.antt =====
-- Which requests `authenticateRequest` admits.
use agent_financial_action_l.Clients.Store.{replay_composite_key}
use agent_financial_action_l.Clients.Auth.{
  Platform, Clock, AuthenticationRequest, ClientStore, ClientRecord, Credentials,
  authenticate_request, replay_key_of, credentials, distance, signed_text, is_foreign, truthy,
  get_replay_record,
}
use agent_financial_action_l.Base.{
  ◌≡◌, true, false, some, none, Option-cases, inl, inr, arith, ltb, ℕ, ◌==◌, subst, ◌↔◌, ap,
}
use agent_financial_action_l.Base.Action.{ok, err, Error, assert_found}
use agent_financial_action_l.Base.Map.{lookup, insert}

-- What an admitted request meets: it names a known, active client, its time is inside the window,
-- its signature is the hash of its own words and the client's key, the subject it speaks for is the
-- client's, and its words were not admitted before.
pub record IsAdmitted (platform : Platform) (clock : Clock) (request : AuthenticationRequest)
    (s : ClientStore) (client : ClientRecord) (given : Credentials) (time : ℕ) : Type 0 where
  pub given_eq : credentials request ≡ some given
  pub client_eq : lookup given.client_id s.clients ≡ some client
  pub active : client.auth.active ≡ true
  pub time_eq : platform.parse_time given.timestamp ≡ some time
  pub fresh : ltb clock.max_request_age_ms (distance clock.now_ms time) ≡ false
  pub signed :
      (platform.sha256 (signed_text client request.request_ref given.timestamp) == given.signature)
      ≡ true
  pub scoped : is_foreign (truthy request.subject_did) client.subject_did ≡ false
  pub unseen :
      get_replay_record client.client_id (replay_key_of request.request_ref given.timestamp) s
      ≡ none

-- The store with the record of an admitted request.
abbrev pub remembered :
    Clock → AuthenticationRequest → ClientRecord → Credentials → ClientStore → ClientStore
remembered clock request client given s =
    let key = replay_key_of request.request_ref given.timestamp in
    record s {
      replay_records =
          insert (replay_composite_key client.client_id key)
            (record {
              client_id = client.client_id;
              replay_key = key;
              request_ref = request.request_ref;
              timestamp = given.timestamp;
              seen_at = clock.now_iso;
            })
            s.replay_records;
    }

module _ (platform : Platform) (clock : Clock) (request : AuthenticationRequest)
    (s : ClientStore) where
  -- A request that meets the conditions is admitted, and all that it writes is its replay record.
  pub admitted :
      (client : ClientRecord) (given : Credentials) (time : ℕ)
      → IsAdmitted platform clock request s client given time
      → authenticate_request platform clock request s
        ≡ (ok client, remembered clock request client given s)
  unfolding authenticate_request
  admitted client given time i = rw (
    i.given_eq, assert_found, i.client_eq, i.active, i.time_eq, i.fresh, i.signed, i.scoped,
    i.unseen,
  )

  -- A request that is refused writes nothing.
  pub authenticate_atomic :
      (e : Error)
      → (authenticate_request platform clock request s).0 ≡ err e
      → (authenticate_request platform clock request s).1 ≡ s
  unfolding authenticate_request
  authenticate_atomic e h = ground arith

  -- The checks that are left once the credentials, the client and the time are known.
  checked :
      (given : Credentials) (c client : ClientRecord) (time : ℕ)
      → credentials request ≡ some given
      → lookup given.client_id s.clients ≡ some c
      → platform.parse_time given.timestamp ≡ some time
      → (authenticate_request platform clock request s).0 ≡ ok client
      → (c ≡ client) × IsAdmitted platform clock request s c given time
  unfolding authenticate_request
  checked given c client time e1 e2 e3 h =
      let h' = rw (e1, assert_found, e2, e3) at h in
      (
        ground arith,
        record {
          given_eq = e1;
          client_eq = e2;
          active = ground arith;
          time_eq = e3;
          fresh = ground arith;
          signed = ground arith;
          scoped = ground arith;
          unseen = ground arith;
        },
      )

  pub IsAdmitted-inv :
      (client : ClientRecord)
      → (authenticate_request platform clock request s).0 ≡ ok client
      → (given : Credentials) × (time : ℕ) × IsAdmitted platform clock request s client given time
  unfolding authenticate_request
  IsAdmitted-inv client h = elim (Option-cases (credentials request)) [
    | inl missing ↦ ground arith
    | inr (given, e1) ↦ elim (Option-cases (lookup given.client_id s.clients)) [
      | inl missing ↦ ground arith
      | inr (c, e2) ↦ elim (Option-cases (platform.parse_time given.timestamp)) [
        | inl missing ↦ ground arith
        | inr (time, e3) ↦
            let (same, i) = checked given c client time e1 e2 e3 h in
            (given, time, subst (λ x. IsAdmitted platform clock request s x given time) same i)
      ]
    ]
  ]

  -- A request is admitted for a client exactly when it meets the conditions of `IsAdmitted`; then
  -- all that is written is its replay record.
  pub authenticate_exact :
      (client : ClientRecord)
      → ((authenticate_request platform clock request s).0 ≡ ok client) ↔ (
          (given : Credentials) × (time : ℕ) × IsAdmitted platform clock request s client given time
          × ((authenticate_request platform clock request s).1
              ≡ remembered clock request client given s))
  authenticate_exact client = (
    λ h.
        let (given, time, i) = IsAdmitted-inv client h in
        (given, time, i, ap (λ x. x.1) (admitted client given time i)),
    λ (given, time, i, e). ap (λ x. x.0) (admitted client given time i),
  )
