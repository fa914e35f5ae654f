-- ===== src/Clients/Auth/Headers.antt =====
-- `createSignedHeaders`, followed by `authenticateRequest`.
use agent_financial_action_l.Base.{
  ◌≡◌, refl, true, false, some, none, arith, ltb, eq_refl, String, Option, ◌≢◌, eq_iff, ℕ, ap,
}
use agent_financial_action_l.Base.Action.{ok, assert_found}
use agent_financial_action_l.Base.Map.{lookup}
use agent_financial_action_l.Clients.Auth.{
  authenticate_request, create_signed_headers, SignedHeaders, AuthenticationRequest, IdRef,
  Platform, Clock, Did, truthy, ClientStore, ClientRecord, signed_text, distance, is_foreign,
  get_replay_record, replay_key_of, Credentials,
}
use agent_financial_action_l.Clients.Auth.Admission.{admitted}

-- The request that carries signed headers.
abbrev pub carrying : SignedHeaders → IdRef → Option Did → AuthenticationRequest
carrying h request_ref subject_did = record {
  client_id = some h.client_id;
  request_ref = request_ref;
  timestamp = some h.request_timestamp;
  signature = some h.request_signature;
  subject_did = subject_did;
}

truthy_given : (s : String) → s ≢ "" → truthy (some s) ≡ some s
truthy_given s h = ground (arith, eq_iff s "")

module _ (platform : Platform) (clock clock' : Clock) (s : ClientStore) (id ref at : String)
    (subject : Option Did) (client : ClientRecord) (time : ℕ)
    (found : lookup id s.clients ≡ some client) (keyed : client.client_id ≡ id) where
  abbrev pub headers : SignedHeaders
  headers = record {
    client_id = id;
    request_timestamp = at;
    request_signature = platform.sha256 (signed_text client ref at);
  }

  -- Headers signed for an active client of the store, at a time that the service reads, are
  -- accepted within the window and for the client's own subject, unless the same reference and time
  -- were seen before. The client's id, the time and the hash are not empty texts.
  pub signed_headers_accepted :
      id ≢ ""
      → at ≢ ""
      → headers.request_signature ≢ ""
      → client.auth.active ≡ true
      → platform.parse_time at ≡ some time
      → ltb clock'.max_request_age_ms (distance clock'.now_ms time) ≡ false
      → is_foreign (truthy subject) client.subject_did ≡ false
      → get_replay_record id (replay_key_of ref at) s ≡ none
      → (create_signed_headers platform clock id ref (some at) s ≡ (ok headers, s))
        × ((authenticate_request platform clock' (carrying headers ref subject) s).0 ≡ ok client)
  unfolding create_signed_headers
  signed_headers_accepted id_given at_given signature_given active parsed fresh own unseen =
      let given : Credentials = record {
        client_id = id;
        timestamp = at;
        signature = headers.request_signature;
      } in
      (
        rw (found, assert_found, keyed) refl,
        ap (λ x. x.0)
            (admitted platform clock' (carrying headers ref subject) s client given time (record {
              given_eq =
                  rw
                    (
                      truthy_given id id_given,
                      truthy_given at at_given,
                      truthy_given headers.request_signature signature_given,
                    )
                    refl;
              client_eq = found;
              active = active;
              time_eq = parsed;
              fresh = fresh;
              signed = eq_refl headers.request_signature;
              scoped = own;
              unseen = rw keyed unseen;
            })),
      )
