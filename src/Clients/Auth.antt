-- ===== src/Clients/Auth.antt =====
-- backend/afal/clients/service.ts: `authenticateRequest`, `createSignedHeaders`, `provisionClient`.
pub mod Replay
pub mod Admission
pub mod Headers
use agent_financial_action_l.Base.{
  ℕ, ◌+◌, ◌-◌, String, Bool, true, false, not, Option, none, some, ◌==◌, ltb, is_some, ◌or_else◌,
}
use agent_financial_action_l.Base.Action.{
  Action, pure, gets, throw_if, assert_found, ◌>>=◌, ◌>>◌, missing_auth_metadata, inactive_client,
  bad_timestamp, stale_timestamp, bad_signature, scope_violation, replay_detected,
}
use agent_financial_action_l.Types.{Did, IdRef, Timestamp}
use agent_financial_action_l.Clients.Store.{
  ClientRecord, ClientStore, ReplayRecord, get_client, get_replay_record, put_replay_record, truthy,
}
use Prim.Native.String.{◌++◌}

-- What the service takes from its platform: the hash of node:crypto in hexadecimal, and `Date.parse`,
-- `none` where it is not a finite number.
pub record Platform : Type 0 where
  pub sha256 : String → String
  pub parse_time : Timestamp → Option ℕ

-- The service's clock at a call, and `maxRequestAgeMs`.
pub record Clock : Type 0 where
  pub now_ms : ℕ
  pub now_iso : Timestamp
  pub max_request_age_ms : ℕ

pub record AuthenticationRequest : Type 0 where
  pub client_id : Option IdRef
  pub request_ref : IdRef
  pub timestamp : Option Timestamp
  pub signature : Option String
  pub subject_did : Option Did

-- The three headers, all of them there.
pub record Credentials : Type 0 where
  pub client_id : IdRef
  pub timestamp : Timestamp
  pub signature : String

abbrev pub all_given : Option IdRef → Option Timestamp → Option String → Option Credentials
all_given (some c) (some t) (some g) = some (record { client_id = c; timestamp = t; signature = g })
all_given _ _ _ = none

abbrev pub credentials : AuthenticationRequest → Option Credentials
credentials r = all_given (truthy r.client_id) (truthy r.timestamp) (truthy r.signature)

-- Math.abs(a - b)
abbrev pub distance : ℕ → ℕ → ℕ
distance a b = (a - b) + (b - a)

abbrev pub signed_text : ClientRecord → IdRef → Timestamp → String
signed_text client request_ref timestamp =
    client.client_id
    ++ (":" ++ (request_ref ++ (":" ++ (timestamp ++ (":" ++ client.auth.signing_key)))))

-- `request.subjectDid && request.subjectDid !== client.subjectDid`
abbrev pub is_foreign : Option Did → Did → Bool
is_foreign none own = false
is_foreign (some did) own = not (did == own)

abbrev pub replay_key_of : IdRef → Timestamp → String
replay_key_of request_ref timestamp = request_ref ++ (":" ++ timestamp)

unfoldable pub authenticate_request :
    Platform → Clock → AuthenticationRequest → Action ClientStore ClientRecord
authenticate_request platform clock request = do
  given ← assert_found (credentials request) missing_auth_metadata
  client ← get_client given.client_id
  throw_if (not client.auth.active) (inactive_client given.client_id)
  request_time ← assert_found (platform.parse_time given.timestamp) bad_timestamp
  throw_if (ltb clock.max_request_age_ms (distance clock.now_ms request_time)) stale_timestamp
  throw_if
      (not (
        platform.sha256 (signed_text client request.request_ref given.timestamp)
        == given.signature))
      bad_signature
  throw_if (is_foreign (truthy request.subject_did) client.subject_did)
      (scope_violation (request.subject_did or_else ""))
  let replay_key = replay_key_of request.request_ref given.timestamp
  existing ← gets (get_replay_record client.client_id replay_key)
  throw_if (is_some existing) (replay_detected request.request_ref)
  put_replay_record (record {
    client_id = client.client_id;
    replay_key = replay_key;
    request_ref = request.request_ref;
    timestamp = given.timestamp;
    seen_at = clock.now_iso;
  })
  pure client

pub record SignedHeaders : Type 0 where
  pub client_id : IdRef
  pub request_timestamp : Timestamp
  pub request_signature : String

unfoldable pub create_signed_headers :
    Platform → Clock → IdRef → IdRef → Option Timestamp → Action ClientStore SignedHeaders
create_signed_headers platform clock client_id request_ref at = do
  client ← get_client client_id
  let timestamp = at or_else clock.now_iso
  pure (record {
    client_id = client.client_id;
    request_timestamp = timestamp;
    request_signature = platform.sha256 (signed_text client request_ref timestamp);
  })
