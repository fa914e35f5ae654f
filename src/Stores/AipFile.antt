-- ===== src/Stores/AipFile.antt =====
-- backend/aip/file-store.ts (`JsonFileAipStore`): what the snapshot of its file holds.
use agent_financial_action_l.Base.{List, Option}
use agent_financial_action_l.Types.{IdRef}
use agent_financial_action_l.Types.Aip.{IdentityRecord, CredentialRecord}
use agent_financial_action_l.Stores.File.{find_entry, put_entry}

pub record AipSnapshot : Type 0 where
  pub identities : List IdentityRecord
  pub credentials : List CredentialRecord

unfoldable pub get_identity : IdRef → AipSnapshot → Option IdentityRecord
unfolding find_entry
get_identity ref s = find_entry (λ (v : IdentityRecord). v.id) ref s.identities

unfoldable pub put_identity : IdentityRecord → AipSnapshot → AipSnapshot
unfolding put_entry
put_identity v s = record s { identities = put_entry (λ (w : IdentityRecord). w.id) v s.identities }

abbrev pub list_identities : AipSnapshot → List IdentityRecord
list_identities s = s.identities

unfoldable pub get_credential : IdRef → AipSnapshot → Option CredentialRecord
unfolding find_entry
get_credential ref s = find_entry (λ (v : CredentialRecord). v.credential.id) ref s.credentials

unfoldable pub put_credential : CredentialRecord → AipSnapshot → AipSnapshot
unfolding put_entry
put_credential v s = record s {
  credentials = put_entry (λ (w : CredentialRecord). w.credential.id) v s.credentials;
}

abbrev pub list_credentials : AipSnapshot → List CredentialRecord
list_credentials s = s.credentials
