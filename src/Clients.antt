-- ===== src/Clients.antt =====
-- backend/afal/clients/store.ts (`InMemoryExternalAgentClientStore`) and
-- backend/afal/clients/service.ts (`ExternalAgentClientService`). `sha256` and `Date.parse` are a
-- parameter, times are milliseconds since 1970, and a random signing key is an argument.
pub mod Store
pub mod Auth
pub mod Callbacks
