-- ===== src/Bridge.antt =====
-- sdk/ts/src/bridge.ts: typed calls into the wasm core.
pub mod Call
pub mod View
pub mod Keys
pub mod Sessions
pub mod Circles
pub mod Envelopes
pub mod Reports
pub mod Handles
pub mod Vault
pub mod Primitives
pub mod Memory
