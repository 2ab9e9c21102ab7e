-- ===== src/Wasm.antt =====
-- sdk/ts/src/wasm-api.ts: the surface that the web client calls.
pub mod Stores
pub mod Sessions
pub mod Keys
pub mod Groups
pub mod Generate
pub mod Random
pub mod Helpers
