-- ===== src/Sealed.antt =====
-- Sealed sender, of sdk/ts/src/api.ts.
pub mod Listing
pub mod Contents
pub mod Send
pub mod Receive
