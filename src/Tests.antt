-- ===== src/Tests.antt =====
-- Runs of the theorems at concrete inputs.
mod Data
mod Sessions
mod Codecs
mod Delivery
mod Overflow
mod Classes
mod Calls
mod Groupings
mod Turns
mod Circles
mod Peers
mod Overlaps
mod Filled
