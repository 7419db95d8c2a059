-- ===== src/Examples.antt =====
-- The theorems at concrete inputs, and runs of the definitions.
mod Registry
mod Mirror
mod Players
mod Wire
mod Session
mod Status
mod Handshake
mod Feed
mod Items
