-- ===== src/Examples.antt =====
-- The theorems at concrete inputs.
mod Varint
mod Data
mod Messages
mod Sessions
mod Servers
mod Managers
mod Digests
mod Players
mod Playback
mod Businesses
mod Policies
mod Formats
mod Arrivals
