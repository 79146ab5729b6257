-- ===== src/Tests.antt =====
-- The theorems at concrete inputs, and runs of the code on them.
mod Packets
mod Zones
mod Bridges
mod Fences
mod Configs
mod Runs
