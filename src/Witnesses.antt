-- ===== src/Witnesses.antt =====
-- The theorems at concrete inputs.
mod Session
mod Values
mod Machine
mod Libraries
mod Process
mod Done
mod Life
mod Tabled
mod Mounts
mod Remote
