-- ===== src/Tests.antt =====
-- Runs of the definitions at concrete inputs, and the theorems applied there.
mod Overlay
mod Domain
mod Nets
mod Egress
mod Save
mod Admin
mod Flow
mod Parse
mod Quic
mod World
mod Running
mod Service
mod Session
