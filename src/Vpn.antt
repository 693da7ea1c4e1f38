-- ===== src/Vpn.antt =====
-- The VPN package, packages/vpn: its users, the client profiles and their delivery, the server, and
-- a script.
pub mod Users
pub mod Roster
pub mod Singbox
pub mod ExitPort
pub mod Claim
pub mod Xray
pub mod Hysteria
pub mod Delivery
mod Examples
mod ServerExamples
mod DeliveryExamples
mod HysteriaExamples
