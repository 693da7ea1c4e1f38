-- ===== src/Vpn/Singbox.antt =====
-- The sing-box client profile, packages/vpn/src/singbox.ts: the data it is built from, its outbounds
-- and the groups over them. `Profile` has the whole document.
pub mod Data
pub mod Outbounds
pub mod Profile
