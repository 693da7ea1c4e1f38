-- ===== src/Home.antt =====
-- What the home machine serves: packages/home/src.
pub mod Samba
mod Examples
