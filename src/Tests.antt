-- ===== src/Tests.antt =====
-- Concrete runs of the modelled code, and the theorems at concrete inputs.
mod Ports
mod Routing
mod Ranges
mod Health
mod Friends
mod Library
mod Lists
mod Mrs
mod Lines
mod Providers
mod Applications
mod Geo
mod Uci
