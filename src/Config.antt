-- ===== src/Config.antt =====
-- internal/config: the parts of the configuration that carry their own logic.
pub mod Ports
pub mod Model
pub mod Candidates
pub mod Applications
pub mod Uci
pub mod SectionMatch
