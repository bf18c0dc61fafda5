-- ===== src/Mrs.antt =====
-- internal/rules/parse_mrs.go and domainset.go: the binary lists of mihomo.
pub mod Words
pub mod Reader
pub mod Stream
pub mod Trie
pub mod Cidrs
pub mod Native
pub mod DomainSet
