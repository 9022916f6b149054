-- ===== src/Mixnet.antt =====
-- The mixnet's servers and client: mixnet/mixnet.go and mixnet/settings.go.
pub mod Filter
pub mod Settings
pub mod Replies
pub mod Rounds
pub mod Fetching
pub mod Adding
pub mod Starting
pub mod Chain
pub mod Examples
