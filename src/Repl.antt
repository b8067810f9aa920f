-- ===== src/Repl.antt =====
-- distconf/internal/repl: a static leader, majority commits, followers behind a stream.
pub mod Applier
pub mod History
pub mod Advance
pub mod Replay
pub mod Leader
pub mod Commit
pub mod Catchup
pub mod Follower
pub mod Pusher
pub mod Broadcaster
pub mod Keys
pub mod Transfer
pub mod Feed
