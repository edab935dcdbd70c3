-- ===== src/Core.antt =====
-- Package core: what the capture engines and the exporters share (Entries, Hosts), what the
-- program accepts on its command line (Config), and its log (Snapshot,
-- Aggregated), and the files that it saves (Files).
pub mod Entries
pub mod Hosts
pub mod Config
pub mod Snapshot
pub mod Aggregated
pub mod Files
