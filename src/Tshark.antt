-- ===== src/Tshark.antt =====
-- The tshark capture engine: lines of tshark's output become JSON texts (Line), these become
-- requests and responses (Bulk), and these are paired (Correlator). Filter is what dumpcap captures,
-- Command how both are run and read.
pub mod Line
pub mod Bulk
pub mod Correlator
pub mod Filter
pub mod Command
