-- ===== src/Dump.antt =====
-- The httpdump capture engine, package httpdump: TCP sequence numbers (Seq), the receive window
-- of one direction of a connection (Window), that direction as a stream (Stream), the two of a
-- connection (Connection), the table of connections and the loop that feeds it (Assembler), the
-- goroutine that reads requests and answers (Handler) with their headers (Header), the names of
-- connections (Endpoint), what starts a request (Detect), what is captured (Filter), and the device it is
-- captured from (Device).
pub mod Packet
pub mod Seq
pub mod Window
pub mod Header
pub mod Handler
pub mod Stream
pub mod Connection
pub mod Assembler
pub mod Detect
pub mod Filter
pub mod Endpoint
mod Device
