-- ===== src/Tshark/Bulk.antt =====
-- tshark/bulk/processor.go and tshark/types/stdout.go: JSON texts become requests and responses.
-- The JSON decoder (encoding/json) is the argument `unmarshal` of the loop.
pub mod Layers
pub mod Convert
pub mod Loop
pub mod Uri
pub mod Instant
pub mod Safety
pub mod Fields
pub mod Tests
