-- ===== src/Dump/Header.antt =====
-- httpdump/http_traffic_handler.go: `convertHeaders`. The map of net/http has at least one value
-- for each name; it comes in the order in which Go walks through it.
use httshark.Base.{List, ◌++◌, map, Bytes, codes}

-- `fmt.Sprintf("%v: %v", name, values[0])`
unfoldable pub convert_header : Bytes × Bytes × List Bytes → Bytes
convert_header (name, value, more) = name ++ (codes ": " ++ value)

unfoldable pub convert_headers : List (Bytes × Bytes × List Bytes) → List Bytes
unfolding convert_header
convert_headers = map convert_header
