-- ===== src/Dump/Endpoint.antt =====
-- httpdump/endpoint.go, and the key of a connection in httpdump/tcp_assembly.go (`assemble`).
pub mod Symmetry
use httshark.Base.{ℕ, Bool, ◌&&◌, ◌++◌, ◌∷◌, Bytes, ◌==◌, same, if◌then◌else◌, pos}
use httshark.Go.Text.{lt_bytes}
use httshark.Go.Number.{itoa}

-- `port` is a `uint16`.
pub record Endpoint : Type 0 where
  pub ip : Bytes
  pub port : ℕ

unfoldable pub equals : Endpoint → Endpoint → Bool
equals p p₂ = same p.ip p₂.ip && p.port == p₂.port

-- `String`
unfoldable pub to_string : Endpoint → Bytes
to_string p = p.ip ++ (b':' ∷ itoa (pos p.port))

-- the key in `assemble`
unfoldable pub connection_key : Endpoint → Endpoint → Bytes
connection_key src dst =
    let src_string = to_string src in
    let dst_string = to_string dst in
    if lt_bytes src_string dst_string
    then src_string ++ (b'-' ∷ dst_string)
    else dst_string ++ (b'-' ∷ src_string)
