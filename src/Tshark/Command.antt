-- ===== src/Tshark/Command.antt =====
-- tshark/command.go: the command that `Start` runs, and what `streamRead` does with the lines of
-- its output. The texts that `ReadString('\n')` gives before its first error, which ends the
-- process, are an argument, each with the formatted time of its reading.
pub mod Lines
use httshark.Base.{
  ◌==◌, Bool, true, false, ◌||◌, Option, none, some, List, [], ◌∷◌, ◌++◌, Bytes, codes, ℤ,
  if◌then◌else◌,
}
use httshark.Go.Text.{has_prefix, contains}
use httshark.Go.Number.{itoa}
use httshark.Core.Hosts.{Host}
use httshark.Tshark.Filter.{get_filter}

-- the fields that tshark prints
abbrev pub fields : List Bytes
fields =
    codes "ip.dst"
    ∷ codes "tcp.dstport"
    ∷ codes "tcp.stream"
    ∷ codes "frame.time_epoch"
    ∷ codes "http.request"
    ∷ codes "http.request.method"
    ∷ codes "http.request.version"
    ∷ codes "http.request.full_uri"
    ∷ codes "http.request.uri"
    ∷ codes "http.request.line"
    ∷ codes "http.file_data"
    ∷ codes "http.response"
    ∷ codes "http.response.version"
    ∷ codes "http.response.code"
    ∷ codes "http.response.line"
    ∷ []

unfoldable pub add_fields : Bytes → List Bytes → Bytes
add_fields args [] = args
add_fields args (field ∷ fields) = add_fields (args ++ codes " -e " ++ field) fields

-- the text `args` of `Start`; `none` is the panic of the filter
unfoldable pub command_args : Bytes → Bytes → ℤ → List Host → Option Bytes
unfolding add_fields
command_args device bpf_type buffer_size hosts = elim (get_filter bpf_type hosts) [
  | none ↦ none
  | some filter ↦ some (
      add_fields
        (codes "sudo dumpcap -i "
          ++ device
          ++ codes " -f '"
          ++ filter
          ++ codes "' -B "
          ++ itoa buffer_size
          ++ codes " -w - | sudo tshark -r - -Y http -T json")
        fields)
]

-- `line[:len(line)-1]`, where the line ends with a line end
unfoldable pub without_newline : Bytes → Bytes
without_newline [] = []
without_newline (c ∷ []) = if c == b'\n' then [] else c ∷ []
without_newline (c ∷ d ∷ line) = c ∷ without_newline (d ∷ line)

abbrev pub packet_drop : Bytes
packet_drop = codes "Packets received/dropped on interface"

-- What has been done with the lines: the calls of `Processor`, the warnings, and the lines that
-- `persistDroppedPacketsPct` adds to the file of reports.
pub record Streamed : Type 0 where
  pub processed : List Bytes
  pub warned : List Bytes
  pub persisted : List Bytes

-- a line of the error stream
unfoldable pub read_error_line : Bytes → Bytes → Streamed → Streamed
read_error_line now line s =
    let is_drop = has_prefix packet_drop line in
    if is_drop || contains line (codes "WARNING")
    then record s {
      warned = line ∷ s.warned;
      persisted =
          if is_drop then (now ++ codes " | " ++ line ++ codes "\n") ∷ s.persisted else s.persisted;
    }
    else s

-- `streamRead`, of each text with the time of its reading
unfoldable pub stream_read : Bool → List (Bytes × Bytes) → Streamed
unfolding without_newline read_error_line
stream_read collect_json [] = record { processed = []; warned = []; persisted = [] }
stream_read collect_json ((now, read) ∷ reads) =
    let line = without_newline read in
    let rest = stream_read collect_json reads in
    if collect_json
    then record rest { processed = line ∷ rest.processed }
    else read_error_line now line rest
