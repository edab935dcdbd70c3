-- ===== src/Server/Drops.antt =====
-- server/entrypoint.go: the report of dropped packets (`getPacketDropStats`,
-- `reportDroppedPackets`). `strconv.ParseFloat`, whose error is dropped, is an argument, as are the
-- lines of the file that tshark/command.go writes.
pub mod Stored
use httshark.Base.{
  ◌+◌, ◌-◌, Bool, true, false, Option, none, some, List, [], ◌∷◌, ◌++◌, Bytes, codes, ltb,
  if◌then◌else◌, ℕ, take, drop,
}
use httshark.Go.Text.{index}
use httshark.Go.Space.{trim_space}

-- `strings.Index(s, ":") + 1`, where -1 stands for a missing one
abbrev pub after : Option ℕ → ℕ
after none = 0
after (some i) = i + 1

-- `s[left:right]`; `none` is a panic
abbrev pub slice : ℕ → ℕ → Bytes → Option Bytes
slice left right s = if ltb right left then none else some (take (right - left) (drop left s))

-- `temp[0:slashIdx]` and `temp[slashIdx+1:]`
abbrev pub parts_at : Bytes → Option ℕ → Option (Bytes × Bytes)
parts_at temp none = none
parts_at temp (some i) = some (take i temp, drop (i + 1) temp)

unfoldable pub parts_at_slash : Bytes → Option (Bytes × Bytes)
parts_at_slash temp = parts_at temp (index temp (codes "/"))

abbrev pub trimmed_parts : Option Bytes → Option (Bytes × Bytes)
trimmed_parts none = none
trimmed_parts (some text) = parts_at_slash (trim_space text)

abbrev pub stats_between : Bytes → Option ℕ → Option ℕ → Option (Bytes × Bytes)
stats_between report colon none = none
stats_between report colon (some right) = trimmed_parts (slice (after colon) right report)

-- `getPacketDropStats`, before `strconv.ParseFloat`
unfoldable pub get_packet_drop_stats : Bytes → Option (Bytes × Bytes)
unfolding parts_at_slash
get_packet_drop_stats report =
    stats_between report (index report (codes ":")) (index report (codes "("))

-- `lines[len(lines)-1]`
abbrev pub last_line : List Bytes → Option Bytes
last_line [] = none
last_line (l ∷ []) = some l
last_line (l ∷ m ∷ lines) = last_line (m ∷ lines)

module _ {F : Type 0} (parse_float : Bytes → F) (dcva_name : Bytes) where
  -- the two calls of `PutMetric`
  unfoldable pub put_metrics : Option (Bytes × Bytes) → Option (List (Bytes × F))
  put_metrics none = none
  put_metrics (some (received, dropped)) = some (
      (dcva_name ++ codes "_received_packets", parse_float received)
      ∷ (dcva_name ++ codes "_dropped_packets", parse_float dropped)
      ∷ [])

  abbrev pub report_from : Bytes → Option ℕ → Option (List (Bytes × F))
  report_from line none = some []
  report_from line (some pipe) = put_metrics (get_packet_drop_stats (drop pipe line))

  unfoldable pub report_line : Bytes → Option (List (Bytes × F))
  unfolding put_metrics get_packet_drop_stats
  report_line line = report_from line (index line (codes "|"))

  unfoldable pub report_last : Option Bytes → Option (List (Bytes × F))
  unfolding report_line
  report_last none = none
  report_last (some line) = report_line line

  -- `reportDroppedPackets`: the metrics, where `none` is a panic; `lines` are those of the file,
  -- if it exists, and `none` an error of reading it
  unfoldable pub report_dropped_packets : Bool → Option (List Bytes) → Option (List (Bytes × F))
  unfolding report_last
  report_dropped_packets exists lines =
      let reported = elim lines as (λ x. Option (List (Bytes × F))) [
        | none ↦ some []
        | some lines ↦ report_last (last_line lines)
      ] in
      if exists then reported else some []
