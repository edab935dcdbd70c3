-- ===== src/Tshark/Command/Lines.antt =====
-- What comes of the lines of tshark and dumpcap.
use httshark.Base.{
  ◌≡◌, refl, ap, ◌∙◌, true, false, List, [], ◌∷◌, ◌++◌, map, Bytes, codes, if◌then◌else◌,
  Bool-cases, inl, inr,
}
use httshark.Go.Text.{has_prefix, contains}
use httshark.Tshark.Command.{Streamed, without_newline, packet_drop, read_error_line, stream_read}

-- a line as it is read, at a time
abbrev with_newline : Bytes × Bytes → Bytes × Bytes
with_newline (now, line) = (now, line ++ codes "\n")

pub without_newline_lem : (line : Bytes) → without_newline (line ++ codes "\n") ≡ line
unfolding without_newline
without_newline_lem [] = refl
without_newline_lem (c ∷ []) = refl
without_newline_lem (c ∷ d ∷ line) = ap (λ l. c ∷ l) (without_newline_lem (d ∷ line))

-- Every line of the standard output goes to the line processor, without its end and in order, and
-- nothing else happens to it.
stream_read_lines :
    (lines : List (Bytes × Bytes))
    → stream_read true (map with_newline lines)
      ≡ record { processed = map (λ l. l.1) lines; warned = []; persisted = [] }
unfolding stream_read
stream_read_lines [] = refl
stream_read_lines ((now, l) ∷ lines) = rw (without_newline_lem l, stream_read_lines lines) refl

-- the lines that report dropped packets
abbrev reports : List (Bytes × Bytes) → List (Bytes × Bytes)
reports [] = []
reports ((now, l) ∷ lines) =
    if has_prefix packet_drop l then (now, l) ∷ reports lines else reports lines

pub read_error_line_lem :
    (now line : Bytes) (s : Streamed)
    → ((read_error_line now line s).processed ≡ s.processed)
      × ((read_error_line now line s).persisted ≡ (
          if has_prefix packet_drop line
          then (now ++ codes " | " ++ line ++ codes "\n") ∷ s.persisted
          else s.persisted))
unfolding read_error_line
read_error_line_lem now line s = elim (Bool-cases (has_prefix packet_drop line)) [
  | inl t ↦ rw t (refl, refl)
  | inr f ↦ elim (Bool-cases (contains line (codes "WARNING"))) [
    | inl t ↦ rw (f, t) (refl, refl)
    | inr g ↦ rw (f, g) (refl, refl)
  ]
]

-- Of the error stream exactly the reports of dropped packets are stored, each in a line after the
-- time, and the line processor gets nothing.
stream_read-reports :
    (lines : List (Bytes × Bytes))
    → let s = stream_read false (map with_newline lines) in
      (s.processed ≡ [])
      × (s.persisted ≡ map (λ l. l.0 ++ codes " | " ++ l.1 ++ codes "\n") (reports lines))
unfolding stream_read read_error_line
stream_read-reports [] = (refl, refl)
stream_read-reports ((now, l) ∷ lines) =
    let (none_before, stored_before) = stream_read-reports lines in
    let rest = stream_read false (map with_newline lines) in
    let (same_lines, more) = read_error_line_lem now l rest in
    rw (without_newline_lem l) (
      same_lines ∙ none_before,
      more ∙ elim (Bool-cases (has_prefix packet_drop l)) [
        | inl t ↦ rw (t, stored_before) refl
        | inr f ↦ rw f stored_before
      ],
    )
