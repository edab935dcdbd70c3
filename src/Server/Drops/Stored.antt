-- ===== src/Server/Drops/Stored.antt =====
-- A stored report is read back.
use httshark.Base.{
  ℕ, suc, Bool, not, ◌&&◌, ◌==◌, ◌+◌, ◌-◌, ◌≤◌, ◌<◌, ◌≡◌, ◌≢◌, ◌⊎◌, refl, ap, ap₂, sym, ◌∙◌, true,
  some, List, [], ◌∷◌, ◌++◌, append_assoc, Bytes, codes, arith, ltb, if_false, if_true, false,
  length, length-append, take, drop, All, All-append, Bool-cases, inl, inr,
}
use httshark.Go.Text.{index, has_prefix, Lacks}
use httshark.Go.Space.{trim_space, trim_space_between, IsVisible}
use httshark.Go.Number.{IsDigits}
use httshark.Tshark.Command.{Streamed, packet_drop, read_error_line, without_newline}
use httshark.Tshark.Command.Lines.{without_newline_lem, read_error_line_lem}
use httshark.Server.Drops.{
  parts_at, stats_between, trimmed_parts, report_last, report_from, parts_at_slash,
  get_packet_drop_stats, last_line, put_metrics, report_line, report_dropped_packets,
}

index_at : (b : ℕ) (xs ys : Bytes) → Lacks b xs → index (xs ++ (b ∷ ys)) (b ∷ []) ≡ some (length xs)
unfolding index has_prefix
index_at b [] ys h = ground arith
index_at b (x ∷ xs) ys (hx, h) = ground (arith, index_at b xs ys h)

drop_at : (xs ys : Bytes) → drop (length xs) (xs ++ ys) ≡ ys
drop_at [] ys = refl
drop_at (x ∷ xs) ys = drop_at xs ys

take_at : (xs ys : Bytes) → take (length xs) (xs ++ ys) ≡ xs
take_at [] ys = refl
take_at (x ∷ xs) ys = ap (λ l. x ∷ l) (take_at xs ys)

next_of : (xs : Bytes) → suc (length xs) + 1 ≡ suc (length xs + 1)
next_of xs = omega arith

drop_past : (b : ℕ) (xs ys : Bytes) → drop (length xs + 1) (xs ++ (b ∷ ys)) ≡ ys
drop_past b [] ys = refl
drop_past b (x ∷ xs) ys = ap (λ n. drop n (x ∷ (xs ++ (b ∷ ys)))) (next_of xs) ∙ drop_past b xs ys

Lacks-append : (b : ℕ) (xs ys : Bytes) → Lacks b xs → Lacks b ys → Lacks b (xs ++ ys)
Lacks-append b xs ys h k = All-append (λ c. c ≢ b) xs ys h k

ne_of_digit : (b c : ℕ) → (b < b'0') ⊎ (b'9' < b) → (b'0' ≤ c) × (c ≤ b'9') → c ≢ b
ne_of_digit b c (inl o) (low, high) q = absurd (omega arith)
ne_of_digit b c (inr o) (low, high) q = absurd (omega arith)

visible : (c : ℕ) → (b'0' ≤ c) × (c ≤ b'9') → IsVisible c
visible c (low, high) = (omega arith, omega arith)

Lacks-IsDigits : (b : ℕ) (s : Bytes) → (b < b'0') ⊎ (b'9' < b) → IsDigits s → Lacks b s
Lacks-IsDigits b [] o h = tt
Lacks-IsDigits b (c ∷ s) o (hc, h) = ((λ q. ne_of_digit b c o hc q), Lacks-IsDigits b s o h)

parts_lem :
    (received dropped : Bytes)
    → IsDigits received
    → parts_at_slash (received ++ (b'/' ∷ dropped)) ≡ some (received, dropped)
unfolding parts_at_slash
parts_lem received dropped h =
    let lacks = Lacks-IsDigits b'/' received (inl (omega arith)) h in
    ap (parts_at (received ++ (b'/' ∷ dropped))) (index_at b'/' received dropped lacks)
    ∙ ap₂ (λ x y. some (x, y)) (take_at received (b'/' ∷ dropped)) (drop_past b'/' received dropped)

-- Between the first colon and the first parenthesis.
stats_of :
    (pre mid tail : Bytes)
    → Lacks b':' pre
    → Lacks b'(' (pre ++ (b':' ∷ mid))
    → get_packet_drop_stats (pre ++ (b':' ∷ (mid ++ (b'(' ∷ tail))))
      ≡ parts_at_slash (trim_space mid)
unfolding get_packet_drop_stats
stats_of pre mid tail no_colon no_paren =
    let front = pre ++ (b':' ∷ mid) in
    let text = pre ++ (b':' ∷ (mid ++ (b'(' ∷ tail))) in
    let same_text : text ≡ front ++ (b'(' ∷ tail) =
      sym (append_assoc pre (b':' ∷ mid) (b'(' ∷ tail)) in
    let at_paren : index text (codes "(") ≡ some (length front) =
      ap (λ t. index t (codes "(")) same_text ∙ index_at b'(' front tail no_paren in
    let at_colon : index text (codes ":") ≡ some (length pre) =
      index_at b':' pre (mid ++ (b'(' ∷ tail)) no_colon in
    let long : ltb (length front) (length pre + 1) ≡ false =
      ground (arith, length-append pre (b':' ∷ mid)) in
    let width : length front - (length pre + 1) ≡ length mid =
      omega (arith, length-append pre (b':' ∷ mid)) in
    let cut : take (length front - (length pre + 1)) (drop (length pre + 1) text) ≡ mid =
      ap₂ take width (drop_past b':' pre (mid ++ (b'(' ∷ tail))) ∙ take_at mid (b'(' ∷ tail) in
    ap₂ (stats_between text) at_colon at_paren
    ∙ ap trimmed_parts (if_false (ltb (length front) (length pre + 1)) _ _ long ∙ ap some cut)

IsVisible-IsDigits : (s : Bytes) → IsDigits s → All IsVisible s
IsVisible-IsDigits [] h = tt
IsVisible-IsDigits (c ∷ s) (hc, h) = (visible c hc, IsVisible-IsDigits s h)

unfoldable pub all_ne : ℕ → Bytes → Bool
all_ne b [] = true
all_ne b (c ∷ s) = not (c == b) && all_ne b s

pub Lacks-all_ne : (b : ℕ) (s : Bytes) → all_ne b s ≡ true → Lacks b s
unfolding all_ne
Lacks-all_ne b [] h = tt
Lacks-all_ne b (c ∷ s) h = elim (Bool-cases (c == b)) [
  | inl t ↦ absurd (ground arith)
  | inr f ↦ ((λ q. absurd (ground arith)), Lacks-all_ne b s (rw f at h))
]

last_line-append : (older : List Bytes) (l : Bytes) → last_line (older ++ (l ∷ [])) ≡ some l
last_line-append [] l = refl
last_line-append (o ∷ []) l = refl
last_line-append (o ∷ p ∷ older) l = last_line-append (p ∷ older) l

-- a report of dumpcap, of a device with two counts
abbrev pub report_of : Bytes → Bytes → Bytes → Bytes → Bytes
report_of device received dropped tail =
    packet_drop
    ++ (device ++ (codes ": " ++ (received ++ (codes "/" ++ (dropped ++ (codes " (" ++ tail))))))

Lacks-IsDigits_low : (b : ℕ) → b < b'0' → (s : Bytes) → IsDigits s → Lacks b s
Lacks-IsDigits_low b low s h = Lacks-IsDigits b s (inl low) h

slash_ne_paren : ◌≢◌ {A = ℕ} b'/' b'('
slash_ne_paren q = absurd (omega arith)

slash-IsVisible : IsVisible b'/'
slash-IsVisible = (omega arith, omega arith)

report_lem :
    (device : Bytes) (c : ℕ) (received dropped tail : Bytes)
    → Lacks b':' device
    → Lacks b'(' device
    → IsDigits (c ∷ received)
    → IsDigits dropped
    → get_packet_drop_stats (codes "| " ++ report_of device (c ∷ received) dropped tail)
      ≡ some (c ∷ received, dropped)
unfolding all_ne
report_lem device c received dropped tail colon paren (hc, hr) hd =
    let counts : Bytes = received ++ (b'/' ∷ dropped) in
    let mid : Bytes = b' ' ∷ c ∷ (counts ++ (b' ' ∷ [])) in
    let pre : Bytes = codes "| " ++ (packet_drop ++ device) in
    let before : Lacks b'(' pre =
      Lacks-append b'(' (codes "| " ++ packet_drop) device
        (Lacks-all_ne b'(' (codes "| " ++ packet_drop) refl) paren in
    let shown : All IsVisible (c ∷ counts) = (
      visible c hc,
      All-append IsVisible received (b'/' ∷ dropped) (IsVisible-IsDigits received hr)
          (slash-IsVisible, IsVisible-IsDigits dropped hd),
    ) in
    let digits_lack : (s : Bytes) → IsDigits s → Lacks b'(' s =
      Lacks-IsDigits_low b'(' (omega arith) in
    let in_counts : Lacks b'(' (counts ++ (b' ' ∷ [])) =
      Lacks-append b'(' counts (b' ' ∷ [])
        (Lacks-append b'(' received (b'/' ∷ dropped) (digits_lack received hr)
          (slash_ne_paren, digits_lack dropped hd))
        (Lacks-all_ne b'(' (b' ' ∷ []) refl) in
    let in_mid : Lacks b'(' (b':' ∷ mid) =
      Lacks-append b'(' (codes ": ") (c ∷ (counts ++ (b' ' ∷ [])))
        (Lacks-all_ne b'(' (codes ": ") refl) ((digits_lack (c ∷ []) (hc, tt)).0, in_counts) in
    let regrouped : received ++ (b'/' ∷ (dropped ++ (b' ' ∷ b'(' ∷ tail)))
        ≡ (counts ++ (b' ' ∷ [])) ++ (b'(' ∷ tail) =
      sym (
        append_assoc counts (b' ' ∷ []) (b'(' ∷ tail)
        ∙ append_assoc received (b'/' ∷ dropped) (b' ' ∷ b'(' ∷ tail)) in
    ap (λ l. get_packet_drop_stats (pre ++ (b':' ∷ b' ' ∷ c ∷ l))) regrouped
    ∙ stats_of pre mid tail
        (Lacks-append b':' (codes "| " ++ packet_drop) device
          (Lacks-all_ne b':' (codes "| " ++ packet_drop) refl) colon)
        (Lacks-append b'(' pre (b':' ∷ mid) before in_mid)
    ∙ ap parts_at_slash (trim_space_between c counts shown)
    ∙ parts_lem (c ∷ received) dropped (hc, hr)

has_prefix-append : (p s : Bytes) → has_prefix p (p ++ s) ≡ true
unfolding has_prefix
has_prefix-append [] s = refl
has_prefix-append (c ∷ p) s = ground (arith, has_prefix-append p s)

-- what is published of a stored line
published :
    {F : Type 0}
    → (parse_float : Bytes → F) (dcva_name now device : Bytes) (c : ℕ)
      (received dropped tail : Bytes) (older : List Bytes)
    → Lacks b'|' now
    → Lacks b':' device
    → Lacks b'(' device
    → IsDigits (c ∷ received)
    → IsDigits dropped
    → report_dropped_packets parse_float dcva_name true (
        some
          (older ++ ((now ++ (codes " | " ++ report_of device (c ∷ received) dropped tail)) ∷ [])))
      ≡ some (
          (dcva_name ++ codes "_received_packets", parse_float (c ∷ received))
          ∷ (dcva_name ++ codes "_dropped_packets", parse_float dropped)
          ∷ [])
unfolding report_dropped_packets report_last report_line put_metrics all_ne
published parse dcva now device c received dropped tail older no_pipe colon paren hr hd =
    let report : Bytes = codes "| " ++ report_of device (c ∷ received) dropped tail in
    let front : Bytes = now ++ (b' ' ∷ []) in
    let line : Bytes = now ++ (b' ' ∷ report) in
    let same_line : line ≡ front ++ report = sym (append_assoc now (b' ' ∷ []) report) in
    let lacks : Lacks b'|' front =
      Lacks-append b'|' now (b' ' ∷ []) no_pipe (Lacks-all_ne b'|' (b' ' ∷ []) refl) in
    let at_pipe : index line (codes "|") ≡ some (length front) =
      ap (λ l. index l (codes "|")) same_line ∙ index_at b'|' front _ lacks in
    let rest : drop (length front) line ≡ report =
      ap (drop (length front)) same_line ∙ drop_at front report in
    ap (report_last parse dcva) (last_line-append older line)
    ∙ ap (report_from parse dcva line) at_pipe
    ∙ ap (λ r. put_metrics parse dcva (get_packet_drop_stats r)) rest
    ∙ ap (put_metrics parse dcva) (report_lem device c received dropped tail colon paren hr hd)

-- For a line of dumpcap's error output that reports the packets received and dropped on a device
-- whose name has neither `:` nor `(`, `streamRead` adds one text to those for the file of reports,
-- with the time in front, which has no `|`. Where the line that this text makes is the last one of
-- the file, the two numbers that are published are those of the report, under the two names of the
-- host.
pub stored_lem :
    {F : Type 0}
    → (parse_float : Bytes → F) (dcva_name now device : Bytes) (c : ℕ)
      (received dropped tail : Bytes) (older : List Bytes) (s : Streamed)
    → Lacks b'|' now
    → Lacks b':' device
    → Lacks b'(' device
    → IsDigits (c ∷ received)
    → IsDigits dropped
    → let report = report_of device (c ∷ received) dropped tail in
      (written : Bytes) × ((read_error_line now report s).persisted ≡ written ∷ s.persisted)
      × (report_dropped_packets parse_float dcva_name true
            (some (older ++ (without_newline written ∷ [])))
          ≡ some (
              (dcva_name ++ codes "_received_packets", parse_float (c ∷ received))
              ∷ (dcva_name ++ codes "_dropped_packets", parse_float dropped)
              ∷ []))
stored_lem parse dcva now device c received dropped tail older s no_pipe colon paren hr hd =
    let report = report_of device (c ∷ received) dropped tail in
    let line = now ++ codes " | " ++ report in
    let regrouped : without_newline (line ++ codes "\n") ≡ now ++ (codes " | " ++ report) =
      without_newline_lem line ∙ append_assoc now (codes " | ") report in
    (
      line ++ codes "\n",
      (read_error_line_lem now report s).1
          ∙ if_true (has_prefix packet_drop report) _ _ (has_prefix-append packet_drop _),
      ap (λ l. report_dropped_packets parse dcva true (some (older ++ (l ∷ [])))) regrouped
          ∙ published parse dcva now device c received dropped tail older no_pipe colon paren hr hd,
    )
