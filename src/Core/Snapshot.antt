-- ===== src/Core/Snapshot.antt =====
-- core/log.go: the log and the bounded snapshot of it. A message is the text that `fmt.Sprintf`
-- makes of the call's arguments, with the formatted time before it.
pub mod Last
mod Tests
use httshark.Base.{
  ℕ, ◌-◌, ◌+◌, Bool, true, false, Option, none, some, List, [], ◌∷◌, ◌++◌, Bytes, codes, ℤ, pos,
  negsuc, ltb_ℤ, not, zero, suc, if◌then◌else◌, length, take, drop, replicate,
}

-- the part of the configuration that is read here
pub record LogConfig : Type 0 where
  pub verbose : ℤ
  pub log_snapshot_level : ℤ
  pub log_snapshot_amount : ℤ
  pub limited_error_length : ℤ

-- `logWrite`: the line on the standard output
unfoldable pub log_write : Bytes → Bytes → Bytes → Bytes
log_write time level message = time ++ codes " " ++ level ++ codes " " ++ message ++ codes "\n"

-- `s[len(s)-amount:]` where the list is longer than `amount`; a negative amount makes it panic
unfoldable pub keep_last : ℤ → List Bytes → Option (List Bytes)
keep_last (pos n) s = some (drop (length s - n) s)
keep_last (negsuc n) s = none

-- `logSnapshotAppend`; `none` is a panic
unfoldable pub log_snapshot_append : LogConfig → Bytes → Bytes → List Bytes → Option (List Bytes)
unfolding keep_last
log_snapshot_append config time message snapshot =
    let longer = snapshot ++ ((time ++ codes " " ++ message) ∷ []) in
    let cut = keep_last config.log_snapshot_amount longer in
    if ltb_ℤ config.log_snapshot_amount (pos (length longer)) then cut else some longer

-- `V1`, `V2` and `V5`, of their number: the lines on the standard output, and the snapshot
unfoldable pub log_at :
    LogConfig → ℤ → Bytes → Bytes → List Bytes → List Bytes × Option (List Bytes)
unfolding log_write log_snapshot_append
log_at config level time message snapshot =
    let written = log_write time (codes "VERB") message ∷ [] in
    let appended = log_snapshot_append config time message snapshot in
    (
      if not (ltb_ℤ config.verbose level) then written else [],
      if not (ltb_ℤ config.log_snapshot_level level) then appended else some snapshot,
    )

-- what `printSnapshot` leaves in the file, and whether it warns; `writes` calls of `Write` succeed
pub record Written : Type 0 where
  pub text : Bytes
  pub warned : Bool

-- The loop of `printSnapshot`. A line takes two calls, the text and the line's end.
unfoldable pub write_lines : ℕ → List Bytes → Written
write_lines n [] = record { text = []; warned = false }
write_lines zero (line ∷ lines) = record { text = []; warned = true }
write_lines (suc zero) (line ∷ lines) = record { text = line; warned = true }
write_lines (suc (suc n)) (line ∷ lines) =
    let rest = write_lines n lines in
    record { text = line ++ codes "\n" ++ rest.text; warned = rest.warned }

-- `printSnapshot`, where the file can be created or not; `make` gives empty strings
unfoldable pub print_snapshot : Bool → ℕ → List Bytes → Option Written
unfolding write_lines
print_snapshot is_created writes snapshot =
    let clone = replicate (length snapshot) [] in
    let written = some (write_lines writes clone) in if is_created then written else none

-- `LimitedError`, of the error's text; `none` is a panic
unfoldable pub limited_error : LogConfig → Bytes → Option Bytes
limited_error config s =
    let cut = elim config.limited_error_length as (λ x. Option Bytes) [
      | pos n ↦ some (take n s)
      | negsuc n ↦ none
    ] in
    if ltb_ℤ config.limited_error_length (pos (length s)) then cut else some s
