-- ===== src/Export/Collect.antt =====
-- exporters/processor.go: `process`, `dumpTransactions` and the two goroutines `aggregate` and
-- `export`, which run beside each other. What `Export/Convert.antt` and `Export/Split.antt` leave
-- open is open here; so are the HAR processors, which are functions on a state of their own.
pub mod Dump
pub mod Loops
pub mod Tests
use httshark.Base.{
  ℕ, ◌+◌, ◌-◌, ◌%◌, ◌^◌, Bool, true, false, not, Option, none, some, List, [], ◌∷◌, ◌++◌, map,
  Bytes, if◌then◌else◌, length,
}
use httshark.Core.Entries.{HttpTransaction}
use httshark.Har.{Entry, Har}
use httshark.Export.Convert.{Outside, convert}
use httshark.Export.Split.{Groups, should_dump_entry, get_har_files}

-- The part of the configuration that is read here; `content_types_to_keep` is set by `Start`.
pub record Config : Type 0 where
  pub outside : Outside
  pub content_types_to_keep : List Bytes
  pub ignore_health_check : Bool
  pub split_by_host : Bool
  pub arrange : Groups → Groups

-- A HAR processor gets the file by a pointer, may change it, and tells whether it failed.
abbrev pub HarProcessor : Type 0 → Type 0
HarProcessor S = S → Har → S × Har × Bool

module _ {S : Type 0} where
  -- `process`, with the number of warnings; the file goes on as the processors leave it
  unfoldable pub process : List (HarProcessor S) → S → Har → S × Har × ℕ
  process [] s file = (s, file, 0)
  process (har_processor ∷ processors) s file =
      let (s₁, file₁, failed) = har_processor s file in
      let (s₂, file₂, warnings) = process processors s₁ file₁ in
      (s₂, file₂, (if failed then 1 else 0) + warnings)

  -- the loop over `harFiles`
  unfoldable pub process_all : List (HarProcessor S) → S → List Har → S × ℕ
  process_all processors s [] = (s, 0)
  process_all processors s (file ∷ files) =
      let (s₁, file₁, here) = process processors s file in
      let (s₂, later) = process_all processors s₁ files in (s₂, here + later)

-- the loop over `transactions`: the entries and `numOfIgnoredEntries`
unfoldable pub convert_all : Config → List HttpTransaction → List Entry × ℕ
convert_all config [] = ([], 0)
convert_all config (t ∷ transactions) =
    let entry = convert config.outside config.content_types_to_keep t in
    let (entries, ignored) = convert_all config transactions in
    if should_dump_entry config.ignore_health_check entry
    then (entry ∷ entries, ignored)
    else (entries, ignored + 1)

-- the files that `dumpTransactions` hands to `process`
unfoldable pub files_of : Config → List HttpTransaction → List Har
files_of config transactions =
    get_har_files config.split_by_host config.arrange (convert_all config transactions).0

-- `dumpTransactions`: the processors' state, `p.count` (a `uint64`) and the warnings
unfoldable pub dump_transactions :
    {S : Type 0} → Config → List (HarProcessor S) → S → ℕ → List HttpTransaction → S × ℕ × ℕ
unfolding files_of
dump_transactions config processors s count [] = (s, count, 0)
dump_transactions config processors s count (t ∷ ts) =
    let (s₁, warnings) = process_all processors s (files_of config (t ∷ ts)) in
    let ignored = (convert_all config (t ∷ ts)).1 in
    (s₁, (count + (length (t ∷ ts) - ignored)) % 2 ^ 64, warnings)
