-- ===== src/Export/File.antt =====
-- exporters/har_to_file.go: the processor that writes each HAR file to a path of its own. The JSON
-- codec, the clock's text and the file system's errors are arguments.
pub mod Kept
mod Tests
use httshark.Base.{
  Bool, true, false, Option, none, some, List, [], ◌∷◌, ◌++◌, Bytes, codes, if◌then◌else◌, bytes_eq,
  insert,
}
use httshark.Core.Files.{Disk}
use httshark.Har.{Har, get_app_id}

-- the part of the configuration that is read here, and `json.Marshal`
pub record Outside : Type 0 where
  pub output_folder : Bytes
  pub split_by_app_id : Bool
  pub marshal : Har → Option Bytes

-- a call: the formatted time, and what `ioutil.WriteFile` leaves where it fails
pub record Attempt : Type 0 where
  pub formatted_time : Bytes
  pub failed_write : Option Disk

pub data Outcome : Type 0 where
  written : Disk → Outcome
  write_failed : Disk → Outcome
  marshal_failed panicked : Outcome

-- `appIdPrefix`; `none` is a panic, on a file without entries
unfoldable pub app_id_prefix : Bool → Har → Option Bytes
app_id_prefix split_by_app_id file =
    let of_first = elim file.log.entries as (λ x. Option Bytes) [
      | [] ↦ none
      | entry ∷ entries ↦ some (get_app_id entry ++ codes "_")
    ] in
    if split_by_app_id then of_first else some []

abbrev pub path_of : Outside → Attempt → Bytes → Bytes
path_of o attempt prefix =
    o.output_folder ++ (codes "/" ++ (prefix ++ (attempt.formatted_time ++ codes ".har")))

-- `ioutil.WriteFile`
unfoldable pub write_file : Attempt → Bytes → Bytes → Disk → Outcome
write_file attempt path text disk = elim attempt.failed_write [
  | none ↦ written (insert path text disk)
  | some disk' ↦ write_failed disk'
]

-- `HarToFile`
unfoldable pub har_to_file : Outside → Attempt → Har → Disk → Outcome
unfolding app_id_prefix write_file
har_to_file o attempt file disk = elim (o.marshal file) [
  | none ↦ marshal_failed
  | some text ↦ elim (app_id_prefix o.split_by_app_id file) [
    | none ↦ panicked
    | some prefix ↦ write_file attempt (path_of o attempt prefix) text disk
  ]
]
