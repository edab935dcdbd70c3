-- ===== src/Export/S3.antt =====
-- exporters/s3.go: the client that gathers entries and puts them into a bucket. What is outside is
-- an argument: `json.Marshal` of the map, gzip, whether the object can be put, and the clock. The
-- mutex makes `Process` and a tick of `init` run one after the other.
pub mod Failure
pub mod Gathered
pub mod Held
pub mod Batches
pub mod Tests
use httshark.Base.{
  ℕ, ◌+◌, ◌==◌, Bool, true, false, Option, none, some, List, [], ◌∷◌, ◌++◌, map, Bytes, codes, ℤ,
  pos, ltb_ℤ, if◌then◌else◌, length, bytes_eq, lookup, insert,
}
use httshark.Go.Number.{itoa}
use httshark.Har.{Entry, Har, Request, empty, get_app_id}
use httshark.Export.Split.{Groups, or_nil}

pub data Reason : Type 0 where
  size time : Reason

-- `Reason.String`
abbrev pub reason_text : Reason → Bytes
reason_text size = codes "S"
reason_text time = codes "T"

-- `S3Client` without the service, the timer and the logger
pub record S3Client : Type 0 where
  pub data_holder : Groups

-- what `init` makes
abbrev pub new_s3_client : S3Client
new_s3_client = record { data_holder = [] }

-- the part of the configuration that is read here, and the code outside
pub record Outside : Type 0 where
  pub dcva_name : Bytes
  pub instance_id : ℤ
  pub should_compress : Bool
  pub max_num_of_entries : ℤ
  pub marshal : Groups → Option Bytes
  pub gzip : Bytes → Option Bytes

-- one attempt: the clock when the name is made, and whether the service takes the object
pub record Attempt : Type 0 where
  pub now : ℤ
  pub taken : Bool

-- What an export leads to. The object that has been put comes with the map that was marshalled.
pub data Outcome : Type 0 where
  nothing : Outcome
  pushed : Bytes → Bytes → Groups → Outcome
  marshal_failed compress_failed push_failed : Outcome

-- `getFileName`
unfoldable pub get_file_name : Outside → ℕ → Reason → ℤ → Bytes
get_file_name o entries_count reason now =
    o.dcva_name
    ++ codes "__"
    ++ itoa o.instance_id
    ++ codes "__"
    ++ itoa (pos entries_count)
    ++ codes "__"
    ++ reason_text reason
    ++ codes "__"
    ++ itoa now
    ++ codes ".har"
    ++ (if o.should_compress then codes ".gzip" else [])

-- `getNumOfEntries`, for the map
unfoldable pub get_num_of_entries : Groups → ℕ
get_num_of_entries [] = 0
get_num_of_entries ((app_id, entries) ∷ groups) = length entries + get_num_of_entries groups

-- `pushToS3` and what follows it in `doExport`
unfoldable pub push_to_s3 : Attempt → Bytes → Bytes → S3Client → S3Client × Outcome
push_to_s3 attempt file_name body s =
    if attempt.taken
    then (record s { data_holder = [] }, pushed file_name body s.data_holder)
    else (s, push_failed)

-- `doExport` after `json.Marshal`
unfoldable pub export_data : Outside → Attempt → Bytes → Bytes → S3Client → S3Client × Outcome
unfolding push_to_s3
export_data o attempt file_name body s =
    let compressed = elim (o.gzip body) as (λ x. S3Client × Outcome) [
      | none ↦ (s, compress_failed)
      | some packed ↦ push_to_s3 attempt file_name packed s
    ] in
    let plain = push_to_s3 attempt file_name body s in
    if o.should_compress then compressed else plain

-- `doExport`
unfoldable pub do_export : Outside → ℕ → Reason → Attempt → S3Client → S3Client × Outcome
unfolding export_data get_file_name
do_export o num_of_entries reason attempt s =
    let exported = elim (o.marshal s.data_holder) as (λ x. S3Client × Outcome) [
      | none ↦ (s, marshal_failed)
      | some body ↦ export_data o attempt (get_file_name o num_of_entries reason attempt.now) body s
    ] in
    if num_of_entries == 0 then (s, nothing) else exported

-- `doExportWrapper`, which a tick calls
unfoldable pub do_export_wrapper : Outside → Reason → Attempt → S3Client → S3Client × Outcome
unfolding do_export get_num_of_entries
do_export_wrapper o reason attempt s =
    do_export o (get_num_of_entries s.data_holder) reason attempt s

-- The loop that empties the identifiers. They are shared by all copies of an entry; `AppId = nil`
-- is set in the loop's own copy, which is dropped.
unfoldable pub empty_app_id : Entry → Entry
empty_app_id entry =
    let request = entry.request in
    record entry { request = record request { app_id = empty entry.request.app_id } }

-- the client's map with the entries of the file
unfoldable pub hold : Bytes → List Entry → S3Client → S3Client
hold app_id entries s = record s {
  data_holder = insert app_id (or_nil (lookup app_id s.data_holder) ++ entries) s.data_holder;
}

-- the end of `Process`
unfoldable pub export_full : Outside → Attempt → S3Client → S3Client × Outcome
unfolding do_export get_num_of_entries
export_full o attempt s =
    let num_of_entries = get_num_of_entries s.data_holder in
    let exported = do_export o num_of_entries size attempt s in
    if ltb_ℤ o.max_num_of_entries (pos num_of_entries) then exported else (s, nothing)

-- `Process`: the client, the file as it is left, and the outcome. A file without entries makes
-- `Entries[0]` panic.
unfoldable pub process : Outside → Attempt → Har → S3Client → Option (S3Client × Har × Outcome)
unfolding empty_app_id hold export_full
process o attempt file s = elim file.log.entries [
  | [] ↦ none
  | entry ∷ entries ↦
      let app_id = get_app_id entry in
      let emptied = map empty_app_id (entry ∷ entries) in
      let log = file.log in
      let (s', outcome) = export_full o attempt (hold app_id emptied s) in
      some (s', record file { log = record log { entries = emptied } }, outcome)
]
