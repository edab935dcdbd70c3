-- ===== src/Export/S3/Tests.antt =====
-- Files of one entry, put into a bucket that takes objects or refuses them.
use httshark.Base.{
  ◌≡◌, ◌≤◌, ◌++◌, ◌⊎◌, refl, Bytes, ℤ, none, All, insert, lookup, true, false, some, List, [], ◌∷◌,
  codes, pos,
}
use httshark.Har.{Entry, Har, get_app_id, to_string}
use httshark.Export.Convert.Tests.{plain, post}
use httshark.Core.Entries.{HttpTransaction}
use httshark.Export.Convert.{convert, convert_request, get_headers, get_header}
use httshark.Go.Number.{itoa}
use httshark.Go.Text.{index}
use httshark.Go.Space.{trim_space}
use httshark.Export.Collect.{Config, files_of}
use httshark.Export.Collect.Tests.{by_host}
use httshark.Export.Split.{get_har_file, should_dump_entry}
use httshark.Export.Split.Tests.{entry_to}
use httshark.Export.S3.{
  size, S3Client, new_s3_client, Outside, Attempt, push_failed, do_export, process, Outcome,
  empty_app_id, hold, get_num_of_entries, export_full, export_data, push_to_s3,
}
use httshark.Export.S3.Failure.{do_export_lem, IsExport}
use httshark.Export.S3.Gathered.{
  HasEntries, Event, file, tick, run, held, put_by_all, brought_by_all, run_conserves,
}
use httshark.Export.S3.Held.{HasFailed, process_lem, ignored_batch_panics}

-- An object is the text of nothing but its packing; one entry is held at most.
abbrev pub service : Outside
service = record {
  dcva_name = codes "dcva";
  instance_id = pos 7;
  should_compress = true;
  max_num_of_entries = pos 1;
  marshal = λ groups. some (codes "{}");
  gzip = λ body. some (codes "gz" ++ body);
}

abbrev pub taken_at : ℤ → Attempt
taken_at now = record { now = now; taken = true }

abbrev pub refused_at : ℤ → Attempt
refused_at now = record { now = now; taken = false }

abbrev get_a : Entry
get_a = entry_to (codes "a") (codes "GET")

abbrev put_a : Entry
put_a = entry_to (codes "a") (codes "PUT")

abbrev holding : S3Client
holding = record { data_holder = (codes "a_80", get_a ∷ []) ∷ [] }

do_export_lem_example :
    IsExport service 1 size
      (refused_at (pos 4))
      holding
      (do_export service 1 size (refused_at (pos 4)) holding)
do_export_lem_example = do_export_lem service 1 size (refused_at (pos 4)) holding

-- The second file exceeds the bound, and the service refuses the object; a tick puts it later.
abbrev two_files : List Event
two_files =
    file (get_har_file (get_a ∷ [])) (taken_at (pos 4))
    ∷ file (get_har_file (put_a ∷ [])) (refused_at (pos 5))
    ∷ tick (taken_at (pos 6))
    ∷ []

has_entries : All HasEntries two_files
unfolding get_har_file
has_entries = ((λ q. absurd (cc)), ((λ q. absurd (cc)), (tt, tt)))

run_conserves_example :
    (s' : S3Client) × (outcomes : List Outcome) × (run service two_files new_s3_client
      ≡ some (s', outcomes))
    × ((app_id : Bytes)
        → put_by_all app_id outcomes ++ held app_id s'.data_holder
          ≡ held app_id [] ++ brought_by_all app_id two_files)
run_conserves_example = run_conserves service two_files has_entries new_s3_client

put_refused :
    process service (refused_at (pos 5)) (get_har_file (put_a ∷ [])) holding
    ≡ some (
      hold (codes "a_80") (empty_app_id put_a ∷ []) holding,
      get_har_file (empty_app_id put_a ∷ []),
      push_failed,
    )
unfolding process export_full do_export export_data push_to_s3 get_num_of_entries get_app_id
    to_string itoa hold insert get_har_file lookup
put_refused = refl

process_lem_example :
    (HasFailed push_failed
      ⊎ (get_num_of_entries (hold (codes "a_80") (empty_app_id put_a ∷ []) holding).data_holder
          ≤ 1))
    × All (λ e. get_app_id e ≡ codes "_0") (empty_app_id put_a ∷ [])
unfolding get_har_file
process_lem_example =
    process_lem service (refused_at (pos 5)) (get_har_file (put_a ∷ []))
      (get_har_file (empty_app_id put_a ∷ [])) holding
      (hold (codes "a_80") (empty_app_id put_a ∷ []) holding) push_failed 1 refl put_refused

-- A health check, and a configuration that ignores it.
abbrev health_check : HttpTransaction
health_check =
    let entry = post.http_entry in
    let headers = codes "Host: HOST_FOR_HC" ∷ [] in
    record {
      request = record post { http_entry = record entry { headers = headers } };
      response = none;
    }

abbrev together : Config
together = record by_host { split_by_host = false }

is_ignored : should_dump_entry true (convert plain [] health_check) ≡ false
unfolding should_dump_entry convert convert_request get_headers get_header index trim_space
is_ignored = refl

ignored_batch_panics_example :
    (ignored_file : Har) × (files_of together (health_check ∷ []) ≡ ignored_file ∷ [])
    × (process service (taken_at (pos 4)) ignored_file new_s3_client ≡ none)
ignored_batch_panics_example =
    ignored_batch_panics together service (taken_at (pos 4)) new_s3_client (health_check ∷ []) refl
      (is_ignored, tt)
