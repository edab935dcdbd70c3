-- ===== src/Export/File/Tests.antt =====
-- A batch of three entries of two applications, written in one second.
use httshark.Base.{◌≡◌, ◌≢◌, refl, true, false, none, some, [], Bytes, codes, bytes_eq, lookup}
use httshark.Har.{Har}
use httshark.Export.Split.{get_har_file, get_har_files}
use httshark.Export.Split.Group.{with_app_id}
use httshark.Export.Split.Tests.{three, in_list_order, in_list_order-WalksGroups}
use httshark.Core.Files.{Disk}
use httshark.Export.File.{Outside, Attempt}
use httshark.Export.File.Kept.{write_all, path_for, batch_kept}

abbrev version_only : Har → Bytes
version_only file = file.log.version

abbrev by_app_id : Outside
by_app_id = record {
  output_folder = codes "/tmp";
  split_by_app_id = true;
  marshal = λ file. some (version_only file);
}

abbrev at_noon : Attempt
at_noon = record { formatted_time = codes "2020-04-06T12:00:00"; failed_write = none }

batch_kept_example :
    (disk' : Disk) × (write_all by_app_id at_noon (get_har_files true in_list_order three) []
      ≡ some disk')
    × ((id : Bytes)
        → with_app_id id three ≢ []
        → lookup (path_for by_app_id at_noon id) disk'
          ≡ some (version_only (get_har_file (with_app_id id three))))
batch_kept_example =
    batch_kept by_app_id at_noon version_only in_list_order refl refl (λ file. refl)
      in_list_order-WalksGroups three []

abbrev unsplit : Outside
unsplit = record by_app_id { split_by_app_id = false }

abbrev first_file : Har
first_file = get_har_file three
