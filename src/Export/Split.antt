-- ===== src/Export/Split.antt =====
-- exporters/processor.go: which entries are dumped (`shouldDumpEntry`) and how they become HAR
-- files (`getHarFiles`, `getHarFile`). The configuration's two flags and the order in which Go
-- walks through a map are arguments.
pub mod Group
pub mod Total
pub mod Tests
use httshark.Base.{
  Bool, true, false, ◌&&◌, ◌||◌, not, Option, none, some, List, [], ◌∷◌, ◌++◌, map, Bytes, codes,
  same, if◌then◌else◌, bytes_eq, lookup, insert,
}
use httshark.Har.{Pair, Entry, Har, get_app_id}

abbrev pub Groups : Type 0
Groups = List (Bytes × List Entry)

abbrev pub is_health_check : Pair → Bool
is_health_check pair =
    (same pair.name (codes "Host") && same pair.value (codes "HOST_FOR_HC"))
    || (same pair.name (codes "X-RDWR-HC") && same pair.value (codes "health check"))

abbrev pub has_health_check : List Pair → Bool
has_health_check [] = false
has_health_check (pair ∷ headers) = is_health_check pair || has_health_check headers

-- `shouldDumpEntry`
unfoldable pub should_dump_entry : Bool → Entry → Bool
should_dump_entry ignore_health_check entry =
    if ignore_health_check then not (has_health_check entry.request.headers) else true

-- `getHarFile`
unfoldable pub get_har_file : List Entry → Har
get_har_file entries = record {
  log = record {
    version = codes "1.2";
    creator = record { name = codes "httshark"; version = codes "1.0" };
    entries = entries;
  };
}

-- a missing key reads as the nil slice
abbrev pub or_nil : Option (List Entry) → List Entry
or_nil none = []
or_nil (some entries) = entries

-- the loop that fills `appIdEntriesMap`
unfoldable pub group_from : Groups → List Entry → Groups
group_from groups [] = groups
group_from groups (entry ∷ entries) =
    let app_id = get_app_id entry in
    group_from (insert app_id (or_nil (lookup app_id groups) ++ (entry ∷ [])) groups) entries

-- `getHarFiles`, where `arrange` is the order of the walk
unfoldable pub get_har_files : Bool → (Groups → Groups) → List Entry → List Har
get_har_files split_by_host arrange entries =
    if not split_by_host
    then get_har_file entries ∷ []
    else map (λ group. get_har_file group.1) (arrange (group_from [] entries))
