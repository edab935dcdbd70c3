-- ===== src/Export/Sites.antt =====
-- exporters/sites_stats.go: the statistics of `SitesStats`, as far as `Process` keeps them. The
-- length of a file's JSON text (encoding/json) is an argument, with `none` for an error of
-- `json.Marshal`; the flag is `SplitByAppId` of the configuration. The mutex makes a call one step.
pub mod Summary
pub mod Entries
pub mod Print
mod Tests
use httshark.Base.{
  ℕ, suc, ◌+◌, ◌*◌, ◌%◌, ◌^◌, Bool, true, false, not, Option, none, some, List, [], ◌∷◌, Bytes, ℤ,
  pos, ◌+ℤ◌, ltb_ℤ, if◌then◌else◌, int_eq, bytes_eq, lookup, insert, length,
}
use httshark.Har.{Entry, Har, get_app_id}

-- A nil map of counts reads like an empty one, and is made before the first write.
pub record SizesStats : Type 0 where
  pub counts : List (ℤ × ℕ)
  pub min : Option ℤ
  pub max : Option ℤ

pub record SingleSiteStats : Type 0 where
  pub total_size : ℕ
  pub total_transactions : ℕ
  pub requests_stats : SizesStats
  pub responses_stats : SizesStats
  pub transactions_stats : SizesStats
  pub requests_without_response : ℕ

pub record SitesStats : Type 0 where
  pub total_stats : SingleSiteStats
  pub hosts_stats : List (Bytes × SingleSiteStats)

-- what `init` sets, and the zero values
abbrev pub buckets : List ℤ
buckets =
    pos 1024
    ∷ pos (5 * 1024)
    ∷ pos (50 * 1024)
    ∷ pos (100 * 1024)
    ∷ pos (256 * 1024)
    ∷ pos (1024 * 1024)
    ∷ pos (5 * 1024 * 1024)
    ∷ pos (10 * 1024 * 1024)
    ∷ pos (10024 * 1024 * 1024)
    ∷ []

abbrev pub zero_sizes : SizesStats
zero_sizes = record { counts = []; min = none; max = none }

abbrev pub zero_stats : SingleSiteStats
zero_stats = record {
  total_size = 0;
  total_transactions = 0;
  requests_stats = zero_sizes;
  responses_stats = zero_sizes;
  transactions_stats = zero_sizes;
  requests_without_response = 0;
}

abbrev pub or_0 : Option ℕ → ℕ
or_0 none = 0
or_0 (some n) = n

-- `stats.min == nil || size < *stats.min`, and the assignment
unfoldable pub update_min : ℤ → Option ℤ → Option ℤ
update_min size none = some size
update_min size (some m) = if ltb_ℤ size m then some size else some m

unfoldable pub update_max : ℤ → Option ℤ → Option ℤ
update_max size none = some size
update_max size (some m) = if ltb_ℤ m size then some size else some m

-- the loop over `s.buckets`
unfoldable pub count_size : List ℤ → ℤ → List (ℤ × ℕ) → List (ℤ × ℕ)
count_size [] size counts = counts
count_size (bucket_size ∷ bs) size counts =
    if not (ltb_ℤ bucket_size size)
    then insert bucket_size (or_0 (lookup bucket_size counts) + 1) counts
    else count_size bs size counts

-- `updateSizesStatsSingle`
unfoldable pub update_sizes_stats_single : ℤ → SizesStats → SizesStats
update_sizes_stats_single size stats = record {
  counts = count_size buckets size stats.counts;
  min = update_min size stats.min;
  max = update_max size stats.max;
}

-- a round of the loop in `updateSizesStats`
unfoldable pub update_entry : Entry → SingleSiteStats → SingleSiteStats
update_entry entry stats =
    let request_size = entry.request.body_size +ℤ entry.request.headers_size in
    let requests_stats = update_sizes_stats_single request_size stats.requests_stats in
    let response_size = entry.response.body_size +ℤ entry.response.headers_size in
    if entry.response.exists
    then record stats {
      requests_stats = requests_stats;
      responses_stats = update_sizes_stats_single response_size stats.responses_stats;
      transactions_stats =
          update_sizes_stats_single (request_size +ℤ response_size) stats.transactions_stats;
    }
    else record stats {
      requests_stats = requests_stats;
      transactions_stats = update_sizes_stats_single request_size stats.transactions_stats;
      requests_without_response = stats.requests_without_response + 1;
    }

-- `updateSizesStats`
unfoldable pub update_sizes_stats : List Entry → SingleSiteStats → SingleSiteStats
update_sizes_stats [] stats = stats
update_sizes_stats (entry ∷ entries) stats = update_sizes_stats entries (update_entry entry stats)

-- the three statements that `Process` has for the total and again for the application
unfoldable pub update_stats : ℕ → List Entry → SingleSiteStats → SingleSiteStats
update_stats data_len entries stats = update_sizes_stats entries (record stats {
  total_size = (stats.total_size + data_len) % 2 ^ 64;
  total_transactions = (stats.total_transactions + length entries) % 2 ^ 64;
})

abbrev pub or_zero_stats : Option SingleSiteStats → SingleSiteStats
or_zero_stats none = zero_stats
or_zero_stats (some stats) = stats

-- How `Process` ends. `Entries[0]` of a file without entries panics, after the totals have changed.
pub data Ending : Type 0 where
  returned marshal_failed panicked : Ending

-- `Process` after `json.Marshal`
unfoldable pub process_entries : ℕ → Bool → List Entry → SitesStats → SitesStats × Ending
process_entries data_len false entries stats =
    (record stats { total_stats = update_stats data_len entries stats.total_stats }, returned)
process_entries data_len true [] stats =
    (record stats { total_stats = update_stats data_len [] stats.total_stats }, panicked)
process_entries data_len true (first ∷ rest) stats =
    let app_id = get_app_id first in
    let app_id_stats = or_zero_stats (lookup app_id stats.hosts_stats) in
    (
      record {
        total_stats = update_stats data_len (first ∷ rest) stats.total_stats;
        hosts_stats =
            insert app_id (update_stats data_len (first ∷ rest) app_id_stats) stats.hosts_stats;
      },
      returned,
    )

-- `Process`
unfoldable pub process : (Har → Option ℕ) → Bool → Har → SitesStats → SitesStats × Ending
unfolding process_entries
process json_length split_by_app_id file stats = elim (json_length file) [
  | none ↦ (stats, marshal_failed)
  | some data_len ↦ process_entries data_len split_by_app_id file.log.entries stats
]
