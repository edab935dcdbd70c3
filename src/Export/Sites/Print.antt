-- ===== src/Export/Sites/Print.antt =====
-- The file that `print` of `SitesStats` saves. The text of a quotient of two `float32` and the
-- seconds since the start, which each line reads from the clock, are arguments.
pub mod Columns
use httshark.Base.{
  ℕ, suc, ◌+◌, Option, none, some, List, [], ◌∷◌, ◌++◌, Bytes, codes, ℤ, pos, bytes_eq, int_eq,
  lookup,
}
use httshark.Go.Text.{join}
use httshark.Go.Number.{itoa}
use httshark.Go.Sort.{sort, string_order}
use httshark.Go.Sort.Keys.{keys}
use httshark.Core.Files.{Disk, Fault, save_to_file}
use httshark.Export.Sizes.{kilobytes}
use httshark.Export.Sites.{SizesStats, SingleSiteStats, SitesStats, buckets, or_0, or_zero_stats}

abbrev pub Walk : Type 0
Walk = List (Bytes × SingleSiteStats) → List (Bytes × SingleSiteStats)

-- the loop of `getSizesTitles`
unfoldable pub bucket_titles : Bytes → List ℤ → Bytes
bucket_titles prefix [] = []
bucket_titles prefix (bucket_size ∷ bs) =
    codes ","
    ++ (prefix
        ++ (codes "SizeUpTo"
            ++ (itoa (kilobytes bucket_size) ++ (codes "K" ++ bucket_titles prefix bs))))

-- `getSizesTitles`
unfoldable pub get_sizes_titles : Bytes → Bytes
unfolding bucket_titles
get_sizes_titles prefix =
    codes ","
    ++ (prefix
        ++ (codes "MinSize," ++ (prefix ++ (codes "MaxSize" ++ bucket_titles prefix buckets))))

-- `titles` of `print`
unfoldable pub titles : Bytes
unfolding get_sizes_titles
titles =
    codes
      "Site,RunSeconds,TotalHarBytes,TotalTransactions,BPS,TPS,AverageHarTransactionBytes,RequestsWithoutResponse"
    ++ (get_sizes_titles (codes "request")
        ++ (get_sizes_titles (codes "response") ++ get_sizes_titles (codes "transaction")))

-- the loop of `printSizesStats`
unfoldable pub bucket_counts : List (ℤ × ℕ) → List ℤ → Bytes
bucket_counts counts [] = []
bucket_counts counts (bucket_size ∷ bs) =
    codes "," ++ (itoa (pos (or_0 (lookup bucket_size counts))) ++ bucket_counts counts bs)

abbrev pub print_range : Option ℤ → Option ℤ → Bytes
print_range none max = codes "NA,NA"
print_range (some min) none = codes "NA,NA"
print_range (some min) (some max) = itoa min ++ (codes "," ++ itoa max)

-- `printSizesStats`
unfoldable pub print_sizes_stats : SizesStats → Bytes
unfolding bucket_counts
print_sizes_stats stats = print_range stats.min stats.max ++ bucket_counts stats.counts buckets

module _ (ratio : ℕ → ℕ → Bytes) where
  -- the arguments of `Sprintf` in `printSingle` behind the name
  unfoldable pub values : ℕ → SingleSiteStats → List Bytes
  unfolding print_sizes_stats
  values run_seconds stats =
      itoa (pos run_seconds)
      ∷ itoa (pos stats.total_size)
      ∷ itoa (pos stats.total_transactions)
      ∷ ratio stats.total_size run_seconds
      ∷ ratio stats.total_transactions run_seconds
      ∷ ratio stats.total_size stats.total_transactions
      ∷ itoa (pos stats.requests_without_response)
      ∷ print_sizes_stats stats.requests_stats
      ∷ print_sizes_stats stats.responses_stats
      ∷ print_sizes_stats stats.transactions_stats
      ∷ []

  -- `printSingle`
  unfoldable pub print_single : ℕ → Bytes → SingleSiteStats → Bytes
  unfolding values
  print_single run_seconds name stats = join (codes ",") (name ∷ values run_seconds stats)

  module _ (seconds : ℕ → ℕ) where
    -- the loop of `print` over the hosts, from the `i`-th reading of the clock
    unfoldable pub host_messages : ℕ → List (Bytes × SingleSiteStats) → List Bytes → List Bytes
    unfolding print_single
    host_messages i hosts_stats [] = []
    host_messages i hosts_stats (host ∷ hosts) =
        print_single (seconds i) host (or_zero_stats (lookup host hosts_stats))
        ∷ host_messages (suc i) hosts_stats hosts

    -- `messages` of `print`, before they are joined
    unfoldable pub messages : Walk → SitesStats → List Bytes
    unfolding titles host_messages
    messages arrange stats =
        titles
        ∷ print_single (seconds 0) (codes "__Summary__") stats.total_stats
        ∷ host_messages 1 stats.hosts_stats (sort string_order (keys (arrange stats.hosts_stats)))

    -- `print`; an error of the file is only logged
    unfoldable pub print : Walk → Option Fault → Bytes → SitesStats → Disk → Disk
    unfolding messages
    print arrange fault sites_stats_file stats disk =
        (save_to_file fault sites_stats_file (join (codes "\n") (messages arrange stats)) disk).0
