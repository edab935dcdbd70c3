-- ===== src/Export/Sites/Tests.antt =====
-- The statistics of three entries.
use httshark.Base.{
  true, Option, some, [], ◌∷◌, ◌++◌, ℕ, ◌+◌, ◌≡◌, refl, arith, length, Bytes, codes, bytes_eq,
  int_eq, lookup, WalksMap, DistinctKeys,
}
use httshark.Go.Text.{join, Lacks}
use httshark.Go.Number.{itoa}
use httshark.Har.{Har}
use httshark.Export.Split.{get_har_file}
use httshark.Export.Split.Tests.{three}
use httshark.Export.Sites.{SitesStats, SingleSiteStats, zero_stats, process}
use httshark.Export.Sites.Entries.{IsSummary, recorded, zero_stats-IsSummary, process-IsSummary}
use httshark.Export.Sites.Print.{print_single, messages}
use httshark.Export.Sites.Print.Columns.{IsTable, messages-IsTable}

abbrev nothing_seen : SitesStats
nothing_seen = record { total_stats = zero_stats; hosts_stats = [] }

-- a length that grows with the number of entries
abbrev some_length : Har → Option ℕ
some_length file = some (length file.log.entries)

process-IsSummary_example :
    IsSummary
      (process some_length true (get_har_file three) nothing_seen).0.total_stats
      ([] ++ recorded some_length (get_har_file three))
process-IsSummary_example =
    process-IsSummary some_length true (get_har_file three) nothing_seen [] zero_stats-IsSummary

-- no quotient is written
abbrev ratio : ℕ → ℕ → Bytes
ratio a b = codes "1.5"

abbrev seconds : ℕ → ℕ
seconds i = 60 + i

abbrev two_hosts : SitesStats
two_hosts = record {
  total_stats = zero_stats;
  hosts_stats = (codes "b", zero_stats) ∷ (codes "a,c", zero_stats) ∷ [];
}

walks : WalksMap {K = Bytes} {V = SingleSiteStats} (λ m. m)
walks m d = (d, λ k. refl)

two_distinct : DistinctKeys two_hosts.hosts_stats
unfolding lookup
two_distinct = (refl, (refl, tt))

-- a host with a comma has a column more
row_of_a :
    print_single ratio 61 (codes "a,c") zero_stats
    ≡ codes
        "a,c,61,0,0,1.5,1.5,1.5,0,NA,NA,0,0,0,0,0,0,0,0,0,NA,NA,0,0,0,0,0,0,0,0,0,NA,NA,0,0,0,0,0,0,0,0,0"
unfolding print_single itoa join lookup
row_of_a = refl

ratio_plain : (a b : ℕ) → Lacks b',' (ratio a b)
ratio_plain a b =
    (λ q. absurd (omega arith), ((λ q. absurd (omega arith)), ((λ q. absurd (omega arith)), tt)))

messages-IsTable_example :
    IsTable ratio ratio_plain seconds two_hosts (messages ratio seconds (λ m. m) two_hosts)
messages-IsTable_example =
    messages-IsTable ratio ratio_plain seconds (λ m. m) two_hosts walks two_distinct
