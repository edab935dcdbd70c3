-- ===== src/Export/Sizes/Tests.antt =====
-- The file of two sizes, from either walk.
use httshark.Base.{
  ℕ, ◌≡◌, refl, none, some, [], ◌∷◌, List, ℤ, pos, codes, lookup, WalksMap, int_eq, arith,
}
use httshark.Go.Text.{join}
use httshark.Go.Sort.{sort}
use httshark.Go.Number.{itoa}
use httshark.Core.Files.{write_failed}
use httshark.Export.Sizes.{start, process}
use httshark.Har.{Entry}
use httshark.Export.Split.Tests.{entry_to}
use httshark.Export.Sizes.Counts.{requests_of, responses_of}
use httshark.Export.Sizes.Print.{messages, Paths, print, print-process}

abbrev up : List (ℤ × ℕ)
up = (pos 0, 7) ∷ (pos 12, 1) ∷ []

abbrev down : List (ℤ × ℕ)
down = (pos 12, 1) ∷ (pos 0, 7) ∷ []

file_text : join (codes "\n") (messages (λ m. m) down) ≡ codes "Size,Count\n0,7\n12,1"
unfolding messages join sort itoa lookup
file_text = refl

abbrev paths : Paths
paths = record {
  requests_sizes_stats_file = codes "/tmp/requests.csv";
  responses_sizes_stats_file = codes "/tmp/responses.csv";
}

walks : WalksMap {K = ℤ} {V = ℕ} (λ m. m)
walks m d = (d, λ k. refl)

abbrev small : Entry
small = entry_to (codes "a") (codes "GET")

abbrev large : Entry
large = record small { request = record small.request { body_size = pos 12_345 } }

same_requests :
    (size : ℤ) → requests_of size (small ∷ large ∷ []) ≡ requests_of size (large ∷ small ∷ [])
same_requests size = omega arith

same_responses :
    (size : ℤ) → responses_of size (small ∷ large ∷ []) ≡ responses_of size (large ∷ small ∷ [])
same_responses size = omega arith

print-process_example :
    print
      (λ m. m)
      paths
      none
      (some (write_failed (codes "Size")))
      (process (small ∷ large ∷ []) start)
      []
    ≡ print
        (λ m. m)
        paths
        none
        (some (write_failed (codes "Size")))
        (process (large ∷ small ∷ []) start)
        []
print-process_example =
    print-process (λ m. m) (λ m. m) paths none (some (write_failed (codes "Size")))
      (small ∷ large ∷ []) (large ∷ small ∷ []) [] walks walks same_requests same_responses
