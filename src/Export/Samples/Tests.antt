-- ===== src/Export/Samples/Tests.antt =====
-- One of two large entries is saved.
use httshark.Base.{◌≡◌, refl, false, [], ◌∷◌, ℕ, Bool, pos, codes, ◌+ℤ◌}
use httshark.Har.{Entry}
use httshark.Export.Split.Tests.{entry_to, three}
use httshark.Export.Samples.{SampleTransactions, is_relevant, process}

abbrev large : Entry
large =
    let entry = entry_to (codes "a") (codes "PUT") in
    record entry { request = record (entry.request) { body_size = pos 3000000 } }

abbrev one_left : SampleTransactions
one_left = record { printed = 1; sequence = 7 }

abbrev never_fails : ℕ → Entry → Bool
never_fails n e = false

saved_one : (process never_fails (large ∷ large ∷ three) one_left).1 ≡ large ∷ []
unfolding process is_relevant ◌+ℤ◌
saved_one = refl
