-- ===== src/Export/Sizes.antt =====
-- exporters/transactions_sizes.go: the histograms that `Process` of `TransactionsSizes` keeps. The
-- mutex makes a call one step.
pub mod Counts
pub mod Print
mod Tests
use httshark.Base.{
  ℕ, suc, ◌+◌, ◌/◌, Bool, Option, none, some, List, [], ◌∷◌, ℤ, pos, negsuc, ◌+ℤ◌, if◌then◌else◌,
  int_eq, lookup, insert, sub_ℕ,
}
use httshark.Har.{Entry, Har}

pub record TransactionsSizes : Type 0 where
  pub requests : List (ℤ × ℕ)
  pub responses : List (ℤ × ℕ)

-- what `init` sets
abbrev pub start : TransactionsSizes
start = record { requests = []; responses = [] }

-- Go's `/ 1024` on an `int`, which cuts towards zero
abbrev pub kilobytes : ℤ → ℤ
kilobytes (pos n) = pos (n / 1024)
kilobytes (negsuc n) = sub_ℕ 0 (suc n / 1024)

abbrev pub or_0 : Option ℕ → ℕ
or_0 none = 0
or_0 (some n) = n

-- `m[k] = m[k] + 1`
unfoldable pub increment : ℤ → List (ℤ × ℕ) → List (ℤ × ℕ)
increment k m = insert k (or_0 (lookup k m) + 1) m

-- the loop of `Process`
unfoldable pub process : List Entry → TransactionsSizes → TransactionsSizes
unfolding increment
process [] s = s
process (entry ∷ entries) s =
    let request_size = kilobytes (entry.request.headers_size +ℤ entry.request.body_size) in
    let response_size = kilobytes (entry.response.headers_size +ℤ entry.response.body_size) in
    process entries (record {
      requests = increment request_size s.requests;
      responses =
          if entry.response.exists then increment response_size s.responses else s.responses;
    })
