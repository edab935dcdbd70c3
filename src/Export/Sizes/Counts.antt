-- ===== src/Export/Sizes/Counts.antt =====
-- The histograms count the entries.
use httshark.Base.{
  ℕ, ◌+◌, ◌≡◌, ◌&&◌, List, [], ◌∷◌, arith, ℤ, ◌+ℤ◌, eq_ℤ, eq_ℤ_iff, if◌then◌else◌, int_eq, lookup,
  lookup-insert, Bool-cases, inl, inr,
}
use httshark.Har.{Entry}
use httshark.Export.Sizes.{TransactionsSizes, kilobytes, or_0, increment, process}

-- the entries whose request has the size `k`, and those that have a response of the size `k`
abbrev pub requests_of : ℤ → List Entry → ℕ
requests_of k [] = 0
requests_of k (e ∷ es) =
    (if eq_ℤ (kilobytes (e.request.headers_size +ℤ e.request.body_size)) k then 1 else 0)
    + requests_of k es

abbrev pub responses_of : ℤ → List Entry → ℕ
responses_of k [] = 0
responses_of k (e ∷ es) =
    (if e.response.exists && eq_ℤ (kilobytes (e.response.headers_size +ℤ e.response.body_size)) k
      then 1
      else 0)
    + responses_of k es

lookup-increment :
    (j k : ℤ) (m : List (ℤ × ℕ))
    → or_0 (lookup k (increment j m)) ≡ (if eq_ℤ j k then 1 else 0) + or_0 (lookup k m)
unfolding increment
lookup-increment j k m = ground (arith, lookup-insert j k (or_0 (lookup j m) + 1) m, eq_ℤ_iff j k)

-- `Process` adds to each size of requests the number of entries whose request has that size in
-- kilobytes, and to each size of responses the number of those that have a response of that size.
pub process_counts :
    (es : List Entry) (s : TransactionsSizes) (k : ℤ)
    → (or_0 (lookup k (process es s).requests) ≡ requests_of k es + or_0 (lookup k s.requests))
      × (or_0 (lookup k (process es s).responses) ≡ responses_of k es + or_0 (lookup k s.responses))
unfolding process
process_counts [] s k = (omega arith, omega arith)
process_counts (e ∷ es) s k =
    let i = kilobytes (e.request.headers_size +ℤ e.request.body_size) in
    let j = kilobytes (e.response.headers_size +ℤ e.response.body_size) in
    elim (Bool-cases e.response.exists) [
      | inl t ↦
          let (a, b) =
            process_counts es
              (record { requests = increment i s.requests; responses = increment j s.responses })
              k in
          rw t (
            omega (arith, a, lookup-increment i k s.requests),
            omega (arith, b, lookup-increment j k s.responses),
          )
      | inr f ↦
          let (a, b) =
            process_counts es
              (record { requests = increment i s.requests; responses = s.responses }) k in
          rw f (omega (arith, a, lookup-increment i k s.requests), omega (arith, b))
    ]
