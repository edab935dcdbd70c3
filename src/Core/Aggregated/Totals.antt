-- ===== src/Core/Aggregated/Totals.antt =====
-- What becomes of the warnings.
use httshark.Base.{
  ℕ, ◌+◌, ◌≡◌, refl, ap, ◌∙◌, none, List, [], ◌∷◌, ◌++◌, Bytes, same, same_iff, bytes_eq, lookup,
  lookup-insert, if◌then◌else◌, arith, DistinctKeys, insert-DistinctKeys, WalksMap, Bool-cases, inl,
  inr,
}
use httshark.Core.Aggregated.{
  Messages, or_0, warn, warn_all, publish_to_cloud_watch, print_aggregated, Event, warning, tick,
  run,
}

-- the sum of the metrics of a name
abbrev pub sum_of : Bytes → Messages → ℕ
sum_of k [] = 0
sum_of k ((m, n) ∷ metrics) = (if same m k then n else 0) + sum_of k metrics

abbrev pub count : Bytes → List Bytes → ℕ
count k [] = 0
count k (m ∷ ms) = (if same m k then 1 else 0) + count k ms

-- the calls of `Warn` with the text, and those of them that come between the two calls of a tick
abbrev pub warned : Bytes → List Event → ℕ
warned k [] = 0
warned k (warning m ∷ es) = count k (m ∷ []) + warned k es
warned k (tick between ∷ es) = count k between + warned k es

abbrev pub lost : Bytes → List Event → ℕ
lost k [] = 0
lost k (warning m ∷ es) = lost k es
lost k (tick between ∷ es) = count k between + lost k es

sum_of-append : (k : Bytes) (xs ys : Messages) → sum_of k (xs ++ ys) ≡ sum_of k xs + sum_of k ys
sum_of-append k [] ys = omega arith
sum_of-append k ((m, n) ∷ xs) ys = omega (arith, sum_of-append k xs ys)

sum_of_absent : (k : Bytes) (m : Messages) → lookup k m ≡ none → sum_of k m ≡ 0
unfolding lookup
sum_of_absent k [] h = refl
sum_of_absent k ((j, n) ∷ m) h = ground (arith, sum_of_absent k m)

sum_of-lookup : (k : Bytes) (m : Messages) → DistinctKeys m → sum_of k m ≡ or_0 (lookup k m)
unfolding lookup
sum_of-lookup k [] d = refl
sum_of-lookup k ((j, n) ∷ m) (dj, d) = elim (Bool-cases (same j k)) [
  | inl t ↦
      let q : j ≡ k = (same_iff j k).0 t in
      let absent : lookup k m ≡ none = rw (← q) dj in rw t (omega (arith, sum_of_absent k m absent))
  | inr f ↦ rw f (omega (arith, sum_of-lookup k m d))
]

or_0-warn :
    (k m : Bytes) (messages : Messages)
    → or_0 (lookup k (warn m messages)) ≡ or_0 (lookup k messages) + count k (m ∷ [])
unfolding warn
or_0-warn k m messages =
    rw (lookup-insert m k (or_0 (lookup m messages) + 1) messages) (elim (Bool-cases (same m k)) [
      | inl t ↦ let q : m ≡ k = (same_iff m k).0 t in rw (t, q) (omega arith)
      | inr f ↦ rw f (omega arith)
    ])

sum_of-publish :
    (arrange : Messages → Messages)
    → WalksMap arrange
    → (k : Bytes) (messages : Messages) → DistinctKeys messages
    → sum_of k (publish_to_cloud_watch arrange messages) ≡ or_0 (lookup k messages)
unfolding publish_to_cloud_watch lookup
sum_of-publish arrange walks k [] d = refl
sum_of-publish arrange walks k (m ∷ ms) d =
    let (distinct, same_lookup) = walks (m ∷ ms) d in
    sum_of-lookup k (arrange (m ∷ ms)) distinct ∙ ap or_0 (same_lookup k)

print_aggregated-nil : (messages : Messages) → print_aggregated messages ≡ []
unfolding print_aggregated
print_aggregated-nil [] = refl
print_aggregated-nil (m ∷ ms) = refl

-- Whatever order warnings and ticks come in: of each text, the metrics published add up with what
-- is counted at the end to what was counted at first and the warnings that came, less those that
-- came between the publishing and the reset of a tick, which are in no metric.
run_counts :
    (arrange : Messages → Messages)
    → WalksMap arrange
    → (k : Bytes) (es : List Event) (messages : Messages) → DistinctKeys messages
    → sum_of k (run arrange es messages).0 + or_0 (lookup k (run arrange es messages).1) + lost k es
      ≡ or_0 (lookup k messages) + warned k es
unfolding run lookup
run_counts arrange walks k [] messages d = omega arith
run_counts arrange walks k (warning m ∷ es) messages d = omega (
  arith,
  run_counts arrange walks k es (warn m messages)
      (unfold warn in insert-DistinctKeys m _ messages d),
  or_0-warn k m messages,
)
run_counts arrange walks k (tick between ∷ es) messages d =
    let reset = print_aggregated (warn_all between messages) in
    let empty : reset ≡ [] = print_aggregated-nil (warn_all between messages) in
    let later = run_counts arrange walks k es reset (rw empty tt) in
    let nothing : or_0 (lookup k reset) ≡ 0 = rw empty refl in
    omega (
      arith,
      later,
      nothing,
      sum_of-append k (publish_to_cloud_watch arrange messages) (run arrange es reset).0,
      sum_of-publish arrange walks k messages d,
    )
