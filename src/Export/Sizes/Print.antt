-- ===== src/Export/Sizes/Print.antt =====
-- The files that `print` of `TransactionsSizes` saves.
use mathlib.Core.Path.{fun_ext}
use httshark.Base.{
  ℕ, ◌≡◌, ◌≢◌, refl, ap, ap₂, ◌∙◌, Option, none, some, List, [], ◌∷◌, ◌++◌, map, Bytes, codes, ℤ,
  pos, int_eq, lookup, lookup-insert, DistinctKeys, insert-DistinctKeys, WalksMap, arith, ◌+◌, sym,
  Bool-cases, inl, inr,
}
use httshark.Go.Text.{join}
use httshark.Go.Number.{itoa}
use httshark.Go.Sort.{sort, int_order}
use httshark.Go.Sort.Keys.{keys, sort-keys-eq}
use httshark.Core.Files.{Disk, Fault, save_to_file}
use httshark.Har.{Entry}
use httshark.Export.Sizes.{TransactionsSizes, start, or_0, increment, process}
use httshark.Export.Sizes.Counts.{requests_of, responses_of, process_counts}

abbrev pub Walk : Type 0
Walk = List (ℤ × ℕ) → List (ℤ × ℕ)

-- the message of a size
abbrev pub message : List (ℤ × ℕ) → ℤ → Bytes
message entities size = itoa size ++ (codes "," ++ itoa (pos (or_0 (lookup size entities))))

-- `messages` of `printSizes`, before they are joined; `arrange` is the order in which Go walks
-- through the map
unfoldable pub messages : Walk → List (ℤ × ℕ) → List Bytes
messages arrange entities =
    codes "Size,Count" ∷ map (message entities) (sort int_order (keys (arrange entities)))

-- `printSizes`; an error of the file is dropped
unfoldable pub print_sizes : Walk → Option Fault → List (ℤ × ℕ) → Bytes → Disk → Disk
unfolding messages
print_sizes arrange fault entities path disk =
    (save_to_file fault path (join (codes "\n") (messages arrange entities)) disk).0

-- the configuration that is read here
pub record Paths : Type 0 where
  pub requests_sizes_stats_file : Bytes
  pub responses_sizes_stats_file : Bytes

-- `print`, with what the two files meet
unfoldable pub print : Walk → Paths → Option Fault → Option Fault → TransactionsSizes → Disk → Disk
unfolding print_sizes
print arrange paths fault₁ fault₂ s disk =
    print_sizes arrange fault₂ s.responses paths.responses_sizes_stats_file
      (print_sizes arrange fault₁ s.requests paths.requests_sizes_stats_file disk)

-- each size once, with a count that is not 0
record IsHistogram (m : List (ℤ × ℕ)) : Type 0 where
  distinct : DistinctKeys m
  counted : (size : ℤ) → lookup size m ≢ some 0

increment-IsHistogram : (k : ℤ) (m : List (ℤ × ℕ)) → IsHistogram m → IsHistogram (increment k m)
unfolding increment
increment-IsHistogram k m h = record {
  distinct = insert-DistinctKeys k (or_0 (lookup k m) + 1) m h.distinct;
  counted =
      λ size q. ground (arith, lookup-insert k size (or_0 (lookup k m) + 1) m, h.counted size, q);
}

process-IsHistogram :
    (es : List Entry) (s : TransactionsSizes)
    → IsHistogram s.requests
    → IsHistogram s.responses
    → IsHistogram (process es s).requests × IsHistogram (process es s).responses
unfolding process
process-IsHistogram [] s h h' = (h, h')
process-IsHistogram (e ∷ es) s h h' =
    process-IsHistogram es _ (increment-IsHistogram _ s.requests h)
      (elim (Bool-cases e.response.exists) [
        | inl t ↦ rw t (increment-IsHistogram _ s.responses h')
        | inr f ↦ rw f h'
      ])

empty-IsHistogram : IsHistogram []
unfolding lookup
empty-IsHistogram = record { distinct = tt; counted = λ size q. cc }

same_lookup : (a b : Option ℕ) → a ≢ some 0 → b ≢ some 0 → or_0 a ≡ or_0 b → a ≡ b
same_lookup none none h k q = refl
same_lookup none (some n) h k q = absurd (k (ground (arith, q)))
same_lookup (some n) none h k q = absurd (h (ground (arith, q)))
same_lookup (some n) (some m) h k q = ap some q

messages-eq :
    (arrange arrange' : Walk) (m m' : List (ℤ × ℕ))
    → WalksMap arrange
    → WalksMap arrange'
    → IsHistogram m
    → IsHistogram m'
    → ((size : ℤ) → or_0 (lookup size m) ≡ or_0 (lookup size m'))
    → messages arrange m ≡ messages arrange' m'
unfolding messages
messages-eq arrange arrange' m m' w w' h h' q =
    let same : (size : ℤ) → lookup size m ≡ lookup size m' = λ size.
      same_lookup (lookup size m) (lookup size m') (h.counted size) (h'.counted size) (q size) in
    let sizes =
      sort-keys-eq int_order (arrange m) (arrange' m') (w m h.distinct).0 (w' m' h'.distinct).0
        (λ size. (w m h.distinct).1 size ∙ same size ∙ sym ((w' m' h'.distinct).1 size)) in
    let each : message m ≡ message m' =
      fun_ext (λ size. ap (λ n. itoa size ++ (codes "," ++ itoa (pos n))) (q size)) in
    ap₂ (λ f l. codes "Size,Count" ∷ map f l) each sizes

print_sizes-eq :
    (arrange arrange' : Walk) (fault : Option Fault) (m m' : List (ℤ × ℕ)) (path : Bytes)
    (disk disk' : Disk)
    → messages arrange m ≡ messages arrange' m'
    → disk ≡ disk'
    → print_sizes arrange fault m path disk ≡ print_sizes arrange' fault m' path disk'
unfolding print_sizes
print_sizes-eq arrange arrange' fault m m' path disk disk' q r =
    ap₂ (λ l d. (save_to_file fault path (join (codes "\n") l) d).0) q r

-- The files that `print` leaves, whatever fails while they are written, depend only on how many
-- requests and how many responses of each size have been processed since the start: not on their
-- order, and not on the order in which Go walks through the maps.
pub print-process :
    (arrange arrange' : Walk) (paths : Paths) (fault₁ fault₂ : Option Fault) (es fs : List Entry)
    (disk : Disk)
    → WalksMap arrange
    → WalksMap arrange'
    → ((size : ℤ) → requests_of size es ≡ requests_of size fs)
    → ((size : ℤ) → responses_of size es ≡ responses_of size fs)
    → print arrange paths fault₁ fault₂ (process es start) disk
      ≡ print arrange' paths fault₁ fault₂ (process fs start) disk
unfolding print
print-process arrange arrange' paths fault₁ fault₂ es fs disk w w' q q' =
    let (h₁, h₂) = process-IsHistogram es start empty-IsHistogram empty-IsHistogram in
    let (k₁, k₂) = process-IsHistogram fs start empty-IsHistogram empty-IsHistogram in
    let count : (size : ℤ)
        → (or_0 (lookup size (process es start).requests)
            ≡ or_0 (lookup size (process fs start).requests))
          × (or_0 (lookup size (process es start).responses)
              ≡ or_0 (lookup size (process fs start).responses)) =
      λ size. (
        omega (arith, q size, process_counts es start size, process_counts fs start size),
        omega (arith, q' size, process_counts es start size, process_counts fs start size),
      ) in
    print_sizes-eq arrange arrange' fault₂ _ _ paths.responses_sizes_stats_file _ _
      (messages-eq arrange arrange' _ _ w w' h₂ k₂ (λ size. (count size).1))
      (print_sizes-eq arrange arrange' fault₁ _ _ paths.requests_sizes_stats_file disk disk
        (messages-eq arrange arrange' _ _ w w' h₁ k₁ (λ size. (count size).0)) refl)
