-- ===== src/Export/Sites/Entries.antt =====
-- What `Process` of `SitesStats` has recorded after a file.
use httshark.Base.{
  ℕ, ◌+◌, ◌%◌, ◌^◌, ◌≡◌, refl, ap, Bool, true, false, Option, none, some, List, [], ◌∷◌, ◌++◌,
  arith, ℤ, ◌+ℤ◌, if◌then◌else◌, length, Bool-cases, Option-cases, inl, inr, append_assoc,
  append-nil, bytes_eq, lookup, map, map-append,
}
use httshark.Har.{Entry, Har}
use httshark.Export.Sites.{
  SingleSiteStats, SitesStats, zero_stats, update_entry, update_sizes_stats, update_stats, process,
  process_entries,
}
use httshark.Export.Sites.Summary.{Summarises, update_single-Summarises}

abbrev pub request_size : Entry → ℤ
request_size e = e.request.body_size +ℤ e.request.headers_size

abbrev pub response_size : Entry → ℤ
response_size e = e.response.body_size +ℤ e.response.headers_size

-- the sizes of the responses that exist
abbrev pub response_sizes : List Entry → List ℤ
response_sizes [] = []
response_sizes (e ∷ es) =
    if e.response.exists then response_size e ∷ response_sizes es else response_sizes es

abbrev pub transaction_size : Entry → ℤ
transaction_size e = if e.response.exists then request_size e +ℤ response_size e else request_size e

abbrev pub without_response : List Entry → ℕ
without_response [] = 0
without_response (e ∷ es) = (if e.response.exists then 0 else 1) + without_response es

-- The statistics are those of the entries.
pub record IsSummary (stats : SingleSiteStats) (es : List Entry) : Type 0 where
  pub requests : Summarises stats.requests_stats (map request_size es)
  pub responses : Summarises stats.responses_stats (response_sizes es)
  pub transactions : Summarises stats.transactions_stats (map transaction_size es)
  pub unanswered : stats.requests_without_response ≡ without_response es

response_sizes-append :
    (es fs : List Entry) → response_sizes (es ++ fs) ≡ response_sizes es ++ response_sizes fs
response_sizes-append [] fs = refl
response_sizes-append (e ∷ es) fs = elim (Bool-cases e.response.exists) [
  | inl t ↦ rw t (ap (λ xs. response_size e ∷ xs) (response_sizes-append es fs))
  | inr f ↦ rw f (response_sizes-append es fs)
]

without_response-append :
    (es fs : List Entry) → without_response (es ++ fs) ≡ without_response es + without_response fs
without_response-append [] fs = omega arith
without_response-append (e ∷ es) fs = omega (arith, without_response-append es fs)

update_entry-IsSummary :
    (e : Entry) (stats : SingleSiteStats) (es : List Entry)
    → IsSummary stats es
    → IsSummary (update_entry e stats) (es ++ (e ∷ []))
update_entry-IsSummary e stats es h = elim (Bool-cases e.response.exists) [
  | inl t ↦ record {
    requests =
        unfold update_entry in
        rw (map-append request_size es (e ∷ []), t)
          (update_single-Summarises (request_size e) stats.requests_stats _ h.requests);
    responses =
        unfold update_entry in
        rw (response_sizes-append es (e ∷ []), t)
          (update_single-Summarises (response_size e) stats.responses_stats _ h.responses);
    transactions =
        unfold update_entry in
        rw (map-append transaction_size es (e ∷ []), t)
          (update_single-Summarises (request_size e +ℤ response_size e) stats.transactions_stats _
            h.transactions);
    unanswered =
        unfold update_entry in
        rw (without_response-append es (e ∷ []), t) (omega (arith, h.unanswered));
  }
  | inr f ↦ record {
    requests =
        unfold update_entry in
        rw (map-append request_size es (e ∷ []), f)
          (update_single-Summarises (request_size e) stats.requests_stats _ h.requests);
    responses =
        unfold update_entry in
        rw (response_sizes-append es (e ∷ []), f, append-nil (response_sizes es)) h.responses;
    transactions =
        unfold update_entry in
        rw (map-append transaction_size es (e ∷ []), f)
          (update_single-Summarises (request_size e) stats.transactions_stats _ h.transactions);
    unanswered =
        unfold update_entry in
        rw (without_response-append es (e ∷ []), f) (omega (arith, h.unanswered));
  }
]

update_sizes_stats-IsSummary :
    (new : List Entry) (stats : SingleSiteStats) (es : List Entry)
    → IsSummary stats es
    → IsSummary (update_sizes_stats new stats) (es ++ new)
unfolding update_sizes_stats
update_sizes_stats-IsSummary [] stats es h = rw (append-nil es) h
update_sizes_stats-IsSummary (e ∷ new) stats es h = rw (← append_assoc es (e ∷ []) new) (
    update_sizes_stats-IsSummary new (update_entry e stats) (es ++ (e ∷ []))
      (update_entry-IsSummary e stats es h))

pub zero_stats-IsSummary : IsSummary zero_stats []
unfolding lookup
zero_stats-IsSummary = record {
  requests = record { least = refl; greatest = refl; counted = λ b. refl };
  responses = record { least = refl; greatest = refl; counted = λ b. refl };
  transactions = record { least = refl; greatest = refl; counted = λ b. refl };
  unanswered = refl;
}

update_stats-IsSummary :
    (n : ℕ) (new : List Entry) (stats : SingleSiteStats) (es : List Entry)
    → IsSummary stats es
    → IsSummary (update_stats n new stats) (es ++ new)
unfolding update_stats
update_stats-IsSummary n new stats es h =
    update_sizes_stats-IsSummary new
      (record stats {
        total_size = (stats.total_size + n) % 2 ^ 64;
        total_transactions = (stats.total_transactions + length new) % 2 ^ 64;
      })
      es
      (record {
        requests = h.requests;
        responses = h.responses;
        transactions = h.transactions;
        unanswered = h.unanswered;
      })

process_entries_total :
    (n : ℕ) (split : Bool) (new : List Entry) (stats : SitesStats)
    → (process_entries n split new stats).0.total_stats ≡ update_stats n new stats.total_stats
unfolding process_entries
process_entries_total n false new stats = refl
process_entries_total n true [] stats = refl
process_entries_total n true (first ∷ rest) stats = refl

-- the entries that `process` records of a file
abbrev pub recorded : (Har → Option ℕ) → Har → List Entry
recorded json_length file = elim (json_length file) [ none ↦ [] | some n ↦ file.log.entries ]

-- After a file the totals are those of the entries seen before and the file's: least and greatest
-- size and the counts in the buckets, for requests, for the responses that exist and for both
-- together, and the number of requests without a response. Only a file that cannot be marshalled
-- is left out; a panic comes after the totals.
pub process-IsSummary :
    (json_length : Har → Option ℕ) (split_by_app_id : Bool) (file : Har) (stats : SitesStats)
    (es : List Entry)
    → IsSummary stats.total_stats es
    → IsSummary
        (process json_length split_by_app_id file stats).0.total_stats
        (es ++ recorded json_length file)
unfolding process
process-IsSummary json_length split file stats es h = elim (Option-cases (json_length file)) [
  | inl q ↦ rw (q, process, recorded, append-nil es) h
  | inr (n, q) ↦
      rw (q, process, recorded, process_entries_total n split file.log.entries stats)
        (update_stats-IsSummary n file.log.entries stats.total_stats es h)
]
