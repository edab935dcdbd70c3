-- ===== src/Server/Bucket.antt =====
-- The exporter from `Queue` to the bucket: the two goroutines of exporters/processor.go, what
-- `dumpTransactions` hands on, and the client of exporters/s3.go as the first HAR processor.
mod Tests
use httshark.Base.{
  ℕ, ◌≡◌, refl, sym, ap, ap₂, ◌∙◌, true, some, List, [], ◌∷◌, ◌++◌, map, append_assoc, map-append,
  Bytes, All, Bool-cases, inl, inr,
}
use httshark.Core.Entries.{HttpTransaction}
use httshark.Har.{Entry}
use httshark.Export.Convert.{convert}
use httshark.Export.Split.{should_dump_entry}
use httshark.Export.Split.Group.{with_app_id, with_app_id-append}
use httshark.Export.Collect.{Config, convert_all}
use httshark.Export.Collect.Loops.{Processor, start, Steps}
use httshark.Export.Collect.Loops.Seen.{concat, seen, seen-Steps}
use httshark.Export.S3.{S3Client, new_s3_client, Outside, Outcome, empty_app_id}
use httshark.Export.S3.Gathered.{held, put_by_all, run}
use httshark.Export.S3.Batches.{
  Export, dumped, ticked, events_of, entries_of, IsWalked, exports_arrive,
}

-- the arguments of the calls of `dumpTransactions`
abbrev pub batches : List Export → List (List HttpTransaction)
batches [] = []
batches (dumped ts arrange turns ∷ es) = ts ∷ batches es
batches (ticked attempt ∷ es) = batches es

-- the entries of an application that transactions become, as the client holds them
abbrev pub arriving : Config → Bytes → List HttpTransaction → List Entry
arriving config id ts = map empty_app_id (with_app_id id (convert_all config ts).0)

convert_all-append :
    (config : Config) (ts us : List HttpTransaction)
    → (convert_all config (ts ++ us)).0 ≡ (convert_all config ts).0 ++ (convert_all config us).0
unfolding convert_all
convert_all-append config [] us = refl
convert_all-append config (t ∷ ts) us =
    let rest = convert_all-append config ts us in
    let entry = convert config.outside config.content_types_to_keep t in
    elim (Bool-cases (should_dump_entry config.ignore_health_check entry)) [
      | inl d ↦ rw d (ap (◌∷◌ entry) rest)
      | inr i ↦ rw i rest
    ]

entries_of-batches :
    (config : Config) (es : List Export)
    → entries_of config es ≡ (convert_all config (concat (batches es))).0
entries_of-batches config [] = unfold convert_all in refl
entries_of-batches config (dumped ts arrange turns ∷ es) =
    ap (λ l. (convert_all config ts).0 ++ l) (entries_of-batches config es)
    ∙ sym (convert_all-append config ts (concat (batches es)))
entries_of-batches config (ticked attempt ∷ es) = entries_of-batches config es

arriving-append :
    (config : Config) (id : Bytes) (ts us : List HttpTransaction)
    → arriving config id (ts ++ us) ≡ arriving config id ts ++ arriving config id us
arriving-append config id ts us =
    ap (λ l. map empty_app_id (with_app_id id l)) (convert_all-append config ts us)
    ∙ ap (map empty_app_id) (with_app_id-append id _ _)
    ∙ map-append empty_app_id _ _

-- With `SplitByHost`, and where `init` of the client has made its map before the first file comes:
-- however the two goroutines and the callers of `Queue` and `Stop` interleave, whenever the client
-- ticks, between two batches or between two files of one, in whatever order Go walks through the
-- applications of each batch, and whichever exports fail, the client does not panic; and of each application what has been put into the
-- bucket, then what the client holds, then what is gathered or still in the channel, are together
-- the entries of the transactions that were queued, without those that are ignored, each once and
-- in the order in which they were queued. Their identifiers have been emptied.
pub queued_arrive :
    (o : Outside) (config : Config) (ts : List HttpTransaction) (p : Processor)
    (exports : List Export)
    → config.split_by_host ≡ true
    → All IsWalked exports
    → Steps start ts p
    → batches exports ≡ p.dumped
    → (s : S3Client) × (outcomes : List Outcome) × (run o (events_of config exports) new_s3_client
        ≡ some (s, outcomes))
      × ((id : Bytes)
          → put_by_all id outcomes
              ++ (held id s.data_holder ++ arriving config id (p.transactions ++ p.input))
            ≡ arriving config id ts)
queued_arrive o config ts p exports split walks steps same =
    let (s, outcomes, runs, all) = exports_arrive o config exports split walks in
    let dumped_all : entries_of config exports ≡ (convert_all config (concat p.dumped)).0 =
      entries_of-batches config exports ∙ ap (λ l. (convert_all config (concat l)).0) same in
    let queued : concat p.dumped ++ (p.transactions ++ p.input) ≡ ts =
      seen-Steps start p ts steps in
    (
      s,
      outcomes,
      runs,
      λ id.
          sym (append_assoc (put_by_all id outcomes) (held id s.data_holder) _)
          ∙ ap (λ l. l ++ arriving config id (p.transactions ++ p.input))
              (all id ∙ ap (λ l. map empty_app_id (with_app_id id l)) dumped_all)
          ∙ sym (arriving-append config id (concat p.dumped) (p.transactions ++ p.input))
          ∙ ap (arriving config id) queued,
    )
