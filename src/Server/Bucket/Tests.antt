-- ===== src/Server/Bucket/Tests.antt =====
-- One transaction is queued, gathered and dumped; its object is refused, and put at a tick.
use httshark.Base.{◌≡◌, refl, sym, some, List, [], ◌∷◌, ◌++◌, Bytes, pos}
use httshark.Export.Convert.Tests.{unanswered}
use httshark.Export.Split.Tests.{in_list_order, in_list_order-WalksGroups}
use httshark.Export.Collect.Tests.{by_host, dumped_one, one_dumped, dumped_one_dumps}
use httshark.Export.S3.{S3Client, new_s3_client, Outcome}
use httshark.Export.S3.Gathered.{held, put_by_all, run}
use httshark.Export.S3.Batches.{Export, dumped, ticked, events_of}
use httshark.Export.S3.Tests.{service, taken_at, refused_at}
use httshark.Server.Bucket.{arriving, queued_arrive}

abbrev one_batch : List Export
one_batch =
    dumped (unanswered ∷ []) in_list_order
      (λ i. record { attempt = refused_at (pos 5); ticks = refused_at (pos 6) ∷ [] })
    ∷ ticked (taken_at (pos 7))
    ∷ []

queued_arrive_example :
    (s : S3Client) × (outcomes : List Outcome) × (run service
        (events_of by_host one_batch)
        new_s3_client
      ≡ some (s, outcomes))
    × ((id : Bytes)
        → put_by_all id outcomes
            ++ (held id s.data_holder
                ++ arriving by_host id (dumped_one.transactions ++ dumped_one.input))
          ≡ arriving by_host id (unanswered ∷ []))
queued_arrive_example =
    queued_arrive service by_host (unanswered ∷ []) dumped_one one_batch refl
      (in_list_order-WalksGroups, (tt, tt)) one_dumped (sym dumped_one_dumps)
