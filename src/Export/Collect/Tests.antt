-- ===== src/Export/Collect/Tests.antt =====
-- A dump of one transaction, and a run of the two goroutines.
use httshark.Base.{◌≡◌, refl, true, [], ◌∷◌, ◌++◌, ℕ, ◌+◌, ◌%◌, ◌^◌, ◌-◌, arith, suc, ◌≤◌}
use httshark.Export.Convert.Tests.{plain, unanswered}
use httshark.Export.Split.Tests.{in_list_order, in_list_order-WalksGroups}
use httshark.Export.Split.Total.{total_entries}
use httshark.Export.Collect.{Config, HarProcessor, files_of, dump_transactions}
use httshark.Export.Collect.Dump.{dump_transactions_count}
use httshark.Export.Collect.Loops.{
  Processor, start, queue, take_input, export_tick, signal_stop, queued, taken, ticked,
  aggregate_stopped, stop_aggregate, Steps, done, next,
}
use httshark.Export.Collect.Loops.Seen.{seen, seen-Steps}
use httshark.Export.Collect.Loops.Ending.{stop_ends, HasEnded, running}

abbrev pub by_host : Config
by_host = record {
  outside = plain;
  content_types_to_keep = [];
  ignore_health_check = true;
  split_by_host = true;
  arrange = in_list_order;
}

-- counts its calls and always fails
abbrev failing : HarProcessor ℕ
failing calls file = (suc calls, file, true)

dump_transactions_count_example :
    (dump_transactions by_host (failing ∷ failing ∷ []) 0 (2 ^ 64 - 1) (unanswered ∷ [])).1
    ≡ ((2 ^ 64 - 1) + total_entries (files_of by_host (unanswered ∷ []))) % 2 ^ 64
dump_transactions_count_example =
    dump_transactions_count by_host (failing ∷ failing ∷ []) 0 (2 ^ 64 - 1) (unanswered ∷ [])
      in_list_order-WalksGroups (omega arith)

abbrev pub one_queued : Processor
one_queued = queue unanswered start

-- One transaction is queued and gathered, then a tick dumps it.
abbrev pub dumped_one : Processor
dumped_one = export_tick (take_input unanswered [] one_queued)

pub one_dumped : Steps start (unanswered ∷ []) dumped_one
one_dumped = next start one_queued dumped_one (unanswered ∷ []) [] (queued unanswered) (
    next one_queued (take_input unanswered [] one_queued) dumped_one [] []
      (taken unanswered [] (unfold queue in refl) (unfold queue in refl))
      (next (take_input unanswered [] one_queued) dumped_one dumped_one [] []
        (ticked (unfold take_input queue in refl)) (done dumped_one)))

pub dumped_one_dumps : dumped_one.dumped ≡ (unanswered ∷ []) ∷ []
unfolding queue take_input export_tick
dumped_one_dumps = refl

seen-Steps_example : seen dumped_one ≡ seen start ++ (unanswered ∷ [])
seen-Steps_example = seen-Steps start dumped_one (unanswered ∷ []) one_dumped

-- the aggregating goroutine takes the first value before the second one is put
abbrev one_ended : Processor
one_ended = stop_aggregate 0 (signal_stop start)

between_signals : Steps (signal_stop start) [] one_ended
between_signals =
    next (signal_stop start) one_ended one_ended [] []
      (aggregate_stopped 0 (unfold signal_stop in refl) (unfold signal_stop in refl))
      (done one_ended)

stop_ends_example :
    let p = signal_stop one_ended in
    (running p.aggregating + running p.exporting ≤ p.signals)
    × ((s : Processor) × Steps p [] s × HasEnded s)
stop_ends_example =
    stop_ends start one_ended (signal_stop one_ended) [] [] (omega arith) between_signals
      (unfold stop_aggregate in omega arith) (done (signal_stop one_ended))
