-- ===== src/Export/Collect/Loops/Seen.antt =====
-- What the two goroutines do with the transactions, in any interleaving.
use httshark.Base.{◌≡◌, refl, ap, sym, ◌∙◌, false, List, [], ◌∷◌, ◌++◌, append_assoc, append-nil}
use httshark.Core.Entries.{HttpTransaction}
use httshark.Export.Collect.Loops.{
  Processor, queue, take_input, export_tick, stop_aggregate, stop_export, signal_stop, Step, queued,
  taken, ticked, aggregate_stopped, export_stopped, signalled, Steps, done, next,
}

-- the dumped transactions in order
abbrev pub concat : List (List HttpTransaction) → List HttpTransaction
concat [] = []
concat (batch ∷ batches) = batch ++ concat batches

-- what came in, in order: dumped, gathered or still in the channel
abbrev pub seen : Processor → List HttpTransaction
seen p = concat p.dumped ++ (p.transactions ++ p.input)

concat-append : (bs cs : List (List HttpTransaction)) → concat (bs ++ cs) ≡ concat bs ++ concat cs
concat-append [] cs = refl
concat-append (b ∷ bs) cs = rw (concat-append bs cs) (sym (append_assoc b (concat bs) (concat cs)))

pub seen-Step :
    (p q : Processor) (new : List HttpTransaction) → Step p new q → seen q ≡ seen p ++ new
seen-Step p q new (queued t) =
    unfold queue in
    rw (← append_assoc p.transactions p.input (t ∷ []))
      (sym (append_assoc (concat p.dumped) (p.transactions ++ p.input) (t ∷ [])))
seen-Step p q new (taken t rest a h) =
    unfold take_input in
    rw
      (
        h,
        append-nil (concat p.dumped ++ (p.transactions ++ (t ∷ rest))),
        append_assoc p.transactions (t ∷ []) rest,
      )
      refl
seen-Step p q new (ticked e) =
    unfold export_tick in
    rw
      (
        concat-append p.dumped (p.transactions ∷ []),
        append-nil p.transactions,
        append-nil (seen p),
        append_assoc (concat p.dumped) p.transactions p.input,
      )
      refl
seen-Step p q new (aggregate_stopped n a s) = unfold stop_aggregate in sym (append-nil (seen p))
seen-Step p q new (export_stopped n e s) = unfold stop_export in sym (append-nil (seen p))
seen-Step p q new (signalled room) = unfold signal_stop in sym (append-nil (seen p))

-- However the two goroutines and the callers of `Queue` and `Stop` interleave, the dumped
-- transactions, the gathered ones and those in the channel are, in this order, what was there at
-- first and then what was queued: none is lost, doubled or moved.
pub seen-Steps :
    (p q : Processor) (new : List HttpTransaction) → Steps p new q → seen q ≡ seen p ++ new
seen-Steps p q new (done p') = sym (append-nil (seen p))
seen-Steps p q new (next p' q' r n more s ss) =
    seen-Steps q' q more ss ∙ rw (seen-Step p q' n s) (append_assoc (seen p) n more)

append_cancel : (xs ys zs : List HttpTransaction) → xs ++ ys ≡ xs ++ zs → ys ≡ zs
append_cancel [] ys zs h = h
append_cancel (x ∷ xs) ys zs h = append_cancel xs ys zs (let h' : xs ++ ys ≡ xs ++ zs = cc in h')

dumped-Step :
    (p q : Processor) (new : List HttpTransaction)
    → Step p new q
    → p.exporting ≡ false
    → (q.exporting ≡ false) × (q.dumped ≡ p.dumped)
dumped-Step p q new (queued t) e = unfold queue in (e, refl)
dumped-Step p q new (taken t rest a h) e = unfold take_input in (e, refl)
dumped-Step p q new (ticked e') e = absurd (cc)
dumped-Step p q new (aggregate_stopped n a s) e = unfold stop_aggregate in (e, refl)
dumped-Step p q new (export_stopped n e' s) e = absurd (cc)
dumped-Step p q new (signalled room) e = unfold signal_stop in (e, refl)

dumps :
    (p q : Processor) (new : List HttpTransaction)
    → Steps p new q
    → p.exporting ≡ false
    → q.dumped ≡ p.dumped
dumps p q new (done p') e = refl
dumps p q new (next p' q' r n more s ss) e =
    let (e', same_here) = dumped-Step p q' n s e in dumps q' q more ss e' ∙ same_here

-- Once `export` has ended nothing more is dumped: what was not dumped by then, and all that is
-- queued later, stays in the channel or among the gathered transactions.
ended_keeps :
    (p q : Processor) (new : List HttpTransaction)
    → Steps p new q
    → p.exporting ≡ false
    → (q.dumped ≡ p.dumped) × (q.transactions ++ q.input ≡ (p.transactions ++ p.input) ++ new)
ended_keeps p q new steps e =
    let same_dumps = dumps p q new steps e in
    (
      same_dumps,
      append_cancel (concat p.dumped) (q.transactions ++ q.input)
          ((p.transactions ++ p.input) ++ new)
          (ap (λ ds. concat ds ++ (q.transactions ++ q.input)) (sym same_dumps)
            ∙ seen-Steps p q new steps
            ∙ append_assoc (concat p.dumped) (p.transactions ++ p.input) new),
    )
