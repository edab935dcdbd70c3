-- ===== src/Export/Collect/Loops/Ending.antt =====
-- `Stop` can always return.
use httshark.Base.{
  ℕ, zero, suc, ◌+◌, ◌≤◌, ◌<◌, ◌≡◌, refl, Bool, true, false, not, List, [], arith, Bool-cases, inl,
  inr, ◌⊎◌,
}
use httshark.Core.Entries.{HttpTransaction}
use httshark.Export.Collect.Loops.{
  Processor, queue, take_input, export_tick, stop_aggregate, stop_export, signal_stop, Step, queued,
  taken, ticked, aggregate_stopped, export_stopped, signalled, Steps, done, next,
}

-- a goroutine that has not ended
abbrev pub running : Bool → ℕ
running true = 1
running false = 0

Nat-cases : (n : ℕ) → (n ≡ 0) ⊎ ((m : ℕ) × (n ≡ suc m))
Nat-cases zero = inl refl
Nat-cases (suc n) = inr (n, refl)

running_le : (b : Bool) → running b ≤ 1
running_le true = omega arith
running_le false = omega arith

-- There is a stop value for each goroutine that has not ended, but for `n` of them.
abbrev pub CanEndBut : ℕ → Processor → Type 0
CanEndBut n p = running p.aggregating + running p.exporting ≤ p.signals + n

abbrev pub CanEnd : Processor → Type 0
CanEnd p = CanEndBut 0 p

CanEnd-Step :
    (k : ℕ) (p q : Processor) (new : List HttpTransaction)
    → Step p new q
    → CanEndBut k p
    → CanEndBut k q
CanEnd-Step k p q new (queued t) c = unfold queue in c
CanEnd-Step k p q new (taken t rest a h) c =
    unfold take_input in ground (arith, running_le (not p.stopped))
CanEnd-Step k p q new (ticked e) c =
    unfold export_tick in ground (arith, running_le (not p.stopped))
CanEnd-Step k p q new (aggregate_stopped n a s) c = unfold stop_aggregate in ground arith
CanEnd-Step k p q new (export_stopped n e s) c = unfold stop_export in ground arith
CanEnd-Step k p q new (signalled room) c = unfold signal_stop in omega arith

CanEnd-Steps :
    (k : ℕ) (p q : Processor) (new : List HttpTransaction)
    → Steps p new q
    → CanEndBut k p
    → CanEndBut k q
CanEnd-Steps k p q new (done p') c = c
CanEnd-Steps k p q new (next p' q' r n more s ss) c =
    CanEnd-Steps k q' q more ss (CanEnd-Step k p' q' n s c)

-- Both goroutines have ended, so that `Stop` returns.
abbrev pub HasEnded : Processor → Type 0
HasEnded p = (p.aggregating ≡ false) × (p.exporting ≡ false)

end_export :
    (p : Processor) → CanEnd p → p.aggregating ≡ false → (q : Processor) × Steps p [] q × HasEnded q
end_export p c a = elim (Bool-cases p.exporting) [
  | inl e ↦ elim (Nat-cases p.signals) [
    | inl z ↦ absurd (ground arith)
    | inr (n, h) ↦
        let q = stop_export n p in
        (q, next p q q [] [] (export_stopped n e h) (done q), unfold stop_export in (a, refl))
  ]
  | inr f ↦ (p, done p, (a, f))
]

end_both : (p : Processor) → CanEnd p → (q : Processor) × Steps p [] q × HasEnded q
end_both p c = elim (Bool-cases p.aggregating) [
  | inl a ↦ elim (Nat-cases p.signals) [
    | inl z ↦ absurd (ground arith)
    | inr (n, h) ↦
        let q = stop_aggregate n p in
        let step = aggregate_stopped n a h in
        let (r, steps, ended) =
          end_export q (CanEnd-Step 0 p q [] step c) (unfold stop_aggregate in refl) in
        (r, next p q r [] [] step steps, ended)
  ]
  | inr f ↦ end_export p c f
]

-- A call of `Stop` whose two values find room in the channel, which holds two: whatever the
-- goroutines and the callers of `Queue` and `Stop` do between the two values and after them, there
-- is then a stop value in the channel for each goroutine that has not ended, and with these both
-- can end without any further call.
pub stop_ends :
    (p q r : Processor) (new more : List HttpTransaction)
    → p.signals < 2
    → Steps (signal_stop p) new q
    → q.signals < 2
    → Steps (signal_stop q) more r
    → (running r.aggregating + running r.exporting ≤ r.signals)
      × ((s : Processor) × Steps r [] s × HasEnded s)
stop_ends p q r new more first between second after =
    let one_left = CanEnd-Steps 1 (signal_stop p) q new between signalled_once in
    let enough =
      CanEnd-Steps 0 (signal_stop q) r more after (unfold signal_stop in omega (arith, one_left)) in
    (omega (arith, enough), end_both r enough)
  where
    signalled_once : CanEndBut 1 (signal_stop p)
    signalled_once =
        unfold signal_stop in omega (arith, running_le p.aggregating, running_le p.exporting)
