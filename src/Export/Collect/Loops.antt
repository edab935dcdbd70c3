-- ===== src/Export/Collect/Loops.antt =====
-- exporters/processor.go: `Queue`, `Stop` and the goroutines `aggregate` and `export` as steps. A
-- goroutine stands at its `select` or has ended; a step is one round with the test of `p.stopped`
-- that follows it. The mutex is held where `p.transactions` is read and written, and what
-- `dumpTransactions` does after that touches nothing that the other goroutine uses: a tick is one
-- step.
pub mod Seen
pub mod Ending
use httshark.Base.{
  ℕ, zero, suc, ◌+◌, ◌≤◌, ◌<◌, ◌≡◌, refl, ap, sym, ◌∙◌, Bool, true, false, not, List, [], ◌∷◌, ◌++◌,
  arith, length, append_assoc, append-nil, Bool-cases, inl, inr, ◌⊎◌,
}
use httshark.Core.Entries.{HttpTransaction}

-- `input` is what stands in the channel, `signals` how many values stand in `p.stopChannel`, and
-- `dumped` the arguments of the calls of `dumpTransactions`.
pub record Processor : Type 0 where
  pub input : List HttpTransaction
  pub transactions : List HttpTransaction
  pub dumped : List (List HttpTransaction)
  pub signals : ℕ
  pub stopped : Bool
  pub aggregating : Bool
  pub exporting : Bool

-- `Start`
abbrev pub start : Processor
start = record {
  input = [];
  transactions = [];
  dumped = [];
  signals = 0;
  stopped = false;
  aggregating = true;
  exporting = true;
}

-- `Queue`; where the channel is full it waits, and its step comes when there is room
unfoldable pub queue : HttpTransaction → Processor → Processor
queue t p = record p { input = p.input ++ (t ∷ []) }

-- `aggregate` takes a transaction.
unfoldable pub take_input : HttpTransaction → List HttpTransaction → Processor → Processor
take_input t rest p = record p {
  input = rest;
  transactions = p.transactions ++ (t ∷ []);
  aggregating = not p.stopped;
}

-- `export` at a tick
unfoldable pub export_tick : Processor → Processor
export_tick p = record p {
  transactions = [];
  dumped = p.dumped ++ (p.transactions ∷ []);
  exporting = not p.stopped;
}

-- a goroutine takes a stop value, which leaves `n`
unfoldable pub stop_aggregate : ℕ → Processor → Processor
stop_aggregate n p = record p { signals = n; stopped = true; aggregating = false }

unfoldable pub stop_export : ℕ → Processor → Processor
stop_export n p = record p { signals = n; stopped = true; exporting = false }

-- `p.stopChannel <- true`, which `Stop` does twice before it waits for both goroutines to end
unfoldable pub signal_stop : Processor → Processor
signal_stop p = record p { signals = p.signals + 1 }

-- What can happen next. The stop channel has room for two values. Only `Queue` has an argument from outside.
pub data Step (p : Processor) : List HttpTransaction → Processor → Type 0 where
  queued : (t : HttpTransaction) → Step p (t ∷ []) (queue t p)
  taken :
      (t : HttpTransaction) (rest : List HttpTransaction)
      → p.aggregating ≡ true
      → p.input ≡ t ∷ rest
      → Step p [] (take_input t rest p)
  ticked : p.exporting ≡ true → Step p [] (export_tick p)
  aggregate_stopped :
      (n : ℕ) → p.aggregating ≡ true → p.signals ≡ suc n → Step p [] (stop_aggregate n p)
  signalled : p.signals < 2 → Step p [] (signal_stop p)
  export_stopped : (n : ℕ) → p.exporting ≡ true → p.signals ≡ suc n → Step p [] (stop_export n p)

-- any number of steps, with the transactions queued meanwhile
pub data Steps : Processor → List HttpTransaction → Processor → Type 0 where
  done : (p : Processor) → Steps p [] p
  next :
      (p q r : Processor) (new more : List HttpTransaction)
      → Step p new q
      → Steps q more r
      → Steps p (new ++ more) r
