-- ===== src/Core/Aggregated.antt =====
-- core/aggregated/aggregated_log.go: warnings are counted by their text, and published and reset
-- at each tick. The order in which Go walks through the map is an argument.
mod Totals
use httshark.Base.{
  ℕ, ◌+◌, Option, none, some, List, [], ◌∷◌, ◌++◌, Bytes, bytes_eq, lookup, insert, if◌then◌else◌,
  same,
}

abbrev pub Messages : Type 0
Messages = List (Bytes × ℕ)

abbrev pub or_0 : Option ℕ → ℕ
or_0 none = 0
or_0 (some n) = n

-- `Warn`: `messages[message]++`
unfoldable pub warn : Bytes → Messages → Messages
warn message messages = insert message (or_0 (lookup message messages) + 1) messages

abbrev pub warn_all : List Bytes → Messages → Messages
warn_all [] messages = messages
warn_all (m ∷ ms) messages = warn_all ms (warn m messages)

-- `publishToCloudWatch`: the metrics, by name and value
unfoldable pub publish_to_cloud_watch : (Messages → Messages) → Messages → Messages
publish_to_cloud_watch arrange messages = elim messages [ [] ↦ [] | m ∷ ms ↦ arrange (m ∷ ms) ]

-- `printAggregated`: it drops the records that it makes
unfoldable pub print_aggregated : Messages → Messages
print_aggregated messages = elim messages [ [] ↦ [] | m ∷ ms ↦ [] ]

-- A warning, or a tick of `InitLog` with the warnings that come between its two calls.
pub data Event : Type 0 where
  warning : Bytes → Event
  tick : List Bytes → Event

-- the loop of `InitLog` and the calls of `Warn`: the metrics, and what is counted at the end
unfoldable pub run : (Messages → Messages) → List Event → Messages → Messages × Messages
unfolding warn publish_to_cloud_watch print_aggregated
run arrange [] messages = ([], messages)
run arrange (warning m ∷ es) messages = run arrange es (warn m messages)
run arrange (tick between ∷ es) messages =
    let (later, last) = run arrange es (print_aggregated (warn_all between messages)) in
    (publish_to_cloud_watch arrange messages ++ later, last)
