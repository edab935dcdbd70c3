-- ===== src/Export/Health.antt =====
-- exporters/processor.go: `CheckHealth`, with the time that `Queue` keeps for it; and the answer of
-- `health` in server/entrypoint.go. The text of a duration is an argument.
mod Tests
use httshark.Base.{
  ℕ, zero, suc, ◌^◌, ◌-◌, ◌≡◌, ◌↔◌, refl, Bool, true, false, Option, none, some, List, [], ◌∷◌,
  ◌++◌, Bytes, codes, ℤ, pos, negsuc, ◌+ℤ◌, ltb_ℤ, if◌then◌else◌, arith, Bool-cases, inl, inr,
}
use httshark.Go.Clock.{Time, Duration, sub}

-- the assignment in `Queue`; the zero `time.Time` stands before the first one
unfoldable pub last_transaction_time : Time → List Time → Time
last_transaction_time zero_time [] = zero_time
last_transaction_time zero_time (t ∷ []) = t
last_transaction_time zero_time (t ∷ u ∷ ts) = last_transaction_time zero_time (u ∷ ts)

-- `CheckHealth`: the duration in the error, if there is one
unfoldable pub check_health : Duration → Time → Time → Option Duration
check_health timeout last now =
    let passed = sub now last in if ltb_ℤ timeout passed then some passed else none

-- `health`: the status and the body
unfoldable pub health : (Duration → Bytes) → Option Duration → ℕ × Bytes
health text none = (200, codes "OK")
health text (some passed) = (500, codes "transaction was not received for " ++ text passed)
