-- ===== src/Export/Health/Tests.antt =====
-- A transaction was queued a second ago, or never.
use httshark.Base.{◌≡◌, refl, some, [], ◌∷◌, codes, pos}
use httshark.Go.Clock.{sub}
use httshark.Export.Health.{last_transaction_time, check_health, health}

fresh :
    health
      (λ d. codes "1s")
      (check_health
        (pos 10_000_000_000)
        (last_transaction_time (pos 0) (pos 5 ∷ pos 7_000_000_000 ∷ []))
        (pos 8_000_000_000))
    ≡ (200, codes "OK")
unfolding health check_health last_transaction_time sub
fresh = refl

-- Before the first transaction the time that has passed is the longest duration there is.
never :
    check_health
      (pos 10_000_000_000)
      (last_transaction_time (pos 0) [])
      (pos 63_000_000_000_000_000_000)
    ≡ some (pos 9_223_372_036_854_775_807)
unfolding check_health last_transaction_time sub
never = refl
