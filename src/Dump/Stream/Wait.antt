-- ===== src/Dump/Stream/Wait.antt =====
-- The wait for space in a channel ends.
use native.Mathlib.Nat.{zero-add}
use httshark.Base.{
  Bool, ℕ, zero, suc, ◌+◌, ◌*◌, ◌<◌, ◌≡◌, ◌≢◌, ◌≤◌, true, refl, List, [], ◌∷◌, arith, ◌≤ℤ◌, pos,
  length,
}
use httshark.Dump.Stream.{
  StreamConfig, Progress, done, waits, panics, Round, wait_for_channel_space,
}

-- Each round sleeps for an interval, so that the time measured in the round `k` is at least `k`
-- intervals.
abbrev pub IsMeasured : ℕ → ℕ → List Round → Type 0
IsMeasured interval k [] = Unit
IsMeasured interval k (r ∷ rounds) =
    (pos (k * interval) ≤ℤ r.passed) × IsMeasured interval (suc k) rounds

wait_from :
    (config : StreamConfig) (queued interval timeout k n : ℕ) (rounds : List Round)
    → config.full_channel_timeout ≡ pos timeout
    → IsMeasured interval k rounds
    → length rounds ≡ suc n
    → timeout < (k + n) * interval
    → wait_for_channel_space config queued rounds ≢ waits
unfolding wait_for_channel_space
wait_from config queued interval timeout k n [] t m l h = absurd (omega arith)
wait_from config queued interval timeout k zero (r ∷ rounds) t (p, m) l h = rw t (ground arith)
wait_from config queued interval timeout k (suc n) (r ∷ rounds) t (p, m) l h =
    ground (arith, wait_from config queued interval timeout (suc k) n rounds t m)

pub wait-ne-panics :
    (config : StreamConfig) (queued : ℕ) (rounds : List Round)
    → wait_for_channel_space config queued rounds ≢ panics
unfolding wait_for_channel_space
wait-ne-panics config queued [] = cc
wait-ne-panics config queued (r ∷ rounds) = ground (arith, wait-ne-panics config queued rounds)

done_of_ne : {A : Type 0} → (p : Progress A) → p ≢ waits → p ≢ panics → (a : A) × (p ≡ done a)
done_of_ne (done a) h k = (a, refl)
done_of_ne waits h k = absurd (h refl)
done_of_ne panics h k = absurd (k refl)

-- The wait for space in a channel with `queued` packets ends after `n + 1` rounds at the latest,
-- where `n` sleeps last longer than the timeout: it tells whether a packet may be sent, or that the stream is given up.
pub wait_for_channel_space_ends :
    (config : StreamConfig) (queued interval timeout n : ℕ) (rounds : List Round)
    → config.full_channel_timeout ≡ pos timeout
    → IsMeasured interval 0 rounds
    → length rounds ≡ suc n
    → timeout < n * interval
    → (has_space : Bool) × (wait_for_channel_space config queued rounds ≡ done has_space)
wait_for_channel_space_ends config queued interval timeout n rounds t m l h =
    done_of_ne (wait_for_channel_space config queued rounds)
      (wait_from config queued interval timeout 0 n rounds t m l (rw zero-add h))
      (wait-ne-panics config queued rounds)

-- Where fewer packets are in the channel, the wait finds space too.
pub wait_fewer :
    (config : StreamConfig) (m n : ℕ) (rounds : List Round)
    → n ≤ m
    → wait_for_channel_space config m rounds ≡ done true
    → wait_for_channel_space config n rounds ≡ done true
unfolding wait_for_channel_space
wait_fewer config m n [] h q = absurd (cc)
wait_fewer config m n (r ∷ rounds) h q = ground (arith, wait_fewer config m n rounds h)
