-- ===== src/Dump/Stream/ReadAll.antt =====
-- A reader that goes on until the end of file, as net/http and `discardAll` do, gets everything.
use httshark.Base.{
  ℕ, zero, suc, ◌<◌, ◌≡◌, refl, sym, ap, ◌∙◌, true, Option, none, some, List, [], ◌∷◌, ◌++◌, arith,
  Bytes, length, length-append, replicate, if_true, List-cases, inl, inr,
}
use httshark.Dump.Stream.{
  NetworkStream, StreamConfig, Select, ready, Filled, filled, simulated, still_waiting, at_eof,
  fill, Returned, bytes, eof, blocked, take_remain, read_filled, read,
}
use httshark.Dump.Stream.Read.{
  unread, IsFilled, fill_lem, fill_has, fill_packet, fill_ended, take_remain_lem,
}

abbrev pub and_then : Bytes → Option Bytes → Option Bytes
and_then out none = none
and_then out (some rest) = some (out ++ rest)

abbrev pub proceed : Returned → (List Select → NetworkStream → Option Bytes) → Option Bytes
proceed (bytes out s rounds) more = and_then out (more rounds s)
proceed (eof s rounds) more = some []
proceed blocked more = none

-- Reads with room for `n` bytes until the end of file; `none` if a read waits, or `calls` are not
-- enough.
pub read_all : StreamConfig → ℕ → ℕ → List Select → NetworkStream → Option Bytes
read_all config n zero rounds s = none
read_all config n (suc calls) rounds s = proceed (read config n rounds s) (read_all config n calls)

-- The loop of `Read` at a closed channel: it does not wait, and the timer has not to fire.
abbrev IsReady : Filled → Type 0
IsReady (filled s rounds) =
    (k : ℕ) × (rounds ≡ replicate k ready) × (length s.c < k) × (s.ended ≡ true)
IsReady (simulated s rounds) = s.c ≡ []
IsReady still_waiting = ⊥

fill-IsReady :
    (config : StreamConfig) (k : ℕ) (s : NetworkStream)
    → length s.c < k
    → s.ended ≡ true
    → IsReady (fill config (replicate k ready) s)
fill-IsReady config zero s h e = absurd (omega arith)
fill-IsReady config (suc k) s h e = elim (List-cases s.remain) [
  | inr (b, r, q) ↦ rw (fill_has config (ready ∷ replicate k ready) s b r q) (suc k, refl, h, e)
  | inl q ↦ elim (List-cases s.c) [
    | inl z ↦
        rw
          (
            fill_ended config (replicate k ready) s q z,
            if_true s.ended (at_eof s (replicate k ready)) still_waiting e,
          )
          z
    | inr (tcp, c, z) ↦ rw (fill_packet config (replicate k ready) s tcp c q z) (
        fill-IsReady config k (record s { c = c; remain = tcp.payload })
          (omega (arith, ap length z)) e)
  ]
]

unread-nil : (s : NetworkStream) → s.remain ≡ [] → s.c ≡ [] → unread s ≡ []
unread-nil s h k = rw (h, k) refl

take_remain_c : (n : ℕ) (s : NetworkStream) → (take_remain n s).1.c ≡ s.c
unfolding take_remain
take_remain_c n s = ground arith

module _ (n : ℕ) (room : 0 < n) where
  after_fill :
      (calls : ℕ) (s : NetworkStream) (x : Filled)
      (more : List Select → NetworkStream → Option Bytes)
      → IsFilled s x
      → IsReady x
      → length (unread s) < suc calls
      → ((k : ℕ) (s' : NetworkStream)
          → length (unread s') < calls
          → length s'.c < k
          → s'.ended ≡ true
          → more (replicate k ready) s' ≡ some (unread s'))
      → proceed (read_filled n x) more ≡ some (unread s)
  unfolding read_filled
  after_fill calls s (filled s' rounds) more (h₀, h₁, h₂) (k, q, c, e) h ih =
      let (a, b, cut, d) = take_remain_lem n s' h₀ in
      let s'' = (take_remain n s').1 in
      rw
        (
          q,
          ih k s''
              (omega (
                arith,
                b room,
                ap length cut,
                ap length h₁,
                length-append (take_remain n s').0 (unread s''),
              ))
              (rw (take_remain_c n s') c) (d ∙ e),
        )
        (ap some (cut ∙ h₁))
  after_fill calls s (simulated s' rounds) more (h₀, h₁, h₂) c h ih =
      ap some (sym (unread-nil s' h₀ c) ∙ h₁)
  after_fill calls s still_waiting more f r h ih = absurd r

  -- A stream whose channel is closed, read again and again with room for one byte or more, gives
  -- exactly the bytes that were left of the last packet and those of the packets in the channel, in
  -- their order, and then the end of file: `calls` and the rounds of `select` that are given here
  -- are enough, and no read waits.
  pub read_all_lem :
      (config : StreamConfig) (calls k : ℕ) (s : NetworkStream)
      → length (unread s) < calls
      → length s.c < k
      → s.ended ≡ true
      → read_all config n calls (replicate k ready) s ≡ some (unread s)
  unfolding read_all read
  read_all_lem config zero k s h hk e = absurd (omega arith)
  read_all_lem config (suc calls) k s h hk e =
      after_fill calls s (fill config (replicate k ready) s) (read_all config n calls)
        (fill_lem config (replicate k ready) s) (fill-IsReady config k s hk e) h
        (read_all_lem config calls)
