-- ===== src/Dump/Stream/Read.antt =====
-- What `Read` returns.
use httshark.Base.{
  ℕ, ◌<◌, ◌≤◌, ◌≡◌, ◌≢◌, refl, sym, ap, ◌∙◌, Bool, true, false, ◌||◌, List, [], ◌∷◌, ◌++◌, arith,
  tests, Bytes, append_assoc, ltb, ltb_ℤ, ◌==◌, if◌then◌else◌, length, take, drop, Bool-cases,
  List-cases, take-append-drop, length-take, inl, inr,
}
use httshark.Go.Clock.{Duration}
use httshark.Dump.Packet.{Tcp}
use httshark.Dump.Window.Stream.{payloads}
use httshark.Dump.Stream.{
  NetworkStream, StreamConfig, Select, ready, timed_out, receive, Filled, filled, simulated,
  still_waiting, at_eof, fill, Returned, bytes, eof, blocked, take_remain, read_filled, read,
}

-- the bytes that a stream has still to give
abbrev pub unread : NetworkStream → Bytes
unread s = s.remain ++ payloads s.c

-- The loop has found bytes, or has ended without any; it has lost none, and the channel is as it
-- was.
abbrev pub IsFilled : NetworkStream → Filled → Type 0
IsFilled s (filled s' rounds) = (s'.remain ≢ []) × (unread s' ≡ unread s) × (s'.ended ≡ s.ended)
IsFilled s (simulated s' rounds) =
    (s'.remain ≡ []) × (unread s' ≡ unread s) × (s'.eof_simulated ≡ true)
IsFilled s still_waiting = Unit

if-IsFilled :
    (s : NetworkStream) (b : Bool) (x y : Filled)
    → IsFilled s x
    → IsFilled s y
    → IsFilled s (if b then x else y)
if-IsFilled s true x y hx hy = hx
if-IsFilled s false x y hx hy = hy

IsFilled-of_same :
    (s t : NetworkStream) (x : Filled)
    → unread t ≡ unread s
    → t.ended ≡ s.ended
    → IsFilled t x
    → IsFilled s x
IsFilled-of_same s t (filled s' rounds) u e (h₀, h₁, h₂) = (h₀, h₁ ∙ u, h₂ ∙ e)
IsFilled-of_same s t (simulated s' rounds) u e (h₀, h₁, h₂) = (h₀, h₁ ∙ u, h₂)
IsFilled-of_same s t still_waiting u e h = tt

module _ (config : StreamConfig) where
  -- the cases of a round of the loop
  pub fill_has :
      (rounds : List Select) (s : NetworkStream) (b : ℕ) (r : Bytes)
      → s.remain ≡ b ∷ r
      → fill config rounds s ≡ filled s rounds
  unfolding fill
  fill_has [] s b r h = ground arith
  fill_has (ready ∷ rounds) s b r h = ground arith
  fill_has (timed_out o d ∷ rounds) s b r h = ground arith

  pub fill_packet :
      (rounds : List Select) (s : NetworkStream) (tcp : Tcp) (c : List Tcp)
      → s.remain ≡ []
      → s.c ≡ tcp ∷ c
      → fill config (ready ∷ rounds) s
        ≡ fill config rounds (record s { c = c; remain = tcp.payload })
  unfolding fill receive
  fill_packet rounds s tcp c h k = ground arith

  pub fill_ended :
      (rounds : List Select) (s : NetworkStream)
      → s.remain ≡ []
      → s.c ≡ []
      → fill config (ready ∷ rounds) s ≡ (if s.ended then at_eof s rounds else still_waiting)
  unfolding fill receive
  fill_ended rounds s h k = ground arith

  fill_timer :
      (rounds : List Select) (s : NetworkStream) (o : ℕ) (d : Duration)
      → s.remain ≡ []
      → fill config (timed_out o d ∷ rounds) s ≡ (
          if (o == config.channel_size) || ltb_ℤ config.response_timeout d
          then at_eof s rounds
          else fill config rounds s)
  unfolding fill
  fill_timer rounds s o d h = ground arith

  fill_none : (s : NetworkStream) → s.remain ≡ [] → fill config [] s ≡ still_waiting
  unfolding fill
  fill_none s h = ground arith

  pub fill_lem : (rounds : List Select) (s : NetworkStream) → IsFilled s (fill config rounds s)
  fill_lem [] s = elim (List-cases s.remain) [
    | inl h ↦ rw (fill_none s h) tt
    | inr (b, r, h) ↦ rw (fill_has [] s b r h) (λ q. absurd (cc), refl, refl)
  ]
  fill_lem (ready ∷ rounds) s = elim (List-cases s.remain) [
    | inr (b, r, h) ↦ rw (fill_has (ready ∷ rounds) s b r h) (λ q. absurd (cc), refl, refl)
    | inl h ↦ elim (List-cases s.c) [
      | inl k ↦
          rw (fill_ended rounds s h k)
            (if-IsFilled s s.ended (at_eof s rounds) still_waiting (h, refl, refl) tt)
      | inr (tcp, c, k) ↦ rw (fill_packet rounds s tcp c h k) (
          IsFilled-of_same s (record s { c = c; remain = tcp.payload }) _ (sym (rw (h, k) refl))
            refl (fill_lem rounds (record s { c = c; remain = tcp.payload })))
    ]
  ]
  fill_lem (timed_out o d ∷ rounds) s = elim (List-cases s.remain) [
    | inr (b, r, h) ↦ rw (fill_has (timed_out o d ∷ rounds) s b r h) (λ q. absurd (cc), refl, refl)
    | inl h ↦ rw (fill_timer rounds s o d h) (
        if-IsFilled s ((o == config.channel_size) || ltb_ℤ config.response_timeout d)
          (at_eof s rounds) (fill config rounds s) (h, refl, refl) (fill_lem rounds s))
  ]

-- What `Read` with room for `n` bytes returns: at most `n` bytes, and one at least if there is room;
-- with what is then unread they are what was unread before. It returns the end of file only when
-- no byte of the packets that it took is left, and loses none of those in the channel.
abbrev pub IsRead : ℕ → NetworkStream → Returned → Type 0
IsRead n s (bytes out s' rounds) =
    (length out ≤ n)
    × (0 < n → 0 < length out)
    × (out ++ unread s' ≡ unread s)
    × (s'.ended ≡ s.ended)
IsRead n s (eof s' rounds) = (s'.remain ≡ []) × (unread s' ≡ unread s) × (s'.eof_simulated ≡ true)
IsRead n s blocked = Unit

length_pos : (xs : Bytes) → xs ≢ [] → 0 < length xs
length_pos [] h = absurd (h refl)
length_pos (x ∷ xs) h = omega arith

pub take_remain_lem :
    (n : ℕ) (s : NetworkStream)
    → s.remain ≢ []
    → let (out, s') = take_remain n s in
      (length out ≤ n)
      × (0 < n → 0 < length out)
      × (out ++ unread s' ≡ unread s)
      × (s'.ended ≡ s.ended)
unfolding take_remain
take_remain_lem n s h =
    let some_byte = length_pos s.remain h in
    elim (Bool-cases (ltb n (length s.remain))) [
      | inl t ↦ rw t (
        omega (arith, length-take n s.remain),
        λ k. omega (tests, length-take n s.remain),
        sym (append_assoc (take n s.remain) (drop n s.remain) (payloads s.c))
            ∙ ap (λ r. r ++ payloads s.c) (take-append-drop n s.remain),
        refl,
      )
      | inr f ↦ rw f (ground arith, λ k. some_byte, refl, refl)
    ]

read_filled-IsRead :
    (n : ℕ) (s : NetworkStream) (x : Filled) → IsFilled s x → IsRead n s (read_filled n x)
unfolding read_filled
read_filled-IsRead n s (filled s' rounds) (h₀, h₁, h₂) =
    let (a, b, c, d) = take_remain_lem n s' h₀ in (a, b, c ∙ h₁, d ∙ h₂)
read_filled-IsRead n s (simulated s' rounds) h = h
read_filled-IsRead n s still_waiting h = tt

module _ (config : StreamConfig) (n : ℕ) where
  -- `Read` returns the bytes of the packets in the order of the channel: at most as many as there
  -- is room for, one at least unless there is no room, and with what is still unread they are what
  -- was unread before. At the end of file, real or simulated, nothing that was taken from the
  -- channel is left over, and nothing in the channel is lost.
  read_lem : (rounds : List Select) (s : NetworkStream) → IsRead n s (read config n rounds s)
  unfolding read
  read_lem rounds s = read_filled-IsRead n s (fill config rounds s) (fill_lem config rounds s)
