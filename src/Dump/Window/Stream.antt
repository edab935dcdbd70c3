-- ===== src/Dump/Window/Stream.antt =====
-- What `confirm` delivers of a byte stream that was cut into packets, some of them sent twice or
-- with overlaps.
use native.Mathlib.Nat.{le_refl}
use httshark.Base.{
  tests, ℕ, zero, suc, ◌+◌, ◌-◌, ◌%◌, ◌≤◌, ◌<◌, ◌^◌, max, ◌≡◌, refl, sym, ap, ◌∙◌, true, false,
  Option, none, some, List, [], ◌∷◌, ◌++◌, append-nil, append_assoc, ap₂, arith, ltb, leb,
  if◌then◌else◌, length, drop, Bytes, Bool-cases, inl, inr,
}
use httshark.Dump.Packet.{Tcp}
use httshark.Dump.Seq.{sub32, compare_tcp_seq, is_negative}
use httshark.Dump.Seq.Order.{IsNear, compare_tcp_seq_near}
use httshark.Dump.Window.{deliver, next_expect, sent_list}
use httshark.Dump.Window.Confirm.{Confirmed, confirm_list}
use httshark.Dump.Window.Sorted.{IsRegion}

-- the data of packets, one after the other
abbrev pub payloads : List Tcp → Bytes
payloads [] = []
payloads (x ∷ l) = x.payload ++ payloads l

pub payloads-append : (k l : List Tcp) → payloads (k ++ l) ≡ payloads k ++ payloads l
payloads-append [] l = refl
payloads-append (x ∷ k) l =
    ap (λ t. x.payload ++ t) (payloads-append k l)
    ∙ sym (append_assoc x.payload (payloads k) (payloads l))

pub deliver_cases :
    (lo : ℕ)
    → IsRegion lo
    → 0 < lo
    → (e : ℕ) (x : Tcp) → lo ≤ e
    → e < lo + 2 ^ 31
    → lo ≤ x.seq
    → x.seq + length x.payload < lo + 2 ^ 31
    → x.seq ≤ e
    → deliver e x ≡ (
        if ltb x.seq e
        then if leb (length x.payload) (e - x.seq)
          then none
          else some (record x { payload = drop (e - x.seq) x.payload })
        else some x)
unfolding deliver
deliver_cases lo region positive e x he he' hl hx' hx =
    let near : IsNear e x.seq = omega arith in
    let (_, _, pos_iff, _) = compare_tcp_seq_near e x.seq near in
    let apart : sub32 e x.seq ≡ e - x.seq = omega arith in
    let short : length x.payload % 2 ^ 32 ≡ length x.payload = omega arith in
    rw (pos_iff, apart, short) (ground arith)

-- the packets from the first one on that an acknowledgement does not confirm
abbrev pub unconfirmed : ℕ → List Tcp → List Tcp
unconfirmed ack [] = []
unconfirmed ack (x ∷ l) =
    if is_negative (compare_tcp_seq x.seq ack) then unconfirmed ack l else x ∷ l

module _ (byte_at : ℕ → ℕ) where
  -- `n` bytes of the stream from the sequence number `a`
  abbrev pub segment : ℕ → ℕ → Bytes
  segment a zero = []
  segment a (suc n) = byte_at a ∷ segment (a + 1) n

  pub length-segment : (a n : ℕ) → length (segment a n) ≡ n
  length-segment a zero = refl
  length-segment a (suc n) = ap suc (length-segment (a + 1) n)

  pub segment_add : (a m n : ℕ) → segment a m ++ segment (a + m) n ≡ segment a (m + n)
  segment_add a zero n = ap (λ k. segment k n) (omega arith) ∙ ap (segment a) (omega arith)
  segment_add a (suc m) n =
      let further : a + suc m ≡ a + 1 + m = omega arith in
      let whole : suc (m + n) ≡ suc m + n = omega arith in
      ap (λ l. byte_at a ∷ l)
        (ap (λ k. segment (a + 1) m ++ segment k n) further ∙ segment_add (a + 1) m n)
      ∙ ap (segment a) whole

  drop-segment : (k a n : ℕ) → k ≤ n → drop k (segment a n) ≡ segment (a + k) (n - k)
  drop-segment zero a n h = ap (λ t. segment t n) (omega arith) ∙ ap (segment (a + 0)) (omega arith)
  drop-segment (suc k) a zero h = elim h [ ]
  drop-segment (suc k) a (suc n) h =
      drop-segment k (a + 1) n (omega arith)
      ∙ ap (λ t. segment t (n - k)) (omega arith)
      ∙ ap (segment (a + suc k)) (omega arith)

  module _ (lo : ℕ) (region : IsRegion lo) (positive : 0 < lo) where
    -- A packet of the stream, within the region.
    pub record IsPart (x : Tcp) : Type 0 where
      pub from_lo : lo ≤ x.seq
      pub to_end : x.seq + length x.payload < lo + 2 ^ 31
      pub data_of : x.payload ≡ segment x.seq (length x.payload)

    -- No packet begins behind the bytes that those before it reach.
    abbrev pub NoGap : ℕ → List Tcp → Type 0
    NoGap e [] = Unit
    NoGap e (x ∷ l) = IsPart x × (x.seq ≤ e) × NoGap (max e (x.seq + length x.payload)) l

    -- one packet: what it sends brings the stream on from `e`
    pub record Brings (e : ℕ) (x : Tcp) (out : Option Tcp) : Type 0 where
      pub next : next_expect out e x ≡ max e (x.seq + length x.payload)
      pub bytes : payloads (sent_list out) ≡ segment e (max e (x.seq + length x.payload) - e)

    pub deliver-Brings :
        (e : ℕ) (x : Tcp)
        → lo ≤ e
        → e < lo + 2 ^ 31
        → IsPart x
        → x.seq ≤ e
        → Brings e x (deliver e x)
    deliver-Brings e x he he' px hx =
        rw (deliver_cases lo region positive e x he he' px.from_lo px.to_end hx)
          (elim (Bool-cases (ltb x.seq e)) [
            | inl t ↦ rw t (elim (Bool-cases (leb (length x.payload) (e - x.seq))) [
              | inl u ↦
                  rw u (record { next = omega (tests, u, t); bytes = ap (segment e) (no_more u t) })
              | inr v ↦ rw v (record {
                next = omega (arith, px.to_end, region, reaches v);
                bytes = append-nil _ ∙ tail_bytes (omega (arith, reaches v));
              })
            ])
            | inr f ↦ rw f (record {
              next = omega (arith, px.to_end, region, level f);
              bytes =
                  append-nil x.payload
                  ∙ ap (λ k. drop k x.payload) (level₀ f)
                  ∙ tail_bytes (omega (arith, level f));
            })
          ])
      where
        no_more :
            leb (length x.payload) (e - x.seq) ≡ true
            → ltb x.seq e ≡ true
            → 0 ≡ max e (x.seq + length x.payload) - e
        no_more u t = omega (tests, u, t)

        reaches : leb (length x.payload) (e - x.seq) ≡ false → e < x.seq + length x.payload
        reaches v = ground (arith, v, hx)

        level : ltb x.seq e ≡ false → x.seq ≡ e
        level f = ground (arith, f, hx)

        level₀ : ltb x.seq e ≡ false → 0 ≡ e - x.seq
        level₀ f = omega (arith, level f)

        tail_bytes :
            e ≤ x.seq + length x.payload
            → drop (e - x.seq) x.payload ≡ segment e (max e (x.seq + length x.payload) - e)
        tail_bytes h =
            let within : e - x.seq ≤ length x.payload = omega arith in
            let from : x.seq + (e - x.seq) ≡ e = omega arith in
            let left : length x.payload - (e - x.seq) ≡ max e (x.seq + length x.payload) - e =
              omega arith in
            ap (drop (e - x.seq)) px.data_of
            ∙ drop-segment (e - x.seq) x.seq (length x.payload) within
            ∙ ap (λ k. segment k (length x.payload - (e - x.seq))) from
            ∙ ap (segment e) left

    abbrev pub Delivered : ℕ → ℕ → List Tcp → Type 0
    Delivered ack e l =
        (e ≤ (confirm_list ack e l).expect_begin)
        × (payloads (confirm_list ack e l).sent
            ≡ segment e ((confirm_list ack e l).expect_begin - e))

    pub payloads_cons :
        (ack e : ℕ) (x : Tcp) (l : List Tcp)
        → Brings e x (deliver e x)
        → Delivered ack (next_expect (deliver e x) e x) l
        → Delivered ack e (x ∷ l)
    unfolding confirm_list
    payloads_cons ack e x l now later =
        elim (Bool-cases (is_negative (compare_tcp_seq x.seq ack))) [
          | inl t ↦ rw t (
            omega (arith, now.next, later.0),
            payloads-append (sent_list out) rest.sent
                ∙ ap₂ ◌++◌ now.bytes later.1
                ∙ joined k rest.expect_begin now.next later.0,
          )
          | inr f ↦
              rw f (let nothing : 0 ≡ e - e = omega arith in (le_refl e, ap (segment e) nothing))
        ]
      where
        out : Option Tcp
        out = deliver e x

        k : ℕ
        k = next_expect out e x

        rest : Confirmed
        rest = confirm_list ack k l

        joined :
            (k n : ℕ)
            → k ≡ max e (x.seq + length x.payload)
            → k ≤ n
            → segment e (max e (x.seq + length x.payload) - e) ++ segment k (n - k)
              ≡ segment e (n - e)
        joined k n h h' =
            let from : k ≡ e + (max e (x.seq + length x.payload) - e) = omega arith in
            let all : max e (x.seq + length x.payload) - e + (n - k) ≡ n - e = omega arith in
            ap (λ t. segment e (max e (x.seq + length x.payload) - e) ++ segment t (n - k)) from
            ∙ segment_add e (max e (x.seq + length x.payload) - e) (n - k)
            ∙ ap (segment e) all
