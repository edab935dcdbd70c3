-- ===== src/Dump/Window/Covered.antt =====
-- What `confirm` does with packets that hold, between them, every byte before the acknowledgement.
use mathlib.Core.Path.{subst}
use native.Mathlib.Nat.{le_refl}
use native.Mathlib.Decide.{dec_lt}
use httshark.Base.{
  ℕ, ◌+◌, ◌-◌, ◌≤◌, ◌<◌, ◌^◌, max, ◌≡◌, refl, sym, ap, ◌∙◌, true, false, some, List, [], ◌∷◌, ◌++◌,
  arith, length, All, Has, Bool-cases, ◌⊎◌, inl, inr, ltb, ltb→lt,
}
use httshark.Dump.Packet.{Tcp}
use httshark.Dump.Seq.{compare_tcp_seq, is_negative}
use httshark.Dump.Seq.Order.{IsNear, compare_tcp_seq_near}
use httshark.Dump.Window.{deliver, next_expect, sent_list}
use httshark.Dump.Window.Confirm.{Confirmed, confirm_list}
use httshark.Dump.Window.Sorted.{IsRegion, StartsAbove, IsSorted}
use httshark.Dump.Window.Stream.{
  deliver_cases, payloads, segment, IsPart, Brings, deliver-Brings, payloads_cons,
}

-- A packet of the list has the byte at the sequence number `b`.
abbrev pub Covering : ℕ → List Tcp → Type 0
Covering b l = (y : Tcp) × Has y l × (y.seq ≤ b) × (b < y.seq + length y.payload)

-- the list has each byte from `k` up to `ack`
abbrev pub Covers : ℕ → ℕ → List Tcp → Type 0
Covers k ack l = (b : ℕ) → k ≤ b → b < ack → Covering b l

-- The first packet of a sorted list has the least sequence number.
seq_above : (n : ℕ) (l : List Tcp) (y : Tcp) → StartsAbove n l → IsSorted l → Has y l → n < y.seq
seq_above n [] y a s h = absurd h
seq_above n (x ∷ l) y a (b, s) (inl q) = omega (arith, ap (λ (t : Tcp). t.seq) q)
seq_above n (x ∷ l) y a (b, s) (inr h) = omega (arith, seq_above x.seq l y b s h)

pub seq_least :
    (x : Tcp) (l : List Tcp) (y : Tcp) → IsSorted (x ∷ l) → Has y (x ∷ l) → x.seq ≤ y.seq
seq_least x l y s (inl q) = omega (arith, ap (λ (t : Tcp). t.seq) q)
seq_least x l y (a, s) (inr h) = omega (arith, seq_above x.seq l y a s h)

-- Where a byte before the acknowledgement is expected, the first packet begins at it or before.
no_gap :
    (ack k : ℕ) (x : Tcp) (l : List Tcp)
    → IsSorted (x ∷ l)
    → Covers k ack (x ∷ l)
    → k < ack
    → x.seq ≤ k
no_gap ack k x l s cov h =
    let (y, has, from, _) = cov k (le_refl k) h in omega (arith, seq_least x l y s has)

Covers-tail :
    (ack k : ℕ) (x : Tcp) (l : List Tcp)
    → Covers k ack (x ∷ l)
    → Covers (max k (x.seq + length x.payload)) ack l
Covers-tail ack k x l cov b hb hb' =
    let (y, has, from, to) = cov b (omega arith) hb' in later y has from to
  where
    later : (y : Tcp) → Has y (x ∷ l) → y.seq ≤ b → b < y.seq + length y.payload → Covering b l
    later y (inl q) from to = absurd (omega (arith, ap (λ (t : Tcp). t.seq + length t.payload) q))
    later y (inr h) from to = (y, h, from, to)

step_in :
    (ack e : ℕ) (x : Tcp) (l : List Tcp)
    → is_negative (compare_tcp_seq x.seq ack) ≡ true
    → let rest = confirm_list ack (next_expect (deliver e x) e x) l in
      confirm_list ack e (x ∷ l) ≡ record {
        kept = rest.kept;
        sent = sent_list (deliver e x) ++ rest.sent;
        expect_begin = rest.expect_begin;
      }
step_in ack e x l t = unfold confirm_list in rw t

step_out :
    (ack e : ℕ) (x : Tcp) (l : List Tcp)
    → is_negative (compare_tcp_seq x.seq ack) ≡ false
    → confirm_list ack e (x ∷ l) ≡ record { kept = x ∷ l; sent = []; expect_begin = e }
step_out ack e x l f = unfold confirm_list in rw f

module _ (byte_at : ℕ → ℕ) (lo : ℕ) (region : IsRegion lo) (positive : 0 < lo) where
  abbrev Part : Tcp → Type 0
  Part = IsPart byte_at lo region positive

  -- What an acknowledgement makes of a list from `k` on: the bytes of the stream up to some place
  -- behind it are sent, and no byte that lies behind that place is given up.
  pub record Advances (ack k : ℕ) (l : List Tcp) (out : Confirmed) : Type 0 where
    pub later : k ≤ out.expect_begin
    pub bytes : payloads out.sent ≡ segment byte_at k (out.expect_begin - k)
    pub acked : ack ≤ out.expect_begin
    pub in_region : out.expect_begin < lo + 2 ^ 31
    pub sorted : IsSorted out.kept
    pub kept_of : (y : Tcp) → Has y out.kept → Has y l
    pub known : (y : Tcp) → Has y l → Has y out.kept ⊎ (y.seq + length y.payload ≤ out.expect_begin)

  module _ (ack : ℕ) (ack_from : lo ≤ ack) (ack_to : ack < lo + 2 ^ 31) where
    is_confirmed : (x : Tcp) → Part x → is_negative (compare_tcp_seq x.seq ack) ≡ ltb x.seq ack
    is_confirmed x px =
        let near : IsNear x.seq ack = omega (arith, px.from_lo, px.to_end) in
        (compare_tcp_seq_near x.seq ack near).0

    -- nothing is confirmed
    Advances-none :
        (k : ℕ) (l : List Tcp)
        → k < lo + 2 ^ 31
        → IsSorted l
        → ack ≤ k
        → Advances ack k l (record { kept = l; sent = []; expect_begin = k })
    Advances-none k l hk s a = record {
      later = le_refl k;
      bytes = let nothing : 0 ≡ k - k = omega arith in ap (segment byte_at k) nothing;
      acked = a;
      in_region = hk;
      sorted = s;
      kept_of = λ y h. h;
      known = λ y h. inl h;
    }

    -- one packet more in front
    Advances-cons :
        (k : ℕ) (x : Tcp) (l : List Tcp)
        → is_negative (compare_tcp_seq x.seq ack) ≡ true
        → Brings byte_at lo region positive k x (deliver k x)
        → Advances ack
            (next_expect (deliver k x) k x)
            l
            (confirm_list ack (next_expect (deliver k x) k x) l)
        → Advances ack k (x ∷ l) (confirm_list ack k (x ∷ l))
    Advances-cons k x l t now rest =
        let both =
          payloads_cons byte_at lo region positive ack k x l now (rest.later, rest.bytes) in
        record {
          later = both.0;
          bytes = both.1;
          acked = rw (step_in ack k x l t) rest.acked;
          in_region = rw (step_in ack k x l t) rest.in_region;
          sorted = rw (step_in ack k x l t) rest.sorted;
          kept_of = rw (step_in ack k x l t) (λ y h. inr (rest.kept_of y h));
          known = rw (step_in ack k x l t) known_in;
        }
      where
        known_in :
            (y : Tcp)
            → Has y (x ∷ l)
            → Has y (confirm_list ack (next_expect (deliver k x) k x) l).kept
              ⊎ (y.seq + length y.payload
                  ≤ (confirm_list ack (next_expect (deliver k x) k x) l).expect_begin)
        known_in y (inl q) =
            inr (omega (arith, now.next, rest.later, ap (λ (u : Tcp). u.seq + length u.payload) q))
        known_in y (inr h) = rest.known y h

    pub confirm_list-Advances :
        (k : ℕ) (l : List Tcp)
        → lo ≤ k
        → k < lo + 2 ^ 31
        → All Part l
        → IsSorted l
        → Covers k ack l
        → Advances ack k l (confirm_list ack k l)
    confirm_list-Advances k [] hk hk' ps s cov = elim (dec_lt k ack) [
      | yes h ↦ absurd ((cov k (le_refl k) h).1)
      | no h ↦ unfold confirm_list in Advances-none k [] hk' tt (omega arith)
    ]
    confirm_list-Advances k (x ∷ l) hk hk' (px, ps) s cov =
        elim (Bool-cases (is_negative (compare_tcp_seq x.seq ack))) [
          | inl t ↦
              let now = deliver-Brings byte_at lo region positive k x hk hk' px (begins t) in
              Advances-cons k x l t now (
                confirm_list-Advances (next_expect (deliver k x) k x) l (omega (arith, now.next))
                  (omega (arith, now.next, px.to_end)) ps s.1
                  (subst (λ n. Covers n ack l) (sym now.next) (Covers-tail ack k x l cov)))
          | inr f ↦
              rw (step_out ack k x l f) (Advances-none k (x ∷ l) hk' s (reached f (dec_lt k ack)))
        ]
      where
        begins : is_negative (compare_tcp_seq x.seq ack) ≡ true → x.seq ≤ k
        begins t = elim (dec_lt k ack) [
          | yes h ↦ no_gap ack k x l s cov h
          | no h ↦
              let below : x.seq < ack = ltb→lt x.seq ack (sym (is_confirmed x px) ∙ t) in
              omega arith
        ]

        reached : is_negative (compare_tcp_seq x.seq ack) ≡ false → Dec (k < ack) → ack ≤ k
        reached f (yes h) =
            let above = no_gap ack k x l s cov h in
            let not_below : ltb x.seq ack ≡ false = sym (is_confirmed x px) ∙ f in
            absurd (ground (arith, not_below, above, h))
        reached f (no h) = omega arith

    -- Before anything is expected, a list whose first byte is the stream's is confirmed as if that
    -- byte were expected.
    pub record SameFromStart (out out' : Confirmed) : Type 0 where
      pub same_kept : out.kept ≡ out'.kept
      pub same_sent : out.sent ≡ out'.sent
      pub expects :
          (out.expect_begin ≡ 0) × (out'.expect_begin ≡ lo) ⊎ (out.expect_begin ≡ out'.expect_begin)

    pub confirm_list_from_start :
        (l : List Tcp)
        → All Part l
        → IsSorted l
        → Covers lo ack l
        → SameFromStart (confirm_list ack 0 l) (confirm_list ack lo l)
    confirm_list_from_start [] ps s cov =
        unfold confirm_list in
        record { same_kept = refl; same_sent = refl; expects = inl (refl, refl) }
    confirm_list_from_start (x ∷ l) (px, ps) s cov =
        elim (Bool-cases (is_negative (compare_tcp_seq x.seq ack))) [
          | inl t ↦
              let first : x.seq ≡ lo = is_first t in
              let now : deliver 0 x ≡ some x = unfold deliver in refl in
              let then' : deliver lo x ≡ some x = from_lo first in
              rw (step_in ack 0 x l t, step_in ack lo x l t, now, then')
                (record { same_kept = refl; same_sent = refl; expects = inr refl })
          | inr f ↦
              rw (step_out ack 0 x l f, step_out ack lo x l f)
                (record { same_kept = refl; same_sent = refl; expects = inl (refl, refl) })
        ]
      where
        is_first : is_negative (compare_tcp_seq x.seq ack) ≡ true → x.seq ≡ lo
        is_first t =
            let below : x.seq < ack = ltb→lt x.seq ack (sym (is_confirmed x px) ∙ t) in
            let from = no_gap ack lo x l s cov (omega (arith, below, px.from_lo)) in
            omega (arith, from, px.from_lo)

        from_lo : x.seq ≡ lo → deliver lo x ≡ some x
        from_lo first =
            deliver_cases lo region positive lo x (le_refl lo) (omega arith) px.from_lo px.to_end
              (omega (arith, first))
            ∙ ground (arith, first)
