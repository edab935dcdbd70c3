-- ===== src/Dump/Stream/Reassembly/State.antt =====
-- What the window and the channel of a stream have, after an arrival and after an acknowledgement.
use mathlib.Core.Path.{subst}
use native.Mathlib.Nat.{le_refl}
use httshark.Base.{
  ℕ, ◌+◌, ◌-◌, ◌≤◌, ◌<◌, ◌^◌, max, ◌≡◌, refl, ap, ap₂, ◌∙◌, true, false, List, [], ◌∷◌, ◌++◌, arith,
  length, length-append, All, All-has, All-of_Has, inl, inr, ◌==◌,
}
use httshark.Dump.Packet.{Tcp}
use httshark.Dump.Window.Held.{Holds}
use httshark.Dump.Window.Confirm.{confirm_refines, confirm_list, length-confirm_list}
use httshark.Dump.Window.Sorted.{IsRegion, IsSorted}
use httshark.Dump.Window.Stream.{segment, segment_add, payloads, payloads-append, IsPart}
use httshark.Dump.Window.Placed.{IsCut, IsCut-parts, Begins, insert-Places}
use httshark.Dump.Window.Covered.{
  Covering, Covers, Advances, confirm_list-Advances, confirm_list_from_start,
}
use httshark.Dump.Stream.{
  NetworkStream, StreamConfig, Progress, done, Meanwhile, append_packet, wait_for_channel_space,
  confirm_packet,
}
use httshark.Dump.Stream.Wait.{wait_fewer}
use httshark.Dump.Stream.Active.{IsActive, append_packet_of, confirm_packet_of}

module _ (config : StreamConfig) (byte_at size_at : ℕ → ℕ) (lo : ℕ) (region : IsRegion lo)
    (positive : 0 < lo) where
  -- The channel has the bytes of the stream up to `e`, and the window those from `e` on that have
  -- been captured.
  pub record IsAt (s : NetworkStream) (seen l : List Tcp) (e : ℕ) : Type 0 where
    pub active : IsActive s l
    pub begins : Begins byte_at size_at lo region positive s.window.expect_begin e
    pub from_lo : lo ≤ e
    pub in_region : e < lo + 2 ^ 31
    pub sorted : IsSorted l
    pub cuts : All (IsCut byte_at size_at lo region positive) l
    pub captured : (b : ℕ) → e ≤ b → Covering b seen → Covering b l
    pub nothing_left : s.remain ≡ []
    pub bytes : payloads s.c ≡ segment byte_at lo (e - lo)
    pub few : length s.c + length l ≤ length seen

  abbrev pub After : Progress NetworkStream → List Tcp → ℕ → Type 0
  After m seen a =
      (s : NetworkStream) × (l : List Tcp) × (e : ℕ) × (m ≡ done s) × IsAt s seen l e × (a ≤ e)

  pub arrives_lem :
      (x : Tcp) (s : NetworkStream) (seen l : List Tcp) (e : ℕ)
      → IsAt s seen l e
      → IsPart byte_at lo region positive x
      → ((length x.payload == 0) ≡ false → length x.payload ≡ size_at x.seq)
      → After (append_packet x s) (x ∷ seen) e
  arrives_lem x s seen l e h hx size =
      let (l', p) =
        insert-Places byte_at size_at lo region positive s.window x l e h.active.held h.sorted
          h.cuts h.begins h.from_lo h.in_region hx size in
      let (w, q, held, expects, _) = p.makes in
      (
        record s { window = w },
        l',
        e,
        append_packet_of x s w h.active.in_use q,
        record {
          active = record {
            in_use = h.active.in_use;
            open_channel = h.active.open_channel;
            held = held;
          };
          begins = rw expects h.begins;
          from_lo = h.from_lo;
          in_region = h.in_region;
          sorted = p.sorted;
          cuts = p.cuts;
          captured = λ b hb cov. p.keeps b hb (more b hb cov);
          nothing_left = h.nothing_left;
          bytes = h.bytes;
          few = omega (arith, h.few, p.few);
        },
        le_refl e,
      )
    where
      more : (b : ℕ) → e ≤ b → Covering b (x ∷ seen) → Covering b (x ∷ l)
      more b hb (y, inl q, from, to) = (y, inl q, from, to)
      more b hb (y, inr m, from, to) =
          let (z, has, f, t) = h.captured b hb (y, m, from, to) in (z, inr has, f, t)

  -- Where nothing is expected yet, an acknowledgement works as if the first byte were expected.
  record Alike (ack n e : ℕ) (l : List Tcp) : Type 0 where
    alike_kept : (confirm_list ack n l).kept ≡ (confirm_list ack e l).kept
    alike_sent : (confirm_list ack n l).sent ≡ (confirm_list ack e l).sent
    alike_begins :
        Begins byte_at size_at lo region positive
          (confirm_list ack n l).expect_begin
          (confirm_list ack e l).expect_begin

  alike :
      (ack n e : ℕ) (l : List Tcp)
      → lo ≤ ack
      → ack < lo + 2 ^ 31
      → Begins byte_at size_at lo region positive n e
      → All (IsPart byte_at lo region positive) l
      → IsSorted l
      → Covers e ack l
      → Alike ack n e l
  alike ack n e l ha ha' (inr q) ps s cov =
      rw q (record { alike_kept = refl; alike_sent = refl; alike_begins = inr refl })
  alike ack n e l ha ha' (inl (z, q)) ps s cov =
      let same =
        confirm_list_from_start byte_at lo region positive ack ha ha' l ps s
          (subst (λ k. Covers k ack l) q cov) in
      rw (z, q)
        (record {
          alike_kept = same.same_kept;
          alike_sent = same.same_sent;
          alike_begins = same.expects;
        })

  pub acks_lem :
      (ack : ℕ) (meanwhile : Meanwhile) (s : NetworkStream) (seen l : List Tcp) (e a : ℕ)
      → IsAt s seen l e
      → a ≤ e
      → lo ≤ ack
      → ack < lo + 2 ^ 31
      → Covers lo ack seen
      → wait_for_channel_space config (length seen) meanwhile.rounds ≡ done true
      → length seen ≤ config.channel_size + meanwhile.taken
      → After (confirm_packet config meanwhile ack s) seen (max a ack)
  acks_lem ack meanwhile s seen l e a h hae ha ha' cov space fits =
      let parts = IsCut-parts byte_at size_at lo region positive l h.cuts in
      let there : Covers e ack l =
        λ b hb hb'. h.captured b hb (cov b (omega (arith, h.from_lo, hb)) hb') in
      let same = alike ack s.window.expect_begin e l ha ha' h.begins parts h.sorted there in
      let next =
        confirm_list-Advances byte_at lo region positive ack ha ha' e l h.from_lo h.in_region parts
          h.sorted there in
      let (w, q, held, expects, _) = confirm_refines s.window ack l h.active.held in
      let sent = (confirm_list ack s.window.expect_begin l).sent in
      let out = confirm_list ack e l in
      let fewer = length-confirm_list ack s.window.expect_begin l in
      let has_space =
        wait_fewer config (length seen) (length s.c) meanwhile.rounds (omega (arith, h.few))
          space in
      (
        record s { window = w; c = s.c ++ sent },
        out.kept,
        out.expect_begin,
        confirm_packet_of config meanwhile ack s w sent h.active.in_use h.active.open_channel
            (has_space, omega (arith, h.few, fewer, fits)) q,
        record {
          active = record {
            in_use = h.active.in_use;
            open_channel = h.active.open_channel;
            held = subst (λ k. Holds w k) same.alike_kept held;
          };
          begins = rw expects same.alike_begins;
          from_lo = omega (arith, h.from_lo, next.later);
          in_region = next.in_region;
          sorted = next.sorted;
          cuts = All-of_Has (IsCut byte_at size_at lo region positive) out.kept (λ y m.
              All-has (IsCut byte_at size_at lo region positive) l y h.cuts (next.kept_of y m));
          captured =
              λ b hb seen_b. still next b hb (h.captured b (omega (arith, next.later)) seen_b);
          nothing_left = h.nothing_left;
          bytes =
              payloads-append s.c sent
              ∙ ap₂ ◌++◌ h.bytes (ap payloads same.alike_sent ∙ next.bytes)
              ∙ joined out.expect_begin next.later;
          few = omega (arith, h.few, fewer, length-append s.c sent, ap length same.alike_kept);
        },
        omega (arith, next.later, next.acked),
      )
    where
      still :
          Advances byte_at lo region positive ack e l (confirm_list ack e l)
          → (b : ℕ) → (confirm_list ack e l).expect_begin ≤ b
          → Covering b l
          → Covering b (confirm_list ack e l).kept
      still next b hb (y, m, from, to) = elim (next.known y m) [
        | inl k ↦ (y, k, from, to)
        | inr past ↦ absurd (omega (arith, past, to, hb))
      ]

      joined :
          (n : ℕ)
          → e ≤ n
          → segment byte_at lo (e - lo) ++ segment byte_at e (n - e) ≡ segment byte_at lo (n - lo)
      joined n hn =
          let from : e ≡ lo + (e - lo) = omega (arith, h.from_lo) in
          let all : e - lo + (n - e) ≡ n - lo = omega (arith, h.from_lo, hn) in
          ap (λ k. segment byte_at lo (e - lo) ++ segment byte_at k (n - e)) from
          ∙ segment_add byte_at lo (e - lo) (n - e)
          ∙ ap (segment byte_at lo) all
