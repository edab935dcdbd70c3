-- ===== src/Dump/Window/Expand.antt =====
-- `expand` doubles the buffer and keeps what the window holds.
use native.Mathlib.Decide.{dec_lt}
use httshark.Base.{
  ℕ, ◌+◌, ◌-◌, ◌*◌, ◌≤◌, ◌<◌, ◌≡◌, refl, sym, ap, ◌∙◌, none, List, arith, ltb, if◌then◌else◌,
  length, get_elem?, take, drop, replicate, length-replicate, length-take, length-drop,
  get_elem?-take, get_elem?-drop, Bool-cases, inl, inr, ltb→lt,
}
use httshark.Dump.Packet.{Tcp}
use httshark.Dump.Window.{ReceiveWindow, expand, copy, copy_at}
use httshark.Dump.Window.Copy.{
  length-copy, get_elem?-copy, length-copy_at, get_elem?-copy_at_low, get_elem?-copy_at_high,
}
use httshark.Dump.Window.Slots.{Buffer, slot, slot_near, slot_round}
use httshark.Dump.Window.Held.{Holds}

module _ (b : Buffer) (s n : ℕ) where
  blank : Buffer
  blank = replicate (length b * 2) none

  -- the copy where the packets do not go round
  straight : Buffer
  straight = copy blank (take n (drop s b))

  -- the copy in two pieces
  pieces : Buffer
  pieces = copy_at (length b - s) (copy blank (drop s b)) (take (s + n - length b) b)

module _ (b : Buffer) (s n : ℕ) (start_in : s < length b) (fits : n ≤ length b) where
  length-blank : length (blank b s n) ≡ length b * 2
  unfolding blank
  length-blank = length-replicate (length b * 2) none

  length-straight : length (straight b s n) ≡ length b * 2
  unfolding straight
  length-straight = length-copy (blank b s n) _ ∙ length-blank

  length-pieces : length (pieces b s n) ≡ length b * 2
  unfolding pieces
  length-pieces =
      length-copy_at (length b - s) (copy (blank b s n) (drop s b)) _
      ∙ length-copy (blank b s n) _
      ∙ length-blank

  read_straight :
      (i : ℕ) → i < n → s + n < length b → get_elem? (straight b s n) i ≡ get_elem? b (s + i)
  unfolding straight
  read_straight i h e = ground (
    arith,
    get_elem?-copy (blank b s n) (take n (drop s b)) i,
    length-blank,
    length-take n (drop s b),
    length-drop s b,
    get_elem?-take n (drop s b) i,
    get_elem?-drop s b i,
  )

  read_low : (i : ℕ) → s + i < length b → get_elem? (pieces b s n) i ≡ get_elem? b (s + i)
  unfolding pieces
  read_low i h =
      get_elem?-copy_at_low (length b - s) _ _ i (omega arith)
        (omega (arith, length-copy (blank b s n) (drop s b), length-blank))
      ∙ ground (
        arith,
        get_elem?-copy (blank b s n) (drop s b) i,
        length-blank,
        length-drop s b,
        get_elem?-drop s b i,
      )

  read_high :
      (i : ℕ)
      → i < n
      → length b ≤ s + i
      → get_elem? (pieces b s n) i ≡ get_elem? b (s + i - length b)
  unfolding pieces
  read_high i h e =
      ap (get_elem? (pieces b s n)) (omega arith)
      ∙ get_elem?-copy_at_high (length b - s) (copy (blank b s n) (drop s b))
          (take (s + n - length b) b) (i - (length b - s))
          (omega (arith, length-take (s + n - length b) b))
          (omega (
            arith,
            length-take (s + n - length b) b,
            length-copy (blank b s n) (drop s b),
            length-blank,
          ))
      ∙ get_elem?-take (s + n - length b) b (i - (length b - s)) (omega arith)
      ∙ ap (get_elem? b) (omega arith)

  slot-straight : (i : ℕ) → i < n → s + n < length b → slot (straight b s n) 0 i ≡ slot b s i
  slot-straight i h e =
      slot_near (straight b s n) 0 i (omega (arith, length-straight))
      ∙ ap (get_elem? (straight b s n)) (omega arith)
      ∙ read_straight i h e
      ∙ sym (slot_near b s i (omega arith))

  slot-pieces : (i : ℕ) → i < n → length b ≤ s + n → slot (pieces b s n) 0 i ≡ slot b s i
  slot-pieces i h e =
      slot_near (pieces b s n) 0 i (omega (arith, length-pieces))
      ∙ ap (get_elem? (pieces b s n)) (omega arith)
      ∙ (elim (dec_lt (s + i) (length b)) [
        | yes near ↦ read_low i near ∙ sym (slot_near b s i near)
        | no round ↦
            read_high i h (omega arith)
            ∙ sym (slot_round b s i start_in (omega arith) (omega arith))
      ])

expand_lem :
    (w : ReceiveWindow)
    → expand w ≡ (
        if ltb (w.start + w.size) (length w.buffer)
        then record w { start = 0; buffer = straight w.buffer w.start w.size }
        else record w { start = 0; buffer = pieces w.buffer w.start w.size })
unfolding expand straight pieces blank
expand_lem w = ground arith

-- A full or a part filled window holds the same packets after `expand`, in twice the room.
pub expand-Holds :
    (w : ReceiveWindow) (l : List Tcp)
    → Holds w l
    → Holds (expand w) l
      × (length (expand w).buffer ≡ length w.buffer * 2)
      × ((expand w).size ≡ w.size)
expand-Holds w l h = elim (Bool-cases (ltb (w.start + w.size) (length w.buffer))) [
  | inl t ↦
      rw (expand_lem w, t)
        (
          record {
            count = h.count;
            fits = omega (arith, long, h.fits);
            start_in = omega (arith, long, h.start_in);
            slots =
                λ i hi. slot-straight b s n h.start_in h.fits i hi (ltb→lt _ _ t) ∙ h.slots i hi;
          },
          long,
          refl,
        )
  | inr f ↦
      rw (expand_lem w, f)
        (
          record {
            count = h.count;
            fits = omega (arith, long', h.fits);
            start_in = omega (arith, long', h.start_in);
            slots =
                λ i hi. slot-pieces b s n h.start_in h.fits i hi (ground (arith, f)) ∙ h.slots i hi;
          },
          long',
          refl,
        )
]
  where
    b : Buffer
    b = w.buffer

    s : ℕ
    s = w.start

    n : ℕ
    n = w.size

    long : length (straight b s n) ≡ length b * 2
    long = length-straight b s n h.start_in h.fits

    long' : length (pieces b s n) ≡ length b * 2
    long' = length-pieces b s n h.start_in h.fits
