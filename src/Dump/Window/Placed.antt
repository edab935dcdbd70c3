-- ===== src/Dump/Window/Placed.antt =====
-- What `insert` does with the bytes that a packet brings.
use httshark.Base.{
  ℕ, ◌+◌, ◌≤◌, ◌<◌, ◌^◌, ◌≡◌, refl, sym, ap, ◌∙◌, true, false, some, List, [], ◌∷◌, arith, length,
  All, Has, All-has, All-imp, Bool-cases, ◌⊎◌, inl, inr, ◌==◌, ltb, ==_iff,
}
use httshark.Dump.Packet.{Tcp}
use httshark.Dump.Seq.Order.{IsNear, compare_tcp_seq_near}
use httshark.Dump.Window.{ReceiveWindow, insert, is_delivered, seq_end}
use httshark.Dump.Window.Held.{Holds}
use httshark.Dump.Window.Insert.{Makes}
use httshark.Dump.Window.Sorted.{
  IsRegion, InRegion, IsSorted, sorted_insert, All-sorted_insert, insert_sorts,
}
use httshark.Dump.Window.Stream.{IsPart}
use httshark.Dump.Window.Covered.{Covering}

length-sorted_insert : (p : Tcp) (l : List Tcp) → length (sorted_insert p l) ≤ length l + 1
length-sorted_insert p [] = omega arith
length-sorted_insert p (x ∷ l) = ground (arith, length-sorted_insert p l)

sorted_insert-has : (p : Tcp) (l : List Tcp) (y : Tcp) → Has y l → Has y (sorted_insert p l)
sorted_insert-has p [] y h = absurd h
sorted_insert-has p (x ∷ l) y h = elim (Bool-cases (ltb x.seq p.seq)) [
  | inl t ↦ rw t (deeper h (sorted_insert-has p l y))
  | inr f ↦ elim (Bool-cases (x.seq == p.seq)) [ inl k ↦ rw (f, k) h | inr k ↦ rw (f, k) (inr h) ]
]
  where
    deeper : Has y (x ∷ l) → (Has y l → Has y (sorted_insert p l)) → Has y (x ∷ sorted_insert p l)
    deeper (inl q) more = inl q
    deeper (inr m) more = inr (more m)

-- the packet that has the place of `p` then
sorted_insert-place :
    (p : Tcp) (l : List Tcp)
    → (y : Tcp) × Has y (sorted_insert p l) × (y.seq ≡ p.seq) × ((y ≡ p) ⊎ Has y l)
sorted_insert-place p [] = (p, inl refl, refl, inl refl)
sorted_insert-place p (x ∷ l) = elim (Bool-cases (ltb x.seq p.seq)) [
  | inl t ↦ let (y, h, e, from) = sorted_insert-place p l in rw t (y, inr h, e, behind y from)
  | inr f ↦ elim (Bool-cases (x.seq == p.seq)) [
    | inl k ↦ rw (f, k) (x, inl refl, (==_iff x.seq p.seq).0 k, inr (inl refl))
    | inr k ↦ rw (f, k) (p, inl refl, refl, inl refl)
  ]
]
  where
    behind : (y : Tcp) → (y ≡ p) ⊎ Has y l → (y ≡ p) ⊎ Has y (x ∷ l)
    behind y (inl q) = inl q
    behind y (inr m) = inr (inr m)

module _ (byte_at size_at : ℕ → ℕ) (lo : ℕ) (region : IsRegion lo) (positive : 0 < lo) where
  -- A packet with data of the stream; two that begin at the same byte have the same size.
  abbrev pub IsCut : Tcp → Type 0
  IsCut x = IsPart byte_at lo region positive x × (length x.payload ≡ size_at x.seq)

  pub IsCut-parts : (l : List Tcp) → All IsCut l → All (IsPart byte_at lo region positive) l
  IsCut-parts l = All-imp IsCut (IsPart byte_at lo region positive) l (λ y h. h.0)

  -- A byte of the new packet, or of one that was there, is still there.
  sorted_insert-Covering :
      (p : Tcp) (l : List Tcp) (b : ℕ)
      → IsCut p
      → All IsCut l
      → Covering b (p ∷ l)
      → Covering b (sorted_insert p l)
  sorted_insert-Covering p l b hp a (y, inr h, from, to) = (y, sorted_insert-has p l y h, from, to)
  sorted_insert-Covering p l b hp a (y, inl q, from, to) =
      let (z, h, e, is) = sorted_insert-place p l in
      let size = same_size z e is in
      let at_y = ap (λ (t : Tcp). t.seq) q in
      let len_y = ap (λ (t : Tcp). length t.payload) q in
      (z, h, omega (arith, e, at_y), omega (arith, size, e, at_y, len_y))
    where
      same_size :
          (z : Tcp) → z.seq ≡ p.seq → (z ≡ p) ⊎ Has z l → length z.payload ≡ length p.payload
      same_size z e (inl r) = ap (λ (t : Tcp). length t.payload) r
      same_size z e (inr m) = (All-has IsCut l z a m).1 ∙ ap size_at e ∙ sym hp.1

  -- what the window expects, where the stream goes on at `e`: nothing at first
  abbrev pub Begins : ℕ → ℕ → Type 0
  Begins n e = (n ≡ 0) × (e ≡ lo) ⊎ (n ≡ e)

  delivered_end :
      (n e : ℕ) (p : Tcp)
      → Begins n e
      → lo ≤ e
      → e < lo + 2 ^ 31
      → IsPart byte_at lo region positive p
      → is_delivered n p ≡ true
      → p.seq + length p.payload ≤ e
  delivered_end n e p (inl (z, q)) he he' hp d = ground (arith, z, d)
  delivered_end n e p (inr q) he he' hp d =
      let end : seq_end p ≡ p.seq + length p.payload = omega (arith, hp.to_end, region) in
      let near : IsNear n (p.seq + length p.payload) = omega (arith, hp.from_lo, hp.to_end) in
      let neg = (compare_tcp_seq_near n (p.seq + length p.payload) near).0 in
      let not_negative : ltb n (p.seq + length p.payload) ≡ false =
        sym neg ∙ ground (arith, d, end) in
      ground (arith, not_negative)

  -- What `insert` makes of a sorted window: it is sorted again, and no byte from `e` on is lost.
  pub record Places (w : ReceiveWindow) (p : Tcp) (l : List Tcp) (e : ℕ) (l' : List Tcp)
      : Type 0 where
    pub makes : Makes w (insert w p) l'
    pub sorted : IsSorted l'
    pub cuts : All IsCut l'
    pub keeps : (b : ℕ) → e ≤ b → Covering b (p ∷ l) → Covering b l'
    pub few : length l' ≤ length l + 1

  Places-none :
      (w : ReceiveWindow) (p : Tcp) (l : List Tcp) (e : ℕ)
      → Holds w l
      → IsSorted l
      → All IsCut l
      → insert w p ≡ some w
      → ((b : ℕ) → e ≤ b → p.seq ≤ b → b < p.seq + length p.payload → ⊥)
      → Places w p l e l
  Places-none w p l e h s a q out = record {
    makes = (w, q, h, refl, refl);
    sorted = s;
    cuts = a;
    keeps = λ b hb cov. without b hb cov;
    few = omega arith;
  }
    where
      without : (b : ℕ) → e ≤ b → Covering b (p ∷ l) → Covering b l
      without b hb (y, inr m, from, to) = (y, m, from, to)
      without b hb (y, inl r, from, to) =
          let at_y = ap (λ (t : Tcp). t.seq) r in
          let len_y = ap (λ (t : Tcp). length t.payload) r in
          absurd (out b hb (omega (arith, at_y)) (omega (arith, at_y, len_y)))

  pub insert-Places :
      (w : ReceiveWindow) (p : Tcp) (l : List Tcp) (e : ℕ)
      → Holds w l
      → IsSorted l
      → All IsCut l
      → Begins w.expect_begin e
      → lo ≤ e
      → e < lo + 2 ^ 31
      → IsPart byte_at lo region positive p
      → ((length p.payload == 0) ≡ false → length p.payload ≡ size_at p.seq)
      → (l' : List Tcp) × Places w p l e l'
  insert-Places w p l e h s a begins he he' hp size =
      elim (Bool-cases (is_delivered w.expect_begin p)) [
        | inl t ↦ (
          l,
          Places-none w p l e h s a (unfold insert in rw t)
              (λ b hb from to. omega (arith, delivered_end w.expect_begin e p begins he he' hp t)),
        )
        | inr f ↦ elim (Bool-cases (length p.payload == 0)) [
          | inl t ↦ (
            l,
            Places-none w p l e h s a (unfold insert in rw (f, t))
                (λ b hb from to. omega (arith, (==_iff (length p.payload) 0).0 t)),
          )
          | inr g ↦
              let cut : IsCut p = (hp, size g) in
              let in_region : (y : Tcp) → IsCut y → InRegion lo y =
                λ y c. (c.0.from_lo, omega (arith, c.0.to_end)) in
              let (made, sorted, _) =
                insert_sorts lo region p (in_region p cut) w l h s
                  (All-imp IsCut (InRegion lo) l in_region a) f g in
              (
                sorted_insert p l,
                record {
                  makes = made;
                  sorted = sorted;
                  cuts = All-sorted_insert IsCut p l cut a;
                  keeps = λ b hb cov. sorted_insert-Covering p l b cut a cov;
                  few = length-sorted_insert p l;
                },
              )
        ]
      ]
