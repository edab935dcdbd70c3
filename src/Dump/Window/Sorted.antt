-- ===== src/Dump/Window/Sorted.antt =====
-- Where sequence numbers do not wrap, `insert` keeps the window sorted by sequence number.
use mathlib.Core.Path.{subst}
use native.Mathlib.Nat.{le_refl}
use httshark.Base.{
  tests, ltb→lt, ℕ, zero, suc, ◌+◌, ◌-◌, ◌≤◌, ◌<◌, ◌^◌, ◌≡◌, refl, sym, ap, Bool, false, some, List,
  [], ◌∷◌, arith, ◌==◌, ltb, leb, if◌then◌else◌, length, get_elem?, All, inl, inr, ◌⊎◌, Bool-cases,
  get_elem?-of_lt,
}
use httshark.Dump.Packet.{Tcp}
use httshark.Dump.Seq.{max_tcp_seq, tcp_seq_window}
use httshark.Dump.Seq.Order.{IsNear, compare_tcp_seq_near}
use httshark.Dump.Window.{ReceiveWindow, at, duplicate, insert, is_delivered}
use httshark.Dump.Window.Held.{Holds}
use httshark.Dump.Window.Insert.{find_in, place_in, insert_at, Makes, insert_refines}

-- Half of the sequence numbers, from `lo` on, with no two of them on the two sides of the wrap.
abbrev pub IsRegion : ℕ → Type 0
IsRegion lo =
    (lo + 2 ^ 31 ≤ 2 ^ 32) × ((tcp_seq_window ≤ lo) ⊎ (lo + 2 ^ 31 ≤ max_tcp_seq - tcp_seq_window))

abbrev pub InRegion : ℕ → Tcp → Type 0
InRegion lo p = (lo ≤ p.seq) × (p.seq < lo + 2 ^ 31)

abbrev pub StartsAbove : ℕ → List Tcp → Type 0
StartsAbove n [] = Unit
StartsAbove n (x ∷ l) = n < x.seq

-- in strictly increasing order
abbrev pub IsSorted : List Tcp → Type 0
IsSorted [] = Unit
IsSorted (x ∷ l) = StartsAbove x.seq l × IsSorted l

-- insertion from the front, where a packet with a known sequence number is dropped
abbrev pub sorted_insert : Tcp → List Tcp → List Tcp
sorted_insert p [] = p ∷ []
sorted_insert p (x ∷ l) =
    let rest = sorted_insert p l in
    if ltb x.seq p.seq then x ∷ rest else if x.seq == p.seq then x ∷ l else p ∷ x ∷ l

near : (lo : ℕ) (p q : Tcp) → IsRegion lo → InRegion lo p → InRegion lo q → IsNear p.seq q.seq
near lo p q r hp hq = omega arith

module _ (p : Tcp) where
  -- how many packets in front come before `p`
  rank : List Tcp → ℕ
  rank [] = 0
  rank (x ∷ l) = if ltb x.seq p.seq then suc (rank l) else 0

  -- whether the next one has its sequence number
  known : List Tcp → Bool
  known [] = false
  known (x ∷ l) = if ltb x.seq p.seq then known l else x.seq == p.seq

  rank-le-length : (l : List Tcp) → rank l ≤ length l
  unfolding rank
  rank-le-length [] = omega arith
  rank-le-length (x ∷ l) = ground (arith, rank-le-length l)

  not_known_at_end : (l : List Tcp) → rank l ≡ length l → known l ≡ false
  unfolding rank known
  not_known_at_end [] h = refl
  not_known_at_end (x ∷ l) h = ground (arith, not_known_at_end l)

  sorted_insert_lem :
      (l : List Tcp) → sorted_insert p l ≡ (if known l then l else insert_at (rank l) p l)
  unfolding rank known
  sorted_insert_lem [] = refl
  sorted_insert_lem (x ∷ l) = elim (Bool-cases (ltb x.seq p.seq)) [
    | inl t ↦
        rw (t, sorted_insert_lem l) (elim (Bool-cases (known l)) [ inl k ↦ rw k | inr k ↦ rw k ])
    | inr f ↦ rw f
  ]

  -- Behind the first element everything is larger still.
  above_rest :
      (l : List Tcp) (n i : ℕ) (x : Tcp)
      → StartsAbove n l
      → IsSorted l
      → get_elem? l i ≡ some x
      → n < x.seq
  above_rest [] n i x h s e = absurd (cc)
  above_rest (y ∷ l) n zero x h s e = ground arith
  above_rest (y ∷ l) n (suc i) x h (hy, s) e = omega (arith, above_rest l y.seq i x hy s e)

  -- how a packet of a sorted list compares with `p`, by its index
  record Stands (l : List Tcp) (i : ℕ) (x : Tcp) : Type 0 where
    before : i < rank l → x.seq < p.seq
    there : i ≡ rank l → (x.seq == p.seq) ≡ known l
    there' : i ≡ rank l → p.seq ≤ x.seq
    behind : rank l < i → p.seq < x.seq

  stands : (l : List Tcp) (i : ℕ) (x : Tcp) → IsSorted l → get_elem? l i ≡ some x → Stands l i x
  unfolding rank known
  stands [] i x s e = absurd (cc)
  stands (y ∷ l) zero x s e = ground arith
  stands (y ∷ l) (suc i) x (hy, s) e =
      ground (arith, stands l i x s e, above_rest l y.seq i x hy s e)

pub All-sorted_insert :
    (P : Tcp → Type 0) (p : Tcp) (l : List Tcp) → P p → All P l → All P (sorted_insert p l)
All-sorted_insert P p [] hp r = (hp, tt)
All-sorted_insert P p (x ∷ l) hp (a, r) =
    let rest = All-sorted_insert P p l hp r in
    elim (Bool-cases (ltb x.seq p.seq)) [
      | inl t ↦ rw t (a, rest)
      | inr f ↦ elim (Bool-cases (x.seq == p.seq)) [
        | inl k ↦ rw (f, k) (a, r)
        | inr k ↦ rw (f, k) (hp, (a, r))
      ]
    ]

not_below : (a b : ℕ) → ltb a b ≡ false → (a == b) ≡ false → b < a
not_below a b f g = ground arith

module _ (lo : ℕ) (region : IsRegion lo) (p : Tcp) (p_in : InRegion lo p) where
  find_in_lem :
      (l : List Tcp) (n : ℕ)
      → n ≤ length l
      → IsSorted l
      → All (InRegion lo) l
      → find_in l p n
        ≡ (if leb n (rank p l) then at n else if known p l then duplicate else at (rank p l))
  unfolding find_in
  find_in_lem l zero h s r = ground arith
  find_in_lem l (suc n) h s r =
      let (x, e) = get_elem?-of_lt l n h in
      let (neg, zer, _, _) =
        compare_tcp_seq_near x.seq p.seq (near lo x p region (in_region l n x r e) p_in) in
      ground (arith, e, neg, zer, stands p l n x s e, find_in_lem l n (omega arith) s r)
    where
      in_region :
          (l : List Tcp) (i : ℕ) (x : Tcp)
          → All (InRegion lo) l
          → get_elem? l i ≡ some x
          → InRegion lo x
      in_region [] i x a e = absurd (cc)
      in_region (y ∷ l) zero x a e = ground arith
      in_region (y ∷ l) (suc i) x (a, as') e = in_region l i x as' e

  place_in_lem :
      (l : List Tcp)
      → IsSorted l
      → All (InRegion lo) l
      → place_in l p (find_in l p (length l)) ≡ sorted_insert p l
  place_in_lem l s r =
      rw (find_in_lem l (length l) (le_refl (length l)) s r, sorted_insert_lem p l)
        (elim (Bool-cases (leb (length l) (rank p l))) [
          | inl t ↦
              let e : rank p l ≡ length l = omega (tests, t, rank-le-length p l) in
              rw (t, not_known_at_end p l e) (ap (λ k. insert_at k p l) (sym e))
          | inr f ↦ rw f (elim (Bool-cases (known p l)) [ inl k ↦ rw k | inr k ↦ rw k ])
        ])

  StartsAbove-sorted_insert :
      (n : ℕ) (l : List Tcp) → n < p.seq → StartsAbove n l → StartsAbove n (sorted_insert p l)
  StartsAbove-sorted_insert n [] h a = h
  StartsAbove-sorted_insert n (x ∷ l) h a = ground arith

  IsSorted-sorted_insert : (l : List Tcp) → IsSorted l → IsSorted (sorted_insert p l)
  IsSorted-sorted_insert [] s = (tt, tt)
  IsSorted-sorted_insert (x ∷ l) (a, s) = elim (Bool-cases (ltb x.seq p.seq)) [
    | inl t ↦
        rw t
          (StartsAbove-sorted_insert x.seq l (ltb→lt x.seq p.seq t) a, IsSorted-sorted_insert l s)
    | inr f ↦ elim (Bool-cases (x.seq == p.seq)) [
      | inl k ↦ rw (f, k) (a, s)
      | inr k ↦ let before : p.seq < x.seq = not_below x.seq p.seq f k in rw (f, k) (before, (a, s))
    ]
  ]

  -- Among sequence numbers that do not wrap, `insert` on a window that holds a sorted list puts a
  -- packet with data that has not been delivered at its place in the order, and drops one whose
  -- sequence number is there already. The new list is sorted and lies in the region again.
  pub insert_sorts :
      (w : ReceiveWindow) (l : List Tcp)
      → Holds w l
      → IsSorted l
      → All (InRegion lo) l
      → is_delivered w.expect_begin p ≡ false
      → (length p.payload == 0) ≡ false
      → Makes w (insert w p) (sorted_insert p l)
        × IsSorted (sorted_insert p l)
        × All (InRegion lo) (sorted_insert p l)
  insert_sorts w l h s r fresh some_data = (
    subst (λ k. Makes w (insert w p) k) (rw (fresh, some_data) (place_in_lem l s r))
        (insert_refines w p l h),
    IsSorted-sorted_insert l s,
    All-sorted_insert (InRegion lo) p l p_in r,
  )
