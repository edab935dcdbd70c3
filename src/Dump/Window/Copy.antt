-- ===== src/Dump/Window/Copy.antt =====
-- What `copy` leaves at each index.
use httshark.Base.{
  ℕ, zero, suc, ◌+◌, ◌≤◌, ◌<◌, ◌≡◌, refl, sym, ap, ◌∙◌, List, [], ◌∷◌, ◌++◌, arith, ltb,
  if◌then◌else◌, length, get_elem?, take, drop, length-append, length-take, length-drop,
  get_elem?-take, get_elem?-append_left, get_elem?-append_right,
}
use httshark.Dump.Window.{copy, copy_at}

module _ {ℓ} {A : Type ℓ} where
  pub length-copy : (dst src : List A) → length (copy dst src) ≡ length dst
  unfolding copy
  length-copy [] src = refl
  length-copy (d ∷ dst) [] = refl
  length-copy (d ∷ dst) (s ∷ src) = omega (arith, length-copy dst src)

  pub get_elem?-copy :
      (dst src : List A) (i : ℕ)
      → i < length dst
      → get_elem? (copy dst src) i
        ≡ (if ltb i (length src) then get_elem? src i else get_elem? dst i)
  unfolding copy
  get_elem?-copy [] src i h = elim h [ ]
  get_elem?-copy (d ∷ dst) [] i h = ground arith
  get_elem?-copy (d ∷ dst) (s ∷ src) zero h = ground arith
  get_elem?-copy (d ∷ dst) (s ∷ src) (suc i) h = ground (arith, get_elem?-copy dst src i)

  pub length-copy_at : (k : ℕ) (dst src : List A) → length (copy_at k dst src) ≡ length dst
  unfolding copy_at
  length-copy_at k dst src = omega (
    arith,
    length-append (take k dst) (copy (drop k dst) src),
    length-take k dst,
    length-copy (drop k dst) src,
    length-drop k dst,
  )

  pub get_elem?-copy_at_low :
      (k : ℕ) (dst src : List A) (i : ℕ)
      → i < k
      → k ≤ length dst
      → get_elem? (copy_at k dst src) i ≡ get_elem? dst i
  unfolding copy_at
  get_elem?-copy_at_low k dst src i h hk =
      get_elem?-append_left (take k dst) (copy (drop k dst) src) i
        (omega (arith, length-take k dst))
      ∙ get_elem?-take k dst i h

  pub get_elem?-copy_at_high :
      (k : ℕ) (dst src : List A) (i : ℕ)
      → i < length src
      → k + length src ≤ length dst
      → get_elem? (copy_at k dst src) (k + i) ≡ get_elem? src i
  unfolding copy_at
  get_elem?-copy_at_high k dst src i h hk =
      let same : length (take k dst) ≡ k = omega (arith, length-take k dst) in
      ap (λ n. get_elem? (take k dst ++ copy (drop k dst) src) (n + i)) (sym same)
      ∙ get_elem?-append_right (take k dst) (copy (drop k dst) src) i
      ∙ ground (arith, get_elem?-copy (drop k dst) src i, length-drop k dst)
