-- ===== src/Go/Sort.antt =====
-- Package `sort`: `sort.Ints` and `sort.Strings`. Where no value stands twice, the sorted list is
-- determined by its values, so that any algorithm gives the list of this one.
pub mod Keys
use httshark.Base.{
  ℕ, ◌≡◌, ◌≢◌, ◌↔◌, refl, sym, ap₂, ◌∙◌, Bool, true, false, Option, none, some, List, [], ◌∷◌,
  arith, if◌then◌else◌, Bool-cases, ◌⊎◌, inl, inr, Has, All, All-has, All-of_Has, ℤ, ltb_ℤ, Bytes,
  ltb, Eq, lookup, DistinctKeys,
}
use httshark.Go.Text.{lt_bytes}

pub record StrictOrder (A : Type 0) : Type 0 where
  pub lt : A → A → Bool
  pub irrefl : (a : A) → lt a a ≡ false
  pub trans : (a b c : A) → lt a b ≡ true → lt b c ≡ true → lt a c ≡ true
  pub connex : (a b : A) → lt a b ≡ false → lt b a ≡ false → a ≡ b

pub lt_bytes_irrefl : (s : Bytes) → lt_bytes s s ≡ false
unfolding lt_bytes
lt_bytes_irrefl [] = refl
lt_bytes_irrefl (c ∷ s) = ground (arith, lt_bytes_irrefl s)

pub lt_bytes_trans :
    (s t u : Bytes) → lt_bytes s t ≡ true → lt_bytes t u ≡ true → lt_bytes s u ≡ true
unfolding lt_bytes
lt_bytes_trans s t [] h k = absurd (cc)
lt_bytes_trans s [] (e ∷ u) h k = absurd (cc)
lt_bytes_trans [] (d ∷ t) (e ∷ u) h k = refl
lt_bytes_trans (c ∷ s) (d ∷ t) (e ∷ u) h k = ground (arith, lt_bytes_trans s t u)

pub lt_bytes_connex : (s t : Bytes) → lt_bytes s t ≡ false → lt_bytes t s ≡ false → s ≡ t
unfolding lt_bytes
lt_bytes_connex [] [] h k = refl
lt_bytes_connex [] (d ∷ t) h k = absurd (cc)
lt_bytes_connex (c ∷ s) [] h k = absurd (cc)
lt_bytes_connex (c ∷ s) (d ∷ t) h k = ground (arith, lt_bytes_connex s t)

pub ltb_ℤ_irrefl : (a : ℤ) → ltb_ℤ a a ≡ false
ltb_ℤ_irrefl a = ground arith

pub ltb_ℤ_trans : (a b c : ℤ) → ltb_ℤ a b ≡ true → ltb_ℤ b c ≡ true → ltb_ℤ a c ≡ true
ltb_ℤ_trans a b c h k = ground arith

pub ltb_ℤ_connex : (a b : ℤ) → ltb_ℤ a b ≡ false → ltb_ℤ b a ≡ false → a ≡ b
ltb_ℤ_connex a b h k = ground arith

abbrev pub int_order : StrictOrder ℤ
int_order = record { lt = ltb_ℤ; irrefl = ltb_ℤ_irrefl; trans = ltb_ℤ_trans; connex = ltb_ℤ_connex }

abbrev pub string_order : StrictOrder Bytes
string_order = record {
  lt = lt_bytes;
  irrefl = lt_bytes_irrefl;
  trans = lt_bytes_trans;
  connex = lt_bytes_connex;
}

module _ {A : Type 0} (o : StrictOrder A) where
  unfoldable pub insert_sorted : A → List A → List A
  insert_sorted x [] = x ∷ []
  insert_sorted x (y ∷ l) = let rest = insert_sorted x l in if o.lt x y then x ∷ y ∷ l else y ∷ rest

  -- `sort.Ints(l)`, `sort.Strings(l)`
  unfoldable pub sort : List A → List A
  unfolding insert_sorted
  sort [] = []
  sort (x ∷ l) = insert_sorted x (sort l)

  abbrev pub Below : A → List A → Type 0
  Below x l = All (λ y. o.lt x y ≡ true) l

  -- strictly increasing
  abbrev pub IsIncreasing : List A → Type 0
  IsIncreasing [] = Unit
  IsIncreasing (x ∷ l) = Below x l × IsIncreasing l

  pub insert_sorted-has : (x : A) (l : List A) (y : A) → Has y (x ∷ l) → Has y (insert_sorted x l)
  unfolding insert_sorted
  insert_sorted-has x [] y h = h
  insert_sorted-has x (z ∷ l) y h =
      let deeper = insert_sorted-has x l y in
      elim (Bool-cases (o.lt x z)) [ inl t ↦ rw t h | inr f ↦ rw f (swapped h deeper) ]
    where
      swapped :
          Has y (x ∷ z ∷ l)
          → (Has y (x ∷ l) → Has y (insert_sorted x l))
          → Has y (z ∷ insert_sorted x l)
      swapped (inl q) deeper = inr (deeper (inl q))
      swapped (inr (inl q)) deeper = inl q
      swapped (inr (inr m)) deeper = inr (deeper (inr m))

  pub has-insert_sorted : (x : A) (l : List A) (y : A) → Has y (insert_sorted x l) → Has y (x ∷ l)
  unfolding insert_sorted
  has-insert_sorted x [] y h = h
  has-insert_sorted x (z ∷ l) y h =
      let deeper = has-insert_sorted x l y in
      elim (Bool-cases (o.lt x z)) [ inl t ↦ rw t at h | inr f ↦ swapped (rw f at h) deeper ]
    where
      swapped :
          Has y (z ∷ insert_sorted x l)
          → (Has y (insert_sorted x l) → Has y (x ∷ l))
          → Has y (x ∷ z ∷ l)
      swapped (inl q) deeper = inr (inl q)
      swapped (inr m) deeper = elim (deeper m) [ inl q ↦ inl q | inr n ↦ inr (inr n) ]

  above_or_same : (x z : A) → o.lt x z ≡ false → (x ≡ z → ⊥) → o.lt z x ≡ true
  above_or_same x z f ne = elim (Bool-cases (o.lt z x)) [
    | inl t ↦ t
    | inr g ↦ absurd (ne (o.connex x z f g))
  ]

  pub insert_sorted-IsIncreasing :
      (x : A) (l : List A) → (Has x l → ⊥) → IsIncreasing l → IsIncreasing (insert_sorted x l)
  unfolding insert_sorted
  insert_sorted-IsIncreasing x [] ne h = (tt, tt)
  insert_sorted-IsIncreasing x (z ∷ l) ne (b, h) =
      let rest = insert_sorted-IsIncreasing x l (λ m. ne (inr m)) h in
      elim (Bool-cases (o.lt x z)) [
        | inl t ↦
            rw t (
              (t, All-of_Has (λ y. o.lt x y ≡ true) l (λ y m. o.trans x z y t (below y m))),
              (b, h),
            )
        | inr f ↦ rw f (
          All-of_Has (λ y. o.lt z y ≡ true) (insert_sorted x l)
              (λ y m. over f y (has-insert_sorted x l y m)),
          rest,
        )
      ]
    where
      below : (y : A) → Has y l → o.lt z y ≡ true
      below y m = All-has (λ y. o.lt z y ≡ true) l y b m

      over : o.lt x z ≡ false → (y : A) → Has y (x ∷ l) → o.lt z y ≡ true
      over f y (inl q) = rw (← q) (above_or_same x z f (λ e. ne (inl (sym e))))
      over f y (inr m) = below y m
