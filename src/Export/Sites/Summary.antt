-- ===== src/Export/Sites/Summary.antt =====
-- The statistics summarise the sizes of the entries.
use httshark.Base.{
  ℕ, ◌+◌, ◌≡◌, refl, ◌∙◌, true, false, not, Option, none, some, List, [], ◌∷◌, ◌++◌, arith, ℤ,
  ltb_ℤ, eq_ℤ, eq_ℤ_iff, pos, negsuc, if◌then◌else◌, int_eq, lookup, lookup-insert, All, All-append,
  Has, inl, inr, Bool-cases,
}
use httshark.Export.Sites.{
  SizesStats, buckets, or_0, update_min, update_max, count_size, update_sizes_stats_single,
}

-- the first of the buckets that a size fits in
abbrev pub first_bucket : List ℤ → ℤ → Option ℤ
first_bucket [] size = none
first_bucket (b ∷ bs) size = if not (ltb_ℤ b size) then some b else first_bucket bs size

abbrev pub is_bucket : ℤ → Option ℤ → ℕ
is_bucket b none = 0
is_bucket b (some c) = if eq_ℤ c b then 1 else 0

-- how many of the sizes stand in a bucket
abbrev pub in_bucket : ℤ → List ℤ → ℕ
in_bucket b [] = 0
in_bucket b (x ∷ xs) = is_bucket b (first_bucket buckets x) + in_bucket b xs

-- `none` without any size, and otherwise one of them that no other is below (above)
abbrev pub IsLeast : Option ℤ → List ℤ → Type 0
IsLeast none xs = xs ≡ []
IsLeast (some m) xs = Has m xs × All (λ x. ltb_ℤ x m ≡ false) xs

abbrev pub IsGreatest : Option ℤ → List ℤ → Type 0
IsGreatest none xs = xs ≡ []
IsGreatest (some m) xs = Has m xs × All (λ x. ltb_ℤ m x ≡ false) xs

pub record Summarises (stats : SizesStats) (sizes : List ℤ) : Type 0 where
  pub least : IsLeast stats.min sizes
  pub greatest : IsGreatest stats.max sizes
  pub counted : (b : ℤ) → or_0 (lookup b stats.counts) ≡ in_bucket b sizes

Has-append : {A : Type 0} → (x : A) (xs ys : List A) → Has x xs → Has x (xs ++ ys)
Has-append x [] ys h = elim h [ ]
Has-append x (y ∷ xs) ys (inl q) = inl q
Has-append x (y ∷ xs) ys (inr h) = inr (Has-append x xs ys h)

Has-last : {A : Type 0} → (x : A) (xs : List A) → Has x (xs ++ (x ∷ []))
Has-last x [] = inl refl
Has-last x (y ∷ xs) = inr (Has-last x xs)

ltb_ℤ_irrefl : (a : ℤ) → ltb_ℤ a a ≡ false
ltb_ℤ_irrefl a = ground arith

ltb_ℤ_below : (x m s : ℤ) → ltb_ℤ s m ≡ true → ltb_ℤ x m ≡ false → ltb_ℤ x s ≡ false
ltb_ℤ_below (pos a) (pos b) (pos c) = ground arith
ltb_ℤ_below (pos a) (pos b) (negsuc c) = ground arith
ltb_ℤ_below (pos a) (negsuc b) (pos c) = ground arith
ltb_ℤ_below (pos a) (negsuc b) (negsuc c) = ground arith
ltb_ℤ_below (negsuc a) (pos b) (pos c) = ground arith
ltb_ℤ_below (negsuc a) (pos b) (negsuc c) = ground arith
ltb_ℤ_below (negsuc a) (negsuc b) (pos c) = ground arith
ltb_ℤ_below (negsuc a) (negsuc b) (negsuc c) = ground arith

ltb_ℤ_above : (x m s : ℤ) → ltb_ℤ m s ≡ true → ltb_ℤ m x ≡ false → ltb_ℤ s x ≡ false
ltb_ℤ_above (pos a) (pos b) (pos c) = ground arith
ltb_ℤ_above (pos a) (pos b) (negsuc c) = ground arith
ltb_ℤ_above (pos a) (negsuc b) (pos c) = ground arith
ltb_ℤ_above (pos a) (negsuc b) (negsuc c) = ground arith
ltb_ℤ_above (negsuc a) (pos b) (pos c) = ground arith
ltb_ℤ_above (negsuc a) (pos b) (negsuc c) = ground arith
ltb_ℤ_above (negsuc a) (negsuc b) (pos c) = ground arith
ltb_ℤ_above (negsuc a) (negsuc b) (negsuc c) = ground arith

All-below :
    (m s : ℤ) (xs : List ℤ)
    → ltb_ℤ s m ≡ true
    → All (λ x. ltb_ℤ x m ≡ false) xs
    → All (λ x. ltb_ℤ x s ≡ false) xs
All-below m s [] l a = tt
All-below m s (x ∷ xs) l (h, a) = (ltb_ℤ_below x m s l h, All-below m s xs l a)

All-above :
    (m s : ℤ) (xs : List ℤ)
    → ltb_ℤ m s ≡ true
    → All (λ x. ltb_ℤ m x ≡ false) xs
    → All (λ x. ltb_ℤ s x ≡ false) xs
All-above m s [] l a = tt
All-above m s (x ∷ xs) l (h, a) = (ltb_ℤ_above x m s l h, All-above m s xs l a)

update_min-IsLeast :
    (s : ℤ) (o : Option ℤ) (xs : List ℤ) → IsLeast o xs → IsLeast (update_min s o) (xs ++ (s ∷ []))
unfolding update_min
update_min-IsLeast s none xs h = rw h (inl refl, (ltb_ℤ_irrefl s, tt))
update_min-IsLeast s (some m) xs (h, a) = elim (Bool-cases (ltb_ℤ s m)) [
  | inl t ↦ rw t (
    Has-last s xs,
    All-append (λ x. ltb_ℤ x s ≡ false) xs (s ∷ []) (All-below m s xs t a) (ltb_ℤ_irrefl s, tt),
  )
  | inr f ↦
      rw f (Has-append m xs (s ∷ []) h, All-append (λ x. ltb_ℤ x m ≡ false) xs (s ∷ []) a (f, tt))
]

update_max-IsGreatest :
    (s : ℤ) (o : Option ℤ) (xs : List ℤ)
    → IsGreatest o xs
    → IsGreatest (update_max s o) (xs ++ (s ∷ []))
unfolding update_max
update_max-IsGreatest s none xs h = rw h (inl refl, (ltb_ℤ_irrefl s, tt))
update_max-IsGreatest s (some m) xs (h, a) = elim (Bool-cases (ltb_ℤ m s)) [
  | inl t ↦ rw t (
    Has-last s xs,
    All-append (λ x. ltb_ℤ s x ≡ false) xs (s ∷ []) (All-above m s xs t a) (ltb_ℤ_irrefl s, tt),
  )
  | inr f ↦
      rw f (Has-append m xs (s ∷ []) h, All-append (λ x. ltb_ℤ m x ≡ false) xs (s ∷ []) a (f, tt))
]

count_size_lem :
    (bs : List ℤ) (size b : ℤ) (counts : List (ℤ × ℕ))
    → or_0 (lookup b (count_size bs size counts))
      ≡ or_0 (lookup b counts) + is_bucket b (first_bucket bs size)
unfolding count_size
count_size_lem [] size b counts = omega arith
count_size_lem (c ∷ bs) size b counts = ground (
  arith,
  lookup-insert c b (or_0 (lookup c counts) + 1) counts,
  eq_ℤ_iff c b,
  count_size_lem bs size b counts,
)

in_bucket-append :
    (b s : ℤ) (xs : List ℤ)
    → in_bucket b (xs ++ (s ∷ [])) ≡ in_bucket b xs + is_bucket b (first_bucket buckets s)
in_bucket-append b s [] = omega arith
in_bucket-append b s (x ∷ xs) = omega (arith, in_bucket-append b s xs)

pub update_single-Summarises :
    (s : ℤ) (stats : SizesStats) (xs : List ℤ)
    → Summarises stats xs
    → Summarises (update_sizes_stats_single s stats) (xs ++ (s ∷ []))
update_single-Summarises s stats xs h = record {
  least = unfold update_sizes_stats_single in update_min-IsLeast s stats.min xs h.least;
  greatest = unfold update_sizes_stats_single in update_max-IsGreatest s stats.max xs h.greatest;
  counted = λ b.
      unfold update_sizes_stats_single in
      count_size_lem buckets s b stats.counts ∙ omega (arith, h.counted b, in_bucket-append b s xs);
}
