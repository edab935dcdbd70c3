-- ===== src/Go/Sort/Keys.antt =====
-- The sorted keys of a map do not depend on the order in which Go walks through it.
use httshark.Base.{
  ◌≡◌, ◌≢◌, ◌↔◌, refl, sym, ap₂, ◌∙◌, true, false, none, some, List, [], ◌∷◌, Bool-cases, ◌⊎◌, inl,
  inr, Has, All-has, Eq, lookup, DistinctKeys,
}
use httshark.Go.Sort.{
  StrictOrder, sort, Below, IsIncreasing, insert_sorted-has, has-insert_sorted,
  insert_sorted-IsIncreasing,
}

-- the two lists have the same values
abbrev pub SameValues : {A : Type 0} → List A → List A → Type 0
SameValues {A} l k = (y : A) → Has y l ↔ Has y k

module _ {A : Type 0} (o : StrictOrder A) where
  not_both : (x y : A) → o.lt x y ≡ true → o.lt y x ≡ true → ⊥
  not_both x y h k = let e : true ≡ false = sym (o.trans x y x h k) ∙ o.irrefl x in cc

  heads : (x y : A) (l k : List A) → Below o x l → Below o y k → SameValues (x ∷ l) (y ∷ k) → x ≡ y
  heads x y l k bx by same = elim ((same x).0 (inl refl)) [
    | inl q ↦ sym q
    | inr m ↦ elim ((same y).1 (inl refl)) [
      | inl q ↦ q
      | inr n ↦ absurd (
          not_both x y (All-has (λ z. o.lt x z ≡ true) l y bx n)
            (All-has (λ z. o.lt y z ≡ true) k x by m))
    ]
  ]

  tail_in :
      (x y : A) (l k : List A)
      → x ≡ y
      → Below o x l
      → ((z : A) → Has z (x ∷ l) → Has z (y ∷ k))
      → (z : A) → Has z l
      → Has z k
  tail_in x y l k e b sub z m = elim (sub z (inr m)) [
    | inr n ↦ n
    | inl q ↦
        let above : o.lt x z ≡ true = All-has (λ t. o.lt x t ≡ true) l z b m in
        let same : x ≡ z = e ∙ q in
        let never : o.lt x z ≡ false = rw (← same) (o.irrefl x) in absurd (cc)
  ]

  -- A strictly increasing list is determined by its values.
  IsIncreasing-ext : (l k : List A) → IsIncreasing o l → IsIncreasing o k → SameValues l k → l ≡ k
  IsIncreasing-ext [] [] hl hk same = refl
  IsIncreasing-ext [] (y ∷ k) hl hk same = absurd ((same y).1 (inl refl))
  IsIncreasing-ext (x ∷ l) [] hl hk same = absurd ((same x).0 (inl refl))
  IsIncreasing-ext (x ∷ l) (y ∷ k) (bx, hl) (by, hk) same =
      let e : x ≡ y = heads x y l k bx by same in
      ap₂ ◌∷◌ e (
        IsIncreasing-ext l k hl hk (λ z. (
          tail_in x y l k e bx (λ t. (same t).0) z,
          tail_in y x k l (sym e) by (λ t. (same t).1) z,
        )))

  sort-SameValues : (l : List A) → SameValues (sort o l) l
  unfolding sort
  sort-SameValues [] y = (λ h. h, λ h. h)
  sort-SameValues (x ∷ l) y =
      let rest = sort-SameValues l y in
      (
        λ h. into rest.0 (has-insert_sorted o x (sort o l) y h),
        λ h. insert_sorted-has o x (sort o l) y (into rest.1 h),
      )
    where
      into : {P Q : Type 0} → (P → Q) → (x ≡ y) ⊎ P → (x ≡ y) ⊎ Q
      into f (inl q) = inl q
      into f (inr m) = inr (f m)

module _ {K V : Type 0} ⦃e : Eq K⦄ where
  -- the loop that collects the keys of a map
  abbrev pub keys : List (K × V) → List K
  keys [] = []
  keys ((k, v) ∷ m) = k ∷ keys m

  some-ne-none : (k : K) (v : V) → some v ≢ none
  some-ne-none k v q = cc

  pub keys-lookup : (m : List (K × V)) (k : K) → Has k (keys m) ↔ (lookup k m ≢ none)
  unfolding lookup
  keys-lookup [] k = (λ h. absurd h, λ h. absurd (h refl))
  keys-lookup ((j, v) ∷ m) k = elim (Bool-cases (e.beq j k)) [
    | inl t ↦ rw t (λ h. some-ne-none k v, λ ne. inl ((e.beq_iff j k).0 t))
    | inr f ↦ rw f ((λ h. either f h (keys-lookup m k).0), (λ ne. inr ((keys-lookup m k).1 ne)))
  ]
    where
      either :
          {P : Type 0} → e.beq j k ≡ false → (j ≡ k) ⊎ Has k (keys m) → (Has k (keys m) → P) → P
      either f (inl q) more = let t : e.beq j k ≡ true = (e.beq_iff j k).1 q in absurd (cc)
      either f (inr h) more = more h

module _ {K V : Type 0} ⦃e : Eq K⦄ (o : StrictOrder K) where
  sort-keys-IsIncreasing : (m : List (K × V)) → DistinctKeys m → IsIncreasing o (sort o (keys m))
  unfolding sort
  sort-keys-IsIncreasing [] d = tt
  sort-keys-IsIncreasing ((k, v) ∷ m) (n, d) =
      insert_sorted-IsIncreasing o k (sort o (keys m))
        (λ h. (keys-lookup m k).0 ((sort-SameValues o (keys m) k).0 h) n)
        (sort-keys-IsIncreasing m d)

  -- The keys of a map, once sorted, are strictly increasing, and they are those that have a value.
  pub sort-keys :
      (m : List (K × V))
      → DistinctKeys m
      → IsIncreasing o (sort o (keys m)) × ((k : K) → Has k (sort o (keys m)) ↔ (lookup k m ≢ none))
  sort-keys m d = (
    sort-keys-IsIncreasing m d,
    λ k. (
      λ h. (keys-lookup m k).0 ((sort-SameValues o (keys m) k).0 h),
      λ h. (sort-SameValues o (keys m) k).1 ((keys-lookup m k).1 h),
    ),
  )

  -- Two lists that are the same map have the same sorted keys.
  pub sort-keys-eq :
      (m m' : List (K × V))
      → DistinctKeys m
      → DistinctKeys m'
      → ((k : K) → lookup k m ≡ lookup k m')
      → sort o (keys m) ≡ sort o (keys m')
  sort-keys-eq m m' d d' same =
      let (inc, has) = sort-keys m d in
      let (inc', has') = sort-keys m' d' in
      IsIncreasing-ext o (sort o (keys m)) (sort o (keys m')) inc inc' (λ k. (
        λ h. (has' k).1 (λ q. (has k).0 h (same k ∙ q)),
        λ h. (has k).1 (λ q. (has' k).0 h (sym (same k) ∙ q)),
      ))
