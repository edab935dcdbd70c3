-- ===== src/Base/Maps.antt =====
-- Predicates and sizes of association lists under insertion and erasure.
use Prim.Native.Nat.{ℕ, ◌+◌}
use mathlib.Core.Path.{◌≡◌, refl, subst, subst₂}
use mathlib.Core.Logic.{◌⊎◌, inl, inr}
use mathlib.Core.Option.{Option, none, some}
use mathlib.Core.List.{List, [], ◌∷◌}
use native.Mathlib.Omega.{arith}
use httshark.Base.Test.{Bool-cases}
use httshark.Base.Keys.{Eq}
use httshark.Base.Lists.{length, All}
use httshark.Base.Assoc.{lookup, insert, erase, lookup-insert, lookup-erase}

-- the sum of a number for each value
abbrev pub weight {ℓ κ} : {K : Type ℓ} {V : Type κ} → (V → ℕ) → List (K × V) → ℕ
weight f [] = 0
weight f ((j, w) ∷ m) = f w + weight f m

-- the number of a value that there may be
abbrev pub weight_of {κ} : {V : Type κ} → (V → ℕ) → Option V → ℕ
weight_of f none = 0
weight_of f (some w) = f w

-- `x` is an item of the list.
abbrev pub Has : {A : Type 0} → A → List A → Type 0
Has x [] = ⊥
Has x (y ∷ ys) = (y ≡ x) ⊎ Has x ys

module _ {κ} {A : Type 0} (P : A → Type κ) where
  pub All-has : (l : List A) (y : A) → All P l → Has y l → P y
  All-has [] y a h = absurd h
  All-has (x ∷ l) y (a, as') (inl q) = subst P q a
  All-has (x ∷ l) y (a, as') (inr h) = All-has l y as' h

  pub All-of_Has : (l : List A) → ((y : A) → Has y l → P y) → All P l
  All-of_Has [] f = tt
  All-of_Has (x ∷ l) f = (f x (inl refl), All-of_Has l (λ y h. f y (inr h)))

  pub All-imp {ι} : (Q : A → Type ι) (l : List A) → ((y : A) → P y → Q y) → All P l → All Q l
  All-imp Q [] f a = tt
  All-imp Q (x ∷ l) f (a, as') = (f x a, All-imp Q l f as')

module _ {ℓ κ} {K : Type ℓ} {V : Type κ} ⦃e : Eq K⦄ where
  -- No key stands twice.
  abbrev pub DistinctKeys : List (K × V) → Type κ
  DistinctKeys [] = Unit
  DistinctKeys ((k, v) ∷ m) = (lookup k m ≡ none) × DistinctKeys m

  pub insert-DistinctKeys :
      (k : K) (v : V) (m : List (K × V)) → DistinctKeys m → DistinctKeys (insert k v m)
  unfolding insert
  insert-DistinctKeys k v [] h = (unfold lookup in refl, tt)
  insert-DistinctKeys k v ((j, w) ∷ m) (hj, h) =
      ground
        (arith, insert-DistinctKeys k v m h, lookup-insert k j v m, e.beq_iff j k, e.beq_iff k j)

  pub erase-DistinctKeys : (k : K) (m : List (K × V)) → DistinctKeys m → DistinctKeys (erase k m)
  unfolding erase
  erase-DistinctKeys k [] h = tt
  erase-DistinctKeys k ((j, w) ∷ m) (hj, h) =
      ground (arith, erase-DistinctKeys k m h, lookup-erase k j m)

  -- An erased key that was not there changes nothing.
  pub erase_of_none : (k : K) (m : List (K × V)) → lookup k m ≡ none → erase k m ≡ m
  unfolding erase lookup
  erase_of_none k [] h = refl
  erase_of_none k ((j, w) ∷ m) h = ground (arith, erase_of_none k m)

  pub weight-insert :
      (f : V → ℕ) (k : K) (v : V) (m : List (K × V))
      → weight f (insert k v m) + weight_of f (lookup k m) ≡ weight f m + f v
  unfolding insert lookup
  weight-insert f k v [] = omega arith
  weight-insert f k v ((j, w) ∷ m) = ground (arith, weight-insert f k v m)

  pub weight-erase :
      (f : V → ℕ) (k : K) (m : List (K × V))
      → DistinctKeys m
      → weight f m ≡ weight f (erase k m) + weight_of f (lookup k m)
  unfolding erase lookup
  weight-erase f k [] h = omega arith
  weight-erase f k ((j, w) ∷ m) (hj, h) =
      ground (arith, weight-erase f k m h, erase_of_none k m, e.beq_iff j k)

  pub length-insert :
      (k : K) (v : V) (m : List (K × V))
      → length (insert k v m) ≡ length m + (elim (lookup k m) [ none ↦ 1 | some w ↦ 0 ])
  unfolding insert lookup
  length-insert k v [] = refl
  length-insert k v ((j, w) ∷ m) = ground (arith, length-insert k v m)

  pub length-erase :
      (k : K) (m : List (K × V))
      → DistinctKeys m
      → length m ≡ length (erase k m) + (elim (lookup k m) [ none ↦ 0 | some w ↦ 1 ])
  unfolding erase lookup
  length-erase k [] h = refl
  length-erase k ((j, w) ∷ m) (hj, h) =
      ground (arith, length-erase k m h, erase_of_none k m, e.beq_iff j k)

  module _ {ι} (P : K → V → Type ι) where
    -- `P` holds of each entry.
    abbrev pub Each : List (K × V) → Type ι
    Each [] = Unit
    Each ((k, v) ∷ m) = P k v × Each m

    pub insert-Each : (k : K) (v : V) (m : List (K × V)) → P k v → Each m → Each (insert k v m)
    unfolding insert
    insert-Each k v [] p h = (p, tt)
    insert-Each k v ((j, w) ∷ m) p (hj, h) = elim (Bool-cases (e.beq j k)) [
      | inl t ↦ rw t (p, h)
      | inr f ↦ rw f (hj, insert-Each k v m p h)
    ]

    pub erase-Each : (k : K) (m : List (K × V)) → Each m → Each (erase k m)
    unfolding erase
    erase-Each k [] h = tt
    erase-Each k ((j, w) ∷ m) (hj, h) = elim (Bool-cases (e.beq j k)) [
      | inl t ↦ rw t (erase-Each k m h)
      | inr f ↦ rw f (hj, erase-Each k m h)
    ]

    pub lookup-Each : (k : K) (v : V) (m : List (K × V)) → Each m → lookup k m ≡ some v → P k v
    unfolding lookup
    lookup-Each k v [] h q = absurd (cc)
    lookup-Each k v ((j, w) ∷ m) (hj, h) q = elim (Bool-cases (e.beq j k)) [
      | inl t ↦
          let q' : some w ≡ some v = rw t at q in
          let same_value : w ≡ v = cc q' in subst₂ P ((e.beq_iff j k).0 t) same_value hj
      | inr f ↦ lookup-Each k v m h (rw f at q)
    ]

module _ {ℓ κ} {K : Type ℓ} {V : Type κ} ⦃e : Eq K⦄ where
  -- Go walks through a map in an order of its own, and comes to each entry once.
  abbrev pub WalksMap : (List (K × V) → List (K × V)) → Type (ℓ ⊔ κ)
  WalksMap arrange =
      (m : List (K × V))
      → DistinctKeys m
      → DistinctKeys (arrange m) × ((k : K) → lookup k (arrange m) ≡ lookup k m)

  pub lookup_head : (k : K) (v : V) (m : List (K × V)) → lookup k ((k, v) ∷ m) ≡ some v
  unfolding lookup
  lookup_head k v m = rw ((e.beq_iff k k).1 refl)

  pub lookup_tail :
      (j k : K) (w v : V) (m : List (K × V))
      → lookup j m ≡ none
      → lookup k m ≡ some v
      → lookup k ((j, w) ∷ m) ≡ some v
  unfolding lookup
  lookup_tail j k w v m n q = elim (Bool-cases (e.beq j k)) [
    | inl t ↦ let same_key : j ≡ k = (e.beq_iff j k).0 t in absurd (cc)
    | inr f ↦ rw f q
  ]

  -- What holds of all that is found holds of each entry.
  pub Each-of_lookup {ι} :
      (P : K → V → Type ι) (m : List (K × V))
      → DistinctKeys m
      → ((k : K) (v : V) → lookup k m ≡ some v → P k v)
      → Each P m
  Each-of_lookup P [] d h = tt
  Each-of_lookup P ((k, v) ∷ m) (dk, d) h = (
    h k v (lookup_head k v m),
    Each-of_lookup P m d (λ j w q. h j w (lookup_tail k j v w m dk q)),
  )
