-- ===== src/Go/Text.antt =====
-- Package `strings` over bytes: Split, Join, Index, Contains, ToLower. Every separator that the
-- program splits at is one byte.
use httshark.Base.{
  ℕ, ◌+◌, ◌≡◌, ◌≢◌, refl, Bool, true, false, ◌&&◌, Option, none, some, List, [], ◌∷◌, ◌++◌, arith,
  Bytes, ◌==◌, ltb, leb, if◌then◌else◌, All, Bool-cases, inl, inr,
}
use mathlib.Core.Option

-- the first part grows by a byte
abbrev pub grow : ℕ → List Bytes → List Bytes
grow c [] = (c ∷ []) ∷ []
grow c (p ∷ ps) = (c ∷ p) ∷ ps

-- `strings.Split(s, sep)`: always at least one part
unfoldable pub split : ℕ → Bytes → List Bytes
split sep [] = [] ∷ []
split sep (c ∷ s) = let rest = split sep s in if c == sep then [] ∷ rest else grow c rest

-- `strings.Join(parts, sep)`
unfoldable pub join : Bytes → List Bytes → Bytes
join sep [] = []
join sep (p ∷ []) = p
join sep (p ∷ q ∷ ps) = p ++ (sep ++ join sep (q ∷ ps))

unfoldable pub has_prefix : Bytes → Bytes → Bool
has_prefix [] s = true
has_prefix (c ∷ p) [] = false
has_prefix (c ∷ p) (d ∷ s) = c == d && has_prefix p s

-- `strings.Index(s, sub)`, where `none` stands for -1
unfoldable pub index : Bytes → Bytes → Option ℕ
unfolding has_prefix
index [] sub = if has_prefix sub [] then some 0 else none
index (c ∷ s) sub =
    let rest = index s sub in
    if has_prefix sub (c ∷ s) then some 0 else Option.map (λ i. i + 1) rest

-- `strings.Contains(s, sub)`
unfoldable pub contains : Bytes → Bytes → Bool
unfolding index
contains s sub = elim (index s sub) [ none ↦ false | some i ↦ true ]

is_ascii : Bytes → Bool
is_ascii [] = true
is_ascii (c ∷ s) = ltb c 128 && is_ascii s

unfoldable pub lower_ascii : Bytes → Bytes
lower_ascii [] = []
lower_ascii (c ∷ s) = (if leb b'A' c && leb c b'Z' then c + 32 else c) ∷ lower_ascii s

-- `strings.ToLower(s)`: text with a byte of 128 or more goes through the Unicode tables, which are
-- the argument `unicode_lower`.
unfoldable pub to_lower : (Bytes → Bytes) → Bytes → Bytes
unfolding is_ascii lower_ascii
to_lower unicode_lower s = if is_ascii s then lower_ascii s else unicode_lower s

-- `a < b` on strings
unfoldable pub lt_bytes : Bytes → Bytes → Bool
lt_bytes s [] = false
lt_bytes [] (d ∷ t) = true
lt_bytes (c ∷ s) (d ∷ t) = if ltb c d then true else if ltb d c then false else lt_bytes s t

abbrev pub Lacks : ℕ → Bytes → Type 0
Lacks b = All (λ c. c ≢ b)

grow-ne-nil : (c : ℕ) (ps : List Bytes) → grow c ps ≢ []
grow-ne-nil c [] = cc
grow-ne-nil c (p ∷ ps) = cc

pub split-ne-nil : (sep : ℕ) (s : Bytes) → split sep s ≢ []
unfolding split
split-ne-nil sep [] = cc
split-ne-nil sep (c ∷ s) = elim (Bool-cases (c == sep)) [
  | inl e ↦ rw e (cc)
  | inr e ↦ rw e (grow-ne-nil c (split sep s))
]

join-grow :
    (sep : Bytes) (c : ℕ) (ps : List Bytes) → ps ≢ [] → join sep (grow c ps) ≡ c ∷ join sep ps
unfolding join
join-grow sep c [] h = absurd (h refl)
join-grow sep c (p ∷ []) h = refl
join-grow sep c (p ∷ q ∷ ps) h = refl

join_empty_first :
    (sep : Bytes) (ps : List Bytes) → ps ≢ [] → join sep ([] ∷ ps) ≡ sep ++ join sep ps
unfolding join
join_empty_first sep [] h = absurd (h refl)
join_empty_first sep (p ∷ ps) h = refl

-- A text without the separator is one part.
pub split_of_Lacks : (sep : ℕ) (s : Bytes) → Lacks sep s → split sep s ≡ s ∷ []
unfolding split
split_of_Lacks sep [] h = refl
split_of_Lacks sep (c ∷ s) h = ground (arith, split_of_Lacks sep s h.1)

-- The part up to the first separator is cut off.
pub split_at_sep :
    (sep : ℕ) (p s : Bytes) → Lacks sep p → split sep (p ++ (sep ∷ s)) ≡ p ∷ split sep s
unfolding split
split_at_sep sep [] s h = ground arith
split_at_sep sep (c ∷ p) s h = ground (arith, split_at_sep sep p s h.1)

grow-append : (c : ℕ) (ps qs : List Bytes) → ps ≢ [] → grow c (ps ++ qs) ≡ grow c ps ++ qs
grow-append c [] qs h = absurd (h refl)
grow-append c (p ∷ ps) qs h = refl

-- A separator parts the parts on its two sides.
pub split-append_sep :
    (sep : ℕ) (s t : Bytes) → split sep (s ++ (sep ∷ t)) ≡ split sep s ++ split sep t
unfolding split
split-append_sep sep [] t = ground arith
split-append_sep sep (c ∷ s) t = elim (Bool-cases (c == sep)) [
  | inl e ↦ rw (e, split-append_sep sep s t) refl
  | inr e ↦
      rw (e, split-append_sep sep s t)
        (grow-append c (split sep s) (split sep t) (split-ne-nil sep s))
]

-- Joining the parts at the separator gives the text back.
pub join-split : (sep : ℕ) (s : Bytes) → join (sep ∷ []) (split sep s) ≡ s
unfolding split
join-split sep [] = unfold join in refl
join-split sep (c ∷ s) = elim (Bool-cases (c == sep)) [
  | inl e ↦
      rw (e, join_empty_first (sep ∷ []) (split sep s) (split-ne-nil sep s), join-split sep s)
        (ground arith)
  | inr e ↦ rw (e, join-grow (sep ∷ []) c (split sep s) (split-ne-nil sep s), join-split sep s)
]
