-- ===== src/Go/Space.antt =====
-- `strings.TrimSpace` over UTF-8.
use httshark.Base.{
  ℕ, zero, suc, ◌≤◌, arith, ◌≡◌, refl, Bool, ◌&&◌, ◌||◌, [], ◌∷◌, Bytes, ◌==◌, leb, if◌then◌else◌,
  length, drop, ◌++◌, All, All-append, ap, ◌∙◌, List-cases, inl, inr,
}
use mathlib.Core.List.{reverse, reverse-reverse, reverse-cons, reverse-append}

-- the white space of ASCII: \t \n \v \f \r and the blank
abbrev ascii_space : ℕ → Bool
ascii_space c = (leb 9 c && leb c 13) || c == 32

-- U+0085 and U+00A0 have two bytes
abbrev space₂ : ℕ → ℕ → Bool
space₂ a b = a == 0xC2 && (b == 0x85 || b == 0xA0)

-- U+1680, U+2000 to U+200A, U+2028, U+2029, U+202F, U+205F and U+3000 have three
abbrev space₃ : ℕ → ℕ → ℕ → Bool
space₃ a b c =
    (a == 0xE1 && b == 0x9A && c == 0x80)
    || (a == 0xE2
        && ((b == 0x80 && ((leb 0x80 c && leb c 0x8A) || c == 0xA8 || c == 0xA9 || c == 0xAF))
            || (b == 0x81 && c == 0x9F)))
    || (a == 0xE3 && b == 0x80 && c == 0x80)

-- how many bytes of white space stand in front, for one character at most
unfoldable pub first_space : Bytes → ℕ
first_space [] = 0
first_space (a ∷ []) = if ascii_space a then 1 else 0
first_space (a ∷ b ∷ []) = if ascii_space a then 1 else if space₂ a b then 2 else 0
first_space (a ∷ b ∷ c ∷ s) =
    if ascii_space a then 1 else if space₂ a b then 2 else if space₃ a b c then 3 else 0

-- the same at the end, over the reversed text
unfoldable pub last_space : Bytes → ℕ
last_space [] = 0
last_space (a ∷ []) = if ascii_space a then 1 else 0
last_space (b ∷ a ∷ []) = if ascii_space b then 1 else if space₂ a b then 2 else 0
last_space (c ∷ b ∷ a ∷ s) =
    if ascii_space c then 1 else if space₂ b c then 2 else if space₃ a b c then 3 else 0

-- Drops what `width` finds in front as long as it finds something. Each round drops a byte, so
-- the text's length is fuel enough.
strip : (Bytes → ℕ) → ℕ → Bytes → Bytes
strip width zero s = s
strip width (suc f) s = elim (width s) [ zero ↦ s | suc n ↦ strip width f (drop (suc n) s) ]

-- `strings.TrimSpace(s)`
unfoldable pub trim_space : Bytes → Bytes
unfolding first_space last_space strip
trim_space s =
    let left = strip first_space (length s) s in
    reverse (strip last_space (length left) (reverse left))

-- Neither end is white space.
pub record IsTrimmed (s : Bytes) : Type 0 where
  pub front : first_space s ≡ 0
  pub back : last_space (reverse s) ≡ 0

strip_of_zero : (width : Bytes → ℕ) (f : ℕ) (s : Bytes) → width s ≡ 0 → strip width f s ≡ s
unfolding strip
strip_of_zero width zero s h = refl
strip_of_zero width (suc f) s h = rw (h, strip)

pub trim_space_of_IsTrimmed : (s : Bytes) → IsTrimmed s → trim_space s ≡ s
trim_space_of_IsTrimmed s t =
    unfold trim_space in
    rw (
      strip_of_zero first_space (length s) s t.front,
      strip_of_zero last_space (length s) (reverse s) t.back,
      reverse-reverse,
    )

first_space_blank : (s : Bytes) → first_space (b' ' ∷ s) ≡ 1
unfolding first_space
first_space_blank [] = refl
first_space_blank (a ∷ []) = refl
first_space_blank (a ∷ b ∷ s) = refl

strip_blank : (s : Bytes) → IsTrimmed s → strip first_space (length (b' ' ∷ s)) (b' ' ∷ s) ≡ s
unfolding strip
strip_blank s t = rw (first_space_blank s, strip) (strip_of_zero first_space (length s) s t.front)

-- A blank in front goes.
pub trim_space_blank : (s : Bytes) → IsTrimmed s → trim_space (b' ' ∷ s) ≡ s
trim_space_blank s t =
    unfold trim_space in
    rw (strip_blank s t, strip_of_zero last_space (length s) (reverse s) t.back, reverse-reverse)

-- A byte of ASCII that is no white space.
abbrev pub IsVisible : ℕ → Type 0
IsVisible c = (33 ≤ c) × (c ≤ 126)

first_space_visible : (c : ℕ) (s : Bytes) → IsVisible c → first_space (c ∷ s) ≡ 0
unfolding first_space
first_space_visible c [] h = ground arith
first_space_visible c (a ∷ []) h = ground arith
first_space_visible c (a ∷ b ∷ s) h = ground arith

last_space_visible : (c : ℕ) (s : Bytes) → IsVisible c → last_space (c ∷ s) ≡ 0
unfolding last_space
last_space_visible c [] h = ground arith
last_space_visible c (a ∷ []) h = ground arith
last_space_visible c (a ∷ b ∷ s) h = ground arith

All-reverse : (s : Bytes) → All IsVisible s → All IsVisible (reverse s)
All-reverse [] h = tt
All-reverse (c ∷ s) (hc, h) =
    rw (reverse-cons c s) (All-append IsVisible (reverse s) (c ∷ []) (All-reverse s h) (hc, tt))

last_space-reverse : (s : Bytes) → All IsVisible s → last_space (reverse s) ≡ 0
last_space-reverse s h = elim (List-cases (reverse s)) [
  | inl q ↦ rw q (unfold last_space in refl)
  | inr (c, r, q) ↦
      let all : All IsVisible (c ∷ r) = rw q at (All-reverse s h) in
      rw q (last_space_visible c r all.0)
]

last_space_blank : (s : Bytes) → last_space (b' ' ∷ s) ≡ 1
unfolding last_space
last_space_blank [] = refl
last_space_blank (a ∷ []) = refl
last_space_blank (a ∷ b ∷ s) = refl

strip_one :
    (width : Bytes → ℕ) (f : ℕ) (s : Bytes)
    → width (b' ' ∷ s) ≡ 1
    → width s ≡ 0
    → strip width (suc f) (b' ' ∷ s) ≡ s
unfolding strip
strip_one width f s one none = rw (one, strip) (strip_of_zero width f s none)

-- Visible text between two blanks is what is left.
pub trim_space_between :
    (c : ℕ) (s : Bytes) → All IsVisible (c ∷ s) → trim_space (b' ' ∷ c ∷ (s ++ (b' ' ∷ []))) ≡ c ∷ s
unfolding trim_space
trim_space_between c s (hc, h) =
    let tail = c ∷ (s ++ (b' ' ∷ [])) in
    let left : strip first_space (length (b' ' ∷ tail)) (b' ' ∷ tail) ≡ tail =
      strip_one first_space (length tail) tail (first_space_blank tail)
        (first_space_visible c (s ++ (b' ' ∷ [])) hc) in
    let reversed : reverse tail ≡ b' ' ∷ reverse (c ∷ s) = reverse-append (c ∷ s) (b' ' ∷ []) in
    let right : strip last_space (length tail) (b' ' ∷ reverse (c ∷ s)) ≡ reverse (c ∷ s) =
      strip_one last_space (length (s ++ (b' ' ∷ []))) (reverse (c ∷ s))
        (last_space_blank (reverse (c ∷ s))) (last_space-reverse (c ∷ s) (hc, h)) in
    ap (λ l. reverse (strip last_space (length l) (reverse l))) left
    ∙ ap (λ l. reverse (strip last_space (length tail) l)) reversed
    ∙ ap reverse right
    ∙ reverse-reverse (c ∷ s)
