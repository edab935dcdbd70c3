-- ===== src/Go/Number.antt =====
-- Package `strconv`: Atoi and ParseInt in base 10 (both read an int64), Itoa and FormatInt.
use httshark.Base.{
  ℕ, zero, suc, ◌+◌, ◌-◌, ◌*◌, ◌/◌, ◌%◌, ◌^◌, ◌≤◌, ◌<◌, ◌≡◌, ◌≢◌, refl, Bool, true, false, ◌&&◌,
  Option, none, some, [], ◌∷◌, arith, Bytes, ◌==◌, ltb, leb, if◌then◌else◌, ℤ, pos, negsuc, All,
  Bool-cases, inl, inr,
}

abbrev is_digit : ℕ → Bool
is_digit c = leb b'0' c && leb c b'9'

-- the number that decimal digits spell behind `n`
scan : Bytes → ℕ → Option ℕ
scan [] n = some n
scan (c ∷ s) n = if is_digit c then scan s (n * 10 + (c - b'0')) else none

-- a magnitude is at least one digit
magnitude : Bytes → Option ℕ
unfolding scan
magnitude [] = none
magnitude (c ∷ s) = scan (c ∷ s) 0

abbrev negated : ℕ → ℤ
negated zero = pos 0
negated (suc n) = negsuc n

abbrev read_pos : Option ℕ → Option ℤ
read_pos none = none
read_pos (some n) = if ltb n (2 ^ 63) then some (pos n) else none

abbrev read_neg : Option ℕ → Option ℤ
read_neg none = none
read_neg (some n) = if leb n (2 ^ 63) then some (negated n) else none

-- `strconv.Atoi(s)` and `strconv.ParseInt(s, 10, 64)`; `none` is an error, of syntax or of range
unfoldable pub atoi : Bytes → Option ℤ
unfolding magnitude
atoi [] = none
atoi (c ∷ s) =
    if c == b'-'
    then read_neg (magnitude s)
    else if c == b'+'
    then read_pos (magnitude s)
    else read_pos (magnitude (c ∷ s))

-- Each round divides by ten, so `n` rounds are enough.
print_digits : ℕ → ℕ → Bytes → Bytes
print_digits zero n out = out
print_digits (suc f) n out = elim (ltb n 10) [
  | true ↦ (b'0' + n) ∷ out
  | false ↦ print_digits f (n / 10) ((b'0' + n % 10) ∷ out)
]

print_nat : ℕ → Bytes
unfolding print_digits
print_nat n = print_digits (suc n) n []

-- `strconv.Itoa(n)`, `strconv.FormatInt(n, 10)` and `%v` of an integer
unfoldable pub itoa : ℤ → Bytes
unfolding print_nat
itoa (pos n) = print_nat n
itoa (negsuc n) = b'-' ∷ print_nat (suc n)

abbrev pub IsDigits : Bytes → Type 0
IsDigits = All (λ c. (b'0' ≤ c) × (c ≤ b'9'))

-- the number that digits spell behind `n`, with no bound
abbrev pub value : ℕ → Bytes → ℕ
value n [] = n
value n (c ∷ s) = value (n * 10 + (c - b'0')) s

scan_of_IsDigits : (s : Bytes) (n : ℕ) → IsDigits s → scan s n ≡ some (value n s)
unfolding scan
scan_of_IsDigits [] n h = refl
scan_of_IsDigits (c ∷ s) n (hc, hs) = ground (arith, scan_of_IsDigits s (n * 10 + (c - b'0')) hs)

-- Digits that spell a number below 2 ^ 63 are read as that number.
pub atoi_of_IsDigits :
    (s : Bytes) → s ≢ [] → IsDigits s → value 0 s < 2 ^ 63 → atoi s ≡ some (pos (value 0 s))
unfolding atoi
atoi_of_IsDigits [] ne h lt = absurd (ne refl)
atoi_of_IsDigits (c ∷ s) ne h lt =
    let e : magnitude (c ∷ s) ≡ some (value 0 (c ∷ s)) = scan_of_IsDigits (c ∷ s) 0 h in
    ground (arith, e)

scan-print_digits : (f n : ℕ) (out : Bytes) → n < f → scan (print_digits f n out) 0 ≡ scan out n
unfolding scan print_digits
scan-print_digits zero n out h = elim h [ ]
scan-print_digits (suc f) n out h =
    ground (arith, scan-print_digits f (n / 10) ((b'0' + n % 10) ∷ out))

print_digits-IsDigits :
    (f n : ℕ) (out : Bytes) → n < f → IsDigits out → IsDigits (print_digits f n out)
unfolding print_digits
print_digits-IsDigits zero n out h a = elim h [ ]
print_digits-IsDigits (suc f) n out h a = elim (Bool-cases (ltb n 10)) [
  | inl t ↦ rw (t, print_digits) ((omega arith, ground arith), a)
  | inr e ↦
      rw (e, print_digits)
        (print_digits-IsDigits f (n / 10) ((b'0' + n % 10) ∷ out) (ground arith)
          ((omega arith, omega arith), a))
]

print_digits-ne-nil : (f n : ℕ) (out : Bytes) → n < f → print_digits f n out ≢ []
unfolding print_digits
print_digits-ne-nil zero n out h = elim h [ ]
print_digits-ne-nil (suc f) n out h = elim (Bool-cases (ltb n 10)) [
  | inl t ↦ rw (t, print_digits) (λ q. absurd (cc))
  | inr e ↦
      rw (e, print_digits) (print_digits-ne-nil f (n / 10) ((b'0' + n % 10) ∷ out) (ground arith))
]

pub itoa-IsDigits : (n : ℕ) → IsDigits (itoa (pos n))
unfolding itoa
itoa-IsDigits n = print_digits-IsDigits (suc n) n [] (omega arith) tt

atoi_of_scan :
    (s : Bytes) (n : ℕ)
    → s ≢ []
    → IsDigits s
    → scan s 0 ≡ some n
    → n < 2 ^ 63
    → atoi s ≡ some (pos n)
unfolding atoi
atoi_of_scan [] n ne h e lt = absurd (ne refl)
atoi_of_scan (c ∷ s) n ne h e lt = ground arith

-- A number that is printed is read back.
pub atoi-itoa : (n : ℕ) → n < 2 ^ 63 → atoi (itoa (pos n)) ≡ some (pos n)
unfolding scan
atoi-itoa n lt =
    atoi_of_scan (itoa (pos n)) n (unfold itoa in print_digits-ne-nil (suc n) n [] (omega arith))
      (itoa-IsDigits n) (unfold itoa in scan-print_digits (suc n) n [] (omega arith)) lt
