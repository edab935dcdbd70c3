-- ===== src/Dump/Detect/Iff.antt =====
-- What counts as the first packet of a request.
use httshark.Base.{
  ℕ, zero, suc, ◌≤◌, ◌<◌, ◌≡◌, refl, ap, sym, ◌∙◌, true, false, ◌↔◌, some, List, [], ◌∷◌, ◌++◌,
  arith, Bytes, same, same_iff, ltb, length, take, drop, All, Bool-cases, inl, inr, append_assoc,
  Option-cases,
}
use httshark.Go.Text.{Lacks}
use httshark.Dump.Detect.{http_methods, is_member, index_byte, is_http_request_data}

-- the body starts with a method and a blank
pub record Starts (body : Bytes) : Type 0 where
  pub method : Bytes
  pub rest : Bytes
  pub known : is_member method http_methods ≡ true
  pub text : body ≡ method ++ (b' ' ∷ rest)

take-drop : (n : ℕ) (s : Bytes) → take n s ++ drop n s ≡ s
take-drop zero s = refl
take-drop (suc n) [] = refl
take-drop (suc n) (c ∷ s) = ap (λ t. c ∷ t) (take-drop n s)

index_byte_splits :
    (b : ℕ) (s : Bytes) (i : ℕ) → index_byte b s ≡ some i → s ≡ take i s ++ (b ∷ drop (suc i) s)
unfolding index_byte
index_byte_splits b [] i h = absurd (cc)
index_byte_splits b (c ∷ s) zero h = ground (arith, h)
index_byte_splits b (c ∷ s) (suc i) h =
    ap (λ t. c ∷ t) (index_byte_splits b s i (ground (arith, h)))

index_byte_front :
    (b n : ℕ) (m rest : Bytes)
    → length m < n
    → Lacks b m
    → index_byte b (take n (m ++ (b ∷ rest))) ≡ some (length m)
unfolding index_byte
index_byte_front b zero m rest h l = absurd (omega arith)
index_byte_front b (suc n) [] rest h l = ground arith
index_byte_front b (suc n) (c ∷ m) rest h (lc, l) =
    ground (arith, index_byte_front b n m rest (omega arith) l)

take_front : (n : ℕ) (m s : Bytes) → length m ≤ n → take (length m) (take n (m ++ s)) ≡ m
take_front n [] s h = refl
take_front zero (c ∷ m) s h = absurd (omega arith)
take_front (suc n) (c ∷ m) s h = ap (λ t. c ∷ t) (take_front n m s (omega arith))

abbrev IsShort : Bytes → Type 0
IsShort m = (length m < 8) × Lacks b' ' m

member-All : (m : Bytes) (ms : List Bytes) → is_member m ms ≡ true → All IsShort ms → IsShort m
member-All m [] h a = absurd (cc)
member-All m (n ∷ ms) h (hn, a) = elim (Bool-cases (same m n)) [
  | inl t ↦ rw ((same_iff m n).0 t) hn
  | inr f ↦ member-All m ms (rw f at h) a
]

methods-All : All IsShort http_methods
methods-All = ground arith

is_http_request_data-Starts :
    (body : Bytes) → is_http_request_data body ≡ true → (8 ≤ length body) × Starts body
unfolding is_http_request_data
is_http_request_data-Starts body h = elim (Option-cases (index_byte b' ' (take 8 body))) [
  | inl q ↦ absurd (ground arith)
  | inr (i, q) ↦ (
    ground arith,
    record {
      method = take i (take 8 body);
      rest = drop (suc i) (take 8 body) ++ drop 8 body;
      known = ground arith;
      text =
          sym (take-drop 8 body)
          ∙ ap (λ s. s ++ drop 8 body) (index_byte_splits b' ' (take 8 body) i q)
          ∙ append_assoc (take i (take 8 body)) (b' ' ∷ drop (suc i) (take 8 body)) (drop 8 body);
    },
  )
]

is_request_of_Starts :
    (body : Bytes) → 8 ≤ length body → Starts body → is_http_request_data body ≡ true
unfolding is_http_request_data
is_request_of_Starts body n s =
    let (short, lacks) = member-All s.method http_methods s.known methods-All in
    let at_blank : index_byte b' ' (take 8 body) ≡ some (length s.method) =
      rw (s.text) (index_byte_front b' ' 8 s.method s.rest short lacks) in
    let front : take (length s.method) (take 8 body) ≡ s.method =
      rw (s.text) (take_front 8 s.method (b' ' ∷ s.rest) (omega arith)) in
    let long : ltb (length body) 8 ≡ false = ground arith in rw (long, at_blank, front) (s.known)

-- A payload is taken for the first packet of a request exactly if it has at least eight bytes and
-- starts with one of the known methods and a blank.
is_http_request_data_iff :
    (body : Bytes) → (is_http_request_data body ≡ true) ↔ ((8 ≤ length body) × Starts body)
is_http_request_data_iff body =
    (is_http_request_data-Starts body, λ h. is_request_of_Starts body (h.0) (h.1))
