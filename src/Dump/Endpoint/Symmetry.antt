-- ===== src/Dump/Endpoint/Symmetry.antt =====
-- Both directions of a connection have one key.
use httshark.Base.{
  ◌≡◌, refl, true, false, ◌↔◌, [], ◌∷◌, arith, Bytes, same_iff, Bool-cases, inl, inr,
}
use httshark.Go.Text.{lt_bytes}
use httshark.Dump.Endpoint.{Endpoint, equals, to_string, connection_key}

lt_asym : (a b : Bytes) → lt_bytes a b ≡ true → lt_bytes b a ≡ false
unfolding lt_bytes
lt_asym [] [] h = refl
lt_asym [] (y ∷ b) h = refl
lt_asym (x ∷ a) [] h = absurd (cc)
lt_asym (x ∷ a) (y ∷ b) h = ground (arith, lt_asym a b)

lt_total : (a b : Bytes) → lt_bytes a b ≡ false → lt_bytes b a ≡ false → a ≡ b
unfolding lt_bytes
lt_total [] [] h k = refl
lt_total [] (y ∷ b) h k = absurd (cc)
lt_total (x ∷ a) [] h k = absurd (cc)
lt_total (x ∷ a) (y ∷ b) h k = ground (arith, lt_total a b)

same_key : (src dst : Endpoint) → connection_key src dst ≡ connection_key dst src
unfolding connection_key
same_key src dst = elim (Bool-cases (lt_bytes (to_string src) (to_string dst))) [
  | inl t ↦ rw (t, lt_asym (to_string src) (to_string dst) t) refl
  | inr f ↦ elim (Bool-cases (lt_bytes (to_string dst) (to_string src))) [
    | inl t ↦ rw (t, f) refl
    | inr g ↦ rw (lt_total (to_string src) (to_string dst) f g) refl
  ]
]

pub equals_iff : (src dst : Endpoint) → (equals src dst ≡ true) ↔ (src ≡ dst)
unfolding equals
equals_iff src dst =
    (ground (arith, same_iff src.ip dst.ip), ground (arith, same_iff src.ip dst.ip))

-- The packets of both directions of a connection have the same key; and two endpoints are equal
-- for `equals` exactly if they are the same.
connection_key_sym :
    (src dst : Endpoint)
    → (connection_key src dst ≡ connection_key dst src) × ((equals src dst ≡ true) ↔ (src ≡ dst))
connection_key_sym src dst = (same_key src dst, equals_iff src dst)
