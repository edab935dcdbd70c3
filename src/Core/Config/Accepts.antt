-- ===== src/Core/Config/Accepts.antt =====
-- What `Init` accepts.
use httshark.Base.{
  ◌≡◌, ◌≢◌, ◌↔◌, ◌⊎◌, refl, Bool, true, false, ◌==◌, Option, none, some, List, [], ◌∷◌, Bytes,
  codes, same_iff, if◌then◌else◌, length, Has, All, Bool-cases, inl, inr, arith,
}
use httshark.Go.Text.{split}
use httshark.Core.Config.{
  Config, Fatal, no_device, supported_processors, is_member, check_supported, check_bucket,
  check_capture, or_else, init,
}

abbrev pub IsSupported : Bytes → Type 0
IsSupported name = Has name supported_processors

false-ne-true : (b : Bool) → b ≡ false → b ≡ true → ⊥
false-ne-true b f t = cc

Has-is_member : (name : Bytes) (names : List Bytes) → (is_member name names ≡ true) ↔ Has name names
unfolding is_member
Has-is_member name [] = ((λ q. absurd (cc)), (λ h. absurd h))
Has-is_member name (n ∷ names) = ground (arith, same_iff n name, Has-is_member name names)

check_supported-none : (ps : List Bytes) → (check_supported ps ≡ none) ↔ All IsSupported ps
unfolding check_supported
check_supported-none [] = ((λ q. tt), (λ h. refl))
check_supported-none (p ∷ ps) =
    let (sound, complete) = Has-is_member p supported_processors in
    let (all_sound, all_complete) = check_supported-none ps in
    elim (Bool-cases (is_member p supported_processors)) [
      | inl t ↦ rw t ((λ q. (sound t, all_sound q)), (λ (_, hs). all_complete hs))
      | inr f ↦ rw f ((λ q. absurd (cc)), (λ (h, _). absurd (false-ne-true _ f (complete h))))
    ]

length-nil : (s : Bytes) → ((length s == 0) ≡ true) ↔ (s ≡ [])
length-nil [] = ((λ q. refl), (λ q. refl))
length-nil (c ∷ s) = ((λ q. absurd (ground arith)), (λ q. absurd (cc)))

check_bucket-none :
    (bucket : Bytes) (ps : List Bytes)
    → (check_bucket bucket ps ≡ none) ↔ (Has (codes "s3") ps → bucket ≢ [])
unfolding check_bucket
check_bucket-none bucket [] = ((λ q h. absurd h), (λ h. refl))
check_bucket-none bucket (p ∷ ps) =
    ground (arith, same_iff p (codes "s3"), length-nil bucket, check_bucket-none bucket ps)

check_capture-none :
    (capture : Bytes)
    → (check_capture capture ≡ none) ↔ ((capture ≡ codes "tshark") ⊎ (capture ≡ codes "httpdump"))
check_capture-none capture =
    ground (arith, same_iff capture (codes "tshark"), same_iff capture (codes "httpdump"))

not_true : (b : Bool) → (b ≡ true → ⊥) → b ≡ false
not_true true h = absurd (h refl)
not_true false h = refl

or_else-none : (a b : Option Fatal) → (or_else a b ≡ none) ↔ ((a ≡ none) × (b ≡ none))
or_else-none none b = ((λ q. (refl, q)), (λ (_, q). q))
or_else-none (some f) b = ((λ q. absurd (cc)), (λ (q, _). absurd (cc)))

if-none :
    (b : Bool) (f : Fatal) (rest : Option Fatal)
    → ((if b then some f else rest) ≡ none) ↔ ((b ≡ false) × (rest ≡ none))
if-none true f rest = ((λ q. absurd (cc)), (λ (q, _). absurd (cc)))
if-none false f rest = ((λ q. (refl, q)), (λ (_, q). q))

-- What a configuration has that `Init` accepts.
pub record IsAccepted (config : Config) : Type 0 where
  pub has_device : config.device ≢ []
  pub all_supported : All IsSupported (split b',' config.har_processors)
  pub has_bucket :
      Has (codes "s3") (split b',' config.har_processors) → config.s3_exporter_bucket_name ≢ []
  pub is_capture : (config.capture ≡ codes "tshark") ⊎ (config.capture ≡ codes "httpdump")

-- `Init` goes on exactly where a device is given, each of the processors between the commas is a
-- supported one, the bucket of S3 is named if S3 is one of them, and the capture engine is tshark
-- or httpdump; otherwise it ends the process.
pub init_accepts_iff : (config : Config) → (init config ≡ none) ↔ IsAccepted config
unfolding init
init_accepts_iff config =
    let ps = split b',' config.har_processors in
    let bucket = config.s3_exporter_bucket_name in
    let device = length-nil config.device in
    let supported = check_supported-none ps in
    let named = check_bucket-none bucket ps in
    let engine = check_capture-none config.capture in
    let last = or_else (check_bucket bucket ps) (check_capture config.capture) in
    let tests = if-none (length config.device == 0) no_device (or_else (check_supported ps) last) in
    let first_two = or_else-none (check_supported ps) last in
    let last_two = or_else-none (check_bucket bucket ps) (check_capture config.capture) in
    (
      λ q.
          let (given, rest) = tests.0 q in
          let (s, rest') = first_two.0 rest in
          let (b, c) = last_two.0 rest' in
          record {
            has_device = λ e. false-ne-true _ given (device.1 e);
            all_supported = supported.0 s;
            has_bucket = named.0 b;
            is_capture = engine.0 c;
          },
      λ a. tests.1 (
        not_true _ (λ t. a.has_device (device.0 t)),
        first_two.1
            (supported.1 a.all_supported, last_two.1 (named.1 a.has_bucket, engine.1 a.is_capture)),
      ),
    )
