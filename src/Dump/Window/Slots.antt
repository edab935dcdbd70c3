-- ===== src/Dump/Window/Slots.antt =====
-- Reading and writing the circular buffer by the distance from its start.
use native.Mathlib.Nat.{mod-eq_of_lt, mod-eq-sub-mod, mod-lt, mod-add-mod, add_comm}
use native.Mathlib.Decide.{dec_lt, ℕ_discrete}
use httshark.Base.{
  ℕ, zero, suc, ◌+◌, ◌-◌, ◌%◌, ◌≤◌, ◌<◌, ◌≡◌, refl, ◌∙◌, ap, Option, none, some, List, arith, ◌==◌,
  ltb, leb, ◌&&◌, Option-cases, inl, inr, if◌then◌else◌, length, get_elem?, set, length-set,
  get_elem?-set_self, get_elem?-set_ne, get_elem?-of_lt,
}
use httshark.Dump.Packet.{Tcp}
use httshark.Dump.Window.{index_of, packet_at, copy_slot, shift}

abbrev pub Buffer : Type 0
Buffer = List (Option Tcp)

-- One turn round the buffer at most.
wrap_lem : (n s i : ℕ) → s < n → i < n → (i + s) % n ≡ (if ltb (i + s) n then i + s else i + s - n)
wrap_lem n s i hs hi = elim (dec_lt (i + s) n) [
  | yes h ↦ ground (arith, mod-eq_of_lt {n = i + s} {m = n} h)
  | no h ↦ ground (
    arith,
    mod-eq-sub-mod {n = i + s} {m = n} (omega arith),
    mod-eq_of_lt {n = i + s - n} {m = n} (omega arith),
  )
]

pub wrap_injective : (n s i j : ℕ) → s < n → i < n → j < n → (i + s) % n ≡ (j + s) % n → i ≡ j
wrap_injective n s i j hs hi hj e = ground (arith, wrap_lem n s i hs hi, wrap_lem n s j hs hj)

-- the slot `i` places from the start
unfoldable pub slot : Buffer → ℕ → ℕ → Option (Option Tcp)
slot b s i = get_elem? b (index_of b s i)

pub slot-set :
    (b : Buffer) (s i j : ℕ) (v : Option Tcp)
    → s < length b
    → i < length b
    → j < length b
    → slot (set b (index_of b s i) v) s j ≡ (if i == j then some v else slot b s j)
unfolding slot
slot-set b s i j v hs hi hj = rw (length-set b (index_of b s i) v) (elim (ℕ_discrete i j) [
  | yes e ↦
      rw (← e)
        (get_elem?-set_self b (index_of b s i) v (mod-lt (i + s) (omega arith)) ∙ ground arith)
  | no ne ↦
      get_elem?-set_ne b (index_of b s i) (index_of b s j) v
        (λ e. ne (wrap_injective (length b) s i j hs hi hj e))
      ∙ ground arith
])

-- Copying a slot onto another leaves the rest.
pub slot-copy_slot :
    (b : Buffer) (s i k j : ℕ)
    → s < length b
    → i < length b
    → k < length b
    → j < length b
    → slot (copy_slot b (index_of b s i) (index_of b s k)) s j
      ≡ (if i == j then slot b s k else slot b s j)
unfolding copy_slot
slot-copy_slot b s i k j hs hi hk hj =
    let (v, e) = get_elem?-of_lt b (index_of b s k) (mod-lt (k + s) (omega arith)) in
    let e' : slot b s k ≡ some v = unfold slot in e in
    rw (e', e, copy_slot) (slot-set b s i j v hs hi hj)

pub length-copy_slot : (b : Buffer) (i k : ℕ) → length (copy_slot b i k) ≡ length b
unfolding copy_slot
length-copy_slot b i k = elim (Option-cases (get_elem? b k)) [
  | inl e ↦ rw (e, copy_slot)
  | inr (v, e) ↦ rw (e, copy_slot) (length-set b i v)
]

pub length-shift : (s idx n : ℕ) (b : Buffer) → length (shift s idx n b) ≡ length b
unfolding shift
length-shift s idx zero b = refl
length-shift s idx (suc n) b = length-shift s idx n _ ∙ length-copy_slot b _ _

-- The loop of `insert` moves the `n` slots from `idx` one place on.
pub slot-shift :
    (s idx n j : ℕ) (b : Buffer)
    → s < length b
    → idx + n < length b
    → j < length b
    → slot (shift s idx n b) s j
      ≡ (if ltb idx j && leb j (idx + n) then slot b s (j - 1) else slot b s j)
unfolding shift
slot-shift s idx zero j b hs hn hj = ground arith
slot-shift s idx (suc n) j b hs hn hj = ground (
  arith,
  slot-shift s idx n j (moved b) (omega (arith, same_length)) (omega (arith, same_length))
      (omega (arith, same_length)),
  slot-copy_slot b s (idx + n + 1) (idx + n) j,
  slot-copy_slot b s (idx + n + 1) (idx + n) (j - 1),
)
  where
    moved : Buffer → Buffer
    moved c = copy_slot c (index_of c s (idx + n + 1)) (index_of c s (idx + n))

    same_length : length (moved b) ≡ length b
    same_length = length-copy_slot b _ _

-- A slot before the end of the buffer, and one behind the turn.
pub slot_near : (b : Buffer) (s i : ℕ) → s + i < length b → slot b s i ≡ get_elem? b (s + i)
unfolding slot
slot_near b s i h =
    ap (get_elem? b) (mod-eq_of_lt {n = i + s} {m = length b} (omega arith) ∙ omega arith)

pub slot_round :
    (b : Buffer) (s i : ℕ)
    → s < length b
    → i < length b
    → length b ≤ s + i
    → slot b s i ≡ get_elem? b (s + i - length b)
unfolding slot
slot_round b s i hs hi h = ap (get_elem? b) (ground (arith, wrap_lem (length b) s i))

-- the packet of a slot
abbrev pub flat : Option (Option Tcp) → Option Tcp
flat none = none
flat (some p) = p

pub packet_at_lem : (b : Buffer) (s i : ℕ) → packet_at b s i ≡ flat (slot b s i)
unfolding packet_at slot
packet_at_lem b s i = elim (Option-cases (get_elem? b (index_of b s i))) [
  | inl e ↦ rw (e, packet_at, slot)
  | inr (v, e) ↦ rw (e, packet_at, slot)
]

-- Moving the start on.
pub slot_from : (b : Buffer) (s k i : ℕ) → slot b ((s + k) % length b) i ≡ slot b s (k + i)
unfolding slot
slot_from b s k i = ap (get_elem? b) (
    ap (λ t. t % length b) (add_comm i ((s + k) % length b))
    ∙ mod-add-mod _ _ _
    ∙ ap (λ t. t % length b) (omega arith))
