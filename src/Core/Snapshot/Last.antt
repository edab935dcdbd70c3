-- ===== src/Core/Snapshot/Last.antt =====
-- What the snapshot holds, and what is written of it.
use httshark.Base.{
  ℕ, zero, suc, ◌-◌, ◌+◌, ◌≤◌, ◌≡◌, refl, ap, sym, append-nil, append_assoc, ◌∙◌, true, Option,
  none, some, List, [], ◌∷◌, ◌++◌, map, Bytes, codes, pos, ltb_ℤ, if◌then◌else◌, length, drop,
  replicate, arith, length-append, length-drop, All, Bool-cases, inl, inr,
}
use httshark.Core.Snapshot.{
  LogConfig, keep_last, log_snapshot_append, Written, write_lines, print_snapshot,
}

-- a message with its time, as it stands in the snapshot
abbrev pub text_of : Bytes × Bytes → Bytes
text_of (time, message) = time ++ codes " " ++ message

-- one call of `logSnapshotAppend` after the other
unfoldable pub append_all : LogConfig → List (Bytes × Bytes) → List Bytes → Option (List Bytes)
append_all config [] snapshot = some snapshot
append_all config ((time, message) ∷ ms) snapshot =
    elim (log_snapshot_append config time message snapshot) [
      | none ↦ none
      | some snapshot' ↦ append_all config ms snapshot'
    ]

drop-append : (k : ℕ) (xs ys : List Bytes) → k ≤ length xs → drop k xs ++ ys ≡ drop k (xs ++ ys)
drop-append zero xs ys h = refl
drop-append (suc k) [] ys h = absurd (omega arith)
drop-append (suc k) (x ∷ xs) ys h = drop-append k xs ys (omega arith)

drop-nil : (k : ℕ) → drop {A = Bytes} k [] ≡ []
drop-nil zero = refl
drop-nil (suc k) = refl

next_of : (j k : ℕ) → suc (j + k) ≡ suc j + k
next_of j k = omega arith

drop-drop : (k j : ℕ) (xs : List Bytes) → drop k (drop j xs) ≡ drop (j + k) xs
drop-drop k zero xs = ground arith
drop-drop k (suc j) [] = drop-nil k ∙ sym (drop-nil (suc j + k))
drop-drop k (suc j) (x ∷ xs) = drop-drop k j xs ∙ ap (λ i. drop i (x ∷ xs)) (next_of j k)

-- the last `n` of a list
abbrev pub last : ℕ → List Bytes → List Bytes
last n xs = drop (length xs - n) xs

last-append : (n : ℕ) (xs ys : List Bytes) → last n (last n xs ++ ys) ≡ last n (xs ++ ys)
last-append n xs ys =
    let d : ℕ = length xs - n in
    ap (λ l. drop (length l - n) l) (drop-append d xs ys (omega arith))
    ∙ drop-drop (length (drop d (xs ++ ys)) - n) d (xs ++ ys)
    ∙ ap (λ k. drop k (xs ++ ys)) (omega (arith, length-drop d (xs ++ ys), length-append xs ys))

-- Where a list is cut if it is longer than `n`, its last `n` items are left.
cut_lem :
    (n : ℕ) (ys : List Bytes)
    → (if ltb_ℤ (pos n) (pos (length ys)) then keep_last (pos n) ys else some ys) ≡ some (last n ys)
unfolding keep_last
cut_lem n ys = elim (Bool-cases (ltb_ℤ (pos n) (pos (length ys)))) [
  | inl t ↦ rw t refl
  | inr f ↦
      let all : length ys - n ≡ 0 = ground arith in rw f (ap (λ k. some (drop k ys)) (sym all))
]

append_last :
    (config : LogConfig) (n : ℕ) (time message : Bytes) (snapshot : List Bytes)
    → config.log_snapshot_amount ≡ pos n
    → log_snapshot_append config time message snapshot
      ≡ some (last n (snapshot ++ (text_of (time, message) ∷ [])))
unfolding log_snapshot_append
append_last config n time message snapshot q =
    rw q (cut_lem n (snapshot ++ (text_of (time, message) ∷ [])))

append_all-cons :
    (config : LogConfig) (n : ℕ) (m : Bytes × Bytes) (ms : List (Bytes × Bytes))
    (snapshot : List Bytes)
    → config.log_snapshot_amount ≡ pos n
    → append_all config (m ∷ ms) snapshot
      ≡ append_all config ms (last n (snapshot ++ (text_of m ∷ [])))
unfolding append_all
append_all-cons config n (time, message) ms snapshot q =
    ground (arith, append_last config n time message snapshot q)

append_all_from :
    (config : LogConfig) (n : ℕ) (ms : List (Bytes × Bytes)) (xs : List Bytes)
    → config.log_snapshot_amount ≡ pos n
    → append_all config ms (last n xs) ≡ some (last n (xs ++ map text_of ms))
unfolding append_all
append_all_from config n [] xs q = rw (append-nil xs) refl
append_all_from config n (m ∷ ms) xs q =
    append_all-cons config n m ms (last n xs) q
    ∙ ap (append_all config ms) (last-append n xs (text_of m ∷ []))
    ∙ append_all_from config n ms (xs ++ (text_of m ∷ [])) q
    ∙ ap (λ l. some (last n l)) (append_assoc xs (text_of m ∷ []) (map text_of ms))

-- With a configured amount that is not negative, no message makes `logSnapshotAppend` panic, and
-- after any number of messages the snapshot is the last ones of them, in their order and as many
-- as configured, or all where there are fewer.
append_all_lem :
    (config : LogConfig) (n : ℕ) (ms : List (Bytes × Bytes))
    → config.log_snapshot_amount ≡ pos n
    → append_all config ms [] ≡ some (last n (map text_of ms))
append_all_lem config n ms q =
    ap (append_all config ms) (sym (drop-nil (0 - n))) ∙ append_all_from config n ms [] q

write_blank : (k n : ℕ) → All (λ b. b ≡ b'\n') (write_lines n (replicate k [])).text
unfolding write_lines
write_blank zero n = tt
write_blank (suc k) zero = tt
write_blank (suc k) (suc zero) = tt
write_blank (suc k) (suc (suc n)) = (refl, write_blank k n)

-- Whatever the snapshot holds, `printSnapshot` writes no byte but line ends into the file.
print_snapshot_lem :
    (writes : ℕ) (snapshot : List Bytes)
    → (w : Written) × (print_snapshot true writes snapshot ≡ some w) × All (λ b. b ≡ b'\n') w.text
unfolding print_snapshot
print_snapshot_lem writes snapshot = (_, refl, write_blank (length snapshot) writes)
