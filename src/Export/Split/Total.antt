-- ===== src/Export/Split/Total.antt =====
-- No entry is lost or doubled when `getHarFiles` splits them.
use httshark.Base.{
  ℕ, ◌+◌, ◌≡◌, ◌≢◌, refl, ◌∙◌, Bool, true, false, List, [], ◌∷◌, map, arith, Bytes, same, same_iff,
  if◌then◌else◌, length, Has, inl, inr, Bool-cases, All,
}
use httshark.Har.{Entry, Har, get_app_id}
use httshark.Export.Split.{Groups, get_har_file, get_har_files}
use httshark.Export.Split.Group.{with_app_id, WalksGroups, Distinct, IsSplit, get_har_files-IsSplit}

-- how many entries the files hold
abbrev pub total_entries : List Har → ℕ
total_entries [] = 0
total_entries (file ∷ files) = length file.log.entries + total_entries files

-- how often an application stands among `ids`, and how many entries those have
abbrev count : Bytes → List Bytes → ℕ
count id [] = 0
count id (i ∷ ids) = (if same id i then 1 else 0) + count id ids

abbrev total : List Bytes → List Entry → ℕ
total [] es = 0
total (i ∷ ids) es = length (with_app_id i es) + total ids es

count_absent : (id : Bytes) (ids : List Bytes) → ¬ (Has id ids) → count id ids ≡ 0
count_absent id [] h = refl
count_absent id (i ∷ ids) h = elim (Bool-cases (same id i)) [
  | inl t ↦ let q : id ≡ i = (same_iff id i).0 t in absurd (h (inl (rw q)))
  | inr f ↦ rw f (omega (arith, count_absent id ids (λ k. h (inr k))))
]

count_once : (id : Bytes) (ids : List Bytes) → Distinct ids → Has id ids → count id ids ≡ 1
count_once id [] d h = elim h [ ]
count_once id (i ∷ ids) (n, d) (inl q) =
    rw ((same_iff id i).1 (rw q refl)) (omega (arith, count_absent id ids (λ h. n (rw q h))))
count_once id (i ∷ ids) (n, d) (inr h) = elim (Bool-cases (same id i)) [
  | inl t ↦ let q : id ≡ i = (same_iff id i).0 t in absurd (n (rw (← q) h))
  | inr f ↦ rw f (omega (arith, count_once id ids d h))
]

total-cons :
    (e : Entry) (es : List Entry) (ids : List Bytes)
    → total ids (e ∷ es) ≡ count (get_app_id e) ids + total ids es
total-cons e es [] = refl
total-cons e es (i ∷ ids) = ground (arith, total-cons e es ids)

total-nil : (ids : List Bytes) → total ids [] ≡ 0
total-nil [] = refl
total-nil (i ∷ ids) = omega (arith, total-nil ids)

total_lem :
    (es : List Entry) (ids : List Bytes)
    → Distinct ids
    → All (λ e. Has (get_app_id e) ids) es
    → total ids es ≡ length es
total_lem [] ids d a = total-nil ids
total_lem (e ∷ es) ids d (h, a) =
    total-cons e es ids ∙ omega (arith, count_once (get_app_id e) ids d h, total_lem es ids d a)

total_of_files :
    (es : List Entry) (ids : List Bytes)
    → total_entries (map (λ id. get_har_file (with_app_id id es)) ids) ≡ total ids es
unfolding get_har_file
total_of_files es [] = refl
total_of_files es (i ∷ ids) = omega (arith, total_of_files es ids)

covers :
    (ids : List Bytes) (all es : List Entry)
    → ((id : Bytes) → with_app_id id all ≢ [] → Has id ids)
    → ((id : Bytes) → with_app_id id es ≢ [] → with_app_id id all ≢ [])
    → All (λ e. Has (get_app_id e) ids) es
covers ids all [] h sub = tt
covers ids all (e ∷ es) h sub =
    (h (get_app_id e) (sub (get_app_id e) here), covers ids all es h (λ id n. sub id (later id n)))
  where
    here : with_app_id (get_app_id e) (e ∷ es) ≢ []
    here = rw ((same_iff (get_app_id e) (get_app_id e)).1 refl) (λ q. absurd (cc))

    later : (id : Bytes) → with_app_id id es ≢ [] → with_app_id id (e ∷ es) ≢ []
    later id n = elim (Bool-cases (same (get_app_id e) id)) [
      | inl t ↦ rw t (λ q. absurd (cc))
      | inr f ↦ rw f n
    ]

total_of_IsSplit :
    (es : List Entry) (files : List Har) → IsSplit es files → total_entries files ≡ length es
total_of_IsSplit es files s = rw (s.file_of) (
    total_of_files es s.ids
    ∙ total_lem es s.ids s.distinct (covers s.ids es es (λ id. (s.used id).1) (λ id n. n)))

-- With or without `SplitByHost`, the files hold as many entries as were given.
pub get_har_files_total :
    (split_by_host : Bool) (arrange : Groups → Groups)
    → WalksGroups arrange
    → (es : List Entry) → total_entries (get_har_files split_by_host arrange es) ≡ length es
get_har_files_total false arrange walks es = unfold get_har_files get_har_file in omega arith
get_har_files_total true arrange walks es =
    total_of_IsSplit es (get_har_files true arrange es) (get_har_files-IsSplit arrange walks es)
