-- ===== src/Export/File/Kept.antt =====
-- The files of a batch do not overwrite each other.
use mathlib.Core.List.{append_cancel_left, append_cancel_right}
use httshark.Base.{
  ◌≡◌, ◌≢◌, refl, arith, ap, ◌∙◌, Bool, true, false, Option, none, some, List, [], ◌∷◌, ◌++◌, map,
  Bytes, codes, bytes_eq, lookup, insert, lookup-insert, same, same_iff, if_true, if_false, Has,
  inl, inr, Bool-cases, List-cases,
}
use httshark.Har.{Entry, Har, get_app_id}
use httshark.Export.Split.{Groups, get_har_file, get_har_files}
use httshark.Export.Split.Group.{with_app_id, Distinct, WalksGroups, get_har_files-IsSplit}
use httshark.Export.File.{
  Disk, Outside, Attempt, Outcome, written, app_id_prefix, path_of, write_file, har_to_file,
}

-- A batch of files, all of them written in the same second and without an error.
unfoldable pub write_all : Outside → Attempt → List Har → Disk → Option Disk
write_all o attempt [] disk = some disk
write_all o attempt (file ∷ files) disk =
    elim (har_to_file o attempt file disk) as (λ x. Option Disk) [
      | written disk' ↦ write_all o attempt files disk'
      | Outcome.write_failed disk' ↦ none
      | Outcome.marshal_failed ↦ none
      | Outcome.panicked ↦ none
    ]

-- Each file's text
abbrev pub Marshals : Outside → (Har → Bytes) → Type 0
Marshals o text = (file : Har) → o.marshal file ≡ some (text file)

with_app_id-first :
    (id : Bytes) (es : List Entry) (e : Entry) (rest : List Entry)
    → with_app_id id es ≡ e ∷ rest
    → get_app_id e ≡ id
with_app_id-first id [] e rest q = absurd (cc q)
with_app_id-first id (x ∷ es) e rest q = elim (Bool-cases (same (get_app_id x) id)) [
  | inl t ↦
      let q' : x ∷ with_app_id id es ≡ e ∷ rest = rw t at q in
      let same_entry : x ≡ e = cc q' in rw (← same_entry) ((same_iff (get_app_id x) id).0 t)
  | inr f ↦ with_app_id-first id es e rest (rw f at q)
]

-- the path of an application's file
abbrev pub path_for : Outside → Attempt → Bytes → Bytes
path_for o attempt id = path_of o attempt (id ++ codes "_")

har_to_file-written :
    (o : Outside) (attempt : Attempt) (file : Har) (disk : Disk) (text prefix : Bytes)
    → o.marshal file ≡ some text
    → app_id_prefix o.split_by_app_id file ≡ some prefix
    → attempt.failed_write ≡ none
    → har_to_file o attempt file disk ≡ written (insert (path_of o attempt prefix) text disk)
unfolding har_to_file write_file
har_to_file-written o attempt file disk text prefix m p w = ground arith

app_id_prefix-some :
    (split : Bool) (id : Bytes) (es : List Entry)
    → split ≡ true
    → with_app_id id es ≢ []
    → app_id_prefix split (get_har_file (with_app_id id es)) ≡ some (id ++ codes "_")
unfolding app_id_prefix get_har_file
app_id_prefix-some split id es s n = elim (List-cases (with_app_id id es)) [
  | inl q ↦ absurd (n q)
  | inr (e, rest, q) ↦
      let same_id : get_app_id e ≡ id = with_app_id-first id es e rest q in
      rw (s, q) (ap (λ i. some (i ++ codes "_")) same_id)
]

path_for_injective :
    (o : Outside) (attempt : Attempt) (i j : Bytes)
    → path_for o attempt i ≡ path_for o attempt j
    → i ≡ j
path_for_injective o attempt i j q =
    let after_folder = append_cancel_left o.output_folder _ _ q in
    let after_slash = append_cancel_left (codes "/") _ _ after_folder in
    append_cancel_right i j (codes "_") (append_cancel_right _ _ _ after_slash)

lookup_stored : (k v : Bytes) (disk : Disk) → lookup k (insert k v disk) ≡ some v
lookup_stored k v disk = lookup-insert k k v disk ∙ if_true (same k k) _ _ ((same_iff k k).1 refl)

lookup_not_stored :
    (j k v : Bytes) (disk : Disk) → j ≢ k → lookup k (insert j v disk) ≡ lookup k disk
lookup_not_stored j k v disk n = lookup-insert j k v disk ∙ (elim (Bool-cases (same j k)) [
  | inl t ↦ absurd (n ((same_iff j k).0 t))
  | inr f ↦ if_false (same j k) _ _ f
])

module _ (o : Outside) (attempt : Attempt) (text : Har → Bytes) (es : List Entry)
    (splits : o.split_by_app_id ≡ true) (succeeds : attempt.failed_write ≡ none)
    (marshals : Marshals o text) where
  write_all-cons :
      (id : Bytes) (files : List Har) (disk : Disk)
      → with_app_id id es ≢ []
      → write_all o attempt (get_har_file (with_app_id id es) ∷ files) disk
        ≡ write_all o attempt files
            (insert (path_for o attempt id) (text (get_har_file (with_app_id id es))) disk)
  unfolding write_all
  write_all-cons id files disk n =
      let file = get_har_file (with_app_id id es) in
      let prefix = app_id_prefix-some o.split_by_app_id id es splits n in
      ground (
        arith,
        har_to_file-written o attempt file disk (text file) (id ++ codes "_") (marshals file) prefix
            succeeds,
      )

  all_kept :
      (ids : List Bytes)
      → Distinct ids
      → ((id : Bytes) → Has id ids → with_app_id id es ≢ [])
      → (disk : Disk)
      → (disk' : Disk) × (write_all o attempt
            (map (λ id. get_har_file (with_app_id id es)) ids)
            disk
          ≡ some disk')
        × ((id : Bytes)
            → Has id ids
            → lookup (path_for o attempt id) disk' ≡ some (text (get_har_file (with_app_id id es))))
        × ((id : Bytes)
            → ¬ (Has id ids)
            → lookup (path_for o attempt id) disk' ≡ lookup (path_for o attempt id) disk)
  all_kept [] d u disk = (disk, unfold write_all in refl, (λ id h. absurd h), (λ id h. refl))
  all_kept (i ∷ ids) (n, d) u disk =
      let stored = insert (path_for o attempt i) (text (get_har_file (with_app_id i es))) disk in
      let (disk', q, found, others) = all_kept ids d (λ id h. u id (inr h)) stored in
      (
        disk',
        write_all-cons i _ disk (u i (inl refl)) ∙ q,
        (λ id h. elim h [
          | inl p ↦ rw (← p) (others i n ∙ lookup_stored (path_for o attempt i) _ disk)
          | inr k ↦ found id k
        ]),
        (λ id h.
            others id (λ k. h (inr k))
            ∙ lookup_not_stored (path_for o attempt i) (path_for o attempt id) _ disk
                (λ p. h (inl (path_for_injective o attempt i id p)))),
      )

-- Where `SplitByHost` and `SplitByAppId` are set, the files of a batch do not overwrite each other,
-- not even in the same second: where each of them can be written, each application with an entry
-- has at its path the text of the file with exactly its entries.
pub batch_kept :
    (o : Outside) (attempt : Attempt) (text : Har → Bytes) (arrange : Groups → Groups)
    → o.split_by_app_id ≡ true
    → attempt.failed_write ≡ none
    → Marshals o text
    → WalksGroups arrange
    → (es : List Entry) (disk : Disk)
    → (disk' : Disk) × (write_all o attempt (get_har_files true arrange es) disk ≡ some disk')
      × ((id : Bytes)
          → with_app_id id es ≢ []
          → lookup (path_for o attempt id) disk' ≡ some (text (get_har_file (with_app_id id es))))
batch_kept o attempt text arrange splits succeeds marshals walks es disk =
    let split = get_har_files-IsSplit arrange walks es in
    let (disk', q, found, _) =
      all_kept o attempt text es splits succeeds marshals split.ids split.distinct
        (λ id. (split.used id).0) disk in
    (
      disk',
      ap (λ files. write_all o attempt files disk) split.file_of ∙ q,
      (λ id n. found id ((split.used id).1 n)),
    )

write_all-written :
    (o : Outside) (attempt : Attempt) (file : Har) (files : List Har) (disk disk' : Disk)
    → har_to_file o attempt file disk ≡ written disk'
    → write_all o attempt (file ∷ files) disk ≡ write_all o attempt files disk'
unfolding write_all
write_all-written o attempt file files disk disk' q = ground arith

app_id_prefix-nil : (split : Bool) (file : Har) → split ≡ false → app_id_prefix split file ≡ some []
unfolding app_id_prefix
app_id_prefix-nil split file q = rw q refl

-- Where `SplitByAppId` is not set, files written in the same second have one path: of a batch with
-- one file for each application, or of any other files, the last one is left there, and what was
-- at other paths.
last_is_left :
    (o : Outside) (attempt : Attempt) (text : Har → Bytes)
    → o.split_by_app_id ≡ false
    → attempt.failed_write ≡ none
    → Marshals o text
    → (files : List Har) (last : Har) (disk : Disk)
    → (disk' : Disk) × (write_all o attempt (files ++ (last ∷ [])) disk ≡ some disk')
      × (lookup (path_of o attempt []) disk' ≡ some (text last))
      × ((path : Bytes) → path_of o attempt [] ≢ path → lookup path disk' ≡ lookup path disk)
last_is_left o attempt text s w m [] last disk =
    let path = path_of o attempt [] in
    let prefix = app_id_prefix-nil o.split_by_app_id last s in
    (
      insert path (text last) disk,
      write_all-written o attempt last [] disk _
            (har_to_file-written o attempt last disk (text last) [] (m last) prefix w)
          ∙ (unfold write_all in refl),
      lookup_stored path (text last) disk,
      (λ other n. lookup_not_stored path other (text last) disk n),
    )
last_is_left o attempt text s w m (file ∷ files) last disk =
    let path = path_of o attempt [] in
    let prefix = app_id_prefix-nil o.split_by_app_id file s in
    let (disk', q, found, others) =
      last_is_left o attempt text s w m files last (insert path (text file) disk) in
    (
      disk',
      write_all-written o attempt file _ disk _
            (har_to_file-written o attempt file disk (text file) [] (m file) prefix w)
          ∙ q,
      found,
      (λ other n. others other n ∙ lookup_not_stored path other (text file) disk n),
    )
