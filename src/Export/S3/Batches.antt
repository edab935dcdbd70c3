-- ===== src/Export/S3/Batches.antt =====
-- The exporter and the client together: what `dumpTransactions` hands on, batch after batch, and
-- the ticks of the client between the batches and between the files of a batch.
use mathlib.Core.Path.{subst}
use httshark.Base.{
  ℕ, suc, ◌≡◌, ◌≢◌, refl, sym, ap, ap₂, ◌∙◌, true, some, List, [], ◌∷◌, ◌++◌, map, append-nil,
  append_assoc, map-append, Bytes, if◌then◌else◌, List-cases, inl, inr, Bool-cases, All, All-append,
  same, same_iff, Has, lookup, bytes_eq,
}
use httshark.Core.Entries.{HttpTransaction}
use httshark.Har.{Entry, Har, get_app_id}
use httshark.Export.Split.{Groups, get_har_file, get_har_files}
use httshark.Export.Split.Group.{
  with_app_id, with_app_id-append, WalksGroups, Distinct, get_har_files-IsSplit,
}
use httshark.Export.Collect.{Config, convert_all, files_of}
use httshark.Export.S3.{S3Client, new_s3_client, Outside, Attempt, Outcome, empty_app_id}
use httshark.Export.S3.Gathered.{
  held, brought, brought_by, Event, file, tick, brought_by_all, put_by_all, run, HasEntries,
  run_conserves,
}

-- what a call of `Process` meets, and the ticks of the client between it and what comes next
pub record Turn : Type 0 where
  pub attempt : Attempt
  pub ticks : List Attempt

-- a batch that `dumpTransactions` gets, with the order of its walk through the applications and the
-- turns of its files; or a tick of the client
pub data Export : Type 0 where
  dumped : List HttpTransaction → (Groups → Groups) → (ℕ → Turn) → Export
  ticked : Attempt → Export

-- the loop over `harFiles`, where the client is the first processor
abbrev pub file_events : (ℕ → Turn) → ℕ → List Har → List Event
file_events turns i [] = []
file_events turns i (f ∷ files) =
    file f (turns i).attempt ∷ (map tick (turns i).ticks ++ file_events turns (suc i) files)

-- the files of a batch, where Go walks through the applications in the order of `arrange`
abbrev pub files_by : Config → (Groups → Groups) → List HttpTransaction → List Har
files_by config arrange ts = files_of (record config { arrange = arrange }) ts

abbrev pub events_of : Config → List Export → List Event
events_of config [] = []
events_of config (dumped ts arrange turns ∷ es) =
    file_events turns 0 (files_by config arrange ts) ++ events_of config es
events_of config (ticked attempt ∷ es) = tick attempt ∷ events_of config es

-- Each walk comes to every application once.
abbrev pub IsWalked : Export → Type 0
IsWalked (dumped ts arrange turns) = WalksGroups arrange
IsWalked (ticked attempt) = Unit

-- the entries of all batches that are not ignored
abbrev pub entries_of : Config → List Export → List Entry
entries_of config [] = []
entries_of config (dumped ts arrange turns ∷ es) = (convert_all config ts).0 ++ entries_of config es
entries_of config (ticked attempt ∷ es) = entries_of config es

-- every entry of a group has the group's application
group_brings :
    (id j : Bytes) (es : List Entry)
    → brought id (with_app_id j es)
      ≡ (if same j id then map empty_app_id (with_app_id j es) else [])
group_brings id j [] = elim (Bool-cases (same j id)) [ inl t ↦ rw t | inr f ↦ rw f ]
group_brings id j (e ∷ es) =
    let rest = group_brings id j es in
    elim (Bool-cases (same (get_app_id e) j)) [
      | inl t ↦ rw (t, (same_iff (get_app_id e) j).0 t) refl
      | inr f ↦ rw f rest
    ]

brought-append :
    (id : Bytes) (es fs : List Event)
    → brought_by_all id (es ++ fs) ≡ brought_by_all id es ++ brought_by_all id fs
brought-append id [] fs = refl
brought-append id (e ∷ es) fs =
    ap (λ l. brought_by id e ++ l) (brought-append id es fs)
    ∙ sym (append_assoc (brought_by id e) (brought_by_all id es) (brought_by_all id fs))

ticks_bring_nothing : (id : Bytes) (ticks : List Attempt) → brought_by_all id (map tick ticks) ≡ []
ticks_bring_nothing id [] = refl
ticks_bring_nothing id (t ∷ ticks) = ticks_bring_nothing id ticks

-- The ticks after a file change nothing of what comes.
brought_behind :
    (id : Bytes) (ticks : List Attempt) (es : List Event)
    → brought_by_all id (map tick ticks ++ es) ≡ brought_by_all id es
brought_behind id ticks es =
    brought-append id (map tick ticks) es
    ∙ ap (λ l. l ++ brought_by_all id es) (ticks_bring_nothing id ticks)

ticks-HasEntries : (ticks : List Attempt) → All HasEntries (map tick ticks)
ticks-HasEntries [] = tt
ticks-HasEntries (t ∷ ticks) = (tt, ticks-HasEntries ticks)

module _ (turns : ℕ → Turn) (es : List Entry) where
  group_files : List Bytes → List Har
  group_files ids = map (λ id. get_har_file (with_app_id id es)) ids

  files-HasEntries :
      (i : ℕ) (ids : List Bytes)
      → ((id : Bytes) → Has id ids → with_app_id id es ≢ [])
      → All HasEntries (file_events turns i (group_files ids))
  unfolding group_files get_har_file
  files-HasEntries i [] used = tt
  files-HasEntries i (id ∷ ids) used = (
    used id (inl refl),
    All-append HasEntries (map tick (turns i).ticks) _ (ticks-HasEntries (turns i).ticks)
        (files-HasEntries (suc i) ids (λ j h. used j (inr h))),
  )

  others_bring_nothing :
      (id : Bytes) (i : ℕ) (ids : List Bytes)
      → (Has id ids → ⊥)
      → brought_by_all id (file_events turns i (group_files ids)) ≡ []
  unfolding group_files get_har_file
  others_bring_nothing id i [] ne = refl
  others_bring_nothing id i (j ∷ ids) ne =
      let rest =
        brought_behind id (turns i).ticks (file_events turns (suc i) (group_files ids))
        ∙ others_bring_nothing id (suc i) ids (λ h. ne (inr h)) in
      elim (Bool-cases (same j id)) [
        | inl t ↦ absurd (ne (inl ((same_iff j id).0 t)))
        | inr f ↦ rw (group_brings id j es, f) rest
      ]

  files_bring :
      (id : Bytes) (i : ℕ) (ids : List Bytes)
      → Distinct ids
      → Has id ids
      → brought_by_all id (file_events turns i (group_files ids))
        ≡ map empty_app_id (with_app_id id es)
  unfolding group_files get_har_file
  files_bring id i [] d h = absurd h
  files_bring id i (j ∷ ids) (dj, d) (inl q) =
      let none_left =
        brought_behind id (turns i).ticks (file_events turns (suc i) (group_files ids))
        ∙ others_bring_nothing id (suc i) ids (λ h. dj (subst (λ k. Has k ids) (sym q) h)) in
      let same_id : same j id ≡ true = (same_iff j id).1 q in
      rw (group_brings id j es, same_id, none_left)
        (append-nil _ ∙ ap (λ k. map empty_app_id (with_app_id k es)) q)
  files_bring id i (j ∷ ids) (dj, d) (inr h) =
      let rest =
        brought_behind id (turns i).ticks (file_events turns (suc i) (group_files ids))
        ∙ files_bring id (suc i) ids d h in
      elim (Bool-cases (same j id)) [
        | inl t ↦ absurd (dj (subst (λ k. Has k ids) (sym ((same_iff j id).0 t)) h))
        | inr f ↦ rw (group_brings id j es, f) rest
      ]

-- The order of the walk does not change the entries.
convert_all_arrange :
    (config : Config) (arrange : Groups → Groups) (ts : List HttpTransaction)
    → convert_all (record config { arrange = arrange }) ts ≡ convert_all config ts
unfolding convert_all
convert_all_arrange config arrange [] = refl
convert_all_arrange config arrange (t ∷ ts) = rw (convert_all_arrange config arrange ts) refl

files_by_split :
    (config : Config) (arrange : Groups → Groups) (ts : List HttpTransaction)
    → config.split_by_host ≡ true
    → files_by config arrange ts ≡ get_har_files true arrange (convert_all config ts).0
unfolding files_of
files_by_split config arrange ts split =
    ap (λ b. get_har_files b arrange ((convert_all (record config { arrange = arrange }) ts).0))
      split
    ∙ ap (λ (out : List Entry × ℕ). get_har_files true arrange (out.0))
        (convert_all_arrange config arrange ts)

-- A batch: each file has an entry, and an application gets its entries.
batch_lem :
    (config : Config) (arrange : Groups → Groups) (ts : List HttpTransaction) (turns : ℕ → Turn)
    → config.split_by_host ≡ true
    → WalksGroups arrange
    → All HasEntries (file_events turns 0 (files_by config arrange ts))
      × ((id : Bytes)
          → brought_by_all id (file_events turns 0 (files_by config arrange ts))
            ≡ map empty_app_id (with_app_id id (convert_all config ts).0))
batch_lem config arrange ts turns split walks =
    let es = (convert_all config ts).0 in
    let h = get_har_files-IsSplit arrange walks es in
    rw (files_by_split config arrange ts split, h.file_of)
      (
        unfold group_files in files-HasEntries turns es 0 h.ids (λ id. (h.used id).0),
        λ id. elim (List-cases (with_app_id id es)) [
          | inl n ↦ rw n (
              unfold group_files in
              others_bring_nothing turns es id 0 h.ids (λ m. (h.used id).0 m n))
          | inr (e, rest, q) ↦
              unfold group_files in
              files_bring turns es id 0 h.ids h.distinct ((h.used id).1 (λ n. ne e rest q n))
        ],
      )
  where
    ne : {l : List Entry} → (e : Entry) (rest : List Entry) → l ≡ e ∷ rest → l ≡ [] → ⊥
    ne e rest q n = cc

events_lem :
    (config : Config) (exports : List Export)
    → config.split_by_host ≡ true
    → All IsWalked exports
    → All HasEntries (events_of config exports)
      × ((id : Bytes)
          → brought_by_all id (events_of config exports)
            ≡ map empty_app_id (with_app_id id (entries_of config exports)))
events_lem config [] split walks = (tt, λ id. refl)
events_lem config (dumped ts arrange turns ∷ es) split (walk, walks) =
    let (has, brings) = batch_lem config arrange ts turns split walk in
    let (has', brings') = events_lem config es split walks in
    let first = file_events turns 0 (files_by config arrange ts) in
    (
      All-append HasEntries first (events_of config es) has has',
      λ id.
          brought-append id first (events_of config es)
          ∙ ap₂ ◌++◌ (brings id) (brings' id)
          ∙ sym (map-append empty_app_id _ _)
          ∙ ap (map empty_app_id)
              (sym (with_app_id-append id (convert_all config ts).0 (entries_of config es))),
    )
events_lem config (ticked attempt ∷ es) split (walk, walks) =
    let (has, brings) = events_lem config es split walks in ((tt, has), brings)

-- With `SplitByHost`, whatever the batches, the ticks between them and between their files, the
-- order of each walk and the failures of exports: the client never panics, and of each application what has been put into the
-- bucket, in the order of the objects, followed by what the client holds, are the entries that the
-- batches brought of that application and that are not ignored, with empty identifiers, each once
-- and in the order of the transactions.
pub exports_arrive :
    (o : Outside) (config : Config) (exports : List Export)
    → config.split_by_host ≡ true
    → All IsWalked exports
    → (s : S3Client) × (outcomes : List Outcome) × (run o (events_of config exports) new_s3_client
        ≡ some (s, outcomes))
      × ((id : Bytes)
          → put_by_all id outcomes ++ held id s.data_holder
            ≡ map empty_app_id (with_app_id id (entries_of config exports)))
exports_arrive o config exports split walks =
    let (has, brings) = events_lem config exports split walks in
    let (s, outcomes, runs, all) = run_conserves o (events_of config exports) has new_s3_client in
    (s, outcomes, runs, λ id. all id ∙ (unfold lookup in brings id))
