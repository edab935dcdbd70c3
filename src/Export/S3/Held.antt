-- ===== src/Export/S3/Held.antt =====
-- What `Process` holds, how it leaves the file, and when it panics.
use httshark.Base.{
  ℕ, ◌≤◌, ◌≡◌, ◌≢◌, ◌↔◌, refl, true, false, none, some, List, [], ◌∷◌, map, codes, pos, ltb_ℤ,
  arith, List-cases, inl, inr, ◌⊎◌, Bool-cases, All,
}
use mathlib.Core.Path.{subst}
use httshark.Go.Number.{itoa}
use httshark.Core.Entries.{HttpTransaction}
use httshark.Har.{Entry, Har, get_app_id, empty, to_string}
use httshark.Export.Convert.{convert}
use httshark.Export.Split.{should_dump_entry, get_har_file, get_har_files}
use httshark.Export.Collect.{Config, convert_all, files_of}
use httshark.Export.S3.{
  Reason, size, S3Client, Outside, Attempt, Outcome, nothing, pushed, marshal_failed,
  compress_failed, push_failed, get_num_of_entries, empty_app_id, hold, export_full, process,
}
use httshark.Export.S3.Failure.{IsExport, do_export_lem}

-- The export was tried and failed.
abbrev pub HasFailed : Outcome → Type 0
HasFailed nothing = ⊥
HasFailed (pushed file_name body groups) = ⊥
HasFailed marshal_failed = Unit
HasFailed compress_failed = Unit
HasFailed push_failed = Unit

abbrev IsBounded : ℕ → S3Client × Outcome → Type 0
IsBounded m (s, outcome) = HasFailed outcome ⊎ (get_num_of_entries s.data_holder ≤ m)

IsBounded-do_export :
    (o : Outside) (n m : ℕ) (reason : Reason) (attempt : Attempt) (s : S3Client)
    (r : S3Client × Outcome)
    → n ≢ 0
    → IsExport o n reason attempt s r
    → IsBounded m r
unfolding get_num_of_entries
IsBounded-do_export o n m reason attempt s (s', nothing) p (z, q) = absurd (p z)
IsBounded-do_export o n m reason attempt s (s', pushed f body groups) p (z, t, b, q, f', e) =
    inr (rw e (omega arith))
IsBounded-do_export o n m reason attempt s (s', marshal_failed) p h = inl tt
IsBounded-do_export o n m reason attempt s (s', compress_failed) p h = inl tt
IsBounded-do_export o n m reason attempt s (s', push_failed) p h = inl tt

IsBounded-export_full :
    (o : Outside) (attempt : Attempt) (s : S3Client) (m : ℕ)
    → o.max_num_of_entries ≡ pos m
    → IsBounded m (export_full o attempt s)
unfolding export_full
IsBounded-export_full o attempt s m q =
    let n : ℕ = get_num_of_entries s.data_holder in
    elim (Bool-cases (ltb_ℤ o.max_num_of_entries (pos n))) [
      | inl t ↦
          let above : ltb_ℤ (pos m) (pos n) ≡ true = rw q at t in
          rw t (
            IsBounded-do_export o n m size attempt s _ (λ z. absurd (ground arith))
              (do_export_lem o n size attempt s))
      | inr f ↦ let below : ltb_ℤ (pos m) (pos n) ≡ false = rw q at f in rw f (inr (ground arith))
    ]

process-cons :
    (o : Outside) (attempt : Attempt) (file : Har) (s : S3Client) (e : Entry) (es : List Entry)
    → file.log.entries ≡ e ∷ es
    → (r : S3Client × Outcome) × (file' : Har) × (r
        ≡ export_full o attempt (hold (get_app_id e) (map empty_app_id (e ∷ es)) s))
      × (file'.log.entries ≡ map empty_app_id (e ∷ es))
      × (process o attempt file s ≡ some (r.0, file', r.1))
unfolding process
process-cons o attempt file s e es q = rw q (_, _, refl, refl, refl)

-- `Process` panics on a file without entries and on no other one.
pub process-none :
    (o : Outside) (attempt : Attempt) (file : Har) (s : S3Client)
    → (process o attempt file s ≡ none) ↔ (file.log.entries ≡ [])
process-none o attempt file s = (
  λ p. elim (List-cases file.log.entries) [
    | inl n ↦ n
    | inr (e, es, q) ↦
        let (r, file', _, _, done) = process-cons o attempt file s e es q in absurd (cc)
  ],
  λ n. unfold process in rw n refl,
)

emptied_lem : (es : List Entry) → All (λ e. get_app_id e ≡ codes "_0") (map empty_app_id es)
unfolding empty_app_id get_app_id empty to_string itoa
emptied_lem [] = tt
emptied_lem (e ∷ es) = (refl, emptied_lem es)

abbrev IsProcessed : ℕ → S3Client × Har × Outcome → Type 0
IsProcessed m (s, file, outcome) =
    (HasFailed outcome ⊎ (get_num_of_entries s.data_holder ≤ m))
    × All (λ e. get_app_id e ≡ codes "_0") file.log.entries

-- After a call of `Process` that does not panic, the client holds at most the configured number of
-- entries, or the export that the call tried has failed; and each entry of the file, which the
-- next processors and later writers read, gives the application identifier `_0`.
pub process_lem :
    (o : Outside) (attempt : Attempt) (file file' : Har) (s s' : S3Client) (outcome : Outcome)
    (m : ℕ)
    → o.max_num_of_entries ≡ pos m
    → process o attempt file s ≡ some (s', file', outcome)
    → (HasFailed outcome ⊎ (get_num_of_entries s'.data_holder ≤ m))
      × All (λ e. get_app_id e ≡ codes "_0") file'.log.entries
process_lem o attempt file file' s s' outcome m q p = elim (List-cases file.log.entries) [
  | inl n ↦ let panicked = (process-none o attempt file s).1 n in absurd (cc)
  | inr (e, es, is_cons) ↦
      let (r, left, full, emptied, called) = process-cons o attempt file s e es is_cons in
      let same_result : (r.0, left, r.1) ≡ (s', file', outcome) = cc (called, p) in
      subst (IsProcessed m) same_result
        (rw full (IsBounded-export_full o attempt _ m q), rw emptied (emptied_lem (e ∷ es)))
]

convert_all_ignored :
    (config : Config) (transactions : List HttpTransaction)
    → All
        (λ t.
          should_dump_entry config.ignore_health_check
            (convert config.outside config.content_types_to_keep t)
          ≡ false)
        transactions
    → (convert_all config transactions).0 ≡ []
unfolding convert_all
convert_all_ignored config [] h = refl
convert_all_ignored config (t ∷ ts) (i, h) = rw i (convert_all_ignored config ts h)

-- Where `SplitByHost` is not set and every transaction of a batch is ignored, the batch is handed
-- on as one file, on which the S3 client panics.
pub ignored_batch_panics :
    (config : Config) (o : Outside) (attempt : Attempt) (s : S3Client)
    (transactions : List HttpTransaction)
    → config.split_by_host ≡ false
    → All
        (λ t.
          should_dump_entry config.ignore_health_check
            (convert config.outside config.content_types_to_keep t)
          ≡ false)
        transactions
    → (file : Har) × (files_of config transactions ≡ file ∷ []) × (process o attempt file s ≡ none)
unfolding files_of get_har_files get_har_file
ignored_batch_panics config o attempt s transactions q h =
    let file = get_har_file [] in
    (
      file,
      rw (convert_all_ignored config transactions h, q) refl,
      (process-none o attempt file s).1 refl,
    )
