-- ===== src/Export/S3/Failure.antt =====
-- When an export fails, and what it keeps.
use httshark.Base.{
  ℕ, zero, suc, ◌==◌, ◌≡◌, ◌≢◌, refl, true, false, Option, none, some, [], Bytes, if◌then◌else◌,
  arith, Option-cases, inl, inr, Bool-cases,
}
use httshark.Export.S3.{
  Reason, S3Client, Outside, Attempt, Outcome, nothing, pushed, marshal_failed, compress_failed,
  push_failed, get_file_name, push_to_s3, export_data, do_export,
}

-- The bytes to put: what `json.Marshal` gives, packed where that is configured.
unfoldable pub object_of : Outside → S3Client → Option Bytes
object_of o s = elim (o.marshal s.data_holder) as (λ x. Option Bytes) [
  | none ↦ none
  | some body ↦ if o.should_compress then o.gzip body else some body
]

-- What `do_export` promises of the client before, the client after and the outcome.
abbrev pub IsExport : Outside → ℕ → Reason → Attempt → S3Client → S3Client × Outcome → Type 0
IsExport o n reason attempt s (s', nothing) = (n ≡ 0) × (s' ≡ s)
IsExport o n reason attempt s (s', pushed file_name body exported) =
    (n ≢ 0)
    × (attempt.taken ≡ true)
    × (object_of o s ≡ some body)
    × (exported ≡ s.data_holder)
    × (file_name ≡ get_file_name o n reason attempt.now)
    × (s'.data_holder ≡ [])
IsExport o n reason attempt s (s', marshal_failed) =
    (n ≢ 0) × (o.marshal s.data_holder ≡ none) × (s' ≡ s)
IsExport o n reason attempt s (s', compress_failed) =
    (n ≢ 0) × (o.marshal s.data_holder ≢ none) × (object_of o s ≡ none) × (s' ≡ s)
IsExport o n reason attempt s (s', push_failed) =
    (n ≢ 0) × (object_of o s ≢ none) × (attempt.taken ≡ false) × (s' ≡ s)

IsExport-body :
    (o : Outside) (k : ℕ) (reason : Reason) (attempt : Attempt) (s : S3Client) (body : Bytes)
    → o.marshal s.data_holder ≡ some body
    → IsExport o
        (suc k)
        reason
        attempt
        s
        (export_data o attempt (get_file_name o (suc k) reason attempt.now) body s)
unfolding export_data push_to_s3 object_of
IsExport-body o k reason attempt s body m = elim (Bool-cases o.should_compress) [
  | inr f ↦ ground arith
  | inl t ↦ elim (Option-cases (o.gzip body)) [
    | inl g ↦ ground arith
    | inr (packed, g) ↦ ground arith
  ]
]

-- An export of no entries does nothing. Any other one puts one object, named as configured, with
-- all that is held, and holds nothing afterwards; or it fails at the first of the three steps that
-- fails, `json.Marshal`, gzip where it is configured, and the service, and then the client is as
-- before.
pub do_export_lem :
    (o : Outside) (n : ℕ) (reason : Reason) (attempt : Attempt) (s : S3Client)
    → IsExport o n reason attempt s (do_export o n reason attempt s)
unfolding do_export
do_export_lem o zero reason attempt s = (refl, refl)
do_export_lem o (suc k) reason attempt s =
    let positive : (suc k == 0) ≡ false = ground arith in
    elim (Option-cases (o.marshal s.data_holder)) [
      | inl m ↦ rw (positive, m) ((λ q. absurd (omega arith)), m, refl)
      | inr (body, m) ↦ rw (positive, m) (IsExport-body o k reason attempt s body m)
    ]
