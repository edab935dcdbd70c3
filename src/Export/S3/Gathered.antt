-- ===== src/Export/S3/Gathered.antt =====
-- What comes to the client is held or has been put, in the order in which it came.
use httshark.Base.{
  ℕ, ◌≡◌, ◌≢◌, refl, sym, ap, ◌∙◌, Option, none, some, List, [], ◌∷◌, ◌++◌, map, append-nil,
  append_assoc, Bytes, pos, ltb_ℤ, if◌then◌else◌, arith, List-cases, inl, inr, Bool-cases, bytes_eq,
  lookup, lookup-insert, All, same, same_iff,
}
use httshark.Har.{Entry, Har, get_app_id}
use httshark.Export.Split.{Groups, or_nil}
use httshark.Export.S3.{
  Reason, size, time, S3Client, Outside, Attempt, Outcome, nothing, pushed, marshal_failed,
  compress_failed, push_failed, get_num_of_entries, do_export_wrapper, empty_app_id, hold,
  export_full, process,
}
use httshark.Export.S3.Failure.{IsExport, do_export_lem}

-- what is held of an application
abbrev pub held : Bytes → Groups → List Entry
held app_id groups = or_nil (lookup app_id groups)

-- what an outcome has put of an application
abbrev pub put_of : Bytes → Outcome → List Entry
put_of app_id nothing = []
put_of app_id (pushed file_name body groups) = held app_id groups
put_of app_id marshal_failed = []
put_of app_id compress_failed = []
put_of app_id push_failed = []

-- what a file brings for an application: all or nothing
abbrev pub brought : Bytes → List Entry → List Entry
brought app_id [] = []
brought app_id (entry ∷ entries) =
    if same (get_app_id entry) app_id then map empty_app_id (entry ∷ entries) else []

-- a call of `Process`, or a tick
pub data Event : Type 0 where
  file : Har → Attempt → Event
  tick : Attempt → Event

abbrev pub brought_by : Bytes → Event → List Entry
brought_by app_id (file har attempt) = brought app_id har.log.entries
brought_by app_id (tick attempt) = []

abbrev pub brought_by_all : Bytes → List Event → List Entry
brought_by_all app_id [] = []
brought_by_all app_id (e ∷ es) = brought_by app_id e ++ brought_by_all app_id es

abbrev pub put_by_all : Bytes → List Outcome → List Entry
put_by_all app_id [] = []
put_by_all app_id (o ∷ os) = put_of app_id o ++ put_by_all app_id os

-- The events one after the other, from a client on; `none` is a panic.
module _ (o : Outside) where
  unfoldable pub on_event : Event → S3Client → Option (S3Client × Outcome)
  on_event (file har attempt) s = elim (process o attempt har s) [
    | none ↦ none
    | some (s', har', outcome) ↦ some (s', outcome)
  ]
  on_event (tick attempt) s = some (do_export_wrapper o time attempt s)

  unfoldable pub run : List Event → S3Client → Option (S3Client × List Outcome)
  run [] s = some (s, [])
  run (e ∷ es) s = elim (on_event e s) [
    | none ↦ none
    | some (s', outcome) ↦ elim (run es s') [
      | none ↦ none
      | some (s'', outcomes) ↦ some (s'', outcome ∷ outcomes)
    ]
  ]

-- Of each application, what is put now and held afterwards
abbrev put_or_held : Bytes → S3Client × Outcome → List Entry
put_or_held app_id (s, outcome) = put_of app_id outcome ++ held app_id s.data_holder

put_or_held-IsExport :
    (o : Outside) (n : ℕ) (reason : Reason) (attempt : Attempt) (s : S3Client) (app_id : Bytes)
    (r : S3Client × Outcome)
    → IsExport o n reason attempt s r
    → put_or_held app_id r ≡ held app_id s.data_holder
unfolding lookup
put_or_held-IsExport o n reason attempt s app_id (s', nothing) (z, q) = rw q refl
put_or_held-IsExport o n reason attempt s app_id (s', pushed f body groups) (z, t, b, q, m, e) =
    rw (q, e) (append-nil _)
put_or_held-IsExport o n reason attempt s app_id (s', marshal_failed) (z, m, q) = rw q refl
put_or_held-IsExport o n reason attempt s app_id (s', compress_failed) (z, m, c, q) = rw q refl
put_or_held-IsExport o n reason attempt s app_id (s', push_failed) (z, c, t, q) = rw q refl

put_or_held-export_full :
    (o : Outside) (attempt : Attempt) (s : S3Client) (app_id : Bytes)
    → put_or_held app_id (export_full o attempt s) ≡ held app_id s.data_holder
unfolding export_full
put_or_held-export_full o attempt s app_id =
    elim (Bool-cases (ltb_ℤ o.max_num_of_entries (pos (get_num_of_entries s.data_holder)))) [
      | inl t ↦
          rw t (put_or_held-IsExport o _ size attempt s app_id _ (do_export_lem o _ size attempt s))
      | inr f ↦ rw f refl
    ]

held-hold :
    (id app_id : Bytes) (entries : List Entry) (s : S3Client)
    → held app_id (hold id entries s).data_holder
      ≡ held app_id s.data_holder ++ (if same id app_id then entries else [])
unfolding hold
held-hold id app_id entries s =
    rw (lookup-insert id app_id _ s.data_holder) (elim (Bool-cases (same id app_id)) [
      | inl t ↦ let q : id ≡ app_id = (same_iff id app_id).0 t in rw (t, q) refl
      | inr f ↦ rw f (sym (append-nil _))
    ])

-- The file of a call of `Process` has an entry.
abbrev pub HasEntries : Event → Type 0
HasEntries (file har attempt) = har.log.entries ≢ []
HasEntries (tick attempt) = Unit

on_event-HasEntries :
    (o : Outside) (e : Event) (s : S3Client)
    → HasEntries e
    → (r : S3Client × Outcome) × (on_event o e s ≡ some r)
      × ((app_id : Bytes) → put_or_held app_id r ≡ held app_id s.data_holder ++ brought_by app_id e)
unfolding on_event process do_export_wrapper
on_event-HasEntries o (tick attempt) s h = (
  _,
  refl,
  λ app_id.
      put_or_held-IsExport o _ time attempt s app_id _ (do_export_lem o _ time attempt s)
      ∙ sym (append-nil _),
)
on_event-HasEntries o (file har attempt) s h = elim (List-cases har.log.entries) [
  | inl n ↦ absurd (h n)
  | inr (entry, entries, q) ↦
      let app_id = get_app_id entry in
      let gathered = hold app_id (map empty_app_id (entry ∷ entries)) s in
      rw q (
        export_full o attempt gathered,
        refl,
        λ id.
            put_or_held-export_full o attempt gathered id
            ∙ held-hold app_id id (map empty_app_id (entry ∷ entries)) s,
      )
]

run-cons :
    (o : Outside) (e : Event) (es : List Event) (s s₁ s₂ : S3Client) (outcome : Outcome)
    (outcomes : List Outcome)
    → on_event o e s ≡ some (s₁, outcome)
    → run o es s₁ ≡ some (s₂, outcomes)
    → run o (e ∷ es) s ≡ some (s₂, outcome ∷ outcomes)
unfolding run
run-cons o e es s s₁ s₂ outcome outcomes q q' = ground arith

-- However files, each with an entry, and ticks follow one another, no call panics; and of each
-- application what has been put, in the order of the objects, followed by what is held, is what
-- was held at first followed by the entries of its files, with empty identifiers and in the order
-- in which they came. No failure of an export loses or doubles an entry.
pub run_conserves :
    (o : Outside) (events : List Event)
    → All HasEntries events
    → (s : S3Client)
    → (s' : S3Client) × (outcomes : List Outcome) × (run o events s ≡ some (s', outcomes))
      × ((app_id : Bytes)
          → put_by_all app_id outcomes ++ held app_id s'.data_holder
            ≡ held app_id s.data_holder ++ brought_by_all app_id events)
unfolding run
run_conserves o [] h s = (s, [], refl, λ app_id. sym (append-nil _))
run_conserves o (e ∷ es) (h, hs) s =
    let ((s₁, outcome), q, first) = on_event-HasEntries o e s h in
    let (s', outcomes, q', rest) = run_conserves o es hs s₁ in
    (
      s',
      outcome ∷ outcomes,
      run-cons o e es s s₁ s' outcome outcomes q q',
      λ app_id.
          append_assoc (put_of app_id outcome) (put_by_all app_id outcomes) _
          ∙ ap (λ x. put_of app_id outcome ++ x) (rest app_id)
          ∙ sym (append_assoc (put_of app_id outcome) (held app_id s₁.data_holder) _)
          ∙ ap (λ x. x ++ brought_by_all app_id es) (first app_id)
          ∙ append_assoc (held app_id s.data_holder) (brought_by app_id e) _,
    )
