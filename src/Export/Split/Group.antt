-- ===== src/Export/Split/Group.antt =====
-- `getHarFiles` splits the entries by application.
use httshark.Base.{
  ◌≡◌, ◌≢◌, ◌↔◌, refl, sym, ap, ap₂, ◌∙◌, true, Option, none, some, List, [], ◌∷◌, ◌++◌, map, Bytes,
  same, same_iff, if◌then◌else◌, bytes_eq, lookup, insert, lookup-insert, DistinctKeys,
  insert-DistinctKeys, Has, append_assoc, inl, inr, Bool-cases,
}
use httshark.Har.{Entry, Har, get_app_id}
use httshark.Export.Split.{Groups, get_har_file, or_nil, group_from, get_har_files}

-- the entries of one application, in their order
abbrev pub with_app_id : Bytes → List Entry → List Entry
with_app_id id [] = []
with_app_id id (e ∷ es) =
    if same (get_app_id e) id then e ∷ with_app_id id es else with_app_id id es

pub with_app_id-append :
    (id : Bytes) (es fs : List Entry)
    → with_app_id id (es ++ fs) ≡ with_app_id id es ++ with_app_id id fs
with_app_id-append id [] fs = refl
with_app_id-append id (e ∷ es) fs =
    let rest = with_app_id-append id es fs in
    elim (Bool-cases (same (get_app_id e) id)) [
      | inl t ↦ rw t (ap (◌∷◌ e) rest)
      | inr f ↦ rw f rest
    ]

-- Go walks through a map in an order of its own, and comes to each entry once.
abbrev pub WalksGroups : (Groups → Groups) → Type 0
WalksGroups arrange =
    (m : Groups)
    → DistinctKeys m
    → DistinctKeys (arrange m) × ((k : Bytes) → lookup k (arrange m) ≡ lookup k m)

abbrev pub Distinct : List Bytes → Type 0
Distinct [] = Unit
Distinct (id ∷ ids) = ¬ (Has id ids) × Distinct ids

-- One file for each application that has an entry, with exactly its entries in their order.
pub record IsSplit (es : List Entry) (files : List Har) : Type 0 where
  pub ids : List Bytes
  pub distinct : Distinct ids
  pub file_of : files ≡ map (λ id. get_har_file (with_app_id id es)) ids
  pub used : (id : Bytes) → Has id ids ↔ (with_app_id id es ≢ [])

extend : Option (List Entry) → List Entry → Option (List Entry)
extend o [] = o
extend o (x ∷ xs) = some (or_nil o ++ (x ∷ xs))

extend_next :
    (o : Option (List Entry)) (x : Entry) (ys : List Entry)
    → extend (some (or_nil o ++ (x ∷ []))) ys ≡ extend o (x ∷ ys)
unfolding extend
extend_next o x [] = refl
extend_next o x (y ∷ ys) = ap some (append_assoc (or_nil o) (x ∷ []) (y ∷ ys))

lookup-group_from :
    (id : Bytes) (m : Groups) (es : List Entry)
    → lookup id (group_from m es) ≡ extend (lookup id m) (with_app_id id es)
unfolding group_from
lookup-group_from id m [] = unfold extend in refl
lookup-group_from id m (e ∷ es) =
    let k = get_app_id e in
    let v = or_nil (lookup k m) ++ (e ∷ []) in
    lookup-group_from id (insert k v m) es ∙ rw (lookup-insert k id v m) (step es)
  where
    step :
        (es : List Entry)
        → extend
            (if same (get_app_id e) id
              then some (or_nil (lookup (get_app_id e) m) ++ (e ∷ []))
              else lookup id m)
            (with_app_id id es)
          ≡ extend (lookup id m) (with_app_id id (e ∷ es))
    step es = elim (Bool-cases (same (get_app_id e) id)) [
      | inl t ↦
          rw (t, (same_iff (get_app_id e) id).0 t) (extend_next (lookup id m) e (with_app_id id es))
      | inr f ↦ rw f
    ]

group_from-DistinctKeys :
    (m : Groups) (es : List Entry) → DistinctKeys m → DistinctKeys (group_from m es)
unfolding group_from
group_from-DistinctKeys m [] d = d
group_from-DistinctKeys m (e ∷ es) d =
    let v = or_nil (lookup (get_app_id e) m) ++ (e ∷ []) in
    group_from-DistinctKeys (insert (get_app_id e) v m) es
      (insert-DistinctKeys (get_app_id e) v m d)

abbrev ids_of : Groups → List Bytes
ids_of = map (λ g. g.0)

Has-ids_of : (id : Bytes) (l : Groups) → Has id (ids_of l) ↔ (lookup id l ≢ none)
unfolding lookup
Has-ids_of id [] = (λ h. elim h [ ], λ h. absurd (h refl))
Has-ids_of id ((k, v) ∷ l) = elim (Bool-cases (same k id)) [
  | inl t ↦ rw t ((λ h q. absurd (cc)), λ h. inl ((same_iff k id).0 t))
  | inr f ↦ rw f (
    (λ h. elim h [
      | inl q ↦ let t = (same_iff k id).1 q in absurd (cc)
      | inr h' ↦ (Has-ids_of id l).0 h'
    ]),
    λ h. inr ((Has-ids_of id l).1 h),
  )
]

ids_of-Distinct : (l : Groups) → DistinctKeys l → Distinct (ids_of l)
ids_of-Distinct [] d = tt
ids_of-Distinct ((k, v) ∷ l) (dk, d) = ((λ h. (Has-ids_of k l).0 h dk), ids_of-Distinct l d)

-- A walk's groups are the entries of their applications.
files_of_walk :
    (es : List Entry) (l : Groups)
    → DistinctKeys l
    → ((k : Bytes) (v : List Entry) → lookup k l ≡ some v → v ≡ with_app_id k es)
    → map (λ g. get_har_file g.1) l ≡ map (λ id. get_har_file (with_app_id id es)) (ids_of l)
files_of_walk es [] d h = refl
files_of_walk es ((k, v) ∷ l) (dk, d) h =
    ap₂ ◌∷◌ (ap get_har_file (h k v (unfold lookup in rw ((same_iff k k).1 refl))))
      (files_of_walk es l d (λ j w q. h j w (later j w q)))
  where
    later : (j : Bytes) (w : List Entry) → lookup j l ≡ some w → lookup j ((k, v) ∷ l) ≡ some w
    later j w q = elim (Bool-cases (same k j)) [
      | inl t ↦ let q' : k ≡ j = (same_iff k j).0 t in absurd (cc)
      | inr f ↦ unfold lookup in rw f q
    ]

value_of_extend : (xs v : List Entry) → extend none xs ≡ some v → v ≡ xs
unfolding extend
value_of_extend [] v q = absurd (cc)
value_of_extend (x ∷ xs) v q = cc

extend_some : (xs : List Entry) → (extend none xs ≢ none) ↔ (xs ≢ [])
unfolding extend
extend_some [] = ((λ h. absurd (h refl)), λ h. absurd (h refl))
extend_some (x ∷ xs) = ((λ h q. absurd (cc)), λ h q. absurd (cc))

-- With `SplitByHost`, whatever the order of the walk, there is one file for each application that
-- has an entry and no other; it holds exactly that application's entries, in their order.
pub get_har_files-IsSplit :
    (arrange : Groups → Groups)
    → WalksGroups arrange
    → (es : List Entry) → IsSplit es (get_har_files true arrange es)
get_har_files-IsSplit arrange walks es =
    let (d, same_lookup) = walks (group_from [] es) (group_from-DistinctKeys [] es tt) in
    record {
      ids = ids_of (arrange (group_from [] es));
      distinct = ids_of-Distinct _ d;
      file_of =
          unfold get_har_files in
          files_of_walk es (arrange (group_from [] es)) d
            (λ k v q. value_of_extend (with_app_id k es) v (sym (found k same_lookup) ∙ q));
      used = λ id.
          let a = Has-ids_of id (arrange (group_from [] es)) in
          let b = extend_some (with_app_id id es) in
          let c = found id same_lookup in ((λ h. b.0 (rw (← c) (a.0 h))), λ h. a.1 (rw c (b.1 h)));
    }
  where
    found :
        (k : Bytes)
        → ((j : Bytes) → lookup j (arrange (group_from [] es)) ≡ lookup j (group_from [] es))
        → lookup k (arrange (group_from [] es)) ≡ extend none (with_app_id k es)
    found k h = h k ∙ lookup-group_from k [] es ∙ (unfold lookup in refl)
