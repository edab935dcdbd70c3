-- ===== src/Tshark/Filter/Total.antt =====
-- When there is a filter, and what it joins.
use httshark.Base.{
  ◌≡◌, ◌≢◌, refl, none, some, List, [], ◌∷◌, arith, Bytes, codes, same, ◌⊎◌, true, inl, inr,
  Option-cases,
}
use httshark.Go.Text.{join}
use httshark.Core.Hosts.{Host}
use httshark.Tshark.Filter.{get_host_filter, get_filters, get_filter, in_tcp}

-- one of the two types that the command line allows
abbrev pub IsSupported : Bytes → Type 0
IsSupported bpf_type =
    (same bpf_type (codes "strict") ≡ true) ⊎ (same bpf_type (codes "not-strict") ≡ true)

-- The filters belong to the hosts, one by one.
abbrev pub AreFilters : Bytes → List Host → List Bytes → Type 0
AreFilters bpf_type [] fs = fs ≡ []
AreFilters bpf_type (h ∷ hs) [] = ⊥
AreFilters bpf_type (h ∷ hs) (f ∷ fs) =
    (get_host_filter bpf_type h ≡ some f) × AreFilters bpf_type hs fs

get_host_filter-ne-none :
    (bpf_type : Bytes) (h : Host) → IsSupported bpf_type → get_host_filter bpf_type h ≢ none
unfolding get_host_filter
get_host_filter-ne-none bpf_type h s q = ground arith

one_filter :
    (bpf_type : Bytes) (h : Host)
    → IsSupported bpf_type
    → (f : Bytes) × (get_host_filter bpf_type h ≡ some f)
one_filter bpf_type h s = elim (Option-cases (get_host_filter bpf_type h)) [
  | inl q ↦ absurd (get_host_filter-ne-none bpf_type h s q)
  | inr (f, q) ↦ (f, q)
]

all_filters :
    (bpf_type : Bytes) (hs : List Host)
    → IsSupported bpf_type
    → (fs : List Bytes) × (get_filters bpf_type hs ≡ some fs) × AreFilters bpf_type hs fs
unfolding get_filters
all_filters bpf_type [] s = ([], refl, refl)
all_filters bpf_type (h ∷ hs) s =
    let (f, q) = one_filter bpf_type h s in
    let (fs, qs, are) = all_filters bpf_type hs s in
    (f ∷ fs, rw (get_filters, q, qs) refl, (q, are))

-- With a supported type there is no panic: the filter is `tcp && (...)` around the filters of the
-- hosts, in their order, joined by ` || `, whether there is one host or there are several.
get_filter_total :
    (bpf_type : Bytes) (hs : List Host)
    → IsSupported bpf_type
    → (fs : List Bytes) × AreFilters bpf_type hs fs
      × (get_filter bpf_type hs ≡ some (in_tcp (join (codes " || ") fs)))
unfolding get_filter join get_filters
get_filter_total bpf_type [] s = ([], refl, refl)
get_filter_total bpf_type (h ∷ []) s =
    let (f, q) = one_filter bpf_type h s in (f ∷ [], (q, refl), rw q refl)
get_filter_total bpf_type (h ∷ i ∷ hs) s =
    let (fs, qs, are) = all_filters bpf_type (h ∷ i ∷ hs) s in (fs, are, rw qs refl)
