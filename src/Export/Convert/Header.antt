-- ===== src/Export/Convert/Header.antt =====
-- Reading back the headers that the capture engines write.
use httshark.Base.{
  ℕ, ◌+◌, ◌≡◌, refl, ap, ap₂, ◌∙◌, none, some, List, [], ◌∷◌, ◌++◌, map, arith, Bytes, codes,
  length, take, drop, All,
}
use httshark.Go.Text.{index, Lacks}
use httshark.Go.Space.{trim_space, IsTrimmed, trim_space_of_IsTrimmed, trim_space_blank}
use httshark.Dump.Header.{convert_header, convert_headers}
use httshark.Export.Convert.{get_header, get_headers}

index_colon : (n v : Bytes) → Lacks b':' n → index (n ++ (b':' ∷ v)) (codes ":") ≡ some (length n)
unfolding index
index_colon [] v h = refl
index_colon (c ∷ n) v h = ground (arith, index_colon n v h.1)

no_colon : (n : Bytes) → Lacks b':' n → index n (codes ":") ≡ none
unfolding index
no_colon [] h = refl
no_colon (c ∷ n) h = ground (arith, no_colon n h.1)

take_front : (n v : Bytes) → take (length n) (n ++ v) ≡ n
take_front [] v = refl
take_front (c ∷ n) v = ap (λ t. c ∷ t) (take_front n v)

drop_front : (n v : Bytes) (c : ℕ) → drop (length n + 1) (n ++ (c ∷ v)) ≡ v
drop_front [] v c = refl
drop_front (d ∷ n) v c = ground (arith, drop_front n v c)

-- A line is cut at its first colon and both parts are trimmed; a line without a colon is a name
-- with an empty value.
get_header_lem :
    (n v : Bytes)
    → Lacks b':' n
    → (get_header (n ++ (b':' ∷ v)) ≡ record { name = trim_space n; value = trim_space v })
      × (get_header n ≡ record { name = n; value = [] })
unfolding get_header
get_header_lem n v h =
    (rw (index_colon n v h, take_front n (b':' ∷ v), drop_front n v b':'), rw (no_colon n h))

-- a header of net/http with no white space at the ends and no colon in its name
pub record IsHeader (h : Bytes × Bytes × List Bytes) : Type 0 where
  pub no_colon : Lacks b':' h.0
  pub name_trimmed : IsTrimmed h.0
  pub value_trimmed : IsTrimmed h.1

get_header-convert_header :
    (h : Bytes × Bytes × List Bytes)
    → IsHeader h
    → get_header (convert_header h) ≡ record { name = h.0; value = h.1 }
unfolding convert_header
get_header-convert_header (n, v, more) h =
    (get_header_lem n (b' ' ∷ v) h.no_colon).0
    ∙ rw (trim_space_of_IsTrimmed n h.name_trimmed, trim_space_blank v h.value_trimmed)

-- Headers whose names have no colon, and whose names and first values have no white space, of ASCII
-- or Unicode, at their ends: the exporter reads those that the httpdump engine writes as the names
-- that net/http gave, each with its first value, in the same order.
pub get_headers-convert_headers :
    (hs : List (Bytes × Bytes × List Bytes))
    → All IsHeader hs
    → get_headers (convert_headers hs) ≡ map (λ h. record { name = h.0; value = h.1 }) hs
unfolding get_headers convert_headers
get_headers-convert_headers [] a = refl
get_headers-convert_headers (h ∷ hs) (a, as') =
    ap₂ ◌∷◌ (get_header-convert_header h a) (get_headers-convert_headers hs as')
