-- ===== src/Tshark/Bulk/Uri.antt =====
-- How `convert` cuts a URI into path and query.
use httshark.Base.{◌≡◌, refl, true, false, List, [], ◌∷◌, ◌++◌, arith, Bytes, codes}
use httshark.Go.Text.{contains, Lacks, split_of_Lacks, split_at_sep}
use httshark.Tshark.Bulk.Convert.{ok, split_uri}

abbrev mark : Bytes
mark = codes "?"

has_mark : (a s : Bytes) → contains (a ++ (b'?' ∷ s)) mark ≡ true
unfolding contains
has_mark [] s = refl
has_mark (c ∷ a) s = ground (arith, has_mark a s)

no_mark : (s : Bytes) → Lacks b'?' s → contains s mark ≡ false
unfolding contains
no_mark [] h = refl
no_mark (c ∷ s) h = ground (arith, no_mark s h.1)

-- A URI without a question mark is the path, whole, with an empty query.
split_uri_plain :
    (uri : Bytes) (rest : List Bytes) → Lacks b'?' uri → split_uri (uri ∷ rest) ≡ ok (uri, [])
unfolding split_uri
split_uri_plain uri rest h = rw (no_mark uri h)

-- A URI with one question mark is cut there, and the two parts with the mark between them are
-- the URI.
split_uri_query :
    (path query : Bytes) (rest : List Bytes)
    → Lacks b'?' path
    → Lacks b'?' query
    → split_uri ((path ++ (b'?' ∷ query)) ∷ rest) ≡ ok (path, query)
unfolding split_uri
split_uri_query path query rest hp hq =
    rw (has_mark path query, split_at_sep b'?' path query hp, split_of_Lacks b'?' query hq)

-- Of a URI with more question marks only the text between the first and the second becomes the
-- query: what follows the second is lost, whatever it is.
split_uri_loses :
    (path query lost : Bytes) (rest : List Bytes)
    → Lacks b'?' path
    → Lacks b'?' query
    → split_uri ((path ++ (b'?' ∷ (query ++ (b'?' ∷ lost)))) ∷ rest) ≡ ok (path, query)
unfolding split_uri
split_uri_loses path query lost rest hp hq = rw (
  has_mark path (query ++ (b'?' ∷ lost)),
  split_at_sep b'?' path (query ++ (b'?' ∷ lost)) hp,
  split_at_sep b'?' query lost hq,
)
