-- ===== src/Core/Hosts/Print.antt =====
-- Hosts in the form that core/hosts.go reads.
use httshark.Base.{
  ℕ, ◌<◌, ◌^◌, ◌≡◌, ◌≢◌, refl, ap, ◌∙◌, some, List, [], ◌∷◌, ◌++◌, map, arith, Bytes, codes, pos,
  All, All-append,
}
use httshark.Go.Text.{split, join, Lacks, split_of_Lacks, split_at_sep}
use httshark.Go.Space.{IsTrimmed, trim_space_of_IsTrimmed}
use httshark.Go.Number.{itoa, IsDigits, itoa-IsDigits, atoi-itoa}
use httshark.Core.Hosts.{Host, host_of_sections, get_host, get_all, produce_hosts}

-- an address and a port as numbers and text
abbrev pub Address : Type 0
Address = Bytes × ℕ

abbrev pub host : Address → Host
host a = record { ip = a.0; port = pos a.1 }

abbrev pub print : Address → Bytes
print a = a.0 ++ (b':' ∷ itoa (pos a.1))

-- The address is without colon and comma, and the port an `int`.
pub record IsPlain (a : Address) : Type 0 where
  pub no_colon : Lacks b':' a.0
  pub no_comma : Lacks b',' a.0
  pub small : a.1 < 2 ^ 63

digits_lack : (b : ℕ) (s : Bytes) → (b < b'0') × (b ≢ b':') → IsDigits s → Lacks b s
digits_lack b [] h a = tt
digits_lack b (c ∷ s) h (hc, a) = (ground arith, digits_lack b s h a)

digits_lack_colon : (s : Bytes) → IsDigits s → Lacks b':' s
digits_lack_colon [] a = tt
digits_lack_colon (c ∷ s) (hc, a) = (ground arith, digits_lack_colon s a)

get_host-print : (a : Address) → IsPlain a → get_host (print a) ≡ some (host a)
unfolding get_host
get_host-print a h =
    rw
      (
        split_at_sep b':' a.0 (itoa (pos a.1)) h.no_colon,
        split_of_Lacks b':' (itoa (pos a.1)) (digits_lack_colon _ (itoa-IsDigits a.1)),
        host_of_sections,
        atoi-itoa a.1 h.small,
      )
      refl

print-Lacks : (a : Address) → IsPlain a → Lacks b',' (print a)
print-Lacks a h =
    All-append (λ c. c ≢ b',') a.0 (b':' ∷ itoa (pos a.1)) h.no_comma
      (ground arith, digits_lack b',' _ (ground arith, ground arith) (itoa-IsDigits a.1))

split-join :
    (a : Address) (as' : List Address)
    → All IsPlain (a ∷ as')
    → split b',' (join (codes ",") (map print (a ∷ as'))) ≡ map print (a ∷ as')
unfolding join
split-join a [] (h, hs) = split_of_Lacks b',' (print a) (print-Lacks a h)
split-join a (b ∷ bs) (h, hs) =
    split_at_sep b',' (print a) (join (codes ",") (map print (b ∷ bs))) (print-Lacks a h)
    ∙ ap (λ ps. print a ∷ ps) (split-join b bs hs)

get_all-print :
    (as' : List Address) → All IsPlain as' → get_all (map print as') ≡ some (map host as')
unfolding get_all
get_all-print [] hs = refl
get_all-print (a ∷ as') (h, hs) = rw (get_host-print a h, get_all-print as' hs) refl

-- One or more addresses without colon and comma (so none of IPv6), each with a port below 2^63,
-- printed with a colon between them and joined by commas, are read back as they are, in their
-- order, if the text has no white space at its ends.
pub produce_hosts-print :
    (a : Address) (as' : List Address)
    → All IsPlain (a ∷ as')
    → IsTrimmed (join (codes ",") (map print (a ∷ as')))
    → produce_hosts (join (codes ",") (map print (a ∷ as'))) ≡ some (map host (a ∷ as'))
unfolding produce_hosts
produce_hosts-print a as' hs t =
    rw (trim_space_of_IsTrimmed _ t, split-join a as' hs) (get_all-print (a ∷ as') hs)
