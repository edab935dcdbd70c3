-- ===== src/Dump/Filter.antt =====
-- httpdump/main.go: the text of the filter that `setDeviceFilter` sets (`getHostFilter`).
use httshark.Base.{
  ◌==◌, ◌≡◌, ◌≢◌, refl, Option, none, some, List, [], ◌∷◌, ◌++◌, map, Bytes, codes, if◌then◌else◌,
  length,
}
use httshark.Go.Text.{split-ne-nil, join}
use httshark.Go.Space.{trim_space}
use httshark.Go.Number.{itoa}
use httshark.Core.Hosts.{Host, get_all, add_host, get_host, produce_hosts}

-- `getHostFilter`
unfoldable pub host_filter : Host → Bytes
host_filter host =
    if length host.ip == 0
    then codes "tcp port " ++ itoa host.port
    else codes "tcp port " ++ itoa host.port ++ codes " and host " ++ host.ip

-- the text `filter` of `setDeviceFilter`
unfoldable pub device_filter : List Host → Bytes
unfolding host_filter
device_filter (host ∷ []) = host_filter host
device_filter hosts = codes "(" ++ join (codes ") or (") (map host_filter hosts) ++ codes ")"

add_host-ne-nil : (h : Option Host) (rest : Option (List Host)) → add_host h rest ≢ some []
add_host-ne-nil none rest q = absurd (cc)
add_host-ne-nil (some h) none q = absurd (cc)
add_host-ne-nil (some h) (some hosts) q = absurd (cc)

get_all-ne-nil : (sections : List Bytes) → sections ≢ [] → get_all sections ≢ some []
unfolding get_all
get_all-ne-nil [] n q = n refl
get_all-ne-nil (s ∷ sections) n q = add_host-ne-nil (get_host s) (get_all sections) q

-- The hosts of the configuration are never none at all, so that the filter is that of one host, or
-- joins those of several; it is never an empty pair of parentheses, which is no filter.
device_filter_lem :
    (arg : Bytes) (hosts : List Host)
    → produce_hosts arg ≡ some hosts
    → (host : Host) × (rest : List Host) × (hosts ≡ host ∷ rest)
      × (device_filter hosts ≡ (elim rest as (λ x. Bytes) [
        | [] ↦ host_filter host
        | next ∷ more ↦
            codes "(" ++ join (codes ") or (") (map host_filter (host ∷ next ∷ more)) ++ codes ")"
      ]))
unfolding produce_hosts device_filter
device_filter_lem arg [] q = absurd (get_all-ne-nil _ (split-ne-nil b',' (trim_space arg)) q)
device_filter_lem arg (host ∷ []) q = (host, [], refl, refl)
device_filter_lem arg (host ∷ next ∷ more) q = (host, next ∷ more, refl, refl)
