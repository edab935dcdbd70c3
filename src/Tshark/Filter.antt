-- ===== src/Tshark/Filter.antt =====
-- tshark/command.go: the capture filter (`getFilter`, `GetHostFilter`). The configuration's
-- `BPFType` is an argument; the hosts are those that core/hosts.go produces.
pub mod Total
use httshark.Base.{
  ℕ, ◌==◌, Bool, Option, none, some, List, [], ◌∷◌, ◌++◌, map, Bytes, codes, same, if◌then◌else◌,
  length,
}
use httshark.Go.Text.{join}
use httshark.Go.Number.{itoa}
use httshark.Core.Hosts.{Host}

-- `GetHostFilter`, where `none` is the panic on another type of filter
unfoldable pub get_host_filter : Bytes → Host → Option Bytes
get_host_filter bpf_type host =
    let port = itoa host.port in
    if length host.ip == 0
    then some (codes "port " ++ port)
    else if same bpf_type (codes "strict")
    then some (
        codes "(src port "
        ++ (port
            ++ (codes " && src host "
                ++ (host.ip
                    ++ (codes ") || (dst port "
                        ++ (port ++ (codes " && dst host " ++ (host.ip ++ codes ")"))))))))
    else if same bpf_type (codes "not-strict")
    then some (codes "(port " ++ (port ++ (codes " && host " ++ (host.ip ++ codes ")"))))
    else none

abbrev pub add_filter : Option Bytes → Option (List Bytes) → Option (List Bytes)
add_filter none rest = none
add_filter (some filter) none = none
add_filter (some filter) (some filters) = some (filter ∷ filters)

-- the loop over the hosts
unfoldable pub get_filters : Bytes → List Host → Option (List Bytes)
get_filters bpf_type [] = some []
get_filters bpf_type (host ∷ hosts) =
    add_filter (get_host_filter bpf_type host) (get_filters bpf_type hosts)

abbrev pub in_tcp : Bytes → Bytes
in_tcp filter = codes "tcp && (" ++ (filter ++ codes ")")

abbrev pub map_option : (List Bytes → Bytes) → Option (List Bytes) → Option Bytes
map_option f none = none
map_option f (some filters) = some (f filters)

abbrev pub map_filter : (Bytes → Bytes) → Option Bytes → Option Bytes
map_filter f none = none
map_filter f (some filter) = some (f filter)

-- `getFilter`, of the hosts
unfoldable pub get_filter : Bytes → List Host → Option Bytes
get_filter bpf_type (host ∷ []) = map_filter in_tcp (get_host_filter bpf_type host)
get_filter bpf_type hosts =
    map_option (λ filters. in_tcp (join (codes " || ") filters)) (get_filters bpf_type hosts)
