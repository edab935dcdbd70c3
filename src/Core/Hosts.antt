-- ===== src/Core/Hosts.antt =====
-- core/hosts.go: the hosts of the command line.
pub mod Print
mod Tests
use httshark.Base.{Option, none, some, List, [], ◌∷◌, Bytes, ℤ, pos}
use httshark.Go.Text.{split}
use httshark.Go.Space.{trim_space}
use httshark.Go.Number.{atoi}

pub record Host : Type 0 where
  pub ip : Bytes
  pub port : ℤ

-- `getHost`, where `none` is the call of `fatal`, which ends the process; `sections` are those of
-- `arg` at the colons, of which there is always one
unfoldable pub host_of_sections : Bytes → List Bytes → Option Host
host_of_sections arg [] = none
host_of_sections arg (ip ∷ []) = some (record { ip = arg; port = pos 80 })
host_of_sections arg (ip ∷ port ∷ more) = elim (atoi port) [
  | none ↦ none
  | some n ↦ some (record { ip = ip; port = n })
]

unfoldable pub get_host : Bytes → Option Host
unfolding host_of_sections
get_host arg = host_of_sections arg (split b':' arg)

abbrev pub add_host : Option Host → Option (List Host) → Option (List Host)
add_host none rest = none
add_host (some host) none = none
add_host (some host) (some hosts) = some (host ∷ hosts)

-- the loop of `init`
unfoldable pub get_all : List Bytes → Option (List Host)
get_all [] = some []
get_all (section ∷ sections) = add_host (get_host section) (get_all sections)

-- `ProduceHosts` and `GetHosts`
unfoldable pub produce_hosts : Bytes → Option (List Host)
unfolding get_all
produce_hosts arg = get_all (split b',' (trim_space arg))
