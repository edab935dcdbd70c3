-- ===== src/Core/Hosts/Tests.antt =====
-- Two hosts on the command line.
use httshark.Base.{◌≡◌, refl, some, [], ◌∷◌, map, arith, codes}
use httshark.Go.Text.{join}
use httshark.Go.Space.{IsTrimmed, first_space, last_space}
use httshark.Go.Number.{itoa}
use httshark.Core.Hosts.{produce_hosts}
use httshark.Core.Hosts.Print.{Address, host, print, IsPlain, produce_hosts-print}

abbrev web : Address
web = (codes "10.0.0.1", 8080)

abbrev all_hosts : Address
all_hosts = ([], 80)

web-IsPlain : IsPlain web
web-IsPlain = record { no_colon = ground arith; no_comma = ground arith; small = omega arith }

all_hosts-IsPlain : IsPlain all_hosts
all_hosts-IsPlain = record { no_colon = tt; no_comma = tt; small = omega arith }

arguments-IsTrimmed : IsTrimmed (join (codes ",") (map print (web ∷ all_hosts ∷ [])))
unfolding join itoa first_space last_space
arguments-IsTrimmed = record { front = refl; back = refl }

produce_hosts-print_example :
    produce_hosts (join (codes ",") (map print (web ∷ all_hosts ∷ [])))
    ≡ some (map host (web ∷ all_hosts ∷ []))
produce_hosts-print_example =
    produce_hosts-print web (all_hosts ∷ []) (web-IsPlain, (all_hosts-IsPlain, tt))
      arguments-IsTrimmed
