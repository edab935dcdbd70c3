-- ===== src/Dump/Stream/Reassembly/Tests.antt =====
-- Ten bytes in three packets, the later one first.
use httshark.Base.{ℕ, ◌+◌, ◌%◌, List, [], ◌∷◌, pos}
use httshark.Dump.Packet.{Tcp}
use httshark.Dump.Window.Stream.{segment}
use httshark.Dump.Stream.{Meanwhile}
use httshark.Dump.Stream.Tests.{packet}
use httshark.Dump.Stream.Reassembly.{Event, arrives, acks}

abbrev letter : ℕ → ℕ
letter n = b'a' + n % 26

-- five bytes of the stream
abbrev five : ℕ → Tcp
five seq = record (packet (segment letter seq 5)) { seq = seq }

abbrev always_five : ℕ → ℕ
always_five seq = 5

-- the reader takes two packets while the call runs
abbrev meanwhile : Meanwhile
meanwhile = record { rounds = record { taken = 2; passed = pos 0 } ∷ []; taken = 2 }

abbrev events : List Event
events =
    arrives (five 70_005)
    ∷ arrives (five 70_000)
    ∷ arrives (five 70_005)
    ∷ acks 70_010 meanwhile
    ∷ []
