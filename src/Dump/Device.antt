-- ===== src/Dump/Device.antt =====
-- `openSingleDevice` of httpdump/main.go. What pcap and gopacket do is an argument.
use httshark.Base.{◌≡◌, refl, Option, none, some, Bytes, codes, ◌⊎◌, inl, inr}

-- what a panic carries; an `error` by its text
pub data PanicValue : Type 0 where
  string_value error_value : Bytes → PanicValue
  other_value : PanicValue

-- a call that returns, returns an error, or panics
pub data Call (A : Type 0) : Type 0 where
  gives : A → Call A
  fails : Bytes → Call A
  panics : PanicValue → Call A

-- the results `localPackets` and `err`
pub record Opened (Packets : Type 0) : Type 0 where
  pub local_packets : Option Packets
  pub err : Option Bytes

module _ (Handle Packets : Type 0) where
  -- the deferred function, where `recover` gives a value
  recovered : PanicValue → Opened Packets
  recovered (string_value x) = record { local_packets = none; err = some x }
  recovered (error_value x) = record { local_packets = none; err = some x }
  recovered other_value = record { local_packets = none; err = some (codes "unknown panic") }

  -- `listenOneSource`, which does not return an error
  listened : Call Packets → Opened Packets
  unfolding recovered
  listened (gives packets) = record { local_packets = some packets; err = none }
  listened (fails e) = record { local_packets = none; err = some e }
  listened (panics x) = recovered x

  -- The error of `setDeviceFilter` stays in a variable of its own, which is dropped.
  filtered : Call (Unit {0}) → Call Packets → Opened Packets
  unfolding listened
  filtered (gives u) listen = listened listen
  filtered (fails e) listen = listened listen
  filtered (panics x) listen = recovered x

  -- `openSingleDevice`
  open_single_device :
      Call Handle → (Handle → Call (Unit {0})) → (Handle → Call Packets) → Opened Packets
  unfolding filtered
  open_single_device (gives handle) set_filter listen = filtered (set_filter handle) (listen handle)
  open_single_device (fails e) set_filter listen = record { local_packets = none; err = some e }
  open_single_device (panics x) set_filter listen = recovered x

  -- There are packets or there is an error, and not both.
  abbrev IsEither : Opened Packets → Type 0
  IsEither o =
      ((packets : Packets) × (o.local_packets ≡ some packets) × (o.err ≡ none))
      ⊎ ((e : Bytes) × (o.local_packets ≡ none) × (o.err ≡ some e))

  recovered-IsEither : (x : PanicValue) → IsEither (recovered x)
  unfolding recovered
  recovered-IsEither (string_value x) = inr (x, refl, refl)
  recovered-IsEither (error_value x) = inr (x, refl, refl)
  recovered-IsEither other_value = inr (codes "unknown panic", refl, refl)

  listened-IsEither : (listen : Call Packets) → IsEither (listened listen)
  unfolding listened
  listened-IsEither (gives packets) = inl (packets, refl, refl)
  listened-IsEither (fails e) = inr (e, refl, refl)
  listened-IsEither (panics x) = recovered-IsEither x

  filtered-IsEither :
      (filter : Call (Unit {0})) (listen : Call Packets) → IsEither (filtered filter listen)
  unfolding filtered
  filtered-IsEither (gives u) listen = listened-IsEither listen
  filtered-IsEither (fails e) listen = listened-IsEither listen
  filtered-IsEither (panics x) listen = recovered-IsEither x

  open_single_device-IsEither :
      (device : Call Handle) (set_filter : Handle → Call (Unit {0}))
      (listen : Handle → Call Packets)
      → IsEither (open_single_device device set_filter listen)
  unfolding open_single_device
  open_single_device-IsEither (gives handle) set_filter listen =
      filtered-IsEither (set_filter handle) (listen handle)
  open_single_device-IsEither (fails e) set_filter listen = inr (e, refl, refl)
  open_single_device-IsEither (panics x) set_filter listen = recovered-IsEither x
