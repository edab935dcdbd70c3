-- ===== src/Dump/Stream/Reassembly/Delivery.antt =====
-- A run of the assembler on a stream, and what the reader gets then.
use native.Mathlib.Nat.{le_refl}
use httshark.Base.{
  ℕ, suc, ◌-◌, ◌<◌, ◌≡◌, refl, ap, ◌∙◌, true, some, List, [], arith, length, inl, Bytes, replicate,
  if_false,
}
use httshark.Dump.Packet.{Tcp}
use httshark.Dump.Window.{new_receive_window}
use httshark.Dump.Window.Sorted.{IsRegion}
use httshark.Dump.Window.Stream.{segment, length-segment}
use httshark.Dump.Stream.{NetworkStream, StreamConfig, done, new_network_stream, finish, ready}
use httshark.Dump.Stream.Active.{new_network_stream-IsActive}
use httshark.Dump.Stream.Read.{unread}
use httshark.Dump.Stream.ReadAll.{read_all, read_all_lem}
use httshark.Dump.Stream.Reassembly.State.{IsAt}

module _ (config : StreamConfig) (byte_at size_at : ℕ → ℕ) (lo : ℕ) (region : IsRegion lo)
    (positive : 0 < lo) where
  abbrev pub At : NetworkStream → List Tcp → List Tcp → ℕ → Type 0
  At = IsAt config byte_at size_at lo region positive

  pub starts : (key : Bytes) → At (new_network_stream key) [] [] lo
  unfolding new_receive_window
  starts key = record {
    active = new_network_stream-IsActive key;
    begins = unfold new_network_stream in inl (refl, refl);
    from_lo = le_refl lo;
    in_region = omega (arith, positive);
    sorted = tt;
    cuts = tt;
    captured = λ b hb cov. cov;
    nothing_left = unfold new_network_stream in refl;
    bytes =
        unfold new_network_stream in
        (let nothing : 0 ≡ lo - lo = omega arith in ap (segment byte_at lo) nothing);
    few = unfold new_network_stream in omega arith;
  }

  -- What the reader gets of a stream in such a state, once its channel is closed.
  pub IsAt-read :
      (s : NetworkStream) (seen l : List Tcp) (e n : ℕ)
      → 0 < n
      → At s seen l e
      → let s' = record s { ended = true } in
        (finish s ≡ done s')
        × (read_all config n (suc (e - lo)) (replicate (suc (length s.c)) ready) s'
            ≡ some (segment byte_at lo (e - lo)))
  IsAt-read s seen l e n room at' =
      let s' = record s { ended = true } in
      let left : unread s' ≡ segment byte_at lo (e - lo) = rw at'.nothing_left at'.bytes in
      (
        unfold finish in if_false _ _ _ at'.active.open_channel,
        read_all_lem n room config (suc (e - lo)) (suc (length s.c)) s'
              (omega (arith, ap length left, length-segment byte_at lo (e - lo))) (omega arith) refl
            ∙ ap some left,
      )
