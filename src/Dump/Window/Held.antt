-- ===== src/Dump/Window/Held.antt =====
-- The abstract view of a window: the packets that it holds, in order.
use httshark.Base.{
  ℕ, ◌≤◌, ◌<◌, ◌≡◌, refl, Option, none, some, List, [], arith, Bytes, length, get_elem?,
  length-replicate,
}
use httshark.Dump.Packet.{Tcp}
use httshark.Dump.Window.{ReceiveWindow, new_receive_window}
use httshark.Dump.Window.Slots.{slot}

-- a slot that holds what a list has at an index
abbrev pub filled : Option Tcp → Option (Option Tcp)
filled none = none
filled (some p) = some (some p)

-- The buffer has room for its packets, and these are the packets of the list: none of the slots in
-- use is nil.
pub record Holds (w : ReceiveWindow) (l : List Tcp) : Type 0 where
  pub count : length l ≡ w.size
  pub fits : w.size ≤ length w.buffer
  pub start_in : w.start < length w.buffer
  pub slots : (i : ℕ) → i < w.size → slot w.buffer w.start i ≡ filled (get_elem? l i)

-- A new window holds nothing.
pub new_receive_window-Holds : (n : ℕ) (key : Bytes) → 0 < n → Holds (new_receive_window n key) []
unfolding new_receive_window
new_receive_window-Holds n key h = record {
  count = refl;
  fits = omega arith;
  start_in = omega (arith, length-replicate {A = Option Tcp} n none);
  slots = λ i h'. elim h' [ ];
}
