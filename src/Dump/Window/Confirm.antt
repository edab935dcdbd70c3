-- ===== src/Dump/Window/Confirm.antt =====
-- `confirm` on a circular buffer sends and drops the first packets of the list that it holds.
use native.Mathlib.Nat.{mod-lt}
use httshark.Base.{
  ℕ, suc, ◌+◌, ◌≤◌, ◌<◌, ◌≡◌, refl, sym, ap, ◌∙◌, none, some, List, [], ◌∷◌, ◌++◌, append-nil,
  append_assoc, arith, ◌==◌, if◌then◌else◌, length, get_elem?, set, length-set, Bool-cases, inl,
  inr, ◌||◌, false, if_false, Option, length-append,
}
use httshark.Dump.Packet.{Tcp}
use httshark.Dump.Seq.{compare_tcp_seq, is_negative}
use httshark.Dump.Window.{
  ReceiveWindow, Confirming, packet_at, index_of, deliver, next_expect, sent_list, confirm_round,
  confirm_loop, confirm_end, before_loop, confirm,
}
use httshark.Dump.Window.Slots.{Buffer, slot, slot-set, slot_from, flat, packet_at_lem}
use httshark.Dump.Window.Held.{Holds, filled}

-- `confirm` as an operation on lists: what is kept, what is sent, and what is expected then.
pub record Confirmed : Type 0 where
  pub kept : List Tcp
  pub sent : List Tcp
  pub expect_begin : ℕ

unfoldable pub confirm_list : ℕ → ℕ → List Tcp → Confirmed
confirm_list ack e [] = record { kept = []; sent = []; expect_begin = e }
confirm_list ack e (x ∷ l) =
    let out = deliver e x in
    let rest = confirm_list ack (next_expect out e x) l in
    if is_negative (compare_tcp_seq x.seq ack)
    then record {
      kept = rest.kept;
      sent = sent_list out ++ rest.sent;
      expect_begin = rest.expect_begin;
    }
    else record { kept = x ∷ l; sent = []; expect_begin = e }

module _ (ack s : ℕ) where
  -- the slots from `i` on hold the list
  record HoldsFrom (b : Buffer) (i : ℕ) (l : List Tcp) : Type 0 where
    start_in : s < length b
    fits : i + length l ≤ length b
    slots : (j : ℕ) → j < length l → slot b s (i + j) ≡ filled (get_elem? l j)

  -- what the loop makes of a state from which it goes through a list
  record Ends (st : Confirming) (l : List Tcp) (out : Confirmed) (end : Confirming) : Type 0 where
    room : length end.buffer ≡ length st.buffer
    idx : end.idx + length out.kept ≡ st.idx + length l
    held : HoldsFrom end.buffer end.idx out.kept
    sent : end.sent ≡ st.sent ++ out.sent
    expect : end.expect_begin ≡ out.expect_begin

  first_packet :
      (b : Buffer) (i : ℕ) (x : Tcp) (l : List Tcp)
      → HoldsFrom b i (x ∷ l)
      → packet_at b s i ≡ some x
  first_packet b i x l h =
      packet_at_lem b s i ∙ ap flat (ap (slot b s) (omega arith) ∙ h.slots 0 (omega arith))

  HoldsFrom_later :
      (b : Buffer) (i : ℕ) (x : Tcp) (l : List Tcp)
      → HoldsFrom b i (x ∷ l)
      → HoldsFrom (set b (index_of b s i) none) (i + 1) l
  HoldsFrom_later b i x l h = record {
    start_in = omega (arith, h.start_in, length-set b (index_of b s i) none);
    fits = omega (arith, h.fits, length-set b (index_of b s i) none);
    slots = λ j hj.
        slot-set b s i (i + 1 + j) none h.start_in (omega (arith, h.fits)) (omega (arith, h.fits))
        ∙ ground (arith, h.slots (suc j) (omega arith));
  }

  HoldsFrom_round :
      (st : Confirming) (x : Tcp) (l : List Tcp)
      → HoldsFrom st.buffer st.idx (x ∷ l)
      → HoldsFrom (confirm_round s st x).buffer (confirm_round s st x).idx l
  unfolding confirm_round
  HoldsFrom_round st x l h = HoldsFrom_later st.buffer st.idx x l h

  loop_step :
      (st : Confirming) (x : Tcp) (n : ℕ)
      → packet_at st.buffer s st.idx ≡ some x
      → confirm_loop ack s (suc n) st ≡ (
          if is_negative (compare_tcp_seq x.seq ack)
          then confirm_loop ack s n (confirm_round s st x)
          else some st)
  loop_step st x n e = unfold confirm_loop in rw (e, confirm_loop)

  -- one more confirmed packet in front
  Ends-cons :
      (st end : Confirming) (x : Tcp) (l : List Tcp) (rest : Confirmed)
      → Ends (confirm_round s st x) l rest end
      → Ends st
          (x ∷ l)
          (record {
            kept = rest.kept;
            sent = sent_list (deliver st.expect_begin x) ++ rest.sent;
            expect_begin = rest.expect_begin;
          })
          end
  unfolding confirm_round
  Ends-cons st end x l rest h = record {
    room = h.room ∙ length-set st.buffer _ none;
    idx = omega (arith, h.idx);
    held = h.held;
    sent = h.sent ∙ append_assoc st.sent (sent_list (deliver st.expect_begin x)) rest.sent;
    expect = h.expect;
  }

  confirm_loop_lem :
      (l : List Tcp) (st : Confirming)
      → HoldsFrom st.buffer st.idx l
      → (end : Confirming) × (confirm_loop ack s (length l) st ≡ some end)
        × Ends st l (confirm_list ack st.expect_begin l) end
  unfolding confirm_list confirm_round deliver
  confirm_loop_lem [] st h = (
    st,
    unfold confirm_loop in refl,
    record { room = refl; idx = refl; held = h; sent = sym (append-nil st.sent); expect = refl },
  )
  confirm_loop_lem (x ∷ l) st h =
      let (end, runs, ends) =
        confirm_loop_lem l (confirm_round s st x) (HoldsFrom_round st x l h) in
      elim (Bool-cases (is_negative (compare_tcp_seq x.seq ack))) [
        | inl t ↦ rw t (
          end,
          loop_step st x (length l) (first_packet st.buffer st.idx x l h) ∙ rw t runs,
          Ends-cons st end x l _ ends,
        )
        | inr f ↦ rw f (
          st,
          loop_step st x (length l) (first_packet st.buffer st.idx x l h) ∙ rw f,
          record {
            room = refl;
            idx = refl;
            held = h;
            sent = sym (append-nil st.sent);
            expect = refl;
          },
        )
      ]

confirm_end-Holds :
    (w : ReceiveWindow) (ack : ℕ) (l : List Tcp) (out : Confirmed) (end : Confirming)
    → length l ≡ w.size
    → Ends ack w.start (before_loop w) l out end
    → Holds (confirm_end w ack end) out.kept
unfolding confirm_end
confirm_end-Holds w ack l out end n ends = record {
  count = omega (arith, ends.idx);
  fits = omega (arith, ends.idx, ends.held.fits);
  start_in = mod-lt (w.start + end.idx) (omega (arith, ends.held.start_in));
  slots =
      λ i h. slot_from end.buffer w.start end.idx i ∙ ends.held.slots i (omega (arith, ends.idx));
}

confirm_runs :
    (w : ReceiveWindow) (ack : ℕ) (end : Confirming)
    → confirm_loop ack w.start w.size (before_loop w) ≡ some end
    → w.start < length end.buffer
    → confirm w ack ≡ some (confirm_end w ack end, end.sent)
confirm_runs w ack end e h = unfold confirm in rw (e, confirm) (if_false _ _ _ (not_empty h))
  where
    not_empty : w.start < length end.buffer → (length end.buffer == 0) ≡ false
    not_empty h = ground arith

-- `confirm` never panics on a window that holds a list: it sends, and drops, what the list
-- operation sends and drops, the window that it returns holds the packets that are kept, and
-- expects what the list operation expects; the last acknowledgement is the later of the two.
pub confirm_refines :
    (w : ReceiveWindow) (ack : ℕ) (l : List Tcp)
    → Holds w l
    → let out = confirm_list ack w.expect_begin l in
      (w' : ReceiveWindow) × (confirm w ack ≡ some (w', out.sent))
      × Holds w' out.kept
      × (w'.expect_begin ≡ out.expect_begin)
      × (w'.last_ack ≡ (
          if is_negative (compare_tcp_seq w.last_ack ack) || w.last_ack == 0
          then ack
          else w.last_ack))
confirm_refines w ack l h =
    let (end, runs, ends) = confirm_loop_lem ack w.start l (before_loop w) whole in
    (
      confirm_end w ack end,
      confirm_runs w ack end
            (ap (λ n. confirm_loop ack w.start n (before_loop w)) (sym h.count) ∙ runs)
            ends.held.start_in
          ∙ ap (λ t. some (confirm_end w ack end, t)) ends.sent,
      confirm_end-Holds w ack l _ end h.count ends,
      unfold confirm_end in ends.expect,
      unfold confirm_end in refl,
    )
  where
    whole : HoldsFrom ack w.start w.buffer 0 l
    whole = record {
      start_in = h.start_in;
      fits = omega (arith, h.fits, h.count);
      slots = λ j hj. ap (slot w.buffer w.start) (omega arith) ∙ h.slots j (omega (arith, h.count));
    }

-- What is sent and what is kept are not more packets than there were.
pub length-confirm_list :
    (ack e : ℕ) (l : List Tcp)
    → length (confirm_list ack e l).sent + length (confirm_list ack e l).kept ≤ length l
unfolding confirm_list
length-confirm_list ack e [] = omega arith
length-confirm_list ack e (x ∷ l) =
    let out = deliver e x in
    let rest = length-confirm_list ack (next_expect out e x) l in
    elim (Bool-cases (is_negative (compare_tcp_seq x.seq ack))) [
      | inl t ↦ rw t (omega (arith, rest, length-append (sent_list out) _, one out))
      | inr f ↦ rw f (omega arith)
    ]
  where
    one : (o : Option Tcp) → length (sent_list o) ≤ 1
    one none = omega arith
    one (some a) = omega arith
