-- ===== src/Dump/Window/Insert.antt =====
-- `insert` on a circular buffer is an insertion into the list that the window holds.
use native.Mathlib.Nat.{le_refl}
use httshark.Base.{
  ℕ, zero, suc, ◌+◌, ◌-◌, ◌≤◌, ◌<◌, ◌≡◌, refl, ◌∙◌, Option, none, some, List, [], ◌∷◌, arith, ◌==◌,
  ltb, if◌then◌else◌, length, get_elem?, set, length-set, Bool-cases, inl, inr, ==_iff, false,
  if_false, get_elem?-of_lt,
}
use httshark.Dump.Packet.{Tcp}
use httshark.Dump.Seq.{compare_tcp_seq, is_zero, is_negative}
use httshark.Dump.Window.{
  ReceiveWindow, Place, at, duplicate, fault, packet_at, find_place, index_of, shift, store, expand,
  insert, insert_place, is_delivered,
}
use httshark.Dump.Window.Slots.{Buffer, slot, slot-set, slot-shift, length-shift, packet_at_lem}
use httshark.Dump.Window.Held.{Holds, filled}
use httshark.Dump.Window.Expand.{expand-Holds}

-- The backward scan over a list.
unfoldable pub find_in : List Tcp → Tcp → ℕ → Place
find_in l packet zero = at 0
find_in l packet (suc i) =
    let earlier = find_in l packet i in
    elim (get_elem? l i) [
      | none ↦ fault
      | some prev ↦
          let result = compare_tcp_seq prev.seq packet.seq in
          if is_zero result then duplicate else if is_negative result then at (suc i) else earlier
    ]

abbrev pub insert_at {ℓ} : {A : Type ℓ} → ℕ → A → List A → List A
insert_at zero p l = p ∷ l
insert_at (suc k) p [] = p ∷ []
insert_at (suc k) p (x ∷ l) = x ∷ insert_at k p l

abbrev pub place_in : List Tcp → Tcp → Place → List Tcp
place_in l packet duplicate = l
place_in l packet fault = l
place_in l packet (at idx) = insert_at idx packet l

-- `insert` as an operation on lists
abbrev pub insert_list : ℕ → Tcp → List Tcp → List Tcp
insert_list expect_begin packet l =
    if is_delivered expect_begin packet
    then l
    else if length packet.payload == 0
    then l
    else place_in l packet (find_in l packet (length l))

length-insert_at {ℓ} :
    {A : Type ℓ} (k : ℕ) (p : A) (l : List A) → length (insert_at k p l) ≡ length l + 1
length-insert_at zero p l = omega arith
length-insert_at (suc k) p [] = omega arith
length-insert_at (suc k) p (x ∷ l) = omega (arith, length-insert_at k p l)

get_elem?-insert_at {ℓ} :
    {A : Type ℓ} (k : ℕ) (p : A) (l : List A) (i : ℕ)
    → k ≤ length l
    → get_elem? (insert_at k p l) i
      ≡ (if k == i then some p else if ltb k i then get_elem? l (i - 1) else get_elem? l i)
get_elem?-insert_at zero p l zero h = ground arith
get_elem?-insert_at zero p l (suc i) h = ground arith
get_elem?-insert_at (suc k) p [] i h = absurd (omega arith)
get_elem?-insert_at (suc k) p (x ∷ l) zero h = ground arith
get_elem?-insert_at (suc k) p (x ∷ l) (suc zero) h = ground (arith, get_elem?-insert_at k p l zero)
get_elem?-insert_at (suc k) p (x ∷ l) (suc (suc i)) h =
    ground (arith, get_elem?-insert_at k p l (suc i))

find_in_range : (l : List Tcp) (packet : Tcp) (n idx : ℕ) → find_in l packet n ≡ at idx → idx ≤ n
unfolding find_in
find_in_range l packet zero idx h = ground arith
find_in_range l packet (suc n) idx h = ground (arith, find_in_range l packet n idx)

find_in-ne-fault :
    (l : List Tcp) (packet : Tcp) (n : ℕ) → n ≤ length l → find_in l packet n ≡ fault → ⊥
unfolding find_in
find_in-ne-fault l packet zero h e = cc
find_in-ne-fault l packet (suc n) h e =
    ground (arith, get_elem?-of_lt l n, find_in-ne-fault l packet n)

module _ (w : ReceiveWindow) (l : List Tcp) (holds : Holds w l) where
  packet_at-held : (i : ℕ) → i < w.size → packet_at w.buffer w.start i ≡ get_elem? l i
  packet_at-held i h = ground (arith, packet_at_lem w.buffer w.start i, holds.slots i h)

  find_place-held :
      (packet : Tcp) (n : ℕ)
      → n ≤ w.size
      → find_place w.buffer w.start packet n ≡ find_in l packet n
  unfolding find_place find_in
  find_place-held packet zero h = refl
  find_place-held packet (suc n) h = ground (arith, packet_at-held n, find_place-held packet n)

  -- the buffer that `store` writes the packet into
  made_room : ℕ → Buffer
  made_room idx = if idx == w.size then w.buffer else shift w.start idx (w.size - idx) w.buffer

  length-made_room : (idx : ℕ) → length (made_room idx) ≡ length w.buffer
  unfolding made_room
  length-made_room idx = ground (arith, length-shift w.start idx (w.size - idx) w.buffer)

  slot-made_room :
      (idx j : ℕ)
      → idx ≤ w.size
      → w.size < length w.buffer
      → j ≤ w.size
      → slot (made_room idx) w.start j
        ≡ (if ltb idx j then slot w.buffer w.start (j - 1) else slot w.buffer w.start j)
  unfolding made_room
  slot-made_room idx j hi hr hj =
      ground (arith, holds.start_in, slot-shift w.start idx (w.size - idx) j w.buffer)

  written : ℕ → Tcp → Buffer
  written idx packet = set (made_room idx) (index_of (made_room idx) w.start idx) (some packet)

  length-written : (idx : ℕ) (packet : Tcp) → length (written idx packet) ≡ length w.buffer
  unfolding written
  length-written idx packet = length-set (made_room idx) _ _ ∙ length-made_room idx

  slot-written :
      (idx i : ℕ) (packet : Tcp)
      → idx ≤ w.size
      → w.size < length w.buffer
      → i ≤ w.size
      → slot (written idx packet) w.start i ≡ filled (get_elem? (insert_at idx packet l) i)
  unfolding written
  slot-written idx i packet hi hr h = ground (
    arith,
    slot-set (made_room idx) w.start idx i (some packet),
    length-made_room idx,
    holds.start_in,
    holds.count,
    slot-made_room idx i,
    get_elem?-insert_at idx packet l i,
    holds.slots i,
    holds.slots (i - 1),
  )

  store_lem :
      (idx : ℕ) (packet : Tcp)
      → store w idx packet ≡ record w { buffer = written idx packet; size = w.size + 1 }
  unfolding store written
  store_lem idx packet = rw (length-made_room idx) (unfold made_room in refl)

  store-Holds :
      (idx : ℕ) (packet : Tcp)
      → idx ≤ w.size
      → w.size < length w.buffer
      → Holds (store w idx packet) (insert_at idx packet l)
  store-Holds idx packet hi hr = rw (store_lem idx packet) (record {
    count = omega (arith, length-insert_at idx packet l, holds.count);
    fits = omega (arith, length-written idx packet);
    start_in = omega (arith, length-written idx packet, holds.start_in);
    slots = λ i h. slot-written idx i packet hi hr (omega arith);
  })

-- What `insert` makes of a window that holds a list.
abbrev pub Makes : ReceiveWindow → Option ReceiveWindow → List Tcp → Type 0
Makes w result l =
    (w' : ReceiveWindow) × (result ≡ some w')
    × Holds w' l
    × (w'.expect_begin ≡ w.expect_begin)
    × (w'.last_ack ≡ w.last_ack)

room : ReceiveWindow → ReceiveWindow
room w = if w.size == length w.buffer then expand w else w

room-Holds :
    (w : ReceiveWindow) (l : List Tcp)
    → Holds w l
    → Holds (room w) l × ((room w).size ≡ w.size) × ((room w).size < length (room w).buffer)
unfolding room
room-Holds w l h = elim (Bool-cases (w.size == length w.buffer)) [
  | inl t ↦
      let (held, long, same) = expand-Holds w l h in
      rw t
        (held, same, omega (arith, long, same, h.start_in, (==_iff w.size (length w.buffer)).0 t))
  | inr f ↦ rw f (h, refl, ground (arith, h.fits, f))
]

store-room :
    (w : ReceiveWindow) (idx : ℕ) (packet : Tcp)
    → ((store (room w) idx packet).expect_begin ≡ w.expect_begin)
      × ((store (room w) idx packet).last_ack ≡ w.last_ack)
unfolding room store expand
store-room w idx packet = ground arith

insert_place-Makes :
    (w : ReceiveWindow) (packet : Tcp) (l : List Tcp) (place : Place)
    → Holds w l
    → (place ≡ fault → ⊥)
    → ((idx : ℕ) → place ≡ at idx → idx ≤ w.size)
    → Makes w (insert_place w packet place) (place_in l packet place)
insert_place-Makes w packet l fault h nf range = absurd (nf refl)
insert_place-Makes w packet l duplicate h nf range = (w, unfold insert_place in refl, h, refl, refl)
insert_place-Makes w packet l (at idx) h nf range =
    let (held, same, free) = room-Holds w l h in
    let (expects, acks) = store-room w idx packet in
    (
      store (room w) idx packet,
      unfold insert_place room in if_false (length (room w).buffer == 0) none _ (not_empty free),
      store-Holds (room w) l held idx packet (omega (arith, range idx refl)) free,
      expects,
      acks,
    )
  where
    not_empty : (room w).size < length (room w).buffer → (length (room w).buffer == 0) ≡ false
    not_empty free = ground arith

-- `insert` never panics on a window that holds a list: it returns a window that holds the list
-- with the packet put in by the backward scan, or the same list if the packet has been delivered,
-- is empty, or meets an equal sequence number; what it expects next and the last acknowledgement
-- stay. A full buffer is expanded first.
pub insert_refines :
    (w : ReceiveWindow) (packet : Tcp) (l : List Tcp)
    → Holds w l
    → Makes w (insert w packet) (insert_list w.expect_begin packet l)
unfolding insert
insert_refines w packet l h = elim (Bool-cases (is_delivered w.expect_begin packet)) [
  | inl t ↦ rw t (w, refl, h, refl, refl)
  | inr f ↦ rw f (elim (Bool-cases (length packet.payload == 0)) [
    | inl t ↦ rw t (w, refl, h, refl, refl)
    | inr g ↦ rw (g, find_place-held w l h packet w.size (le_refl w.size), h.count) placed
  ])
]
  where
    placed :
        Makes w
          (insert_place w packet (find_in l packet w.size))
          (place_in l packet (find_in l packet w.size))
    placed =
        insert_place-Makes w packet l (find_in l packet w.size) h
          (find_in-ne-fault l packet w.size (omega (arith, h.count)))
          (find_in_range l packet w.size)
