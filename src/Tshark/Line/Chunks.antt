-- ===== src/Tshark/Line/Chunks.antt =====
-- The output of tshark as a sequence of objects with other lines between them.
use httshark.Base.{
  ◌≡◌, ◌≢◌, refl, true, false, List, [], ◌∷◌, ◌++◌, map, append-nil, append_assoc, map-append,
  arith, Bytes, same_iff, All,
}
use httshark.Go.Text.{join}
use httshark.Go.Space.{trim_space}
use httshark.Tshark.Line.{
  Processor, Event, line, stop, opening, closing, start, on_event, aggregate,
}

-- A piece of the output: a line that delimits nothing, a closing line with no object open, or an
-- object with the lines between its delimiters.
pub data Chunk : Type 0 where
  noise : Bytes → Chunk
  stray : Chunk
  object : List Bytes → Chunk

abbrev pub IsClean : Chunk → Type 0
IsClean (noise l) = (l ≢ opening) × (l ≢ closing)
IsClean stray = Unit
IsClean (object body) = All (λ l. l ≢ closing) body

unfoldable pub render : Chunk → List Bytes
render (noise l) = l ∷ []
render stray = closing ∷ []
render (object body) = opening ∷ (body ++ (closing ∷ []))

-- The texts that a piece gives: an object its trimmed lines put together, a stray closing line the
-- empty text.
unfoldable pub texts : Chunk → List Bytes
texts (noise l) = []
texts stray = [] ∷ []
texts (object body) = join [] (map trim_space (opening ∷ (body ++ (closing ∷ [])))) ∷ []

abbrev pub render_all : List Chunk → List Bytes
render_all [] = []
render_all (c ∷ cs) = render c ++ render_all cs

abbrev pub texts_all : List Chunk → List Bytes
texts_all [] = []
texts_all (c ∷ cs) = texts c ++ texts_all cs

-- the state in which an object's first lines have been collected
abbrev pub collecting : List Bytes → Processor
collecting ls = record { lines = ls; collect = true; stopped = false }

abbrev pub feed : Processor → List Bytes → Processor × List Bytes
feed p ls = aggregate p (map line ls)

feed_noise :
    (l : Bytes) (ls : List Bytes) → l ≢ opening → l ≢ closing → feed start (l ∷ ls) ≡ feed start ls
unfolding aggregate
feed_noise l ls ho hc = ground (arith, same_iff l opening, same_iff l closing)

feed_stray :
    (ls : List Bytes) → feed start (closing ∷ ls) ≡ ((feed start ls).0, [] ∷ (feed start ls).1)
unfolding aggregate join
feed_stray ls = refl

feed_keep :
    (l : Bytes) (acc ls : List Bytes)
    → l ≢ closing
    → feed (collecting acc) (l ∷ ls) ≡ feed (collecting (acc ++ (trim_space l ∷ []))) ls
unfolding aggregate
feed_keep l acc ls h = ground (arith, same_iff l opening, same_iff l closing)

feed_inside :
    (body acc ls : List Bytes)
    → All (λ l. l ≢ closing) body
    → feed (collecting acc) (body ++ ls) ≡ feed (collecting (acc ++ map trim_space body)) ls
feed_inside [] acc ls h = rw append-nil
feed_inside (l ∷ body) acc ls (hl, h) = rw (
  feed_keep l acc (body ++ ls) hl,
  feed_inside body (acc ++ (trim_space l ∷ [])) ls h,
  append_assoc,
)

feed_close :
    (acc ls : List Bytes)
    → feed (collecting acc) (closing ∷ ls)
      ≡ ((feed start ls).0, join [] (acc ++ (trim_space closing ∷ [])) ∷ (feed start ls).1)
unfolding aggregate
feed_close acc ls = refl

feed_open :
    (ls : List Bytes) → feed start (opening ∷ ls) ≡ feed (collecting (trim_space opening ∷ [])) ls
unfolding aggregate
feed_open ls = refl

feed_object :
    (body ls : List Bytes)
    → All (λ l. l ≢ closing) body
    → feed start (render (object body) ++ ls)
      ≡ ((feed start ls).0, texts (object body) ++ (feed start ls).1)
unfolding render texts
feed_object body ls h = rw (
  append_assoc,
  feed_open,
  feed_inside body (trim_space opening ∷ []) (closing ∷ ls) h,
  feed_close,
  map-append trim_space body (closing ∷ []),
)

feed_chunk :
    (c : Chunk) (ls : List Bytes)
    → IsClean c
    → feed start (render c ++ ls) ≡ ((feed start ls).0, texts c ++ (feed start ls).1)
feed_chunk (noise l) ls (ho, hc) = unfold render texts in feed_noise l ls ho hc
feed_chunk stray ls _ = unfold render texts in feed_stray ls
feed_chunk (object body) ls h = feed_object body ls h

-- After pieces in which each object is closed the loop has sent the text of each object, in order,
-- an empty text for each stray closing line and nothing else, and its state is as on the start,
-- from where it goes on with the lines that follow.
pub aggregate-render :
    (cs : List Chunk) (ls : List Bytes)
    → All IsClean cs
    → aggregate start (map line (render_all cs ++ ls))
      ≡ ((aggregate start (map line ls)).0, texts_all cs ++ (aggregate start (map line ls)).1)
aggregate-render [] ls h = refl
aggregate-render (c ∷ cs) ls (hc, h) =
    rw (append_assoc, feed_chunk c (render_all cs ++ ls) hc, aggregate-render cs ls h, append_assoc)

feed_tail :
    (body : List Bytes)
    → All (λ l. l ≢ closing) body
    → feed start (opening ∷ body) ≡ (collecting (map trim_space (opening ∷ body)), [])
unfolding aggregate
feed_tail body h =
    rw (feed_open, ← append-nil body, feed_inside body (trim_space opening ∷ []) [] h, append-nil)

-- An object that is not closed is held back: nothing is sent, and its trimmed lines are kept.
aggregate_unfinished :
    (cs : List Chunk) (body : List Bytes)
    → All IsClean cs
    → All (λ l. l ≢ closing) body
    → aggregate start (map line (render_all cs ++ (opening ∷ body)))
      ≡ (collecting (map trim_space (opening ∷ body)), texts_all cs)
aggregate_unfinished cs body hc hb =
    rw (aggregate-render cs (opening ∷ body) hc, feed_tail body hb) (rw append-nil)

aggregate_when_stopped :
    (p : Processor) (es : List Event) → p.stopped ≡ true → aggregate p es ≡ (p, [])
unfolding aggregate
aggregate_when_stopped p [] h = refl
aggregate_when_stopped p (e ∷ es) h = ground arith

-- After `stop` the loop ends: it takes none of the events that follow.
aggregate_stop :
    (p : Processor) (es rest : List Event)
    → (aggregate p (es ++ (stop ∷ rest)) ≡ aggregate p (es ++ (stop ∷ [])))
      × ((aggregate p (es ++ (stop ∷ rest))).0.stopped ≡ true)
unfolding aggregate
aggregate_stop p [] rest =
    ground (arith, aggregate_when_stopped (record p { stopped = true }) rest refl)
aggregate_stop p (e ∷ es) rest = ground (arith, aggregate_stop (on_event p e).0 es rest)
