-- ===== src/Dump/Handler/Session/Turns.antt =====
-- The turns of the loop of `handle` that go on.
use httshark.Base.{
  ◌≡◌, refl, sym, ap, ◌∙◌, some, List, [], ◌∷◌, ◌++◌, append-nil, append_assoc, All, if_false,
  if_true, arith,
}
use httshark.Go.Clock.{Time}
use httshark.Dump.Handler.{
  Request, RequestRead, request, ResponseRead, response, HttpTrafficHandler, discard_all, report,
  goes_on, breaks, read_answer, read_continued, ended, loop,
}
use httshark.Dump.Handler.Session.{
  Item, answered, continued, IsItem, request_in, requests_of, answers_in, responses_of, reported_in,
  reported_of,
}
use httshark.Dump.Handler.Session.Reported.{first_report, second_report}

loop-request :
    (req : Request) (time : Time) (requests : List RequestRead) (responses rest : List ResponseRead)
    (h h' : HttpTrafficHandler)
    → read_answer req responses (record h { start_time = time }) ≡ goes_on h' rest
    → loop (request req time ∷ requests) responses h ≡ loop requests rest h'
unfolding loop
loop-request req time requests responses rest h h' q = ground arith

pub loop-request_breaks :
    (req : Request) (time : Time) (requests : List RequestRead) (responses : List ResponseRead)
    (h h' : HttpTrafficHandler)
    → read_answer req responses (record h { start_time = time }) ≡ breaks h'
    → loop (request req time ∷ requests) responses h ≡ ended h'
unfolding loop
loop-request_breaks req time requests responses h h' q = ground arith

-- a turn that goes on
turn_item :
    (x : Item) (requests : List RequestRead) (rest : List ResponseRead) (h : HttpTrafficHandler)
    → IsItem x
    → (h' : HttpTrafficHandler) × (loop (request_in x ∷ requests) (answers_in x ++ rest) h
        ≡ loop requests rest h')
      × (h'.sent ≡ h.sent ++ reported_in x)
turn_item (answered req t res t') requests rest h i =
    let at = record h { start_time = t; end_time = t' } in
    let once = discard_all req.first_discard_fails (report req.first_read req (some res) at) in
    let goes : read_answer req (response res t' ∷ rest) (record h { start_time = t })
        ≡ goes_on once rest =
      unfold read_answer in if_false _ _ _ i in
    (
      once,
      loop-request req t requests (response res t' ∷ rest) rest h once goes,
      (first_report req.first_discard_fails req (some res) at).more,
    )
turn_item (continued req t first t' real t'') requests rest h i =
    let at = record h { start_time = t; end_time = t' } in
    let once = discard_all req.first_discard_fails (report req.first_read req (some first) at) in
    let twice = report req.second_read req (some real) once in
    let reads = response first t' ∷ response real t'' ∷ rest in
    let goes : read_answer req reads (record h { start_time = t }) ≡ goes_on twice rest =
      unfold read_answer read_continued in if_true _ _ _ i in
    (
      twice,
      loop-request req t requests reads rest h twice goes,
      (second_report req (some real) at once _
          (first_report req.first_discard_fails req (some first) at)).more,
    )

pub items_lem :
    (xs : List Item) (requests : List RequestRead) (rest : List ResponseRead)
    (h : HttpTrafficHandler)
    → All IsItem xs
    → (h' : HttpTrafficHandler) × (loop (requests_of xs ++ requests) (responses_of xs ++ rest) h
        ≡ loop requests rest h')
      × (h'.sent ≡ h.sent ++ reported_of xs)
items_lem [] requests rest h a = (h, refl, sym (append-nil _))
items_lem (x ∷ xs) requests rest h (i, a) =
    let (h₁, turn, first) =
      turn_item x (requests_of xs ++ requests) (responses_of xs ++ rest) h i in
    let (h', goes, later) = items_lem xs requests rest h₁ a in
    (
      h',
      ap (λ l. loop (request_in x ∷ (requests_of xs ++ requests)) l h)
            (append_assoc (answers_in x) (responses_of xs) rest)
          ∙ turn
          ∙ goes,
      later
          ∙ ap (λ l. l ++ reported_of xs) first
          ∙ append_assoc h.sent (reported_in x) (reported_of xs),
    )
