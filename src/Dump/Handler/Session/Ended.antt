-- ===== src/Dump/Handler/Session/Ended.antt =====
-- How the loop of `handle` goes through a session.
use httshark.Base.{
  ◌≡◌, refl, sym, ap, ap₂, ◌∙◌, Bool, true, Option, none, some, List, [], ◌∷◌, ◌++◌, append-nil,
  append_assoc, Bytes, All, if_true, arith,
}
use httshark.Go.Clock.{Time}
use httshark.Core.Entries.{HttpTransaction}
use httshark.Dump.Connection.{TcpConnection}
use httshark.Dump.Handler.{
  Request, Response, RequestRead, ResponseRead, response, HttpTrafficHandler, warn, Warning,
  discard_all, report, breaks, read_answer, read_continued, ended, loop, leave, handle, read_later,
}
use httshark.Dump.Handler.Session.{
  Item, IsItem, requests_of, responses_of, NoAnswer, at_end, failed, no_answer, End, requests_end,
  requests_fail, unanswered, not_continued, IsEnd, request_at, responses_at, time_at, reported,
  reported_of, reported_at,
}
use httshark.Dump.Handler.Session.Reported.{
  Reports, Reports-discard_all, first_report, second_report,
}
use httshark.Dump.Handler.Session.Turns.{loop-request_breaks, items_lem}

-- without an answer, its time does not matter
without_answer :
    (read : Option Bytes) (req : Request) (t t' t'' : Time)
    → reported read req t none t' ≡ reported read req t none t''
without_answer none req t t' t'' = refl
without_answer (some body) req t t' t'' = refl

abbrev EndsWith : HttpTrafficHandler → List RequestRead → List ResponseRead → End → Type 0
EndsWith h requests responses e =
    (h' : HttpTrafficHandler) × (loop (request_at e ∷ requests) responses h ≡ ended h')
    × (h'.sent ≡ h.sent ++ reported_at e)
    × (h'.start_time ≡ time_at e)

-- the answer cannot be read, with or without a warning
unanswered_lem :
    (req : Request) (t : Time) (n : NoAnswer) (requests : List RequestRead)
    (rest : List ResponseRead) (h w : HttpTrafficHandler)
    → Reports (record h { start_time = t }) [] w
    → read_answer req (no_answer n ∷ rest) (record h { start_time = t })
      ≡ breaks (discard_all req.first_discard_fails (report req.first_read req none w))
    → EndsWith h requests (no_answer n ∷ rest) (unanswered req t n)
unanswered_lem req t n requests rest h w same goes =
    let r = first_report req.first_discard_fails req none w in
    (
      _,
      loop-request_breaks req t requests (no_answer n ∷ rest) h _ goes,
      r.more
          ∙ ap₂ ◌++◌ (same.more ∙ append-nil h.sent) (
              ap (λ s. reported req.first_read req s none w.end_time) same.same_start
              ∙ without_answer req.first_read req t w.end_time t),
      r.same_start ∙ same.same_start,
    )

-- the code 100 has come, and the real answer cannot be read
not_continued_lem :
    (req : Request) (t : Time) (first : Response) (t' : Time) (n : NoAnswer)
    (requests : List RequestRead) (rest : List ResponseRead) (h w : HttpTrafficHandler)
    → Reports
        (record h { start_time = t; end_time = t' })
        (reported req.first_read req t (some first) t')
        w
    → read_answer req (response first t' ∷ no_answer n ∷ rest) (record h { start_time = t })
      ≡ breaks (discard_all req.second_discard_fails (report req.second_read req none w))
    → EndsWith h requests (response first t' ∷ no_answer n ∷ rest) (not_continued req t first t' n)
not_continued_lem req t first t' n requests rest h w same goes =
    let at = record h { start_time = t; end_time = t' } in
    let r =
      Reports-discard_all req.second_discard_fails at (report req.second_read req none w) _
        (second_report req none at w _ same) in
    (
      _,
      loop-request_breaks req t requests (response first t' ∷ no_answer n ∷ rest) h _ goes,
      r.more,
      r.same_start,
    )

end_lem :
    (e : End) (requests : List RequestRead) (rest : List ResponseRead) (h : HttpTrafficHandler)
    → IsEnd e
    → EndsWith h requests (responses_at e ++ rest) e
end_lem (requests_end t) requests rest h i =
    (record h { start_time = t }, unfold loop in refl, sym (append-nil _), refl)
end_lem (requests_fail t) requests rest h i = (
  warn Warning.parsing_request (record h { start_time = t }),
  unfold loop in refl,
  sym (append-nil _),
  refl,
)
end_lem (unanswered req t at_end) requests rest h i =
    let at = record h { start_time = t } in
    unanswered_lem req t at_end requests rest h at
      (record { more = sym (append-nil _); same_start = refl; same_end = refl })
      (unfold read_answer in refl)
end_lem (unanswered req t failed) requests rest h i =
    let at = record h { start_time = t } in
    unanswered_lem req t failed requests rest h (warn Warning.parsing_response at)
      (record { more = sym (append-nil _); same_start = refl; same_end = refl })
      (unfold read_answer in refl)
end_lem (not_continued req t first t' at_end) requests rest h i =
    let at = record h { start_time = t; end_time = t' } in
    let once = discard_all req.first_discard_fails (report req.first_read req (some first) at) in
    not_continued_lem req t first t' at_end requests rest h once
      (first_report req.first_discard_fails req (some first) at)
      (unfold read_answer read_continued in if_true _ _ _ i)
end_lem (not_continued req t first t' failed) requests rest h i =
    let at = record h { start_time = t; end_time = t' } in
    let once = discard_all req.first_discard_fails (report req.first_read req (some first) at) in
    let r = first_report req.first_discard_fails req (some first) at in
    not_continued_lem req t first t' failed requests rest h (warn Warning.parsing_continue once)
      (record { more = r.more; same_start = r.same_start; same_end = r.same_end })
      (unfold read_answer read_continued in if_true _ _ _ i)

handle_of_ended :
    (requests : List RequestRead) (responses : List ResponseRead) (f g : Bool)
    (connection : TcpConnection) (h h' : HttpTrafficHandler)
    → loop requests responses h ≡ ended h'
    → handle requests responses f g connection h ≡ some (leave f g connection h')
unfolding handle
handle_of_ended requests responses f g connection h h' q = ground arith

-- Requests with final answers, and requests with the code 100 that they expect and a real answer,
-- in any order, until the requests end or cannot be read, or an answer cannot be read, the real one
-- of a request with the code 100 included: `handle` comes to its end, ignores what comes to the two
-- streams afterwards, and has reported, in the order of the requests, exactly these transactions:
-- for each answer, and for an answer that cannot be read, one with the body that this read of the
-- request's body gives, and none if that read fails. After the code 100 the body is read a second
-- time, and the real answer has the time of the first one. Whoever reads the time of a request
-- later finds the time of the last read of a request in all of them.
pub handle_session :
    (xs : List Item) (e : End) (requests : List RequestRead) (rest : List ResponseRead)
    (response_fails request_fails : Bool) (connection : TcpConnection) (h : HttpTrafficHandler)
    → All IsItem xs
    → IsEnd e
    → (h' : HttpTrafficHandler) × (connection' : TcpConnection) × (handle
          (requests_of xs ++ (request_at e ∷ requests))
          (responses_of xs ++ (responses_at e ++ rest))
          response_fails
          request_fails
          connection
          h
        ≡ some (h', connection'))
      × (h'.sent ≡ h.sent ++ (reported_of xs ++ reported_at e))
      × (connection'.up_stream.ignore ≡ true)
      × (connection'.down_stream.ignore ≡ true)
      × ((t : HttpTransaction) → (read_later h' t).request.http_entry.time ≡ time_at e)
unfolding leave read_later
handle_session xs e requests rest f g connection h a i =
    let (h₁, goes, some_sent) =
      items_lem xs (request_at e ∷ requests) (responses_at e ++ rest) h a in
    let (h₂, ends, last_sent, last_time) = end_lem e requests rest h₁ i in
    let same : Reports h₂ [] h₂ = record {
      more = sym (append-nil _);
      same_start = refl;
      same_end = refl;
    } in
    let kept = Reports-discard_all g h₂ _ [] (Reports-discard_all f h₂ h₂ [] same) in
    (
      (leave f g connection h₂).0,
      (leave f g connection h₂).1,
      handle_of_ended _ _ f g connection h h₂ (goes ∙ ends),
      kept.more
          ∙ append-nil h₂.sent
          ∙ last_sent
          ∙ ap (λ l. l ++ reported_at e) some_sent
          ∙ append_assoc h.sent (reported_of xs) (reported_at e),
      refl,
      refl,
      λ t. kept.same_start ∙ last_time,
    )
