-- ===== src/Dump/Handler/Session.antt =====
-- Everything that can come on a connection until `handle` ends.
pub mod Reported
mod Turns
pub mod Ended
use httshark.Base.{
  ◌≡◌, refl, sym, ap, ap₂, ◌∙◌, Bool, true, false, ◌&&◌, Option, none, some, List, [], ◌∷◌, ◌++◌,
  append-nil, append_assoc, Bytes, codes, pos, eq_ℤ, All, Option-cases, inl, inr, if_false, if_true,
  arith,
}
use httshark.Go.Clock.{Time}
use httshark.Core.Entries.{HttpTransaction, HttpResponse}
use httshark.Dump.Connection.{TcpConnection}
use httshark.Dump.Handler.{
  Request, Response, RequestRead, request, request_eof, request_error, ResponseRead, response,
  response_eof, response_error, HttpTrafficHandler, warn, Warning, request_of, response_of,
  discard_all, report_response, report, Turn, goes_on, breaks, expect_continue, read_answer,
  read_continued, ended, loop, leave, handle, read_later,
}

-- a request with the reads of its answer: a final one, or the code 100 and then the real one; and
-- the connection's `lastTimestamp` after the request and after the first answer
pub data Item : Type 0 where
  answered : Request → Time → Response → Time → Item
  continued : Request → Time → Response → Time → Response → Time → Item

-- The code tells them apart by the header of the request and the code of the first answer.
abbrev pub is_continued : Request → Response → Bool
is_continued req first = expect_continue req && eq_ℤ first.status_code (pos 100)

abbrev pub IsItem : Item → Type 0
IsItem (answered req t res t') = is_continued req res ≡ false
IsItem (continued req t first t' real t'') = is_continued req first ≡ true

abbrev pub request_in : Item → RequestRead
request_in (answered req t res t') = request req t
request_in (continued req t first t' real t'') = request req t

abbrev pub requests_of : List Item → List RequestRead
requests_of [] = []
requests_of (x ∷ xs) = request_in x ∷ requests_of xs

abbrev pub answers_in : Item → List ResponseRead
answers_in (answered req t res t') = response res t' ∷ []
answers_in (continued req t first t' real t'') = response first t' ∷ response real t'' ∷ []

abbrev pub responses_of : List Item → List ResponseRead
responses_of [] = []
responses_of (x ∷ xs) = answers_in x ++ responses_of xs

-- a read of an answer that gives none
pub data NoAnswer : Type 0 where
  at_end failed : NoAnswer

abbrev pub no_answer : NoAnswer → ResponseRead
no_answer at_end = response_eof
no_answer failed = response_error

-- what ends the loop
pub data End : Type 0 where
  requests_end requests_fail : Time → End
  unanswered : Request → Time → NoAnswer → End
  not_continued : Request → Time → Response → Time → NoAnswer → End

abbrev pub IsEnd : End → Type 0
IsEnd (requests_end t) = Unit
IsEnd (requests_fail t) = Unit
IsEnd (unanswered req t n) = Unit
IsEnd (not_continued req t first t' n) = is_continued req first ≡ true

abbrev pub request_at : End → RequestRead
request_at (requests_end t) = request_eof t
request_at (requests_fail t) = request_error t
request_at (unanswered req t n) = request req t
request_at (not_continued req t first t' n) = request req t

abbrev pub responses_at : End → List ResponseRead
responses_at (requests_end t) = []
responses_at (requests_fail t) = []
responses_at (unanswered req t n) = no_answer n ∷ []
responses_at (not_continued req t first t' n) = response first t' ∷ no_answer n ∷ []

abbrev pub time_at : End → Time
time_at (requests_end t) = t
time_at (requests_fail t) = t
time_at (unanswered req t n) = t
time_at (not_continued req t first t' n) = t

-- the body of an answer, as it is reported
abbrev pub or_unknown : Option Bytes → Bytes
or_unknown none = codes "UNKNOWN"
or_unknown (some body) = body

abbrev pub answer_of : Option Response → Time → Option HttpResponse
answer_of none t = none
answer_of (some res) t = some (response_of res (or_unknown res.body) t)

-- what is reported of a request, by what the read of its body gives: nothing where it fails
abbrev pub reported : Option Bytes → Request → Time → Option Response → Time → List HttpTransaction
reported none req t res t' = []
reported (some body) req t res t' =
    record { request = request_of req body t; response = answer_of res t' } ∷ []

-- After the code 100 the body is read a second time, and the time of the answer is the first one's.
abbrev pub reported_in : Item → List HttpTransaction
reported_in (answered req t res t') = reported req.first_read req t (some res) t'
reported_in (continued req t first t' real t'') =
    reported req.first_read req t (some first) t' ++ reported req.second_read req t (some real) t'

abbrev pub reported_of : List Item → List HttpTransaction
reported_of [] = []
reported_of (x ∷ xs) = reported_in x ++ reported_of xs

abbrev pub reported_at : End → List HttpTransaction
reported_at (requests_end t) = []
reported_at (requests_fail t) = []
reported_at (unanswered req t n) = reported req.first_read req t none t
reported_at (not_continued req t first t' n) =
    reported req.first_read req t (some first) t' ++ reported req.second_read req t none t'
