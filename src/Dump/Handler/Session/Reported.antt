-- ===== src/Dump/Handler/Session/Reported.antt =====
-- What `report` and `discardAll` change.
use httshark.Base.{
  ◌≡◌, refl, sym, ap, ap₂, ◌∙◌, Bool, true, false, Option, none, some, List, ◌++◌, append-nil,
  append_assoc, Bytes, Option-cases, inl, inr,
}
use httshark.Go.Clock.{Time}
use httshark.Core.Entries.{HttpTransaction}
use httshark.Dump.Handler.{
  Request, Response, HttpTrafficHandler, discard_all, report_response, report,
}
use httshark.Dump.Handler.Session.{reported}

-- The second handler has reported more, and has the same times.
pub record Reports (h : HttpTrafficHandler) (new : List HttpTransaction) (h' : HttpTrafficHandler)
    : Type 0 where
  pub more : h'.sent ≡ h.sent ++ new
  pub same_start : h'.start_time ≡ h.start_time
  pub same_end : h'.end_time ≡ h.end_time

pub Reports-report :
    (read : Option Bytes) (req : Request) (res : Option Response) (h : HttpTrafficHandler)
    → Reports h (reported read req h.start_time res h.end_time) (report read req res h)
unfolding report report_response
Reports-report none req res h = record {
  more = sym (append-nil _);
  same_start = refl;
  same_end = refl;
}
Reports-report (some body) req none h = record { more = refl; same_start = refl; same_end = refl }
Reports-report (some body) req (some res) h = elim (Option-cases res.body) [
  | inl n ↦ rw n (record { more = refl; same_start = refl; same_end = refl })
  | inr (b, q) ↦ rw q (record { more = refl; same_start = refl; same_end = refl })
]

pub Reports-discard_all :
    (fails : Bool) (h h' : HttpTrafficHandler) (new : List HttpTransaction)
    → Reports h new h'
    → Reports h new (discard_all fails h')
Reports-discard_all true h h' new r = record {
  more = r.more;
  same_start = r.same_start;
  same_end = r.same_end;
}
Reports-discard_all false h h' new r = r

-- a report of a request, and its discarding, from a handler that may have warned
pub first_report :
    (fails : Bool) (req : Request) (res : Option Response) (h : HttpTrafficHandler)
    → Reports h
        (reported req.first_read req h.start_time res h.end_time)
        (discard_all fails (report req.first_read req res h))
first_report fails req res h =
    Reports-discard_all fails h (report req.first_read req res h) _
      (Reports-report req.first_read req res h)

pub second_report :
    (req : Request) (res : Option Response) (h h₁ : HttpTrafficHandler) (new : List HttpTransaction)
    → Reports h new h₁
    → Reports h
        (new ++ reported req.second_read req h.start_time res h.end_time)
        (report req.second_read req res h₁)
second_report req res h h₁ new r =
    let s = Reports-report req.second_read req res h₁ in
    record {
      more =
          s.more
          ∙ ap₂ (λ (t t' : Time). h₁.sent ++ reported req.second_read req t res t') r.same_start
              r.same_end
          ∙ ap (λ l. l ++ reported req.second_read req h.start_time res h.end_time) r.more
          ∙ append_assoc h.sent new _;
      same_start = s.same_start ∙ r.same_start;
      same_end = s.same_end ∙ r.same_end;
    }
