-- ===== src/Tshark/Correlator/Timeouts.antt =====
-- What a tick does: exactly the requests that have waited longer than the timeout are given up.
use httshark.Base.{
  ◌+◌, ◌≡◌, refl, sym, ap, ◌∙◌, Bool, true, false, ◌||◌, Option, none, some, List, [], ◌∷◌, arith,
  ℤ, eq_ℤ, eq_ℤ_iff, int_eq, if◌then◌else◌, lookup, erase, lookup-erase, DistinctKeys, Has, All,
  length, lookup-Each, length-erase, erase-DistinctKeys, Bool-cases, inl, inr,
}
use httshark.Go.Clock.{Time, Duration}
use httshark.Core.Entries.{HttpRequest, HttpTransaction}
use httshark.Tshark.Correlator.{
  Requests, expire_all, or_zero, is_expired, collect_expired, check_timeouts,
}
use httshark.Tshark.Correlator.Pending.{IsValid, pending, erase-IsValid, OwnStream}

-- Go walks through a map in an order of its own, and comes to each entry once.
abbrev pub Walks : (Requests → Requests) → Type 0
Walks arrange =
    (m : Requests)
    → DistinctKeys m
    → DistinctKeys (arrange m) × ((k : ℤ) → lookup k (arrange m) ≡ lookup k m)

abbrev given_up : HttpRequest → HttpTransaction
given_up r = record { request = r; response = none }

occurs : ℤ → List ℤ → Bool
occurs k [] = false
occurs k (s ∷ ss) = eq_ℤ s k || occurs k ss

lookup-expire_all :
    (k : ℤ) (ss : List ℤ) (m : Requests)
    → lookup k (expire_all ss m).0 ≡ (if occurs k ss then none else lookup k m)
unfolding expire_all occurs
lookup-expire_all k [] m = refl
lookup-expire_all k (s ∷ ss) m =
    ground (arith, lookup-expire_all k ss (erase s m), lookup-erase s k m)

-- No expired request is left out.
Has-expire_all :
    (k : ℤ) (r : HttpRequest) (ss : List ℤ) (m : Requests)
    → occurs k ss ≡ true
    → lookup k m ≡ some r
    → Has (given_up r) (expire_all ss m).1
unfolding expire_all occurs or_zero
Has-expire_all k r [] m o e = absurd (cc)
Has-expire_all k r (s ∷ ss) m o e = elim (Bool-cases (eq_ℤ s k)) [
  | inl t ↦ inl (rw ((eq_ℤ_iff s k).0 t, e))
  | inr f ↦ inr (Has-expire_all k r ss (erase s m) (rw f at o) (rw (lookup-erase s k m, f) e))
]

lookup_first : (j : ℤ) (w : HttpRequest) (l : Requests) → lookup j ((j, w) ∷ l) ≡ some w
unfolding lookup
lookup_first j w l = ground (arith, eq_ℤ_iff j j)

other_key :
    (j k : ℤ) (r : HttpRequest) (l : Requests)
    → lookup j l ≡ none
    → lookup k l ≡ some r
    → eq_ℤ j k ≡ false
other_key j k r l n e = elim (Bool-cases (eq_ℤ j k)) [
  | inl t ↦ let e' : j ≡ k = (eq_ℤ_iff j k).0 t in absurd (cc)
  | inr f ↦ f
]

lookup_later :
    (j k : ℤ) (w r : HttpRequest) (l : Requests)
    → lookup j l ≡ none
    → lookup k l ≡ some r
    → lookup k ((j, w) ∷ l) ≡ some r
lookup_later j k w r l n e = unfold lookup in rw (other_key j k r l n e) e

module _ (timeout : Duration) (now : Time) where
  abbrev pub expired_in : Option HttpRequest → Bool
  expired_in none = false
  expired_in (some r) = is_expired timeout now r

  occurs-collect_expired :
      (k : ℤ) (m : Requests)
      → DistinctKeys m
      → occurs k (collect_expired timeout now m) ≡ expired_in (lookup k m)
  unfolding collect_expired occurs lookup
  occurs-collect_expired k [] d = refl
  occurs-collect_expired k ((j, w) ∷ m) (dj, d) =
      ground (arith, occurs-collect_expired k m d, eq_ℤ_iff j k)

  -- The streams are waited on in the map, each by an expired request, and none stands twice.
  abbrev pub Waits : List ℤ → Requests → Type 0
  Waits [] m = Unit
  Waits (s ∷ ss) m =
      (r : HttpRequest) × (lookup s m ≡ some r)
      × (is_expired timeout now r ≡ true)
      × Waits ss (erase s m)

  Waits-collect_expired :
      (l m : Requests)
      → DistinctKeys l
      → ((k : ℤ) (r : HttpRequest) → lookup k l ≡ some r → lookup k m ≡ some r)
      → Waits (collect_expired timeout now l) m
  unfolding collect_expired
  Waits-collect_expired [] m d sub = tt
  Waits-collect_expired ((j, w) ∷ l) m (dj, d) sub = elim (Bool-cases (is_expired timeout now w)) [
    | inl t ↦ rw t (
      w,
      sub j w (lookup_first j w l),
      t,
      Waits-collect_expired l (erase j m) d (λ k r e.
          rw (lookup-erase j k m, other_key j k r l dj e) (sub k r (lookup_later j k w r l dj e))),
    )
    | inr f ↦ rw f (Waits-collect_expired l m d (λ k r e. sub k r (lookup_later j k w r l dj e)))
  ]

  -- what is known of a transaction that a tick sends
  abbrev pub IsGivenUp : Requests → HttpTransaction → Type 0
  IsGivenUp m t =
      (t.response ≡ none)
      × (pending m t.request.http_entry.stream ≡ some t.request)
      × (is_expired timeout now t.request ≡ true)

  IsGivenUp-erase :
      (s : ℤ) (m : Requests) (ts : List HttpTransaction)
      → All (IsGivenUp (erase s m)) ts
      → All (IsGivenUp m) ts
  IsGivenUp-erase s m [] h = tt
  IsGivenUp-erase s m (t ∷ ts) ((h₀, h₁, h₂), h) = ((h₀, kept, h₂), IsGivenUp-erase s m ts h)
    where
      kept : pending m t.request.http_entry.stream ≡ some t.request
      kept = ground (arith, lookup-erase s t.request.http_entry.stream m)

  expire_all-IsGivenUp :
      (ss : List ℤ) (m : Requests) → IsValid m → Waits ss m → All (IsGivenUp m) (expire_all ss m).1
  unfolding expire_all or_zero
  expire_all-IsGivenUp [] m v ws = tt
  expire_all-IsGivenUp (s ∷ ss) m v (r, e, x, ws) = (
    rw e (refl, ap (λ k. lookup k m) own ∙ e, x),
    IsGivenUp-erase s m _ (expire_all-IsGivenUp ss (erase s m) (erase-IsValid s m v) ws),
  )
    where
      own : r.http_entry.stream ≡ s
      own = lookup-Each OwnStream s r m v.own e

  length-expire_all :
      (ss : List ℤ) (m : Requests)
      → DistinctKeys m
      → Waits ss m
      → length m ≡ length (expire_all ss m).0 + length (expire_all ss m).1
  unfolding expire_all
  length-expire_all [] m d ws = omega arith
  length-expire_all (s ∷ ss) m d (r, e, x, ws) =
      ground
        (arith, length-expire_all ss (erase s m) (erase-DistinctKeys s m d) ws, length-erase s m d)

  module _ (arrange : Requests → Requests) (walks : Walks arrange) where
    pub check_timeouts_lem :
        (m : Requests)
        → check_timeouts timeout arrange now m
          ≡ expire_all (collect_expired timeout now (arrange m)) m
    unfolding check_timeouts
    check_timeouts_lem m = go (collect_expired timeout now (arrange m))
      where
        go :
            (ss : List ℤ)
            → (elim ss [ [] ↦ (m, []) | s ∷ more ↦ expire_all (s ∷ more) m ]) ≡ expire_all ss m
        go [] = refl
        go (s ∷ ss) = refl

    pub waits : (m : Requests) → DistinctKeys m → Waits (collect_expired timeout now (arrange m)) m
    waits m d =
        Waits-collect_expired (arrange m) m (walks m d).0 (λ k r e. sym ((walks m d).1 k) ∙ e)

    -- A tick keeps each request that has waited no longer than the timeout, and no other.
    pending-check_timeouts :
        (m : Requests) (stream : ℤ)
        → DistinctKeys m
        → pending (check_timeouts timeout arrange now m).0 stream
          ≡ (if expired_in (pending m stream) then none else pending m stream)
    pending-check_timeouts m k d = rw (
      check_timeouts_lem m,
      lookup-expire_all,
      occurs-collect_expired k (arrange m) (walks m d).0,
      (walks m d).1 k,
    )

    -- It sends one transaction without a response for each expired request: what it sends are
    -- requests that waited and are expired, each such request is among them, and with the requests
    -- that go on waiting they are as many as waited before.
    pub check_timeouts_sends :
        (m : Requests)
        → IsValid m
        → let (kept, out) = check_timeouts timeout arrange now m in
          All (IsGivenUp m) out
          × ((stream : ℤ) (r : HttpRequest)
              → pending m stream ≡ some r
              → is_expired timeout now r ≡ true
              → Has (record { request = r; response = none }) out)
          × (length m ≡ length kept + length out)
    check_timeouts_sends m v = rw (check_timeouts_lem m) (
      expire_all-IsGivenUp ss m v (waits m v.distinct),
      λ k r e x.
          Has-expire_all k r ss m
            (rw
              (
                occurs-collect_expired k (arrange m) (walks m v.distinct).0,
                (walks m v.distinct).1 k,
                e,
              )
              x)
            e,
      length-expire_all ss m v.distinct (waits m v.distinct),
    )
      where
        ss : List ℤ
        ss = collect_expired timeout now (arrange m)
