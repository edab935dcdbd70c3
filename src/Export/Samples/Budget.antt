-- ===== src/Export/Samples/Budget.antt =====
-- Which entries are saved.
use httshark.Base.{
  ℕ, zero, suc, ◌+◌, ◌-◌, ◌==◌, ◌≡◌, refl, sym, Bool, false, List, [], ◌∷◌, arith, if◌then◌else◌,
  length, take,
}
use httshark.Har.{Entry}
use httshark.Export.Samples.{SampleTransactions, is_relevant, process}

abbrev pub relevant : List Entry → List Entry
relevant [] = []
relevant (e ∷ es) = if is_relevant e then e ∷ relevant es else relevant es

take_nil : (n : ℕ) → take {A = Entry} n [] ≡ []
take_nil zero = refl
take_nil (suc n) = refl

take_step :
    (n : ℕ) (e : Entry) (es : List Entry)
    → take n (e ∷ es) ≡ (if n == 0 then [] else e ∷ take (n - 1) es)
take_step zero e es = refl
take_step (suc n) e es = ground arith

-- Where no file fails, `Process` saves the first of the relevant entries, as many as `printed`
-- still allows, numbers them one after the other and returns no error.
process_saves :
    (fails : ℕ → Entry → Bool)
    → ((n : ℕ) (e : Entry) → fails n e ≡ false)
    → (es : List Entry) (s : SampleTransactions)
    → let (s', saved, failed) = process fails es s in
      (saved ≡ take s.printed (relevant es))
      × (s'.sequence ≡ s.sequence + length saved)
      × (s'.printed + length saved ≡ s.printed)
      × (failed ≡ false)
unfolding process
process_saves fails ok [] s = (sym (take_nil s.printed), omega arith, omega arith, refl)
process_saves fails ok (e ∷ es) s = ground (
  arith,
  ok (s.sequence + 1) e,
  process_saves fails ok es s,
  process_saves fails ok es (record { printed = s.printed - 1; sequence = s.sequence + 1 }),
  take_step s.printed e (relevant es),
)
