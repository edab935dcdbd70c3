-- ===== src/Export/Collect/Dump.antt =====
-- What a dump counts and what the HAR processors get.
use httshark.Base.{ℕ, ◌+◌, ◌-◌, ◌%◌, ◌^◌, ◌<◌, ◌≡◌, ap, List, [], ◌∷◌, arith, length}
use httshark.Core.Entries.{HttpTransaction}
use httshark.Export.Split.Group.{WalksGroups}
use httshark.Export.Split.Total.{total_entries, get_har_files_total}
use httshark.Export.Collect.{Config, HarProcessor, convert_all, files_of, dump_transactions}

-- Each transaction is an entry or is ignored.
convert_all_count :
    (config : Config) (ts : List HttpTransaction)
    → length (convert_all config ts).0 + (convert_all config ts).1 ≡ length ts
unfolding convert_all
convert_all_count config [] = omega arith
convert_all_count config (t ∷ ts) = ground (arith, convert_all_count config ts)

-- The counter grows by the number of entries in the files that go to the HAR processors, modulo
-- 2^64, whether or not the files are split by application; without transactions nothing changes.
pub dump_transactions_count :
    {S : Type 0}
    → (config : Config) (processors : List (HarProcessor S)) (s : S) (count : ℕ)
      (ts : List HttpTransaction)
    → WalksGroups config.arrange
    → count < 2 ^ 64
    → (dump_transactions config processors s count ts).1
      ≡ (count + total_entries (files_of config ts)) % 2 ^ 64
unfolding dump_transactions
dump_transactions_count config processors s count [] walks h =
    unfold files_of convert_all in
    omega (arith, get_har_files_total config.split_by_host config.arrange walks [])
dump_transactions_count config processors s count (t ∷ ts) walks h =
    ap (λ n. (count + n) % 2 ^ 64) kept
  where
    kept :
        length (t ∷ ts) - (convert_all config (t ∷ ts)).1 ≡ total_entries (files_of config (t ∷ ts))
    kept =
        unfold files_of in
        omega (
          arith,
          convert_all_count config (t ∷ ts),
          get_har_files_total config.split_by_host config.arrange walks
              (convert_all config (t ∷ ts)).0,
        )
