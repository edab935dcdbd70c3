-- ===== src/Export/Create.antt =====
-- exporters/processor.go: which HAR processors `CreateProcessor` makes.
use httshark.Base.{
  All, ◌≡◌, refl, ap₂, none, List, [], ◌∷◌, map, Bytes, codes, same, if◌then◌else◌, inl, inr,
}
use httshark.Go.Text.{split}
use httshark.Core.Config.{Config, init}
use httshark.Core.Config.Accepts.{IsSupported, init_accepts_iff}

pub data HarProcessorKind : Type 0 where
  sample_transactions sites_stats periodic_site_stats har_to_file s3_client transactions_sizes :
      HarProcessorKind

unfoldable pub choose_processor : Bytes → HarProcessorKind
choose_processor name =
    if same name (codes "sampled-transactions")
    then sample_transactions
    else if same name (codes "sites-stats")
    then sites_stats
    else if same name (codes "cw-sites-stats")
    then periodic_site_stats
    else if same name (codes "file")
    then har_to_file
    else if same name (codes "s3")
    then s3_client
    else transactions_sizes

-- `CreateProcessor`: the list `processors`
unfoldable pub create_processor : Config → List HarProcessorKind
unfolding choose_processor
create_processor config = map choose_processor (split b',' config.har_processors)

-- the name of a processor in the configuration
abbrev pub name_of : HarProcessorKind → Bytes
name_of sample_transactions = codes "sampled-transactions"
name_of sites_stats = codes "sites-stats"
name_of periodic_site_stats = codes "cw-sites-stats"
name_of har_to_file = codes "file"
name_of s3_client = codes "s3"
name_of transactions_sizes = codes "transactions-sizes"

name_of_choice : (name : Bytes) → IsSupported name → name_of (choose_processor name) ≡ name
unfolding choose_processor
name_of_choice name (inl q) = rw (← q) refl
name_of_choice name (inr (inl q)) = rw (← q) refl
name_of_choice name (inr (inr (inl q))) = rw (← q) refl
name_of_choice name (inr (inr (inr (inl q)))) = rw (← q) refl
name_of_choice name (inr (inr (inr (inr (inl q))))) = rw (← q) refl
name_of_choice name (inr (inr (inr (inr (inr (inl q)))))) = rw (← q) refl
name_of_choice name (inr (inr (inr (inr (inr (inr h)))))) = absurd h

names_of_choices :
    (ns : List Bytes) → All IsSupported ns → map name_of (map choose_processor ns) ≡ ns
names_of_choices [] h = refl
names_of_choices (n ∷ ns) (s, h) = ap₂ (λ x l. x ∷ l) (name_of_choice n s) (names_of_choices ns h)

-- With a configuration that `Init` accepts, `CreateProcessor` makes one processor for each name
-- between the commas, in their order, and each is the one of that name: the last branch, which
-- makes statistics of sizes of any other name, is taken for `transactions-sizes` only.
create_processor_lem :
    (config : Config)
    → init config ≡ none
    → map name_of (create_processor config) ≡ split b',' config.har_processors
unfolding create_processor
create_processor_lem config q =
    names_of_choices (split b',' config.har_processors)
      ((init_accepts_iff config).0 q).all_supported
