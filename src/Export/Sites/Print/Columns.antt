-- ===== src/Export/Sites/Print/Columns.antt =====
-- The file of the sites is a table: which hosts stand in it, and what its lines have in each column.
use httshark.Base.{
  ℕ, suc, ◌≡◌, ◌≢◌, ◌↔◌, refl, sym, ap, ap₂, ◌∙◌, Option, none, some, List, [], ◌∷◌, ◌++◌, map,
  append-nil, arith, Bytes, codes, ℤ, pos, negsuc, bytes_eq, int_eq, lookup, length, length-append,
  DistinctKeys, WalksMap, Has, inl, inr, Option-cases,
}
use httshark.Go.Text.{join, split, Lacks, split_of_Lacks, split-append_sep}
use httshark.Go.Number.{itoa, IsDigits, itoa-IsDigits}
use httshark.Go.Sort.{sort, string_order, IsIncreasing}
use httshark.Go.Sort.Keys.{keys, sort-keys}
use httshark.Export.Sites.{SizesStats, SingleSiteStats, SitesStats, buckets, or_0}
use httshark.Export.Sites.Print.{
  Walk, titles, bucket_counts, print_range, print_sizes_stats, values, print_single, host_messages,
  messages,
}

-- the columns of a line
abbrev pub columns : Bytes → List Bytes
columns line = split b',' line

-- the least and the greatest size, if there is one
abbrev pub range_cells : Option ℤ → Option ℤ → List Bytes
range_cells none max = codes "NA" ∷ codes "NA" ∷ []
range_cells (some min) none = codes "NA" ∷ codes "NA" ∷ []
range_cells (some min) (some max) = itoa min ∷ itoa max ∷ []

-- how many sizes there were in a bucket
abbrev pub count_cell : List (ℤ × ℕ) → ℤ → Bytes
count_cell counts bucket = itoa (pos (or_0 (lookup bucket counts)))

abbrev pub size_cells : SizesStats → List Bytes
size_cells s = range_cells s.min s.max ++ map (count_cell s.counts) buckets

digits_lack_comma : (s : Bytes) → IsDigits s → Lacks b',' s
digits_lack_comma [] h = tt
digits_lack_comma (c ∷ s) (hc, h) = (ground arith, digits_lack_comma s h)

itoa_negsuc : (n : ℕ) → itoa (negsuc n) ≡ b'-' ∷ itoa (pos (suc n))
unfolding itoa
itoa_negsuc n = refl

itoa-Lacks : (n : ℤ) → Lacks b',' (itoa n)
itoa-Lacks (pos n) = digits_lack_comma (itoa (pos n)) (itoa-IsDigits n)
itoa-Lacks (negsuc n) =
    rw (itoa_negsuc n)
      ((λ q. absurd (omega arith)), digits_lack_comma (itoa (pos (suc n))) (itoa-IsDigits (suc n)))

cell : (s : Bytes) → Lacks b',' s → columns s ≡ s ∷ []
cell s h = split_of_Lacks b',' s h

columns-bucket_counts :
    (counts : List (ℤ × ℕ)) (front : Bytes) (bs : List ℤ)
    → columns (front ++ bucket_counts counts bs) ≡ columns front ++ map (count_cell counts) bs
unfolding bucket_counts
columns-bucket_counts counts front [] =
    ap columns (append-nil front) ∙ sym (append-nil (columns front))
columns-bucket_counts counts front (b ∷ bs) =
    let count = count_cell counts b in
    split-append_sep b',' front (count ++ bucket_counts counts bs)
    ∙ ap (λ l. columns front ++ l)
        (columns-bucket_counts counts count bs
          ∙ ap (λ l. l ++ map (count_cell counts) bs) (cell count (itoa-Lacks _)))

na_range : columns (codes "NA,NA") ≡ codes "NA" ∷ codes "NA" ∷ []
unfolding split
na_range = refl

columns-print_range : (min max : Option ℤ) → columns (print_range min max) ≡ range_cells min max
columns-print_range none max = na_range
columns-print_range (some min) none = na_range
columns-print_range (some min) (some max) =
    split-append_sep b',' (itoa min) (itoa max)
    ∙ ap₂ ◌++◌ (cell (itoa min) (itoa-Lacks min)) (cell (itoa max) (itoa-Lacks max))

columns-print_sizes_stats : (s : SizesStats) → columns (print_sizes_stats s) ≡ size_cells s
unfolding print_sizes_stats
columns-print_sizes_stats s =
    columns-bucket_counts s.counts (print_range s.min s.max) buckets
    ∙ ap (λ l. l ++ map (count_cell s.counts) buckets) (columns-print_range s.min s.max)

all_columns : List Bytes → List Bytes
all_columns [] = []
all_columns (p ∷ ps) = columns p ++ all_columns ps

columns-join :
    (p : Bytes) (ps : List Bytes)
    → columns (join (codes ",") (p ∷ ps)) ≡ columns p ++ all_columns ps
unfolding join all_columns
columns-join p [] = sym (append-nil (columns p))
columns-join p (q ∷ ps) =
    split-append_sep b',' p (join (codes ",") (q ∷ ps))
    ∙ ap (λ l. columns p ++ l) (columns-join q ps)

summary_name : columns (codes "__Summary__") ≡ codes "__Summary__" ∷ []
unfolding split
summary_name = refl

length-columns-titles : length (columns titles) ≡ 41
unfolding titles itoa split
length-columns-titles = refl

length-range_cells : (min max : Option ℤ) → length (range_cells min max) ≡ 2
length-range_cells none max = refl
length-range_cells (some min) none = refl
length-range_cells (some min) (some max) = refl

length-size_cells : (s : SizesStats) → length (size_cells s) ≡ 11
length-size_cells s = omega (
  arith,
  length-append (range_cells s.min s.max) (map (count_cell s.counts) buckets),
  length-range_cells s.min s.max,
)

module _ (ratio : ℕ → ℕ → Bytes) (plain : (a b : ℕ) → Lacks b',' (ratio a b)) where
  -- what a line has behind its name
  abbrev pub cells : ℕ → SingleSiteStats → List Bytes
  cells n stats =
      itoa (pos n)
      ∷ itoa (pos stats.total_size)
      ∷ itoa (pos stats.total_transactions)
      ∷ ratio stats.total_size n
      ∷ ratio stats.total_transactions n
      ∷ ratio stats.total_size stats.total_transactions
      ∷ itoa (pos stats.requests_without_response)
      ∷ (size_cells stats.requests_stats
          ++ (size_cells stats.responses_stats ++ size_cells stats.transactions_stats))

  length-cells : (n : ℕ) (stats : SingleSiteStats) → length (cells n stats) ≡ 40
  length-cells n stats = omega (
    arith,
    length-append (size_cells stats.requests_stats)
        (size_cells stats.responses_stats ++ size_cells stats.transactions_stats),
    length-append (size_cells stats.responses_stats) (size_cells stats.transactions_stats),
    length-size_cells stats.requests_stats,
    length-size_cells stats.responses_stats,
    length-size_cells stats.transactions_stats,
  )

  columns-print_single :
      (n : ℕ) (name : Bytes) (stats : SingleSiteStats)
      → columns (print_single ratio n name stats) ≡ columns name ++ cells n stats
  unfolding print_single all_columns
  columns-print_single n name stats =
      columns-join name (values ratio n stats)
      ∙ ap (λ l. columns name ++ l)
          (rw
            (
              cell (itoa (pos n)) (itoa-Lacks _),
              cell (itoa (pos stats.total_size)) (itoa-Lacks _),
              cell (itoa (pos stats.total_transactions)) (itoa-Lacks _),
              cell (ratio stats.total_size n) (plain _ _),
              cell (ratio stats.total_transactions n) (plain _ _),
              cell (ratio stats.total_size stats.total_transactions) (plain _ _),
              cell (itoa (pos stats.requests_without_response)) (itoa-Lacks _),
              columns-print_sizes_stats stats.requests_stats,
              columns-print_sizes_stats stats.responses_stats,
              columns-print_sizes_stats stats.transactions_stats,
              append-nil,
            )
            refl)

  module _ (seconds : ℕ → ℕ) (m : List (Bytes × SingleSiteStats)) where
    -- One line for each host, in their order, with the numbers of the host's statistics; the `i`-th
    -- reading of the clock is that of the first line.
    abbrev pub RowsOf : ℕ → List Bytes → List Bytes → Type 0
    RowsOf i [] [] = Unit
    RowsOf i [] (l ∷ ls) = ⊥
    RowsOf i (h ∷ hs) [] = ⊥
    RowsOf i (h ∷ hs) (l ∷ ls) =
        ((stats : SingleSiteStats) × (lookup h m ≡ some stats)
          × (columns l ≡ columns h ++ cells (seconds i) stats))
        × RowsOf (suc i) hs ls

    host_messages-RowsOf :
        (i : ℕ) (hosts : List Bytes)
        → ((host : Bytes) → Has host hosts → lookup host m ≢ none)
        → RowsOf i hosts (host_messages ratio seconds i m hosts)
    unfolding host_messages
    host_messages-RowsOf i [] known = tt
    host_messages-RowsOf i (h ∷ hs) known = (
      elim (Option-cases (lookup h m)) [
        | inl n ↦ absurd (known h (inl refl) n)
        | inr (stats, e) ↦ (stats, e, rw e (columns-print_single (seconds i) h stats))
      ],
      host_messages-RowsOf (suc i) hs (λ host has. known host (inr has)),
    )

  -- The lines of a file: the titles, the summary, and one for each host of the map.
  pub record IsTable (seconds : ℕ → ℕ) (stats : SitesStats) (lines : List Bytes) : Type 0 where
    pub hosts : List Bytes
    pub summary : Bytes
    pub rows : List Bytes
    pub lines_are : lines ≡ titles ∷ summary ∷ rows
    pub in_order : IsIncreasing string_order hosts
    pub complete : (host : Bytes) → Has host hosts ↔ (lookup host stats.hosts_stats ≢ none)
    pub titles_width : length (columns titles) ≡ 41
    pub cells_width : (n : ℕ) (s : SingleSiteStats) → length (cells n s) ≡ 40
    pub summary_columns :
        columns summary ≡ codes "__Summary__" ∷ cells (seconds 0) stats.total_stats
    pub row_columns : RowsOf seconds stats.hosts_stats 1 hosts rows

  -- If the text of a quotient has no comma, then the lines of the file of the sites are the titles,
  -- the summary and a line for each host that has statistics, once, in increasing order of the
  -- hosts, whatever the order of the walk through the map. Read at its commas, a line has the name,
  -- the seconds, size, transactions, the three quotients and the requests without a response of its
  -- statistics, and of requests, responses and both together the least and greatest size, or `NA`
  -- twice, and the count in each bucket: the totals for the summary, and its own statistics for
  -- each host. These are 40 columns behind the name, and the titles are 41, so that a line has the
  -- columns of the titles exactly if the host has no comma.
  pub messages-IsTable :
      (seconds : ℕ → ℕ) (arrange : Walk) (stats : SitesStats)
      → WalksMap arrange
      → DistinctKeys stats.hosts_stats
      → IsTable seconds stats (messages ratio seconds arrange stats)
  unfolding messages
  messages-IsTable seconds arrange stats walks d =
      let m = stats.hosts_stats in
      let (distinct, same) = walks m d in
      let (sorted, has) = sort-keys string_order (arrange m) distinct in
      let hosts = sort string_order (keys (arrange m)) in
      let known : (host : Bytes) → Has host hosts → lookup host m ≢ none =
        λ host h q. (has host).0 h (same host ∙ q) in
      record {
        hosts = hosts;
        summary = print_single ratio (seconds 0) (codes "__Summary__") stats.total_stats;
        rows = host_messages ratio seconds 1 m hosts;
        lines_are = refl;
        in_order = sorted;
        complete = λ host. (known host, λ ne. (has host).1 (λ q. ne (sym (same host) ∙ q)));
        titles_width = length-columns-titles;
        cells_width = length-cells;
        summary_columns =
            columns-print_single (seconds 0) (codes "__Summary__") stats.total_stats
            ∙ ap (λ l. l ++ cells (seconds 0) stats.total_stats) summary_name;
        row_columns = host_messages-RowsOf seconds m 1 hosts known;
      }
