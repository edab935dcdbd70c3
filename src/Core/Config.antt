-- ===== src/Core/Config.antt =====
-- core/config.go: what `Init` accepts of the command line, after the flags have been read.
mod Flags
pub mod Accepts
mod Tests
use httshark.Base.{
  Bool, true, false, ◌&&◌, ◌||◌, not, ◌==◌, Option, none, some, List, [], ◌∷◌, Bytes, codes, same,
  if◌then◌else◌, length,
}
use httshark.Go.Text.{split}

-- the flags that are tested
pub record Config : Type 0 where
  pub device : Bytes
  pub har_processors : Bytes
  pub s3_exporter_bucket_name : Bytes
  pub capture : Bytes

-- the calls of `fatal`, which end the process
pub data Fatal : Type 0 where
  no_device : Fatal
  invalid_processor : Bytes → Fatal
  no_bucket invalid_capture : Fatal

-- `supportedProcessors`
abbrev pub supported_processors : List Bytes
supported_processors =
    codes "file"
    ∷ codes "sites-stats"
    ∷ codes "cw-sites-stats"
    ∷ codes "transactions-sizes"
    ∷ codes "sampled-transactions"
    ∷ codes "s3"
    ∷ []

unfoldable pub is_member : Bytes → List Bytes → Bool
is_member name [] = false
is_member name (n ∷ names) = same n name || is_member name names

-- the first loop over the processors
unfoldable pub check_supported : List Bytes → Option Fatal
unfolding is_member
check_supported [] = none
check_supported (processor ∷ processors) =
    let rest = check_supported processors in
    if not (is_member processor supported_processors)
    then some (invalid_processor processor)
    else rest

-- the second one
unfoldable pub check_bucket : Bytes → List Bytes → Option Fatal
check_bucket bucket [] = none
check_bucket bucket (processor ∷ processors) =
    let rest = check_bucket bucket processors in
    if same processor (codes "s3") && (length bucket == 0) then some no_bucket else rest

abbrev pub check_capture : Bytes → Option Fatal
check_capture capture =
    if not (same capture (codes "tshark")) && not (same capture (codes "httpdump"))
    then some invalid_capture
    else none

abbrev pub or_else : Option Fatal → Option Fatal → Option Fatal
or_else none next = next
or_else (some f) next = some f

-- The tests of `Init`: how the process ends, if it does.
unfoldable pub init : Config → Option Fatal
unfolding check_supported check_bucket
init config =
    let processors = split b',' config.har_processors in
    let rest = or_else (check_supported processors) (
      or_else (check_bucket config.s3_exporter_bucket_name processors)
        (check_capture config.capture)) in
    if length config.device == 0 then some no_device else rest
