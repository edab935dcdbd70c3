-- ===== src/Core/Config/Tests.antt =====
-- A configuration with two processors.
use httshark.Base.{◌≡◌, ◌↔◌, refl, none, codes}
use httshark.Go.Text.{split}
use httshark.Core.Config.{Config, init}
use httshark.Core.Config.Accepts.{IsAccepted, init_accepts_iff}

abbrev two_processors : Config
two_processors = record {
  device = codes "eth0";
  har_processors = codes "file,s3";
  s3_exporter_bucket_name = codes "traffic";
  capture = codes "tshark";
}

init_accepts_iff_example : (init two_processors ≡ none) ↔ IsAccepted two_processors
init_accepts_iff_example = init_accepts_iff two_processors

is_accepted : init two_processors ≡ none
unfolding init split
is_accepted = refl
