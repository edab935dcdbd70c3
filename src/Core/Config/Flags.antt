-- ===== src/Core/Config/Flags.antt =====
-- core/config.go: the configuration, and the flags with their defaults. Package `flag` sets what the
-- command line gives and leaves the rest.
use httshark.Base.{ℕ, ◌≡◌, Bool, true, false, [], ◌∷◌, Bytes, codes, ℤ, pos, none, arith}
use httshark.Go.Clock.{Duration}
use httshark.Go.Text.{split}
use httshark.Core.Config.{Config, init, is_member}

record Configuration : Type 0 where
  sampled_transactions_rate : ℤ
  network_stream_channel_size : ℤ
  channel_buffer : ℤ
  verbose : ℤ
  log_snapshot_level : ℤ
  log_snapshot_amount : ℤ
  limited_error_length : ℤ
  dump_cap_buffer_size : ℤ
  instance_id : ℤ
  s3_exporter_max_num_of_entries : ℤ
  rotate_file_max_size : ℤ
  rotate_file_max_backups : ℤ
  rotate_file_max_age : ℤ
  split_by_host : Bool
  split_by_app_id : Bool
  activate_health_monitor : Bool
  send_site_stats_to_cloud_watch : Bool
  s3_exporter_should_compress : Bool
  aws_disable_ssl : Bool
  use_cloud_watch_logger_hook : Bool
  ignore_health_check : Bool
  bpf_type : Bytes
  hosts : Bytes
  keep_content_types : Bytes
  har_processors : Bytes
  capture : Bytes
  device : Bytes
  output_folder : Bytes
  log_snapshot_file : Bytes
  sites_stats_file : Bytes
  requests_sizes_stats_file : Bytes
  responses_sizes_stats_file : Bytes
  sampled_transactions_folder : Bytes
  aws_region : Bytes
  dcva_name : Bytes
  s3_exporter_bucket_name : Bytes
  cloud_watch_log_levels : Bytes
  rotate_file_level : Bytes
  rotate_file_file_name : Bytes
  s3_exporter_purge_interval : Duration
  log_snapshot_interval : Duration
  response_timeout : Duration
  response_check_interval : Duration
  stats_interval : Duration
  cloud_watch_stats_interval : Duration
  health_monitor_interval : Duration
  aggregated_log_interval : Duration
  export_interval : Duration
  network_stream_channel_timeout : Duration
  full_channel_check_interval : Duration
  full_channel_timeout : Duration
  health_transaction_timeout : Duration

-- the calls of `flag.IntVar`, `flag.BoolVar`, `flag.StringVar` and `flag.DurationVar`, whose
-- durations are nanoseconds
abbrev defaults : Configuration
defaults = record {
  sampled_transactions_rate = pos 1;
  network_stream_channel_size = pos 1_024;
  channel_buffer = pos 1;
  verbose = pos 0;
  log_snapshot_level = pos 0;
  log_snapshot_amount = pos 0;
  limited_error_length = pos 15;
  dump_cap_buffer_size = pos 20;
  instance_id = pos 0;
  s3_exporter_max_num_of_entries = pos 1_024;
  rotate_file_max_size = pos 50;
  rotate_file_max_backups = pos 20;
  rotate_file_max_age = pos 100;
  split_by_host = true;
  split_by_app_id = true;
  activate_health_monitor = true;
  send_site_stats_to_cloud_watch = true;
  s3_exporter_should_compress = true;
  aws_disable_ssl = false;
  use_cloud_watch_logger_hook = true;
  ignore_health_check = true;
  bpf_type = codes "not-strict";
  hosts = codes ":80";
  keep_content_types = codes "json,xml";
  har_processors = codes "file";
  capture = codes "tshark";
  device = [];
  output_folder = codes ".";
  log_snapshot_file = codes "snapshot.log";
  sites_stats_file = codes "statistics.csv";
  requests_sizes_stats_file = codes "requests_sizes.csv";
  responses_sizes_stats_file = codes "responses_sizes.csv";
  sampled_transactions_folder = codes "sampled";
  aws_region = codes "us-east-1";
  dcva_name = codes "undefined-dcva";
  s3_exporter_bucket_name = [];
  cloud_watch_log_levels = codes "panic,fatal,error,warn";
  rotate_file_level = codes "trace";
  rotate_file_file_name = codes "httshark.log";
  s3_exporter_purge_interval = pos 60_000_000_000;
  log_snapshot_interval = pos 0;
  response_timeout = pos 60_000_000_000;
  response_check_interval = pos 10_000_000_000;
  stats_interval = pos 10_000_000_000;
  cloud_watch_stats_interval = pos 60_000_000_000;
  health_monitor_interval = pos 60_000_000_000;
  aggregated_log_interval = pos 60_000_000_000;
  export_interval = pos 10_000_000_000;
  network_stream_channel_timeout = pos 5_000_000_000;
  full_channel_check_interval = pos 20_000_000;
  full_channel_timeout = pos 5_000_000_000;
  health_transaction_timeout = pos 10_000_000_000;
}

-- the part that `Init` tests
abbrev tested : Configuration → Config
tested c = record {
  device = c.device;
  har_processors = c.har_processors;
  s3_exporter_bucket_name = c.s3_exporter_bucket_name;
  capture = c.capture;
}

-- The defaults want a device and nothing else.
defaults_accepted :
    (name : ℕ) (device : Bytes) → init (tested (record defaults { device = name ∷ device })) ≡ none
unfolding init split is_member
defaults_accepted name device = ground arith
