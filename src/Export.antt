-- ===== src/Export.antt =====
-- Package exporters: transactions become HAR entries (Convert), which are put into files (Split)
-- in batches (Collect) and handed to the processors that the configuration names (Create): Sites,
-- Sizes, Samples, Periodic, S3 and File. Health tells whether transactions come.
pub mod Convert
pub mod Split
pub mod Collect
pub mod Sites
pub mod Sizes
pub mod Samples
pub mod Periodic
pub mod S3
pub mod Create
pub mod File
mod Health
