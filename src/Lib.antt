-- ===== src/Lib.antt =====
-- A verification library for httshark, which captures HTTP traffic and exports it as HAR files.
--
-- The program has two engines. With tshark, tshark/command.go starts dumpcap and tshark and passes
-- on the lines of their output; tshark/line/processor.go gathers the lines of one JSON object;
-- tshark/bulk/processor.go parses the object and makes a request or a response of it;
-- tshark/correlator/processor.go pairs requests and responses by the number of their TCP stream. The
-- other engine, package httpdump, puts TCP packets into order by itself (httpdump/receive_window.go)
-- and reads HTTP from the streams (httpdump/http_traffic_handler.go). Either gives transactions to
-- exporters/processor.go, which makes HAR entries of them, gathers them, and hands a file for each
-- application to the HAR processors, of which exporters/sites_stats.go is one.
--
--   Base           shared helpers: lists, texts as bytes, integers, maps as association lists
--   Go             the parts of Go's library that the program uses: strings, strconv, sort, time
--   Core.Entries   core/http_entries.go: the types the parts exchange
--   Core.Hosts     core/hosts.go (`ProduceHosts`)
--   Core.Config    core/config.go: the flags with their defaults, and the tests of `Init`
--   Core.Snapshot  core/log.go: the log and the snapshot of its last messages
--   Core.Aggregated
--                  core/aggregated/aggregated_log.go: the counted warnings
--   Core.Files     core/file.go (`SaveToFile`)
--   Har            har/har.go: the types of the HAR format
--   Tshark.Line    tshark/line/processor.go (`aggregate`)
--   Tshark.Bulk    tshark/bulk/processor.go (`parseJson`, `parseTime`, `convert`) and
--                  tshark/types/stdout.go
--   Tshark.Correlator
--                  tshark/correlator/processor.go (`correlate`, `updateRequest`, `updateResponse`,
--                  `checkTimeouts`)
--   Tshark.Command `streamRead` and the command of `Start` in tshark/command.go
--   Tshark.Filter  `getFilter` and `GetHostFilter` of tshark/command.go
--   Dump.Seq       `compareTCPSeq` of httpdump/receive_window.go
--   Dump.Window    the rest of httpdump/receive_window.go (`insert`, `confirm`, `expand`)
--   Dump.Stream    httpdump/network_stream.go: one direction of a connection; its child Reassembly
--                  joins the window, the channel and the reader
--   Dump.Connection
--                  httpdump/tcp_connection.go (`onReceive`, `forceClose`, `finish`); its child
--                  Delivery joins both directions with their readers
--   Dump.Assembler httpdump/tcp_assembly.go: the table of connections, and the loop of `RunHttpDump`
--                  in httpdump/main.go
--   Dump.Handler   httpdump/http_traffic_handler.go (`handle`, `report`)
--   Dump.Header    `convertHeaders` of httpdump/http_traffic_handler.go
--   Dump.Detect    `isHTTPRequestData` of httpdump/tcp_assembly.go
--   Dump.Filter    the filter of `setDeviceFilter` in httpdump/main.go
--   Dump.Device    `openSingleDevice` of httpdump/main.go
--   Dump.Endpoint  httpdump/endpoint.go and the key of a connection in httpdump/tcp_assembly.go
--   Export.Convert `convert` and what it calls in exporters/processor.go
--   Export.Split   `shouldDumpEntry`, `getHarFiles` and `getHarFile` there
--   Export.Collect `process`, `dumpTransactions`, and the goroutines `aggregate` and `export` there
--   Export.Sites   exporters/sites_stats.go: what `Process` records, and the file of `print`
--   Export.Sizes   the same of exporters/transactions_sizes.go
--   Export.Samples `Process` of exporters/sample_transactions.go
--   Export.Periodic
--                  exporters/cloud_watch_sites_stats.go
--   Export.S3      exporters/s3.go (`Process`, `doExport`)
--   Export.File    exporters/har_to_file.go
--   Export.Create  `CreateProcessor` of exporters/processor.go
--   Export.Health  `CheckHealth` there, and `health` of server/entrypoint.go
--   Server         how `Run` of server/entrypoint.go joins the tshark engine, the exporter and the
--                  client of exporters/s3.go, and its report of dropped packets
--
-- State is a record and an operation a function to the new state. A loop around `select` is a
-- function of the events in the order in which they are taken, or, where two goroutines share a
-- state, a relation between states. A channel that can be full has its capacity where an operation
-- may wait for it: the one of a stream, and the one of `Stop`. An index out of range, which panics
-- in Go, is a value of its own (`panic`, `fault`, `none`). A Go string is a list of bytes; an `int`
-- is an integer, a `uint32` or `uint64` a natural number with its wrap written out. A map is an
-- association list, and the order in which Go walks through it a function that the theorems
-- quantify over. The loops of the window run on the number of packets, which is the bound that the
-- code tests. Every other loop is structural, over a list that the code walks through, or over what
-- the clock and the other goroutines give it round by round.
--
-- Code outside the repository is an argument: the JSON codec, gzip, the bucket, the layout of time
-- stamps, the parser of query strings, what net/http reads from a stream, the part of
-- `strings.ToLower` beyond ASCII, `strconv.ParseFloat`, the text of a `float32`, the type
-- `float64`, pcap. Not modelled: the start of processes, the calls of AWS, the hooks of the logger
-- (one of them a copy of another project's file), and the parsing of command line flags.
pub mod Base
pub mod Go
pub mod Core
pub mod Tshark
pub mod Server
pub mod Dump
pub mod Har
pub mod Export
