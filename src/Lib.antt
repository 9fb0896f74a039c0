-- ===== src/Lib.antt =====
-- The Formation Web Analytics collector.
--
-- The collector takes events of web pages over HTTP, checks and enriches them, holds them in a
-- bounded queue, and sends them in batches to Elasticsearch. The parts and their files:
--
-- * Config models the settings of internal/config/config.go and the normal form of a domain,
--   Config/Parse the parsers of domains, site origins and lists, Config/Settings the readers of
--   single settings, and Config/Load is Load. Config/Lists is about the parsers, Config/Load/Sound
--   about Load.
-- * Event is the event of internal/events/events.go with the JSON values of its payload.
--   Events/Payload checks and cuts payloads (validatePayload, truncatePayload); Events/Fields
--   checks, cuts and sanitizes the other fields (Validate, ApplyFieldLimits, Normalize,
--   sanitizeURL); Events/Metadata is what a request says of its events (NewRequestMetadata, Enrich,
--   clientIP), with Events/UserAgent for useragent.go and Events/Languages for request_metadata.go;
--   Events/Decode is DecodeBatch. Events/Fields/Private is about what the sanitizers leave,
--   Events/Languages/Tags about the tags of Accept-Language.
-- * Queue is the ring buffer of internal/queue/queue.go, over any type of item. A Go slice is a
--   list, with the index arithmetic of the source, and the notification channel the number of its
--   tokens. Queue/Fifo says what the queue promises, on a list; Queue/View reads the list off the
--   ring; Queue/Refine, Queue/Drain and Queue/Trace compare the two.
-- * RateLimiter is internal/httpapi/ratelimiter.go. RateLimiter/Window says what it promises, on a
--   log of the calls allowed in this minute; RateLimiter/Refine compares; RateLimiter/Bounds
--   derives bounds for whole sequences of calls.
-- * Http is internal/httpapi/server.go. Http/Collect is handleCollect in two halves: `screen` turns
--   a request into events or the early return that refuses it, and `conclude` changes the queue and
--   the counters. Http/Screening is about the first half, Http/Admission about the second,
--   Http/Outcome about both. Http/Privacy is about the page addresses of queued events, Http/Agents
--   about classifyUserAgent. Http/Routes is Handler, with what http.ServeMux does, and
--   Http/Routes/Effects says which requests change the state.
-- * Elastic is internal/elastic/client.go: BuildBulkPayload, Send with the reading of its answer,
--   and Elastic/Backoff; Elastic/Ping is Ping with applyAuth. Elastic/Document is the document of
--   an event, a map from keys to values; Elastic/Document/Lookup says what it holds,
--   Elastic/Payload what is sent again, and Elastic/Kept which events Send hands back.
--   Elastic/Sender is the interface that the batcher uses, a record of `send` and of what `send`
--   accounts for; Elastic/Answer fills it with the client.
-- * Batcher is internal/batcher/batcher.go: sendWithRetry, flush, flushAll and flushFullBatches,
--   and Batcher/Loop the goroutine of Run. Batcher/Retries is about sendWithRetry, Batcher/Flush
--   about flush, Batcher/Rounds about the loops of flushes, Batcher/Delivery about what they
--   deliver where every batch is accepted, Batcher/Intake about the counter of accepted events, and
--   Batcher/Contents about the events that come back into the queue, for every sender that fills
--   the interface.
-- * Geo is internal/geo/geo.go, and Geo/Watch the watch of cmd/collector/main.go over it.
--   Geo/Lookup and Geo/Reload are about its two operations.
-- * Collector is cmd/collector/main.go: the steps of request handlers and of the batcher, in any
--   order, on the queue and the counters that they share. Collector/Ledger is the account of events
--   in every reachable state, Collector/Flushes compares the two steps of a flush with flush
--   itself, Collector/Shutdown is the end of the program, and Collector/Clock the time of the next
--   reload and the level of the log. Collector/Program is the whole program as one step relation:
--   the handlers, the `select` of Run with its loops of flushes, and the goroutine that shuts the
--   program down. Collector/Program/Places says which phases and places go together, Consistent and
--   Reachable what holds in every reachable state; Rounds, Flushed and Loops compare the loops as
--   functions with sequences of steps, Runs a round of Run and the shutdown, and Delivery is about
--   the end of the program. Contents and Stored say which events it holds. Collector/Boot is the
--   set-up of main, with the failures on which it exits.
-- * Metrics is the counters of internal/metrics/metrics.go, which wrap at 2^64. Metrics/Buckets is
--   about the histograms, Metrics/Render is their printed form, and Metrics/Render/Scrape what a
--   reader gets back from it.
-- * Go models the functions of package strings on byte strings, and what is used of floats; Go/Trim
--   is about strings.TrimSpace. Base holds the shared helpers, and Samples the data of the tests,
--   which stand in modules Examples.
--
-- Every operation under a mutex is one step. An int of the source that is never negative is a
-- natural number, but for the pause of Backoff, whose sum is kept in int64. Go's URL, time, media-type and Unicode functions, encoding/json, the user-agent
-- parser, the GeoIP database, the network, the clock, the timer and the random source are
-- parameters (Go.Platform, Events.Decode.Json, Http.Services, Elastic.Transport,
-- Batcher.Environment, Geo.Disk), and no theorem relies on a law of theirs except where its
-- statement names one (a random source below its bound, a context that stays done, a disk that
-- opens and closes what it is asked to, a URL that is printed without its query).
--
-- Loops over slices are recursion on lists or on a count of rounds that the source computes (the
-- attempts of sendWithRetry, the copies of grow and Drain, the doublings of Backoff). Only
-- `flush_while` runs on fuel, since other goroutines may refill the queue; while they do not, a
-- round for each queued event and one more are enough. Goroutines that wake up on channels (Run,
-- watchGeoIP) are recursion on the list of what they receive.
--
-- Signals and the servers of net/http are steps of the program that may come at any time.
--
-- Not modelled: the inside of net/http, the printing of JSON and its compression, the Content-Type
-- headers, logging, and the tools.
pub mod Base
pub mod Batcher
pub mod Collector
pub mod Config
pub mod Elastic
pub mod Event
pub mod Events
pub mod Geo
pub mod Go
pub mod Http
pub mod Metrics
pub mod Queue
pub mod RateLimiter
pub mod Samples
