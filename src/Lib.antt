-- ===== src/Lib.antt =====
-- Verification of Pentaract, a file storage that keeps files as encrypted chunks in Telegram.
--
-- The program (Go, internal/): a file is cut into chunks of a fixed size, each chunk is encrypted, sent to
-- Telegram by one of the workers of its storage, downloaded again and compared before its row is written.
-- A download or a byte range loads the chunks through a cache and several workers, in parallel, and hands
-- them to the client in order. Handlers check the access of the user first. The database, Telegram, the
-- clock, AES-GCM and the hash are parameters: records of the answers that they give, and where a theorem
-- relies on them, the law of an AEAD (IsAead) as a hypothesis.
--
-- Parts:
--   Prelude      Boolean tests and lists over native numbers, slices of lists, signed integers.
--   Domain       internal/domain/models.go, internal/service/constants.go: records and limits.
--   Paths        internal/pathutil/pathutil.go, over bytes.
--   Cache        internal/service/stream_chunk_cache.go: map and list of the LRU cache.
--   OrderedJobs  internal/service/ordered_jobs.go: the collector of runOrderedJobs over any order of
--                arrival, and in Spec the sequential loop that it implements.
--   Download     internal/service/chunk_downloader.go: whole files and ranges, over that loop.
--   Fetch        the upper half of the same file: workers, fallback, retries and decryption of a chunk.
--   Crypto       internal/service/chunk_crypto.go: the payload format and the fallback key.
--   Upload       internal/service/chunk_uploader.go: attempts for one chunk, and in Run the phases.
--                Sent tells without that state which chunks Telegram takes.
--   Breaker      internal/service/verify_circuit_breaker.go.
--   Scheduler    internal/service/worker_scheduler.go: buffered tokens and waiting counts.
--   Deleter      internal/service/chunk_deleter.go.
--   HttpRange    parseSingleByteRange of internal/handler/download_handler.go.
--   Access       internal/service/access.go over internal/repository/access.go.
--                Race has two requests at once, whose checks and writes alternate.
--   Watch        internal/service/watch_progress.go over internal/repository/watch_progress.go.
--   Media        internal/media/plan.go.
--   Matroska     internal/media/matroska.go: Sizes of elements, and in Parser the header and its tracks.
--   Workers      internal/repository/storage_workers.go, internal/service/storage_workers.go: workers and
--                their usages, batches of tokens under the rate limit.
--   Files        internal/repository/files.go and, in Service, internal/service/files.go: the rows of files
--                and chunks, LIKE patterns, numbered names, listings, moves, archives.
--   Storages     internal/repository/storages.go, internal/service/storages.go: creation and deletion, with
--                the cascades of internal/startup/startup.go.
--   Users        internal/repository/users.go, internal/service/users.go, internal/service/auth.go.
--   Telegram     internal/telegram/client.go: the retry loop and the calls over it.
--   Trackers     the download trackers of internal/handler/download_handler.go and
--                internal/handler/progress_tracker.go: a step relation, timers included.
--
-- State is passed explicitly; an operation under a mutex is one step. A Go function that returns a value
-- or an error is an Outcome, one that changes state returns the error and the new state. Field and
-- function names are those of the source in snake case; ids, tokens and times are natural numbers, texts
-- are lists of bytes or, in Files and Users, of characters, folded as ASCII. Tables are lists of rows.
--
-- Bounds and fuel: the retry loops recurse on the attempts that are left, from the constants of
-- constants.go, so that they end by construction. The collector's inner loop has the number of jobs as its
-- fuel, enough because each turn moves on to the next job. The eviction loop of the cache recurses on the
-- entries. The loop of a caller who waits for a token runs over the turns given, and ends without a result
-- where they run out. The loops of the Matroska parser have a turn for each byte and one more, since an
-- element takes at least two; a loop without turns would return an error of its own. The retries of
-- Telegram are those of maxRetries. Offsets are natural numbers without a bound: the sizes of files are
-- far below 2^63. Positions are not cut to 16 bits, but in the additional data of the cipher.
--
-- Not modelled: channels and goroutines beyond the order of arrivals and completions, the progress shown
-- to users beyond its counters, logs, buffer pools, the singleflight around the cache, failing statements
-- of the database where a model has no answer for them, the HLS pipeline, the HTTP layer and the start-up.
mod Prelude
pub mod Domain
pub mod Paths
pub mod Cache
pub mod OrderedJobs
pub mod Crypto
pub mod Download
pub mod Fetch
pub mod Upload
pub mod Breaker
pub mod Scheduler
pub mod Deleter
pub mod HttpRange
pub mod Access
pub mod Watch
pub mod Media
pub mod Workers
pub mod Files
pub mod Matroska
pub mod Users
pub mod Telegram
pub mod Trackers
pub mod Storages
