-- ===== src/Lib.antt =====
-- Verification of bursthttp, an HTTP/1.1 client with pipelining and connection pools.
--
-- The client resolves a request to a pool of connections, writes it to one of them, and reads the
-- response; the retryer decides whether to try again. A failed test of the source that returns
-- early is a branch of the definition here, a byte is a natural number, a Go string or slice is the
-- list of its bytes, and a 64-bit integer that may wrap is written modulo 2 ^ 64.
--
--   Base       shared names: tests on numbers, lists, bytes, scanning loops, signed integers
--   Errors     errors.go: the sentinels, DetailedError, IsRetryable, IsTimeout
--   Input      what a connection delivers in successive reads; readByte, readExact, io.ReadFull
--   Response   response.go: the response, ensureBufferSize, Reset, the lookup of fields
--   Parser     parser.go. HeaderEnd, StatusCode, ContentLength, TransferEncoding and Headers read
--              the head; Chunked, UntilEof and Gzip read bodies; Buffered is readResponseBuffered
--              and Direct readResponse
--   Request    request.go: SetHeader, the growth of the buffers, resolveURL
--   Writer     writer.go: writeRequest, its parts and writeInt
--   Connection connection.go: IsHealthy, CanAcceptRequest, the health window and the score,
--              the tuning of the pipeline depth; Connection.Pipeline is the queue of pipelined
--              requests and ResponseReader.run, Connection.Link the socket with ensureConnection,
--              prepareBody, writeRequest and readResponse, and Connection.Sequential doSequential
--   Config     config.go: the presets and Validate
--   Dns        dns.go: the cache of addresses
--   Proxy      socks5.go and proxy.go: the reads and writes on the connection to a proxy, the SOCKS5
--              dialer and, in Proxy.Connect, the CONNECT request to an HTTP proxy
--   Scheduler  scheduler.go: the queue of a host and its workers
--   Batch      batch.go: the entries of a batch and its goroutines
--   Metrics    metrics.go: the built-in collector and its snapshot
--   Retry      retry.go: ShouldRetry, adaptiveDelay, WaitAdaptive; Retry.Loop is the loop of
--              DoWithContext in client.go
--   Pool       pool.go: the pool of one host, its searches, in Pool.Shared the interleavings of its
--              atomic steps, and in Pool.Key the key that DoWithContext builds and parseHostPort
--              takes apart
--   Tests      runs on small inputs, and the theorems at concrete ones
--
-- A response holds its body buffer and the length of the body, so that `Body`, a slice of the
-- buffer, shares its bytes. readResponseBuffered reads from an `Input`, a list of chunks that ends
-- with an error, and its outcome is a state, an error, or a panic of a slice expression.
-- The loops of the readers take fuel: a round of readChunkedBody takes one, and so does a round of
-- readResponseUntilEOF and a trailer; two more than the number of chunks are enough for a chunked
-- body without trailers. The loop over the head in readResponse takes one round more than its buffer
-- has bytes, and the loop over the rest of a body one for each of its bytes. The retry loop recurses
-- on the attempts that are left. The searches of the pool start again when they have dropped a
-- connection: one round more than there are connections is enough.
--
-- Parameters: `compress/gzip`, `url.Parse`, `strconv.Atoi` and `time.Parse` on a Retry-After, the
-- floating-point delay of Backoff and its multiplier, timers and the context, what one attempt gives,
-- `net.ParseIP`, base64 and `net.LookupHost`, what a dial gives, and what a connection that failed
-- to be read still holds.
--
-- Not modelled: what doPipelined does around its lock; the map of hosts, the rate limiter,
-- streaming and multipart bodies, the inspector; deadlines, sockets, TLS and `sync.Pool`.
-- A `make` that fails for want of memory is not modelled, and counters of 32 and 64 bits that only
-- count requests and bytes are not wrapped. The size that ensureBufferSize computes is: a size that
-- wraps to a negative number panics in `make`.
pub mod Base
pub mod Errors
pub mod Input
pub mod Parser
pub mod Response
pub mod Request
pub mod Writer
pub mod Config
pub mod Connection
pub mod Dns
pub mod Retry
pub mod Pool
pub mod Proxy
pub mod Scheduler
pub mod Metrics
pub mod Batch
pub mod Tests
