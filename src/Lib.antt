-- ===== src/Lib.antt =====
-- Tiller Router, an LLM router: a client sends a request with its key, the router resolves the key's
-- route to an ordered chain of upstream targets, and tries them in turn.
--
-- The parts that are modelled, and how they interact. The paths are from the repository's root.
--   Prelude    shared names, Boolean tests, texts, and `Table`, the Go maps with string keys.
--   Tenant     internal/server/server.go: `tenantKey`, with which the maps below keep accounts apart.
--   Cooldown   internal/server/cooldown.go: targets that failed and leave the rotation for a while
--              (`set`, `cooled`, `statusByName`, `remove`, `removeByName`, `clearFor`, `snapshot`), and the
--              two handlers that show and release a cooldown.
--   Inflight   internal/server/inflight.go: tickets of running requests (`clientStart`, `tryAcquire`,
--              `clientStreaming`, `clientResolved`, `clientEnd`, the target legs and the snapshots). A
--              method returns the new tracker and the deltas it emits to live consumers.
--   Quota      internal/server/client.go (`beginClientRequest`) and internal/store/usage_counters.go: the
--              plan's limits, over the tracker and the monthly counters. What is emitted there is left out.
--   Limiter    internal/server/login_limiter.go: lockouts after failures (`recordFailure`, `locked`),
--              request budgets (`allowAttempt`), the shared budget of a full table, and the address and key
--              that they are charged to (Limiter.Address).
--   Netip      what the router uses of Go's net and net/netip, a parameter.
--   Auth       internal/auth: the shape of keys (KeyText), the scopes (Scopes), the management tokens with
--              their cache (Tokens), and the interleavings of verifications and changes (Tokens.Granted).
--   Fallback   internal/server/client.go: which failures open a cooldown, and what a failed attempt does to
--              the cooldown store and to the log row.
--   Proxy      internal/server/client.go, `proxy`: one turn of the loop over the targets (Attempt), the two
--              passes and the reply when no target serves (Loop), the relay of the chosen target and the
--              deferred calls (Relay), over Cooldown, Inflight and Fallback. What a turn finds outside is
--              a `World`; the loop's `i--` makes it one on fuel.
--   Routing    internal/server/client.go, `resolveRoute`: from a key and the model it asks for to the route
--              and its targets, over the queries of internal/store, which are arguments.
--   Live       internal/server/live.go: the subscribers of the dashboards, the queues and the broadcast.
--   LogWriter  internal/server/logwriter.go: the queue of log rows, its batches and its discards.
--   ErrorText, UpstreamError
--              internal/server/upstream_error.go: what is told of a provider's error response, the
--              unwrapping of envelopes and `sanitizeErrorText`. Depth 3, as in the source.
--   Virtual    internal/server/virtual_capabilities.go: the limits and flags that a virtual model advertises.
--   Dns        internal/dnsfallback/resolver.go: the server lists, one exchange, and the framing.
--
-- Conventions. A Go map is a list of pairs in which a key stands once; its order stands for the order in
-- which `range` visits it, and no theorem depends on it. A `time.Time` is a number of nanoseconds, 0 the
-- zero time; a method takes the clock that the source reads as an argument. A method that holds its mutex
-- throughout is one step; one that takes it twice is several. A pointer into a map is a write of the entry.
-- Counters of running requests and failures are natural numbers: the source never lets them go below
-- zero, and they stay far below the width of `int`. The revision of the token cache wraps at 2^64, and the
-- theorems on it ask for fewer mutations than that. Every loop is over a list but for two. That of the
-- proxy retries a target after a refresh of its credentials: its fuel for a pass is twice the number of
-- targets, which is enough, since a provider is refreshed once in a request. The unwrapping of error
-- envelopes counts down from the source's own limit.
--
-- Not modelled: protocol translation and streaming, the providers and OAuth, the store's SQL but for the
-- usage counters, identity and mail, configuration, the administration handlers and the web interface. HMAC, hashing, JSON, base64, clocks and the network are
-- parameters.
pub mod Prelude
pub mod Tenant
pub mod Netip
pub mod Cooldown
pub mod Inflight
pub mod Limiter
pub mod Auth
pub mod Quota
pub mod Fallback
pub mod Routing
pub mod Proxy
pub mod Live
pub mod LogWriter
pub mod ErrorText
pub mod UpstreamError
pub mod Virtual
pub mod Dns
