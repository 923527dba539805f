-- ===== src/Lib.antt =====
-- Verification of OLWSX. Its Rust code: the three caches behind one trait (cache/), the web
-- application firewall (security/waf.rs), the metrics codec and the latency histogram
-- (observability/metrics.rs), and the plugin SDK with its registry and two example plugins
-- (plugins/). The way of a request through its server: the edge, in Go (edge/), the actors, in Elixir
-- (actors/), and the core, in C++ (core/). And the configuration
-- language, in Ruby (config/wsx.rb), and the quarantine of failing workers, in Elixir
-- (security/isolation.ex).
--
-- The Rust parts stand beside each other. The caches meet in the `Cache` trait; the plugins meet the
-- registry in the traits `FilterPlugin` and `HandlerPlugin`; the histogram exports an envelope,
-- which the encoder writes; the firewall evaluates rules on a view of a request. The flags of
-- cache/lib.rs are the ones that the compression facade sets.
--
-- A request comes to the edge, which writes it as an envelope to the socket of the actors and reads a
-- response from it. The listener of the actors decodes the envelope, asks its shield, and submits the
-- request to a process of its own, if not too many are in progress; the process answers it by the hints
-- of the edge, or by a call of the core through a NIF. The core answers through its C ABI, with buffers
-- that the caller has to free, from its routes, its L2 cache or a computed body.
--
-- Files, and what they model:
--   Base            shared names, byte strings, hash maps as association lists, and the text
--                   functions of the standard library that the code calls
--   Cache           cache/lib.rs: `Entry`, `CacheError`, the trait as a record of functions
--   Cache/Meta      cache/lib.rs: the module `meta`
--   Cache/Contract  what every implementation of the trait promises, any sequence of calls as a
--                   list, and the unbounded store that the caches are measured against;
--                   Cache/Contract/Lossless: when a cache loses nothing
--   Cache/L1, Cache/L2, Cache/L3, Cache/Compression
--                   cache/l1.rs, cache/l2.rs, cache/l3.rs, cache/compression.rs
--   Cache/Shared    the locks of cache/l1.rs, cache/l2.rs and cache/l3.rs: threads in calls on one
--                   cache, as a step relation; Cache/Shared/Handles has `L1`, `L2` and `L3`
--   Waf             security/waf.rs: the rules, the request, and the matching of one rule
--   Waf/Engine      security/waf.rs: `Engine::decide`
--   Waf/Rules       security/waf.rs: `default_rules`
--   Metrics         observability/metrics.rs: the envelope, `counter`, `gauge`, `summary`
--   Metrics/Histogram, Metrics/Wire
--                   observability/metrics.rs: `LatencyHistogram`, and `encode_wire` with its helpers
--   Metrics/Histogram/Checked
--                   `observe_ms` in a build with overflow checks
--   Plugins         plugins/sdk.rs: the types, the traits and the helpers on responses
--   Plugins/Registry, Plugins/Guard, Plugins/StaticJson
--                   `Registry` of plugins/sdk.rs, plugins/filter_example.rs and
--                   plugins/handler_example.rs
--   Waf/Rules/Example, Metrics/Wire/Example, Plugins/Registry/Flow, Plugins/Guard/Example,
--   Plugins/StaticJson/Example
--                   the tests that these files of the program hold, as functions into Bool
--   Core            core/abi/c_api.h and the state of core/main.cpp
--   Core/Process    `olwsx__process_request_impl` of core/main.cpp, with core/filters/gzip_filter.cpp;
--                   Core/Process/Expected: what a request is answered with, without buffers
--   Core/Router, Core/Security, Core/Export, Core/Arena
--                   core/routing/matcher.cpp and core/routing/router.cpp, `SecurityGate` of
--                   core/main.cpp, core/memory/allocator.cpp with the exports of core/main.cpp, and
--                   core/memory/arena.cpp
--   Core/Control    the other calls of the C ABI, in core/main.cpp, and sequences of calls
--   Edge/Dispatch, Edge/Headers
--                   `Handler` of edge/http/dispatcher.go, and edge/http/parser.go
--   Edge/Wire, Edge/RateLimit, Edge/CoreCall
--                   edge/wire/serialize.go and edge/wire/deserialize.go, edge/rate_limit.go, and
--                   `coreCall` of edge/main.go
--   Actors          the envelope and the response of actors/lib/olwsx/actors/
--   Actors/Codec, Actors/Router, Actors/Shield, Actors/Isolation, Actors/Workflow, Actors/Manager,
--   Actors/Listener
--                   codec.ex, router.ex, ddos_shield.ex, isolation.ex, workflow.ex, manager.ex and
--                   listener.ex in actors/lib/olwsx/actors/
--   Config, Config/Lexer, Config/Parser, Config/Compiler
--                   `Token` and the nodes, `Lexer`, `Parser`, and `Validator` with `Compiler` of
--                   config/wsx.rb
--   Policy          security/isolation.ex
-- The modules below each of these hold its lemmas and theorems, and its concrete runs in Tests.
--
-- State. A method on `&mut self`, or on the state behind a lock, is a function that takes the state
-- and returns the new one beside its result. Each cache method holds its lock from its first access
-- to the state to its return; the lock is the thread that holds it, and the threads of Cache/Shared
-- take their steps in any order: a thread reads the state, works on it, and writes it in another step,
-- so that without the lock a write could be lost. A hash map is an association list with the laws of a map; the order
-- of the list stands for the iteration order. Text is the list of its UTF-8 bytes. Instants and
-- durations are numbers of nanoseconds, and the clock is an argument.
--
-- The state of the core is its `Core` object. Its heap is the list of the blocks that were allocated and
-- not freed, each with its content; whether the n-th `malloc` gets memory is an argument, and freeing
-- or reading what is not a live block is no result. A pointer and its length are one value. The counter
-- of Actors/Isolation is changed by processes whose steps come in any order.
--
-- Numbers. A u64 counter wraps at 2^64, as in a build without overflow checks; in
-- Metrics/Histogram/Checked it panics there, as in a build with them. The lengths that the
-- encoder casts to u16 wrap at 2^16; an i64 is an integer whose bits are its two's complement.
-- So are the length fields of an envelope and of the core's responses at 2^32, and a size_t of the arena
-- at 2^64.
--
-- Loops. The eviction loop of the L1 cache is recursion on the queue, which gets shorter in each
-- round. That of the L2 cache runs on fuel, as many rounds as there are queued keys; each round takes
-- one, so the loop ends by its own test. The loops of the lexer and the parser get as many rounds as
-- there are characters or tokens, or more, and each round takes one. The scan of a body counts its
-- rounds down.
--
-- Parameters. `str::to_lowercase` on non-ASCII text is an argument of the matcher; the theorems that
-- need it assume that it agrees with the ASCII mapping on ASCII text. The `f64` arithmetic of
-- `quantile` is the record `F64`; the theorems assume the rank that it gives to lie between 1 and the
-- number of observations. Plugins are arguments of the registry.
-- The core's NIF, the start of a process and the arrival of its result in time are arguments of the
-- actors; the connection to them is one of the edge, and so are the checks behind its hints,
-- `net.SplitHostPort` and `strings.TrimSpace`. The listener asks its socket for a number of bytes, which
-- is an argument, since the environment sets it (1 MiB by default); it never gets more. Whether the
-- socket returns with fewer bytes while the client keeps it open is an argument too.
--
-- Not modelled: how a lock waits and which waiter it lets in, the poisoning of a lock (no method
-- panics while it holds one), and memory exhaustion outside the core. A string slice inside a character
-- is modelled as a panic. The seconds between two times of the edge's rate limiter are exact, where the
-- source takes them from a float64. Calls of the core follow one another. Not modelled either are the
-- HTTP, TLS, QUIC and WebSocket servers of the edge, the supervision, worker pools and telemetry of the
-- actors, the glue between the NIF and the C ABI (it is not in the repository), and the other languages'
-- parts: admin, ai, gpu, the schema checks and the translator of config, and the Go and Elixir files of
-- observability.
pub mod Base
pub mod Cache
pub mod Waf
pub mod Metrics
pub mod Plugins
pub mod Core
pub mod Config
pub mod Edge
pub mod Actors
pub mod Policy
