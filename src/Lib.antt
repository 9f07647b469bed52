-- ===== src/Lib.antt =====
-- agentproxy is a proxy for HTTP, TCP and agent protocols. A listener accepts a connection, the
-- request's host and its listener's routes choose a route, the route's filters and policies change or
-- answer the request, and a backend gets what is left. The modules here model the parts of
-- crates/agentgateway that decide: no sockets, no tasks, no serialisation.
--
-- Parts, files and how they meet:
--
-- - RateLimit: http/localratelimit.rs. `Ratelimiter` is the bucket, `refill`, `try_wait_n` and
--   `amend_tokens` its operations, `try_from`, `check_request` and `check_llm_request` those of
--   `RateLimit`. Time is in nanoseconds. A call gets the readings of the clock that it makes as a list;
--   with more readings than the bucket has room for it ends, and a list that runs out is told apart
--   from an answer. Sums wrap around at 64 bits as in a release build. A call is one step: races of
--   threads between the atomic operations are not modelled.
-- - Hostname: `HostnameMatch` of types/agent.rs, the keys under which routes are filed and which a
--   request's host tries in turn.
-- - Route: the data of routes in types/agent.rs with the policies of http/timeout.rs and
--   http/retry/mod.rs. Regular expressions are kept as text.
-- - RouteSet, TcpRouteSet, Listener: `RouteSet`, `TCPRouteSet` and `ListenerSet` of types/agent.rs. A
--   hash map is a list of entries, whose order stands for the iteration order. Where the source says
--   "corrupted state" the model gives `none`. The binary search of the standard library is written out
--   in Prelude/Search, with the probe that may panic.
-- - Select: `select_best_route` of http/route.rs, on the keys of Hostname, the lookups of RouteSet and a
--   Listener. Regular expressions, the query parser and `HeaderValue::to_str` are parameters
--   (`MatchLib`).
-- - Filters: http/filters.rs. Filters/Uris has redirects and rewrites over an interface for the URIs of
--   the `http` crate (`UriLib`), Filters/Headers the header modifier over one for its header maps
--   (`HeaderLib`), whose laws are fields.
-- - Cors: http/cors.rs, over `HeaderLib`.
-- - Binds: the store of store/binds.rs, with the listeners and routes that wait for their parents. What
--   policies do and what backends are is left open, also in Binds/Policies, which has the policies that
--   apply to routes and backends. An insertion that makes a route set panic is `none`.
-- - Replay: the request body that can be sent again, http/retry/body.rs, with the buffers of
--   http/buflist.rs (Replay/Buffers). The inner body is a parameter: a type with its polls, its end and
--   its size hint. The mutex of the shared state is a value that is passed on, as the clones are polled
--   one after the other. The limit plus one wraps around at 64 bits as in a release build, and the check
--   of empty buffers in debug builds is left out. Replay/Tape has what the body promises: one tape that
--   every attempt reads from its start.
-- - Discovery: types/discovery.rs with the stores of store/discovery.rs. Discovery/Workloads is
--   `WorkloadStore` with `WorkloadByAddr`, Discovery/Services `ServiceStore`, Discovery/Store the two
--   together, Discovery/Formats the texts of identities, host names and addresses. IP addresses are
--   their bytes; their parser is a parameter. What a panic would be is `none`.
-- - Mcp: the relay of mcp/relay/mod.rs with the pool of mcp/relay/pool.rs; Mcp/Rbac is mcp/rbac.rs. The
--   expression language (`Cel`), the opening of upstreams and their answers are parameters. The three
--   calls share what comes before the upstream, `forward`. An error of an upstream's list leaves it out.
-- - Proxy: the loop of attempts in `proxy_internal` of proxy/httpproxy.rs, with the body of Replay. What
--   the upstream does in an attempt, its answer, its polls of the body and whether it drops the body, is
--   a parameter. The head of the request is left out. The number of attempts wraps around at 8 bits.
-- - Prelude: the shared names and lemmas: tests, lists, strings as lists of bytes, the places in them
--   where characters begin (Prelude/Utf8), maps, comparisons, sorted insertion, and `Outcome` for code that returns, fails or panics.
--
-- Recursion is structural, and the only fuel is the number of digits that `show_u16` and `show_u64`
-- write: five and twenty, enough for 16 and 64 bits.
--
-- Not modelled: the updates of the stores from local files, the wire
-- formats, the rest of the proxy's asynchronous code, MCP sessions, the LLM providers, the authentication of
-- connections, telemetry and transport.
pub mod Prelude
pub mod RateLimit
pub mod Hostname
pub mod Filters
pub mod Cors
pub mod Route
pub mod RouteSet
pub mod TcpRouteSet
pub mod Listener
pub mod Select
pub mod Binds
pub mod Discovery
pub mod Mcp
pub mod Replay
pub mod Proxy
