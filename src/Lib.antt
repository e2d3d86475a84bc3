-- ===== src/Lib.antt =====
-- A model of the C++ extensions of this repository, with the theorems that make them correct.
--
-- The repository holds independent Proxy-Wasm extensions (extensions/*) and a small common library
-- (extensions/common). An extension runs inside the VMs of a proxy: the host calls its callbacks
-- (configuration, timer, request headers, HTTP response), and it calls the host back (shared data,
-- clock, HTTP calls, local replies).
--
-- Files:
-- - Prelude, Prelude/*: the shared names, Boolean tests, lists under native numbers, byte strings.
-- - Host: the host's status codes, the verdict of a header callback, the local reply.
-- - Base64, Base64/*: extensions/common/wasm/base64.h. `encode` and `decode_without_padding` follow
--   the loops of `Base64::encode` and `Base64::decodeWithoutPadding`; Base64/Padding is about the reads
--   of the padding; Base64/Groups and
--   Base64/Ungroup are the independent description by groups of RFC 4648.
-- - Json, Json/*: extensions/common/wasm/json_util.{h,cc}. The JSON library is the record `JsonLib`.
-- - RateLimit, RateLimit/*: extensions/local_rate_limit. RateLimit/Shared is the host's shared data
--   with compare-and-swap as an interface with laws, and programs as trees of host calls;
--   RateLimit/Bucket is bucket.cc (`get_token`, `refill_token`, `initialize_token_bucket`);
--   RateLimit/Plugin is plugin.{h,cc}; RateLimit/System runs any number of VMs, one host call of one
--   VM at a time, in any order. RateLimit/Memory is a host that meets the laws.
-- - Opa, Opa/*: extensions/open_policy_agent. Opa/Cache is cache.{h,cc}, Opa/Plugin is
--   plugin.{h,cc}. Opa/Links relates the list and the map of iterators into it, Opa/Touch has the
--   abstract recency list.
-- - BasicAuth, BasicAuth/*: extensions/basic_auth. BasicAuth/Config and BasicAuth/Check are
--   plugin.{h,cc}; BasicAuth/Strings is the part of Abseil they call, as an interface with laws, and
--   BasicAuth/Scan an implementation of it.
-- - GrpcLogging, GrpcLogging/*: extensions/grpc_logging. GrpcLogging/Buffer is plugin.{h,cc}, with log
--   entries of any type; GrpcLogging/Entry has its configuration and the fields of an entry. GrpcLogging/Delivery runs log entries, ticks and
--   callbacks in any order.
-- - ResponseFlag, ResponseFlag/*: `parseResponseFlag` of extensions/common/util.cc.
-- - Expressions, Expressions/*: the expressions that a plugin compiles on the host, as an interface with
--   laws, which tokens a plugin holds, and a host that meets the laws (Expressions/Toy).
-- - AttributeGen, AttributeGen/*: extensions/attributegen. AttributeGen/Plugin is plugin.{h,cc}, with
--   the messages of config.proto; AttributeGen/Runs runs its callbacks in any order, AttributeGen/Sound
--   is what they keep.
-- - Common, Common/*: extensions/common/context.{h,cc}. Common/Properties is what they read of the host
--   and of libraries; Common/Request has `RequestInfo` and the enums; Common/Populate and
--   Common/Extended fill a request in; Common/Peer has the nodes and `PeerNodeInfo`; Common/Sanitize
--   is `sanitizeBytes`.
-- - Stats, Stats/*: extensions/stats/plugin.{h,cc}. Stats/Labels and Stats/Dimensions are the dimensions
--   and `map`; Stats/Metrics has the extractors, `defaultMetrics` and `StatGen`; Stats/Maps, Stats/Config
--   and Stats/Setup are `configure` with `initializeDimensions`; Stats/Report is `report`; Stats/Stream has the
--   callbacks of streams and `onTick`, and runs them in any order; Stats/Life runs configurations and
--   reports up to `onDone`; Stats/First is about the reports after a first configuration. Its requests
--   come from Common, its expressions from Expressions, its JSON from Json.
-- - The files called Tests run the definitions on small inputs.
--
-- Integers: a `uint64_t` is a native number with its wrap-around written out (`% 2 ^ 64`), a byte of
-- a string is a number below 256; an `int64_t` that the host gives is its bit pattern. The width of `size_t` is a parameter of the decoder.
-- Loops: the loops over strings and lists are structural. The 20 rounds of `getToken` are counted.
-- The `while (true)` loop of `refillToken` ends only if the other VMs let it: it runs on fuel with
-- its exhaustion as a result of its own, and every run takes the fuel as a parameter.
-- Undefined behaviour is a value: the decoder's `overrun` and the cache's `undefined`.
--
-- Not modelled: logging and metrics' registration; the host and the libraries the sources call,
-- which are parameters; the order in which an `unordered_map` is
-- walked, for which the models take the order of insertion; the hash of the dimensions; the bytes
-- of protobuf and FlatBuffers messages; generated code, tests and scripts.

pub mod AttributeGen
pub mod Base64
pub mod BasicAuth
pub mod Common
pub mod Expressions
pub mod GrpcLogging
pub mod Host
pub mod Json
pub mod Opa
pub mod Prelude
pub mod RateLimit
pub mod ResponseFlag
pub mod Stats
