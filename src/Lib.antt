-- ===== src/Lib.antt =====
-- Verification library of realmicro, a microservice framework in Go.
--
-- The library models the parts of the framework that keep state or decide something by themselves.
-- Each module names the Go file that it is about; paths are from the root of the repository.
--
-- HttpRule (api/router/util): the path templates of the API router. Types has the segments and their
-- String methods (types.go), Chars and Tokens the scanner and Parser the parser (parse.go), Compiler
-- the opcodes of a template (compile.go, pattern.go), and Runtime the check of a program of opcodes by
-- NewPattern and its run by Match (runtime.go). Parse gives a Template, Compile gives opcodes,
-- NewPattern takes them, and Match runs them on the components of a request's path. Meaning is the
-- specification of all this on the segments, and below it stand the proofs that the code implements it.
--
-- Api (api/router): Endpoints is the coding of an endpoint in metadata and its check (endpoint.go), Router
-- the routes of the services and the choice of a route for a request (registry/registry.go, router.go),
-- a client of Endpoints, of HttpRule and of Registry. Its proofs tell the choice by the endpoints alone.
--
-- Search (common/util/search/tree.go): the tree of routes with named segments.
--
-- Auth (auth/rules.go, auth/auth.go): the rules by which an account may use a resource.
--
-- Collection (common/util/collection): RollingWindow is the window of buckets by which events are
-- counted (rollingwindow/rollingwindow.go), Ring the bounded log with streams (ring/buffer.go), FixedRing the
-- ring of a fixed size (ring.go).
--
-- Streams (common/util/stream/stream.go): the operations on streams, of which Tail is a client of
-- FixedRing; Walk is its pool of goroutines as a state machine.
--
-- Store (store): the store in memory (memory.go, options.go) over the third-party cache GoCache, with
-- the join of paths in FilePath; Memory/Written is what the options of a call mean. Cache (cache): the
-- cache in memory (memory.go).
--
-- SingleFlight (common/util/sync/singleflight.go): concurrent calls that share a result, as steps of their
-- goroutines.
--
-- Metadata (metadata/metadata.go): the headers of a request and their merging.
--
-- Breaker (common/util/breaker): Google is the throttle, a client of the rolling window
-- (googlebreaker.go), ErrorWindow the last reasons of failure (breaker.go).
--
-- Pool (common/util/pool/default.go): the connections kept for reuse.
--
-- Registry (registry, common/util/registry): the types of services and nodes (registry.go), Memory the
-- registry in memory (memory.go, memory_util.go), Util the merging and removing of lists of services
-- (common/util/registry/util.go), Cache the answers of a registry kept for a time and the events that change
-- them (registry/cache/cache.go), a client of the types and of Util.
--
-- Selector (selector): the filters and the strategies that choose a node (filter.go, strategy.go), Default
-- the selector over the registry cache (default.go, options.go), a client of Registry's Cache.
--
-- Common has what these share: tests on numbers, lists by position, Go's strings as lists of bytes,
-- maps as association lists, and integers. Examples has runs and instances of the theorems.
--
-- State. An operation takes the state of its receiver and gives the new one. A method that holds the
-- receiver's mutex is one step, so that an interleaving of calls is a list of them. Clock readings,
-- random draws, the choices of `select` and the results of a transport are arguments. A panic, or a
-- call that waits for ever, is a value of its own. A goroutine of a stream is the list of the items
-- that it has yet to write, and a schedule is a list of events.
--
-- Fuel. The parser's loops run on fuel, one more than the number of tokens, and each round takes a
-- token. The tokenizer's fuel is the length of the path, of which each round takes a byte; so is that
-- of the trimming of spaces. The route
-- tree's `add` has the length of the route and one more.
--
-- Numbers. Sizes, offsets and times are natural numbers; opcodes, operands and priorities, which can be
-- negative, are integers. The float sums of the rolling window count zeros and ones, and the breaker's
-- drop ratio is a fraction, so that rounding is not modelled. The
-- counter of the round robin, the index of the fixed ring and the expiration of the cache in memory are
-- ints of 64 bits that wrap, and the store's durations ones that are cut. The other sums are taken to stay
-- within an int: the instants of the pool, the registries and the rolling window, and the numbers of items.
--
-- Parameters: the third-party cache of the store (Store/GoCache has its laws, and an instance), regular
-- expressions, the case folding and the title case of Unicode, the answers of a registry to its cache, and
-- for the router those of the resolver and of the registry's cache.
--
-- Not modelled: the texts of errors, logging, and every component that is mostly input and output over
-- a network, a file or a third-party library (transports, codecs, brokers, the etcd and mDNS registries,
-- the servers and clients, the command line and generated code).
pub mod Api
pub mod Auth
pub mod Breaker
pub mod Cache
pub mod Collection
pub mod Common
pub mod Examples
pub mod HttpRule
pub mod Metadata
pub mod Pool
pub mod Registry
pub mod Search
pub mod Selector
pub mod SingleFlight
pub mod Store
pub mod Streams
