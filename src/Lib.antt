-- ===== src/Lib.antt =====
-- goplusplus is a Go web framework. This library models the parts of it that keep state and decide, and
-- proves that they keep what they promise. It covers resilience, caches, idempotency, probabilistic
-- sketches, sagas, background tasks, rate limiting, identifiers, sessions,
-- passwords and the router.
--
-- The parts and where they are:
--
--   Prelude       names of the libraries, Boolean tests, lists and signed integers over the native
--                 numbers; Prelude.Map is a Go map with string keys and Prelude.Ordered the map beside a
--                 container/list of its keys, which the bounded cache and the idempotency store share;
--                 Prelude.Bytes is a Go string as a list of bytes, which Prelude.Split splits
--                 and joins at a separator.
--   Resilience    resilience/resilience.go and retry.go. Breaker.admit and Breaker.record_result are the two
--                 critical sections of CircuitBreaker.Execute, and Breaker.execute is the call as a
--                 whole. Limiter.begin_request and Limiter.end_request are the two atomic additions of
--                 AdaptiveLimiter.Middleware. Retry.retry is Retry with addJitter.
--   Saga          saga/saga.go: Coordinator, AddStep, Execute and compensateReverse.
--   Idempotency   middleware/idempotency_store.go: Store is MemoryIdempotencyStore; claim, complete_claim
--                 and release are its three methods.
--   Cache         cache/bounded.go and cache/cache.go. Bounded is BoundedMemoryStore. Stores is the Store
--                 interface: a record of operations over a state, and a record of laws. Memory is
--                 MemoryStore, which fills both; Tiers is MultiLevelStore over any two lawful stores.
--   Bloom         bloom/bloom.go: Filter, HyperLogLog (its registers) and CountMinSketch.
--   Auth          auth/session.go: Session is the session manager; auth/identity.go: Identity is the
--                 canonical form of a user's claims, which the sessions use; auth/password_policy.go: Password
--                 is the policy under which passwords are hashed and verified; auth/password.go: PasswordHash
--                 is the text of a hash, as it is written and read.
--   Queue         queue/task_tracker.go: Tracker.dispatch is Dispatch with its goroutine, run to the end.
--   RateLimit     middleware/ratelimit.go: handle is the critical section of the handler.
--   Router        tree.go, gpp.go and router.go. Tree is the radix tree of one method: insert_child is
--                 insertChild, get_value is getValue. Engine has the groups, the registration of routes
--                 and serve_http, which is ServeHTTP up to the run of the chain; Engine.Files has the
--                 mounts of static files and the file that a request path names, and Engine.Files.Serve
--                 is the handler of StaticFS up to the file server, over any file system. Chain is context.go's
--                 Next and Abort, which run the handlers that were chosen.
--   Ids           id/id.go: Ulid is NewULID, Snowflake is SnowflakeNode.NextID, UuidV7 is
--                 NewUUIDv7 up to the bytes that it prints.
--
-- Method. A method that changes an object is a function from the object's record to the changed record.
-- A method that holds one lock from start to end is one step. Where the code lets other callers in
-- between, as in the breaker and the limiter, the sections are separate steps, and Move and Reach are
-- the interleavings of any number of callers. Each reading of the clock is an argument of its own, so
-- that no theorem depends on how much time passes; a theorem that needs a clock which does not go back
-- says so. Durations and instants are signed numbers of nanoseconds or numbers of milliseconds.
--
-- Numbers. The sketches' uint64 arithmetic is written out modulo 2 ^ 64, and so is the entropy of a ULID.
-- Shifts and masks by constants are quotients and remainders. Counts that are bounded by the memory or
-- by the number of live requests are numbers without a bound: the breaker's failures, the limiter's
-- requests. The index of a handler chain is an int8 that wraps around. Snowflake's shift and the sum in addJitter are int64 arithmetic that wraps around (Prelude.Int.to_int64);
-- other instants and durations are without a bound.
--
-- Fuel. HyperLogLog's loop runs on 63 rounds, which is what its own condition zeros < 64 allows. Retry's
-- loop runs on the number of attempts left. Snowflake's wait for the next millisecond runs on the list
-- of the clock's readings and ends at the first later one. The node of a path parameter is made on the
-- length of the path, of which each level takes a byte at least; the other loops of the radix tree walk
-- down the tree. The loop of Context.Next runs on fuel; two rounds more than there are middlewares
-- are enough for a chain that calls Next once in each.
--
-- Parameters: code outside the repository. The steps of a saga, the function that a breaker runs and the
-- operation that is retried act on a world and may fail. FNV-1a is a function from keys to 64-bit sums.
-- The floating-point sizes of a Bloom filter and the floating-point scaling of a delay are functions,
-- and the amounts of tokens of the rate limiter have an arithmetic of their own.
-- The functions of strconv, strings and unicode on identifiers are a record, Auth.Identity.TextOps;
-- the Argon2id derivation, the numbers that fmt and strconv write and read, and base64 are the operations
-- of another, Auth.PasswordHash.PasswordOps, with what is relied on as its laws.
-- crypto/rand, the context and time.After are operations of Retry.Env.
--
-- Not modelled: log lines and HTTP responses; floating-point results (EstimateCardinality); GetOrSet of
-- the caches, which the singleflight package coalesces; the Redis stores (cache/redis.go,
-- middleware/idempotency_redis.go) and other clients of outside services; the idempotency middleware;
-- the file server behind static mounts, StaticEmbed, BindResource and the server in router.go and
-- gpp.go; the rest of context.go; the tokens and
-- handlers of auth; search, the rest of queue, dbcore, i18n and
-- validation; the command line (cmd), the examples and the documents.
pub mod Prelude
pub mod Auth
pub mod Bloom
pub mod Cache
pub mod Idempotency
pub mod Ids
pub mod Queue
pub mod RateLimit
pub mod Resilience
pub mod Router
pub mod Saga
