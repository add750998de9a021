-- ===== src/Lib.antt =====
-- Verification of the core of the NetLLM provider (ai-provider, in Go).
--
-- The provider serves language models over HTTP. The parts modelled here are libraries of it that
-- share no state: each keeps its state in a struct behind a mutex. A method is a function from the
-- struct and its arguments to the new struct and the result; a history of calls is a list of them,
-- which is any interleaving of the goroutines' calls where the method holds its mutex throughout,
-- as those of the limiters, the failover manager, the memory manager and the scheduler do. Get and
-- Set of the cache let the mutex go between their steps; their models are whole calls, one after
-- another. So is the model of SelectBackend of the load balancer, which holds a read lock only.
--
-- - Prelude: Boolean tests, lists, maps (`Dict`, an association list whose order stands for the
--   order in which Go ranges over a map, so that theorems hold for every such order) and signed
--   integers.
-- - RateLimit (ai-provider/internal/security/rate_limiter.go): `FixedWindow`, `SlidingWindow`,
--   `LeakyBucket` and `TokenBucket` are the limiters, with AllowN as `allow_n`, GetInfo as
--   `get_info` and so on; `Universal` chooses one of them, and `Service` holds limiters by name.
--   Each has its theorems in children.
-- - Failover (ai-provider/internal/ha/failover.go): `Methods` has the methods of FailoverManager,
--   `Stats` GetFailoverStats, and `Calls` histories; `Selection` is about the candidate, `Nodes` about
--   the map, `Invariant` and `Outcomes` about the methods.
-- - Cache (ai-provider/internal/inference/cache.go): `Methods` has the methods of InferenceCache,
--   with Delete as `remove` and the loop bodies of Get and Set as `get_found` and `store`;
--   `Sorting` has the bubble sorts by which a victim is chosen, `Order` says what they do;
--   `Eviction`, `Capacity` and `Accounting` follow the entries, the limits and the statistics, and
--   `History` whole histories.
-- - Memory (ai-provider/internal/inference/memory.go): `Methods` has the methods of MemoryManager;
--   `Balance` is about the books of a pool, `Size` and `Limit` about what is granted, `History`
--   about histories.
-- - Scheduler (ai-provider/internal/inference/scheduler.go): the queues of ResourceScheduler;
--   `Resources` and `Allocate` have the resources of instances, over Memory and Gpu, `select_instance`
--   and the quotas. `Order` is about one call of the queues, `Untouched` and `Fifo` about histories,
--   `Returned` about resources that are taken and given back.
-- - Gpu (ai-provider/internal/inference/gpu.go): the devices of GPUManager, and what is allocated and
--   reserved on them.
-- - Rbac (ai-provider/internal/authz/rbac.go): `Inheritance` is the check of a role's parents,
--   `Permissions` the decisions and their cache, `Manager` the methods that change roles (CreateRole as
--   `create`, and so on); `Acyclic` and `Writes` are about cycles of roles, `Collected`, `Decision` and
--   `Answers` about what a user is granted, `Revoked` about RevokeRole and the checks around it,
--   `Ancestors`, `Search` and `HasRole` about the roles of a user. The repositories, which the source
--   leaves to its users, are functions.
-- - LoadBalance (ai-provider/internal/ha/loadbalance.go): `Choice` has the algorithms, `Methods` the
--   methods of LoadBalancer, with parts of SelectBackend as `sticky`, `select_with`, `select_new` and
--   `select_by`. A number drawn by `rand.Intn` is an argument, and its panic
--   ends SelectBackend with `panics`. `Chosen` and `Selection` are about
--   every choice, `Least` about connections and weights, `Rotation` about calls in turn.
-- - Acl (ai-provider/internal/authz/acl.go): `Methods` has the methods of MemoryACLStore and those of
--   ACLService that change the store, `Access` CheckAccess and what it calls; `Order` is about the sort
--   by priority, `Decision` about the entries that count, `Answers` about CheckAccess, `Unique` and
--   `Changes` about histories of changes. The constant
--   PrincipalTypeRole, which the package does not declare, is an argument.
-- - Version (ai-provider/internal/models/version.go): `Semantic` has the methods of SemanticVersion and
--   `Parse` ParseVersion, over bytes; `Manager`, `Latest`, `Path` and `Advice` have those of
--   VersionManager over a table of rows and its mutex, where what the database answers is an argument.
--   `Digits`, `RoundTrip` and `Reading` are about printing and parsing, `Order`, `Compared` and
--   `Greatest` about the latest version, `Rounds` and `Upgrade` about the upgrade path, `Blocked` and
--   `Active` about the methods that write.
-- - Updates (ai-provider/internal/ha/updates.go): `State` has the calls of UpdateManager that update no
--   nodes, `Methods` updateNode, performRollback and the updates, which run from start to end; a
--   rolling update asks a function of the batch whether it was cancelled, and another for the scores.
--   The nodes stand in one map, which is that of Failover. `Touched` and `Batches` are about the
--   nodes and events of some batches, `Rollback` and `Outcome` about the end, `Failover` about the
--   failover manager of the same nodes.
-- - Health (ai-provider/internal/ha/health.go): the methods of HealthChecker, with the channel of
--   results as a list; `Silent` is about histories of calls, `Updates` about rolling updates that take
--   their scores from a checker.
--
-- Times and durations are numbers of nanoseconds, and what `time.Now()` gives is an argument of the
-- call. Where the source compares a difference of times with a duration, the model compares sums, which
-- is exact. An `int` is a natural number where the program's own values are not negative (counts,
-- sizes, ports) and a ℤ where they may be (priorities, scores, weights, layers, quorum, amounts of
-- memory, and the numbers that AllowN of a token bucket or a fixed window is asked for). Neither wraps,
-- but the counter of a fixed window, which adds what its callers ask for, does. The other limiters, the
-- universal one and the service are asked for numbers that are not negative. Floating-point numbers are
-- a parameter, with the laws that a theorem uses as named hypotheses. Where an `int64` is only lowered
-- (sizes in the cache), a subtraction on natural numbers stops at 0; the invariant in Cache shows that
-- it does not come to that. Elsewhere a panic is `none`, and so is a call of Health that blocks for
-- ever. The loops are recursions on a list, on a number of comparisons or of batches, or on a priority,
-- and need no fuel. Three searches have no bound in the source, and are on fuel. That of HasRole among
-- the ancestors of a role visits no role twice, so that fuel for one visit more than there are roles is
-- enough. collectACEs follows a chain of lists that ends with fuel for its length; no fuel is enough
-- for a circle. generateUpgradePath makes at most two rounds more than the sum of the numbers of its
-- target, from wherever it starts. A number is printed with fuel for 20 digits, which no `int` exceeds.
--
-- Not modelled: logging, goroutines and tickers (what they call is), contexts and timers, HTTP,
-- SQL, and the other packages of ai-provider/internal.
pub mod Prelude
pub mod RateLimit
pub mod Failover
pub mod Cache
pub mod Memory
pub mod Scheduler
pub mod Rbac
pub mod LoadBalance
pub mod Acl
pub mod Version
pub mod Gpu
pub mod Health
pub mod Updates
