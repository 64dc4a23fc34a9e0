-- ===== src/Lib.antt =====
-- Verification of the Go services of the liquidation bot: the manager, the collector and the health
-- checker, and the runtime library that they share.
--
-- The manager watches a chain. At each block it asks its scalers to adjust the number of running
-- collectors, health checkers and executors, empties the queues, and pushes a work item for each page
-- of the contract's state. A collector takes a work item, queries the page, gathers the debts and the
-- collateral of each account and pushes the accounts to the health checkers. A health checker takes a
-- batch of accounts, cuts it into jobs for a pool of workers that ask Hive for the health of the
-- accounts, and pushes the unhealthy ones to the queue of liquidations. The queues are lists in Redis.
--
-- Base: what the other modules share: lists and numbers, Go's int with its wrap-around (Base.Int),
-- strings as bytes (Base.Text), error returns and panics as results of calls that change a world
-- (Base.Action), the loop of a service's Run (Base.Loop), the operations of float64 that are used
-- (Base.Float) and rearrangements of lists (Base.Perms).
-- Runtime.Helpers: runtime/helpers/slice.go. Runtime.Types: runtime/types. Runtime.Interfaces:
-- runtime/interfaces, with the contract of a queue. Runtime.Numbers: that of a cache. Runtime.Redis:
-- the Redis client as a parameter. Runtime.Queue: runtime/queue/redis.go. Runtime.Cache:
-- runtime/cache/redis.go. Runtime.Mock: runtime/mock. Runtime.Sample: a store in memory.
-- Manager.Interfaces: manager/src/interfaces. Manager.Pages: the loop of Run of
-- manager/src/manager/manager.go that hands out the pages. Manager.Block: New, the rest of the handling
-- of a block, and Stop. Manager.Run: Run's connecting, its loop over the blocks and its end.
-- Manager.Monitor: the two monitors. Manager.Receiver: websocket.go beside it. Manager.Metrics: metrics.go.
-- Manager.Sample: a manager in memory.
-- Scaler: manager/src/scaler/queue_watermark.go; a scaler's fields are the record QueueWatermark, and
-- a call takes and returns it with the world.
-- Deployer.Mock, Deployer.Docker, Deployer.Ecs: manager/src/deployer/mock.go, docker.go and
-- aws_ecs.go.
-- Collector.Keys, Collector.Accounts, Collector.Service: collector/src/collector/collector.go, the
-- parsing of a key, the gathering of the accounts, and fetchContractItems and Run.
-- HealthChecker.Jobs: generateJobs of health-checker/src/health-checker/health_checker.go.
-- HealthChecker.Pool: pool.go and RunWorkerPool, whose goroutines are a step relation: any
-- interleaving is a path of steps. HealthChecker.Results: job.go and what RunWorkerPool keeps of the
-- results. HealthChecker.Hive: hive.go. HealthChecker.Service: the rest of health_checker.go.
-- HealthChecker.Sample: a Hive in memory.
-- System: facts about two services together; System.Pipeline: the work of a block on its way through
-- the collectors.
-- Programs.Objects, Programs.Manager, Programs.Services: the main functions of manager/src,
-- collector/src and health-checker/src, up to the start of the service, and runtime/base_config.go.
--
-- Correspondence: a definition has the name of the function or method that it translates, in snake
-- case; a method with branches is cut into one helper for each result that it branches on. A call on
-- the world returns ok, an error or a panic, and the world after it. A Go int is the integer type of
-- Base.Int and goes up and down modulo 2 to the power 64; the offsets of pages are natural numbers
-- modulo 2 to the power 64. A string or byte slice is a list of bytes. A Go map is a list of pairs.
--
-- Fuel: the loop of ChunkSlice is given one round more than there are items, generateJobs one more
-- than positions, and the loop over pages the number of pages and two more rounds; for a chunk size,
-- job size and page size above 0 these are enough, since each round takes at least one item. The loops
-- of Run take the list of values that the flag continueRunning reads, or the blocks that arrive.
--
-- Parameters: redigo, redigomock, the Docker client, the ECS client, envconfig, uuid, the RPC client,
-- the websocket, DataDog, encoding/json, protobuf, net/http, strconv.ParseInt and ParseFloat and the
-- operations of float64 are arguments, with their documented behaviour as named hypotheses where a
-- theorem needs it. The pool that a round of the health checker runs is an argument too.
--
-- The goroutines of the manager are functions of their own: a block comes with what the flag and the
-- total of contract items read while it is handled. The wait for the two monitors at the end of Run is
-- an argument. A job of the health checker finds some world when a worker executes it, which is given.
--
-- Not modelled: logging and times; signals; generated protobuf code; the TypeScript programs in
-- liquidator and environment.
pub mod Base
pub mod Runtime
pub mod Scaler
pub mod Deployer
pub mod Manager
pub mod Collector
pub mod HealthChecker
pub mod System
pub mod Programs
