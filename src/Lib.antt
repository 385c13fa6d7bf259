-- ===== src/Lib.antt =====
-- di: the core of the program, modelled, and what its parts guarantee.
--
-- di runs containers on machines that it boots in several clouds. A policy is compiled by dsl/; the
-- daemon (di.go) hands it to engine/, which makes the database hold the machines that the policy
-- asks for. cluster/cluster.go brings the clouds in step with the machine table, and
-- cluster/foreman.go sends each machine's minion its role and the policy. On every machine, minion/
-- keeps a database of its own: minion/server.go takes the foreman's calls, minion/engine.go makes
-- the connection and container tables follow the policy, minion/elector elects a leader,
-- minion/scheduler decides which containers the leader starts and stops, minion/supervisor records
-- what runs on a worker, and minion/network gives labels and containers their addresses through a
-- consensus store. All of them share two things: the database of db/, and join/, which matches what
-- is wanted with what is there.
--
-- The files, and the code that each is about:
--   Prelude      shared notation, tests on numbers, lists, permutations, maps and strings
--   Join         join/join.go; Join.Greedy specifies it, Join.Partition is what callers rely on, and
--                Join.Exact what the loops rely on that match equal elements
--   Util         util/util.go, EditDistance
--   Db           db/: Db.Rows the row types and, in Db.Rows.Less, their order; Db.Tables one table;
--                Db.Alerts the triggers; Db itself the database and its row classes; Db.Sync the
--                loops by which every client writes the result of a join, with the contract Follows
--                in Db.Sync.Policy and the panics of commits in Db.Sync.Panics
--   Dsl          dsl/: Ast (ast.go), Store the objects that an evaluation shares by pointers, Func
--                the built-in functions (func.go), Eval (eval.go), Query the handle of dsl.go; Guarded
--                what an evaluation can do to the store, one lemma for each built-in function, and
--                Compiled what follows for every policy
--   Engine       engine/engine.go: machineTxn in Engine, the other transactions in Engine.Update
--   Minion       minion/: Policy (engine.go), Server (server.go), Scheduler (scheduler/scheduler.go
--                and swarm.go), Supervisor (supervisor/supervisor.go; Supervisor.System the
--                rounds that keep the system containers, which Supervisor.Options describes),
--                Docker (docker/docker.go), Elector (elector/elector.go), Network (network/store.go), and in Network.Worker
--                what a worker makes of its host (network/worker.go, network/link.go): Commands the
--                commands it runs, Words and Queries what it reads in their output, Updates the
--                loops that make what is there what is wanted, Ports the bridges, Web the rules for
--                the public internet, Flows the flows of the bridge before they are parsed, Hosts the
--                names that a container finds; Settled, NatRules and EtcHosts are about them
--   Cluster      cluster/: Cloud (cluster.go and GroupBy of provider/provider.go), Foreman
--                (foreman.go)
--   Provider     provider/constraint.go
--
-- State and operations. The state of the program is a `Database`: a table for every row type and
-- the counter of ids. A row type is an instance of the class `Row`, which stands for the reflection
-- of db/db.go. A transaction is a function from a database to an optional database; `none` is a
-- panic. Transactions run one after the other, so two of them in a row are a composition. What others
-- do between the two transactions of a round of `cluster.sync` is an argument, and so is what they do
-- while a round of `campaign` sleeps and between its selections and its commit; its two selections
-- are one. Function names are the code's, in snake case: `machineTxn` is `machine_txn`.
--
-- Go maps are association lists, whose order is the order of a range over the map; no theorem
-- depends on it. Nil and empty slices are one, but for the lists of the policy language, which `=`
-- compares by reflection. Go's `int` is a natural number for ids and an
-- integer where it may be negative; ids count up from 1 and scores are only compared, so they do
-- not overflow, and the integers of the policy language wrap around at 64 bits. Addresses are
-- numbers below 2^32, and their masks are written out.
-- What lies outside the program is a parameter: the clouds, the clients of the minions, the
-- consensus store and the leader key are records of functions over a state of the outside; so are
-- the command line of a worker, its files, its bridges and its daemon of docker, whose commands may
-- fail at any time; and the scanner and the parser of policies, fmt.Sprintf with a format of the
-- policy, floating-point numbers, the query of the own address, random numbers, JSON and the
-- parsing of addresses. Errors are values (`none`, `false` or an error type).
--
-- Bounds. All loops are structural recursions on the list that they range over, except two with a
-- number of rounds that is the code's own: `randomIP` tries 256 times and `cluster.sync` runs 8
-- rounds; they end there as the code does, so no fuel is added. A policy need not end: `eval`
-- takes fuel, one unit for each evaluation within another, and says `timeout` where it runs out.
-- `compile`, which is `New`, tells that apart from an error and from a panic.
-- `range` has as many rounds as its end is away, which a step of one needs; `=` follows as many
-- pointers as there are frames and containers, and says `timeout` beyond.
--
-- Not modelled: the parser of the policy language, the parsing of the rules and flows that a worker
-- wants, the regular expressions by which it reads its routes, links, rules and flows, the clients
-- of clouds, docker, etcd and Open vSwitch, logging, timers and goroutines, and the main programs.
mod Prelude
pub mod Join
pub mod Util
pub mod Db
pub mod Dsl
pub mod Engine
pub mod Minion
pub mod Cluster
pub mod Provider
