-- ===== src/Lib.antt =====
-- The servers of a course on distributed systems, in Go: a view service with a primary/backup
-- key/value service, Paxos with a replicated key/value service and a shard master on top of it,
-- MapReduce, the parts of a sharded and of a disk-backed key/value service that are there, and a lock
-- service.
--
-- How the parts interact. The servers of the primary/backup service (PbService) ping the view service
-- (ViewService), which names a primary and a backup; the primary forwards each write to the backup,
-- and transfers its state to a new one. The Paxos peers (Paxos) agree on one value for each instance;
-- a replica of the key/value service (KvPaxos) or of the shard master (ShardMaster) proposes its
-- operation in an instance, catches up on the instances that it missed, and applies what was decided.
-- A client tries its servers until one replies, with the same request each time (KvPaxos/Clerk); a
-- client of the sharded service (ShardKv) asks the group that the shard master's config names.
-- MapReduce splits a text over map jobs, whose pairs the reduce jobs group by key, and merges what
-- those make; the master gives the jobs to workers and gives the jobs of a lost worker to another.
--
-- Files, and the code that they model:
--   Host            src/kvpaxos/server.go: the thread that accepts connections, those that serve them, kill
--                   and setunreliable, the same in src/shardmaster, src/shardkv and src/diskv. Faults:
--                   what a client can see; Reliable: where nothing fails.
--   Base            Go's integers, maps, strings.Split, strconv.Itoa and Atoi, and shared lemmas.
--   ViewService     src/viewservice/server.go: JudgePing, Ping, Get and tick (judge_ping, ping, get,
--                   tick) on the state ViewServer, and the types of src/viewservice/common.go.
--     Clerk         src/viewservice/client.go: Ping, Get, Primary and GetServer over their one call.
--     Steps         pings and ticks in any order, as events; Pending, Succession, Failover: theorems.
--   Paxos           src/paxos/paxos.go: one peer: Prepare, Accept, Decide, Done, Min, Max, Status,
--                   ForgetIns, Start, AddOrUpdateIns and Make, under the names prepare, accept, ...
--     Number        GetProposalNum and Bigger, on the texts that they make and split.
--     Proposer      SendPrepare, SendAccept and Propose over the replies that the peers give.
--     Permutation   GetRndPmt, the order in which a proposer asks the peers.
--     Handlers      what any request does to any instance of a peer; Window: Done, Min, Max, Status.
--     Protocol      one instance among n peers, as a step relation over the handlers; the invariant,
--                   that each step keeps it, Agreement and Validity are in its modules. Proposing and
--                   Passes: a pass of Propose in the protocol, the calls of which are steps (Calls,
--                   Promising, Voting, Refinement).
--   KvPaxos         src/kvpaxos/server.go: IsHit, UpdateRecord, UpdateData, ExecOp, Get, PutAppend and
--                   DeleteRecOp. Record: requests that are served again; Replica: replicas of a log.
--     Clerk         src/kvpaxos/client.go: Get and PutAppend. Delivery: a client's changes in the log.
--   PbService       src/pbservice/server.go: Forward, Get, PutAppend, UpdateData, TransDataToBackup and
--                   tick, on the pair of a primary and its backup. Forwarding, Returning,
--                   Retrying, Transfer, Stale: theorems.
--     Clerk         src/pbservice/client.go: GetPrimary and the loops of Get and PutAppend.
--   ShardMaster     src/shardmaster/server.go: JoinHandle, LeaveHandle, MoveHandle, UpdateConf, ExecOp
--                   and Query. Configs: what the handlers make of a config; Handover: who has the
--                   shards; Balance: how many; Replica: replicas of the log; Updates, Numbering: what
--                   stays so over ExecOp; Sums, Spread, Filling, Groups, Serving: which shards have
--                   a group. Clerk: src/shardmaster/client.go.
--   MapReduce       src/mapreduce/mapreduce.go: Split, DoMap, DoReduce, Merge, RunSingle, CleanupFiles
--                   and ihash on a store of files.
--     Names, Store  the names of a job's files, and what the jobs write, seen through the names.
--     Splitting     Split; Inputs, Grouping, Reference, Jobs, Sequential: RunSingle against a description
--                   of its output; Missing: fewer files than jobs; Removing, Cleanup: CleanupFiles;
--                   WordCount: src/main/wc.go.
--     Master        src/mapreduce/master.go: CallWorker, ScheduleMapJob and ScheduleReduceJob as events of
--                   a Phase, and DoJob of src/mapreduce/worker.go. Its modules: Counting, Scheduling and
--                   Events, where each job is; Bound, how long a phase lasts; Parallel and Output, Run
--                   on shared files.
--     Worker        src/mapreduce/worker.go: the counters of RunWorker, and its Shutdown.
--     Lifecycle     InitMapReduce, Run, CleanupRegistration and Shutdown of src/mapreduce/mapreduce.go, and
--                   KillWorkers of src/mapreduce/master.go.
--   DiskKv          src/diskv/server.go: shardDir, fileGet, filePut, fileReadShard and fileReplaceShard
--                   on directories of files. Shards, Reading, Replacing: what a key and a shard read;
--                   Crashing: after a crash within fileReplaceShard. Server: the state of the server
--                   and its connections; Clerk: src/diskv/client.go, by the loops of ShardKv.
--   ShardKv         src/shardkv/client.go: key2shard, Get and PutAppend, and the empty handlers of
--                   src/shardkv/server.go. Owner: which server answers. Server: the state of the server
--                   and its connections.
--   LockService     src/lockservice/server.go and client.go: Lock, and Unlock as it stands.
--     Server        the thread that accepts connections, and a server that is dying.
-- The modules called Tests hold runs at concrete inputs.
--
-- How the code is rendered. A handler that holds the mutex is one function from state to state. An
-- RPC is a call of the handler together with what the network does to it: lost before it runs, lost
-- after it has run, or replied. A map is an association list, and a ranging loop goes through it in
-- order; where the result depends on the order (ShardMaster), the order is a parameter, of which
-- only Go's promise is assumed that it visits keys of the map alone, and in Filling that it visits
-- each of them once. A uint and an int32 wrap around where the code counts with them (incr and
-- decr32 in ViewService). Clock readings, proposal numbers' heads and tails are numbers within
-- int64 where a theorem needs it, and says so.
--
-- Loops without a bound. The retry loops take the list of the passes that they make, and return
-- `none` (or `waits`) where they are still in the loop after these; separate theorems say after which
-- passes they return.
--
-- Files (MapReduce, DiskKv) are a map from names to contents; creating, writing and renaming a file
-- does not fail, and a job that stops with log.Fatal is `none`. Of encoding/json it is assumed that
-- Decode reads back what Encode wrote for the pairs of the application, of base32 that a text that was
-- encoded is decoded. A map or reduce job whose call failed may have left anything in its own files,
-- and is taken to have stopped.
--
-- Not modelled: the RPC listeners of the view service, the primary/backup service, Paxos and the
-- MapReduce master, and the function call, which open sockets; the reading of flags in the programs
-- of src/main but word count. In Protocol an instance is not forgotten, proposers are not bound to
-- the order in which one runs its rounds, and two rounds never have the same number, which the code
-- does not ensure (see Paxos/Number). In ExecOp of the shard master each wait for a missed instance
-- ends (KvPaxos has the waits): the log is a total function. A pair in PbService is two different
-- servers, and no third one is called.
pub mod Base
pub mod Host
pub mod ViewService
pub mod Paxos
pub mod KvPaxos
pub mod PbService
pub mod ShardMaster
pub mod MapReduce
pub mod DiskKv
pub mod ShardKv
pub mod LockService
