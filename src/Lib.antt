-- ===== src/Lib.antt =====
-- Verification of Go-Flash-Job, a distributed scheduler of timed jobs in Go. A job is submitted over
-- HTTP and waits in a sorted set of Redis. A scheduler fetches the jobs that are due, hands them to
-- its processors, which steal work from each other, and publishes each as a message. Executors take
-- the messages, call the job's HTTP callback, and write the outcome, or the next try, back to Redis.
-- Each task has a status that a state machine moves with a compare-and-set script.
--
-- Which file models which part of the program:
-- Model.antt            pkg/model/job.go, pkg/consts/consts.go: tasks, commands, statuses.
-- Heap.antt             container/heap over scheduler/internal/core/heap.go, for any strict weak
--                       order; TaskHeap.antt has the order of tasks.
-- Processor.antt        scheduler/internal/core/p.go and workSteal: the local queues, StealHalf,
--                       schedule, and one round of Run.
-- Redis.antt            The commands of Redis that the program uses, a parameter with their
--                       documented effect as laws, a string key with the time at which it expires;
--                       Redis/Memory.antt is a server in memory that has
--                       them. Redis/World.antt is the state monad of the code: the database, the
--                       clock, what each call of the network meets, and the messages sent.
-- Status.antt           What the writers of a task's state have in common.
-- Fsm.antt              scheduler/internal/core/fsm.go: the table, the script, Fire, GetState,
--                       saveState, SaveDeadTask.
-- Recovery.antt         The rest of fsm.go: RecoverStaleTasks, MonitorStaleStates,
--                       CleanTerminalStates.
-- Detail.antt           pkg/model/detail.go: the JSON of a task in a hash of its own; an absent payload
--                       comes back as `null`.
-- Scheduler.antt        scheduler/internal/core/scheduler.go: the rounds of fetcherLoop and of the
--                       recovery loops, balanceTasks, applyAging, parseTasks, and executeTask of p.go;
--                       Scheduler/Stuck.antt has sequences of them.
-- Service.antt          scheduler/internal/service/job_service.go: SubmitJob, BatchSubmitJobs.
-- Executor.antt         executor/internal/client/consumer.go: handleTask and what it calls.
-- Leader.antt           scheduler/internal/core/leader.go: the lock of the leader and its scripts, over
--                       a server of its own with the time to live; Leader/Lease.antt has the steps
--                       of several schedulers.
-- Lifecycle.antt        scheduler.go and leader.go: the start of runAsLeader, the rounds of the other
--                       loops in any order, WaitForLeadership, and the end of the program with Stop;
--                       Lifecycle/Terms.antt has Start and runAsLeader as steps.
-- Run.antt              p.go: Run of all the processors as interleaved steps, with the token that
--                       wakes them, the thefts of workSteal, and the fetcher.
-- Journey.antt          The way of one job through SubmitJob, fetcherLoop, Run, executeTask and
--                       handleTask.
-- Logger.antt           logger/internal/store/buffer.go: AddLog, flushLocked, the queue. Logger/Disk.antt
--                       has the files, their rotation and writeBatch; Logger/Clean.antt
--                       cleanExpiredLogs; Logger/Flow.antt the goroutines as steps, the
--                       cleaner among them;
--                       Logger/Message.antt the loop of logger/cmd/main.go.
-- Api.antt              scheduler/internal/api/job_handler.go: HandleSubmit, HandleBatchSubmit;
--                       Api/Dead.antt HandleListDead with ListDeadJobs of job_service.go,
--                       Api/Status.antt HandleStatus, Api/Limiter.antt rate_limiter.go.
-- Worker.antt           executor/internal/worker/pool.go and StartConsumer of consumer.go.
-- Connect.antt          pkg/database/redis.go, pkg/mq/kafka.go, pkg/mq/rabbitmq.go: the attempts to
--                       connect and the pool of channels.
-- Config.antt           pkg/config/config.go: InitConfig, and the defaults of InitLogStorage.
-- Backoff.antt          backoff and backoffDuration, retryDelay of pkg/database/redis.go.
-- Base.antt             Shared names: native integers, lists, counting. Tests.antt: concrete runs.
--
-- How the state corresponds: a method that changes the state of a processor is a function from
-- processors to processors; the mutex makes each one step. A function that calls Redis is a function
-- from a world to a result and a world. Every call meets one link of the network: it works, it fails,
-- or it takes effect and its reply is lost; the theorems say which they allow. An error that the code
-- only logs is dropped by `ignore_error`. Orders of steps of several processes are the orders in which
-- the theorems let the calls act on one database.
--
-- Bounds and fuel: the loops of container/heap run on fuel, the length of the heap, and the theorems
-- on them hold for the functions with that fuel. The numbers of tasks and times are integers, the
-- shift of the backoff is taken modulo 2^64. Scores are whole numbers below 2^53.
--
-- The search of the logger for a free file name runs on fuel; it is enough when there is more than
-- there are files, and the theorem on the whole logger asks for as much as there are files and logs.
-- The eight attempts to connect are a bound of the source.
--
-- Not modelled: how the programs are put together and wait for a signal, the closing of connections;
-- the reading of the configuration file, the routing of HTTP and
-- the syntax of JSON, which are libraries; log lines; the texts of errors that carry a status code.
mod Base
pub mod Model
pub mod Heap
pub mod TaskHeap
pub mod Redis
pub mod Status
pub mod Backoff
pub mod Processor
pub mod Detail
pub mod Scheduler
pub mod Fsm
pub mod Service
pub mod Executor
pub mod Recovery
pub mod Leader
pub mod Lifecycle
pub mod Run
pub mod Journey
pub mod Logger
pub mod Config
pub mod Connect
pub mod Api
pub mod Worker
mod Tests
