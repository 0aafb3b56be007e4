-- ===== src/Lib.antt =====
-- JudgeIt, an online judge: a server takes submissions and puts them in a queue, and a worker takes
-- them from the queue, runs each in a sandbox on the test cases of its problem, and stores the
-- verdict. Paths are given from the root of the repository.
--
-- Worker (src/worker). Semaphore: semaphore.service.ts, the boxes of the sandbox handed out to
-- callers in turn; a promise that is pending is what its caller goes on with. OffsetTracker:
-- offset-Tracker.service.ts, which positions of the queue may be committed; track, complete,
-- get_committed and clear are its methods. Manager: worker-manager.service.ts, the consumer.
-- Its state is the record `Manager`; `deliver` is `eachMessage` up to the wait for a box, with
-- `acquireOrPause`; `begin` is the rest of `eachMessage` and `processMessage` up to its wait for the
-- judgement; `finish` is its `finally` block. A history is any list of these events, so every
-- interleaving that the event loop can have is one. Startup: `onModuleInit`, with its five attempts.
-- Restarts: runs of the worker one after another, with the broker's position between them.
--
-- Judge (src/judge/judge.service.ts). Normalize: `normalizeOutputStrict`. Verdict: `validateResults`
-- and the part of `judgeSubmission` that makes the final verdict, the rows and the figures. Service:
-- `judgeSubmission` over the services that it calls, an interface; Executor fills its batches with
-- those of Execution. TestCases: the reading of test cases from the files of the object store
-- (src/judge/test-cases/test-cases.service.ts) and the filter of their keys. Load and Cached:
-- `getTestCases` with the object store (Storage: src/storage/storage.service.ts) and the cache.
--
-- Execution (src/execution/execution.service.ts). Types: src/types/execution-types.ts and
-- src/types/language.config.ts. Meta: `parseMetaFile`, `buildResultFromMeta`, `getSignalName`.
-- Sandbox: commands to the host, and code that may throw. A host is any function that answers to a
-- command from the log of the commands before it, by an output or by an error. Config: what the
-- commands are made from. Batch: `executeBatch` and the methods that it calls.
--
-- Cache (src/cache/cache.service.ts). A service is a record of the calls of `getOrSet`, each with
-- what it waits for, of the promises of the fetches by number, and of the map `inFlight` from keys
-- to them. Each operation is what runs between two waits: `begin`, `look_up` (`get`), `proceed`
-- (from the value that was read to the next wait), `fetched` and `store` (the promise of a fetch),
-- `settle` (its `finally`) and `receive`. Cache.Flights has the relation of the steps, so every
-- interleaving of calls, fetches and other clients of the cache is a chain of steps. Cache.Instances
-- has several services, each in a process of its own, over one cache.
--
-- Kafka (src/kafka/kafka-producer.service.ts): `sendMessage`. Kafka.Client: the options of the
-- client (src/kafka/kafka.module.ts). Worker.Task: the `try` of
-- `processMessage`. Judge.Service.Stores and Sandboxed: the services of the judge over the
-- database and a host. Worker.Verdicts puts them together with Submissions and Judge, from the
-- request of a user to the verdict in the database; JSON and the client of the queue are
-- parameters.
--
-- Submissions (src/submissions). Repository: submissions.repository.ts over an interface of the
-- database and the queue with its laws, and `submit` of submissions.controller.ts. Solved: the
-- query of the solved problems and their count, over the rows of the tables. Service:
-- submissions.service.ts and the other requests of the controller. Pages, Bounds and Submit are
-- about the operations.
--
-- Problems (src/problems): the query of the filtered search, the look-ups and the limits of a
-- problem.
--
-- Users and Auth (src/users, src/auth). Prisma: the calls of the database client as an interface
-- over a state that is not described, with the laws that the theorems use. Repository:
-- users.repository.ts and password-reset.repository.ts. Users.Service: users.service.ts. Users.Ids:
-- src/common/utils/id-generator.ts, the suffix of a name. Profile:
-- `getProfile` and users.controller.ts. Crypto: the libraries of auth.service.ts as parameters.
-- Auth.Service: its registration, sessions, passwords and reset tokens. Oauth: the login by a
-- provider and the mail with a reset link. Controller: auth.controller.ts with `setCookies`.
-- Google: the validation of a Google profile. Guards: src/common/guards and the strategies that
-- read tokens. Admission: the global guards of src/app.module.ts in their order. Refresh: a refresh
-- behind its guard. Each operation reads and changes the state and returns or throws; what it wrote
-- before it threw stays written.
--
-- Email (src/email/email.service.ts): `sendMail` over the libraries that it calls. Email.Reset: the
-- mail with a reset link, sent by it.
--
-- Validation (src/dto/submission.dto.ts, src/types/pagination.dto.ts and the pipe of
-- src/app.module.ts): the checks of a submission and of a page before their requests. The pipe and
-- its checks are a parameter.
--
-- Monitoring (src/common/middlewares/monitoringMiddleware.ts): the gauge and the counter of
-- requests, with a state that holds the requests whose response has not ended. Registration:
-- src/monitoring/metricService.ts.
--
-- Seed (prisma/seed.ts): the admin and the problems of a new database.
--
-- Prelude: Booleans, lists, integers, maps, texts, numbers and results that the parts share.
-- Tests: the theorems at concrete inputs, and runs of the code.
--
-- Texts are lists of UTF-16 code units. Numbers that the program reads with `parseFloat` are
-- decimals, and the rounding of the judge is on them exactly; the program rounds binary floating
-- point, which can differ in the last place. Offsets, boxes, partitions and ids are natural
-- numbers. Every definition is structurally recursive. The one bound is that of the attempts at
-- the start, which is the five of the program, and printing a number is given the number as fuel,
-- which is at least its count of digits.
--
-- Not modelled: logs and the values of the other metrics, the clients of the database, the queue, the object
-- store and the mail server, and the wiring of the framework, which are libraries or only input
-- and output; the checks of the other types in src/dto.
pub mod Prelude
pub mod Cache
pub mod Kafka
pub mod Worker
pub mod Execution
pub mod Judge
pub mod Monitoring
pub mod Storage
pub mod Problems
pub mod Submissions
pub mod Users
pub mod Auth
pub mod Email
pub mod Validation
pub mod Seed
mod Tests
