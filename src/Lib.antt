-- ===== src/Lib.antt =====
-- Verification of soelib, a Go library of helpers for services.
--
-- Its parts, and the modules that model them:
--   common/des/soedes.go          the Delphi-compatible DES: Des
--   common/des/des.go             DES in ECB mode with padding: Des/Ecb
--   tools/ants/pool.go, metrics.go, work.go
--                                 pools of goroutines, their health analysis and metrics, and the
--                                 global pool with its monitor: Ants
--   tools/lucslot/slot.go, task.go
--                                 the timing wheel of delayed tasks: Lucslot
--   common/keylock/keylock.go     a mutex for each key: KeyLock
--   common/bitmap/bitmap.go       a set of numbers as bits: Bitmap
--   tools/task/time_task.go       repeated tasks by name: TimeTask
--   net/soehttp/soehttp.go, service_client.go, circuit_breaker.go, errors.go
--                                 clients of HTTP services with retries and circuit breakers: Http
--   tools/pool/simple_pool.go     a pool of goroutines with a bound and a wait group: SimplePool
--   common/db/tenantdb/tenant_db.go, data_source.go, data_source_back.go, and GetDBInfo of
--   common/utils/util.go
--                                 the data sources of tenants and the cache of their connections:
--                                 TenantDb
--   net/rabbitmq/producer.go, consumer.go
--                                 producers and consumers that connect again: Rabbit
--   common/ini/system_ini.go      the settings of a file: Ini
--   common/soejwt/token.go, subject.go
--                                 tokens of logins: Jwt
--   common/db/specialdb/redis.go  commands to a Redis server, and the lock made of them: Redis
--   tools/query/query.go          a queue behind a lock: Query
--   common/utils/sign.go, date.go, business_date.go, util.go, string.go, bitmap.go
--                                 the text of a signature, the hours of business, helpers for
--                                 numbers, lists and texts, and a bitmap of words: Utils
-- The wheel runs its seconds on the global pool. TenantDb takes a lock of KeyLock for each tenant.
-- TenantDb, Ini and Redis decrypt with Des what they are configured with. The others do not call
-- each other.
--
-- Common holds what the models share: Boolean tests, lists over the native numbers, the laws of
-- bits on bytes, signed integers, texts, and the pieces, the trimming and the numbers that the
-- packages strings and strconv read from a list of bytes.
--
-- Des. A text is a list of bytes; the GBK encoder and decoder (mahonia) are parameters. Des/Tables
-- has the tables, Des/Block the operations on a block (`initPermutation`, `makeKey`, `encry`,
-- `desData`), Des/Power the operations on texts (`EncryStr`, `PowerEncryStr` and their inverses).
-- Loops without a bound run on fuel: nine rounds for the key, seven for the padding, as many as
-- there are bytes for the trimming; the proofs in Des/Loops show that this is enough. In Des/Ecb the
-- block cipher (crypto/des) and base64 are parameters.
--
-- Ants. A record stands for `Pool`; the mutexes make each critical section one step, and the
-- atomic counters are fields. The library under it (panjf2000/ants) is not in the repository: its
-- answers to `Submit` and `NewPool`, the durations and the clock are arguments. A submission has two
-- parts (`begin_...`, then `end_submit` with the library's answer), and the end of a task is
-- `finish`; Ants/System interleaves these freely. Ants/Func is `PoolWithFunc`, Ants/Global the
-- global pool with the monitor, where `monitorMu` is part of the state, an operation that waits for
-- it while it is held is `deadlock`, and a second close of a channel is `panicked`. `Metrics` sees the
-- pool and loads its counters at several moments. Numbers of tasks do not wrap around
-- at 2^63, and durations, thresholds and limits are not negative.
--
-- Lucslot. A time is its number of seconds. A second of the wheel (`tick`) and the closure that it
-- submits to the pool (`run_submitted`) are two steps, and the pool's answer is an argument; in
-- Lucslot/Events every closure is accepted and runs at once, as the code means it to. The abstract
-- view (Lucslot/Agenda) gives each task its time in place of a slot and a number of turns.
--
-- KeyLock. Each critical section of `Lock`, `Unlock` and `Clean` is a step, and so are taking and
-- releasing the mutex of a key; any number of goroutines interleave. A goroutine calls `Unlock` only
-- for a key that it has locked.
--
-- Bitmap. A byte slice is a list of bytes. The loop of `costCount` has eight rounds, which are
-- enough for a byte: it is checked at all 256.
--
-- TimeTask. A map is an association list; the mutex is part of the state of what runs with it,
-- and an operation that waits for it while it is held is `deadlock`.
--
-- Http. A `time.Duration` is a word of 64 bits. net/http, hystrix, encoding/json, mapstructure and MD5
-- are parameters. A client answers the attempt of a number, given what is unread of the request's
-- body, and says what it leaves unread. Http/Remote and Http/Service are the two copies of
-- `doRequest`, `calculateRetryWait`, `isRetryableStatus`, `handleErrorWithBody` and `handleMapError`,
-- whose loop runs on fuel: one more than the attempts that the limit allows is enough
-- (Http/Retries). Http/Replies describes the loop by its attempts. Http/Commands has the global
-- configuration and that of the breakers, Http/Clients and Http/Remotes the makers of clients,
-- Http/Calls and Http/Methods the calls, with `hystrix.Do` as a parameter that Http/Outcomes takes to
-- do what it documents; a run that goes on after hystrix has given up on it is left out.
--
-- SimplePool. Each operation on the channel and on the wait group is a step, and so is the end of a
-- task; any number of goroutines interleave.
--
-- TenantDb. Texts are lists of bytes. The database, GORM, crypto/des, base64 and the copy
-- of fields are parameters. TenantDb/Sources has the data of a source and TenantDb/Opening `_getDB`;
-- TenantDb/Calls and TenantDb/Options the calls for a connection, TenantDb/Cache the goroutines that
-- share the cache, each critical section a step, with the locks that KeyLock models.
--
-- Rabbit. What the AMQP library answers and what the server does comes as events, and a process is
-- a function of the list of events that it meets. What is opened and not yet closed is part of the state. net/alirabbit is the same text but for the
-- address, which Rabbit/Config has for both.
--
-- Redis. The library (redigo) and the server are parameters, the latter with a state of its own. The
-- connections that the caller has from the pool are counted, and the pool says how many it gives. The
-- Lua script of `Unlock` is in Redis/Script, as syntax with its text and what it does. For
-- Redis/Exclusion the server sets keys and runs scripts as its documentation says (`IsServer`), and no
-- key expires.
--
-- Query. What an operation does behind the lock is one step.
--
-- Ini. The file as go-ini reads it is a parameter. Jwt. The library of tokens (its signing and its
-- parsing, with what it finds valid) and the decoding of JSON are parameters.
--
-- Utils. The words of the bitmap have 64 bits. The keys of a map come in any order, as a list; `strings.ToLower` and `sort.Slice` are
-- parameters. A text of a time is its number of seconds and a text of a date the number of its day,
-- in a zone that does not change its clocks. The loop of `DecConvertToX` runs on fuel, as many rounds
-- as the number says, which are enough as the number is divided in each.
--
-- Not modelled: copies of other projects (tools/surgemq, tools/zip, pkg/sqlserver), generated code
-- (net/grpc/proto), examples (tools/ants/example.go), the other clients of databases, brokers and
-- services, logging and tracing, and of common/utils what is a call of the standard library.

pub mod Common
pub mod Ants
pub mod Des
pub mod Lucslot
pub mod Ini
pub mod Jwt
pub mod KeyLock
pub mod Bitmap
pub mod TimeTask
pub mod Http
pub mod SimplePool
pub mod Query
pub mod Rabbit
pub mod Redis
pub mod TenantDb
pub mod Utils
