-- ===== src/Lib.antt =====
-- NetWay: a C++ wrapper that keeps one OPC UA client of open62541 connected to a PLC. Callers read
-- and write values in batches; a watchdog thread looks at the connection, repairs it, and gives the
-- client up when the repair has taken too long.
--
-- The parts and their files, with paths from the repository's root:
--   Prelude       numbers, tests, lists and integers shared by all
--   Atomic        loops of compare-and-swap, and when they take effect at one point
--   RichError     include/Rust_error_deal/error_deal.h: error codes, `Result` and its combinators
--   Packed        src/OPCUAPacking/ua.cpp: `packState` and `unpackState`, the 64-bit status word
--   Config        include/OPCUAPacking/Types.h: `ClientConfig`, presets, `check`,
--                 `applyDefaultIfInvalid`
--   Life          Types.h and ua.cpp: `LifeState` and the compare-and-swap loops on it
--   Values        S7TypeStruct.h, ValueTypes.h, TypeTraits.h, ConversionDispatcher.h: PLC values and
--                 their conversions
--   Sdk           detail/Isdk.h: what the wrapper takes from open62541, as a parameter; Sdk.Real:
--                 `clientNew` and `clientDelete` of detail/RealSdk.h
--   Impl          ua.cpp, `OPC_UA_Client::Impl`: its members, callbacks, small operations
--   Impl.Connected, Impl.Connect, Impl.Disconnect
--                 `isConnected`, `connect`, `disconnect`
--   Impl.Watchdog `calculateBackoff`, `delayFunction`, `doWatchdogDecision`, `runWatchdog`: one
--                 turn, one pass with its exceptions, and sequences of passes
--   Impl.Frame, Impl.Turns, Impl.Calm, Impl.Rounds
--                 what operations leave alone, what the moves of the life state establish, clients
--                 that nobody stops, and the waiting loops with their rules
--   Batch         ua.cpp and ua.h: nodes, results, `uaNodeIDAlloc`, requests and answers; Batch.Run:
--                 `batchRead` and `batchWrite`; Batch.Responses: the guards of the responses
--   Impl.Configure, Impl.Shutdown
--                 the start of a client: `configureClient`, `startWatchdog`; its end: `shutdown`,
--                 `joinWatchdog`, the destructor
--   Impl.Flight, Impl.Publication
--                 the threads inside one client: tasks, connection slot, service calls and the wait
--                 of `shutdown`; the loop of `updatePacked`
--   ErrorMapping  ua.cpp: `toRichErrorCode`, the codes of the `catch` clauses, the texts of the inner
--                 errors, `safeStatusCodeName`
--   Client        ua.cpp and detail/RecreateSync.h: `OPC_UA_Client`, its critical sections and
--                 leases; Client.Api: the calls; Client.Lifetime: `create`, `createWithSdk`,
--                 `shutdown`; Client.Recreation: `recreateGiveUpClient`; Client.Protocol: the
--                 interleavings of the threads on one object
--   Pools         include/Thread_pool: the inline code of the two pool headers
--   Tests         a small server and client on which the theorems are tried
--
-- How the parts meet. An operation of `Impl` takes the state of the wrapper together with a world,
-- and gives both back. Every call into the library and every wait is `call`: the library answers
-- from the world, and lists what happened to the wrapper meanwhile: the state and inactivity
-- callbacks, which run inside the call, and a give-up or a shutdown that another thread asked for.
-- So one thread is followed, and the others enter at its calls and waits. That the loops on the life
-- state and on the state word may be taken as single steps there is shown in Life.Atomic and
-- Impl.Publication. Two step relations follow all threads at once: Impl.Flight inside one client,
-- where a step is one atomic action, and Client.Protocol on the object, where a step is one critical
-- section under `m_recreateLock`.
--
-- `OPC_UA_Client` holds one `Impl`, or none. A call takes a lease, runs the operation of `Impl` on the
-- client that it finds, and gives the lease back; an exception that ends the operation is a
-- parameter (so are those that end a creation or a re-creation), as is whether a thread starts, how
-- joining one goes, and what the other threads have made of the shared flags, and of the client in a
-- re-creation, by the end of a wait or a long step.
--
-- Loops. `connect` and `disconnect` wait in a loop on fuel, where running out is `none`; the fuel
-- that suffices is one more than the nanoseconds of the wall clock bound, since each round reads the
-- steady clock and that clock advances. The delay of the watchdog and of `batchRead` takes one unit
-- for each segment and needs at most `retryMaxBackoffMs` of them. The attempts of `batchRead` are
-- counted and need no fuel of their own. Creation and re-creation have settings of their own, and
-- are given the fuel of the largest bound that an `uint32_t` allows.
--
-- That a connection comes about is a matter of the library: Impl.Connect.Opening says what it has to
-- do for it, as a hypothesis: after `connectAsync` the connection is there within some number of
-- iterations, no call takes longer than a given time, and the clock of the library and the steady
-- clock show that time.
--
-- Numbers are natural numbers with the wrap-around of `uint32_t`, `uint64_t` and the 16-bit version
-- written out where the code computes; differences of signed times are compared by moving terms.
--
-- Not modelled: the messages of a RichError and of the log, memory order weaker than sequential
-- consistency, and the freeing of the library's memory outside `clientNew`. Of the pool headers only
-- the inline code is there to model. The queue library is third-party code, and the tests and the
-- benchmarks are not part of the client.
pub mod ErrorMapping
pub mod Prelude
pub mod RichError
pub mod Packed
pub mod Config
pub mod Life
pub mod Values
pub mod Sdk
pub mod Impl
pub mod Atomic
pub mod Pools
pub mod Batch
pub mod Client
pub mod Tests
