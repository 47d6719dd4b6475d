-- ===== src/Lib.antt =====
-- Verification of the execution core of ARTestEngine, the engine behind ARTestCLI, which runs test
-- plans of commands against instruments.
--
-- The program. A compiled plan is a list of steps with a policy each. ExecutionSession runs it on a
-- worker: it prepares the runtime, initialises the instruments (InstrumentManager), creates and
-- configures the commands (BindCommands), has TestExecutor execute them, and cleans up on every path.
-- The executor asks the execution control before each step, retries a step by its policy, and
-- accumulates the verdict and the summary. Cancellation comes from other threads through a token that
-- the executor, the commands and the waits read. Components report by events to a sink.
--
-- The files. Paths are below source/ARTestEngine.Core of the repository where they do
-- not start with source.
--   Base           helpers: tests, lists, integers, texts.
--   Diagnostics    Diagnostics.h; Results: Execution/ExecutionResult.h, Model/ExecutionPolicy.h.
--   World          Execution/IEventSink.h, SessionEventSink, and the world of an execution.
--   Cancellation   Execution/Cancellation.cpp: is_cancellation_requested, wait_for, with_timeout.
--   StateMachine   Execution/ExecutionStateMachine.cpp: is_allowed, try_transition.
--   Context        Execution/ExecutionContext.cpp: the variables; Condition is
--                  EvaluateCondition.
--   Host           the interfaces of commands, instruments and control, as a parameter.
--   Executor       Execution/TestExecutor.cpp: attempt_loop and run_attempt are the attempt loop,
--                  gate, run_step and step_loop the step loop, execute the whole of Execute.
--   Instruments    Instruments/InstrumentManager.cpp: load_definitions, initialize_all,
--                  shutdown_all.
--   Session        Execution/ExecutionSession.cpp: Binding is BindCommands, Worker is RunWorker,
--                  Lifecycle is Start, Cancel, WaitFor, Wait and the destructor.
--   Registry       Commands/CommandRegistry.cpp, Instruments/InstrumentRegistry.cpp and
--                  Catalog/RegistryTransaction.h: register, commit, revoke.
--   Catalog        Catalog/ComponentCatalog.h: add, find.
--   Json           the interface to JSON values, as a parameter.
--   Schema         Catalog/SchemaValidator.h: check, validate.
--   Parser         Parsing/JsonTestPlanParser.cpp: parse_text, parse_file.
--   Compiler       Compilation/TestPlanCompiler.cpp and Model/TestPlan.h: compile.
--   Commands       Commands/BuiltIn: the wait command and the reserved IF command.
--   Process        source/ARTestEngine.Process: Wire is protocol/artest_process.proto and
--                  Protocol.cpp, Supervisor, Requests and Stopping are Pump, Call and Stop
--                  of WorkerSupervisor.cpp.
--   Broker         source/ARTestEngine/Extensions/NativeServiceBroker.h: resolve, component_of
--                  (the lease that InvokeService calls), release.
--   Engine         source/ARTestEngine/Api: Context is Prepare and Activate of EngineContext.cpp,
--                  Plans is CompileForEngine, Sessions is EngineSessionApi.cpp, Calls any
--                  sequence of the calls; Scan is Extensions/CatalogSnapshot.cpp.
--   Registration   source/ARTestDev/RegistrationStore.cpp: Journal is checkRecord, putRecord and
--                  validateJournal, Recovery is recover, promote and commit. A run is the list
--                  of the disks that its changes leave, so that it can be stopped at each.
--   Tests          concrete runs on a simulated host.
--
-- Modelling. A method that changes state returns the new state. Exceptions of code outside the engine
-- are values of `Outcome`. Commands, instruments and control are functions of the record `Host`: each
-- answers with an outcome, the state of the test bench after it, the time it took, the events it
-- published, and whether cancellation was requested meanwhile. The world holds the shared flag, the
-- clock in milliseconds, the log of events, and a list of interferences: whenever the worker reads
-- the flag or the clock, the next interference lets time pass and may request cancellation, so each
-- interleaving of other threads is a list. An `int` that `++` would overflow is undefined,
-- and a cast to a signed type wraps. Every loop recurs on its list, on the attempts left or on the
-- levels that the depth limit of the schemas leaves, so no fuel is needed; the loop of
-- `Pump` recurs on the turns that the clock, the pipe and the handlers make it take. `size_t` counters are unbounded numbers, at most the length of a list. Times do
-- not overflow; a time point before the clock's epoch is the epoch.
--
-- Not modelled: the buffers of the C interface, the search and the loading of extensions, the launch and the pipes of worker
-- processes, the command line and the development tool. Failures of allocation are left out, and
-- with them the handlers that only those reach. In Registration, a call of the file system that fails is
-- left out; a run may stop at any change. The destruction of commands before a session's shutdown is
-- left out.
mod Tests
pub mod Registry
pub mod Catalog
pub mod Json
pub mod Schema
pub mod Compiler
pub mod Parser
pub mod Process
pub mod Broker
pub mod Registration
pub mod Commands
pub mod Session
pub mod Instruments
pub mod Engine
pub mod Executor
pub mod Context
pub mod Host
pub mod Base
pub mod Diagnostics
pub mod Results
pub mod World
pub mod Cancellation
pub mod StateMachine
