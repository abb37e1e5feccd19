-- ===== src/Lib.antt =====
-- cppgres: C++ programs inside Postgres. The library stands between two ways of failing: a
-- Postgres error is a siglongjmp to the buffer on `PG_exception_stack`, a C++ error is an
-- exception. A call of Postgres goes through `ffi_guard`, which turns the first into the second; a
-- function that Postgres calls is wrapped by `exception_guard`, which turns the second into the
-- first. On these stand the classes whose destructors give back what Postgres lent:
-- subtransactions and transactions, memory contexts, resource owners, SPI executors and plans.
--
-- Which file models what (paths from the root of the repository):
--   World          the globals of a backend that the code saves and restores, and `Outcome`, the ways
--                  in which a call leaves: return, C++ exception, Postgres error, std::terminate.
--                  `Cpp` is the monad of such calls, `at_scope_end` runs a destructor, and
--                  `noexcept` and `try_catch` are those of C++.
--   Guard          src/cppgres/guard.hpp, exception.hpp, exception_impl.hpp and error.hpp: ffi_guard,
--                  ffi_guard_noexcept, scope_fail, scope_exit, exception_guard, pg_exception (made,
--                  destroyed, rethrown) and report. Guard.Restore is about the handlers, Guard.Border
--                  about errors and exceptions, Guard.Scopes about cleanups.
--   Node           src/cppgres/node.hpp with node_mapping_table.hpp and node_dispatch_table.hpp, which
--                  are transcribed whole in Node.Tables: the tags with a C++ type, visit_node, the
--                  walkers and node_traits.
--   Memory.Owned   owned_memory_context and its adoption in src/cppgres/memory.hpp, as a store of
--                  places at which objects live.
--   Memory.Contexts  abstract_memory_context, memory_context_scope and memory_context_allocator of
--                  src/cppgres/memory.hpp. Objects is about construct, Allocation about the allocator.
--   Memory.Tracking  tracking_memory_context of src/cppgres/memory.hpp: the objects that share
--                  a callback_state, and the reset callback that points to it, for one context.
--   Owner          resource_owner and executor_state of src/cppgres/resource_owner.hpp, in the same
--                  way; the two differ in the calls that free a handle, which are a parameter.
--   Xact           src/cppgres/xact.hpp: internal_subtransaction (Subtransaction, Balance, Choice) and
--                  transaction (Transaction, Nested); transaction_id (Ids).
--   Datum          src/cppgres/datum.hpp, types.hpp and type.hpp: nullable_datum, conversions of
--                  integers and optionals, and the type traits.
--   Spi            src/cppgres/executor.hpp: the static stack of live executors (Executor, Stack),
--                  the members that talk to SPI (Operations, Current), the arrays of arguments
--                  (Arguments), spi_plan (Plan), results and result_iterator (Rows, Iteration).
--   Function       src/cppgres/function.hpp: postgres_function, the C++ function as Postgres calls it,
--                  with the stack of running calls of current_postgres_function. Keeping and Calls are
--                  about that stack, Arguments and Values about what is computed, Interrupts about the
--                  loop over a set.
--                  Outgoing is function<Ret, Args...>, a function of Postgres that C++ calls: Checks is
--                  about its constructor, Strict about its calls. Records is about sets of records.
--   Syscache       src/cppgres/syscache.hpp: a pinned tuple; Pins is about the pins. Naming is
--                  named_type of types.hpp, which looks a type up.
--   Varlena        non_by_value_type, varlena, text and bytea of src/cppgres/type.hpp: Pointers is about
--                  detoasted pointers and trackers, Bytes about what is read back. Expanded is
--                  expanded_varlena, and Expanded.Flat about its flat form. Strings has the conversions
--                  of strings in types.hpp, and Strings.Copies is about them.
--   Worker         src/cppgres/threading.hpp: the queue of a worker and its loop, as a relation of the
--                  steps that the threads take. Order is about the queue, Drain about the end.
--   Bgw            src/cppgres/bgw.hpp: the texts of a worker (Texts), and its start and handle (Handles).
--   Aggregate      src/cppgres/aggregate.hpp: Meaning says what a class is meant to compute, Objects is
--                  about the objects of states, Folds and Values about what aggregates compute, Combined
--                  about the combination of two states.
--   Record         src/cppgres/record.hpp: tuple_descriptor (Frozen) and the reads of record (Lookup).
--                  Composite has the constructors and the conversions of composite types; its Tuples
--                  says what Postgres promises of tuples, Datums and Fields follow a value there and
--                  back. Copies has the copies, moves and assignments.
--   Role           src/cppgres/role.hpp: roles, and the scope of security_context (Identity).
--   Name           src/cppgres/name.hpp: a text in an array of NAMEDATALEN characters.
--   Lists          src/cppgres/list.hpp: a List of Postgres as a range (Ranges).
--   Common         names of the library, Boolean tests, lists over native numbers and two's complement
--                  integers; Samples holds a backend for the tests.
--
-- What is taken from Postgres is a parameter: ErrorApi (the error functions), SubxactApi, XactApi,
-- SpiApi, PlanApi, SetApi, MemoryApi, CacheApi, VarlenaApi, TupleApi, RoleApi and the
-- others of that name are records of calls, over a type `P` for what Postgres keeps of its
-- own. What Postgres documents of them is a hypothesis with a name: Fidelity, Subxacts, Snapshots,
-- StackLaws, CallLaws, Leaves, PinLaws, BytesLaws, FlatLaws, TupleLaws, SetsIdentity and Apart (that areas do not
-- overlap). The error
-- functions are total, so that a second error while an error is copied (no memory for the copy, say) is outside of the model. The look-ups of types in pg_proc and the
-- conversions of arguments and results in function.hpp are functions that do not fail. A pointer, an OID, a context, a
-- text and a C stack frame is a number. A jump to a buffer on the exception stack reaches the
-- innermost guard whose buffer it is; the buffers are numbered by their depth on the C stack.
--
-- Bounds and fuel: a datum is a number below 2 ^ 64, the conversions of integers are two's
-- complement at 64, 32 and 16 bits, and the position of a result_iterator is a size_t that wraps
-- at 2 ^ 64. The loop over results is on fuel; one more than the number of rows is enough, and so it
-- is for the cells of a List.
--
-- Not modelled: that two descriptors of record.hpp may share one TupleDesc; the wrappers
-- heap_tuple.hpp, collation.hpp, backend.hpp and guc.hpp, which
-- hold little but calls of Postgres; the templates of utils, which the compiler evaluates;
-- utils/pfr.hpp, which is Boost.PFR.
pub mod Common
pub mod World
pub mod Guard
pub mod Node
pub mod Memory
pub mod Owner
pub mod Xact
mod Samples
pub mod Datum
pub mod Spi
pub mod Function
pub mod Worker
pub mod Record
pub mod Role
pub mod Lists
pub mod Name
pub mod Syscache
pub mod Varlena
pub mod Bgw
pub mod Aggregate
