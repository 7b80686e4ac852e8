-- ===== src/Lib.antt =====
-- uSched schedules commands on behalf of local and remote users. A client (src/usc) turns a command
-- line into requests and sends them to the daemon (src/usd), which authorizes them, keeps the entries in
-- its active pool, arms a timer for each, and hands the command of an entry whose trigger is reached to
-- the executer (src/use). The pool is written to a file and loaded again at the next start.
--
-- What is modelled, and where:
-- - Common/Config, Common/Flag: the limits of include/config.h and the flags of include/entry.h.
-- - Common/Bitops, Common/Hash, Common/Str: src/common/bitops.c, hash.c and str.c; Str/Replace
--   describes the replacement of all occurrences without its loop.
-- - Common/Entry: the entry of include/entry.h and the operations of src/common/entry.c; Flags, Payload
--   and Signature hold the proofs on its flags, the encryption of its payload and its signature.
-- - Common/Files: the files of the configuration and the calls on them, as a record of operations with the
--   laws that are relied on, and strrtrim of src/common/str.c; Lines is about a line that is read again.
-- - Common/Settings: src/common/config.c, with a child for each category of settings; a value that is read
--   is returned, and a failure is -1 or a read outside of an object. Valid and Unchecked say what is accepted,
--   Samples shows that the laws can be met.
-- - Usd/Libs: what the daemon calls outside the repository (the circular list of libpall, the
--   scheduler libpsched, the calendar of the C library), as records of operations, with the laws that
--   are relied on; Libs/Samples shows that they can be met.
-- - Usd/Runtime, Usd/Index, Usd/Vars: the runtime flags of src/usd/runtime.c, the ids of
--   src/usd/index.c, the variables of src/usd/vars.c.
-- - Usd/Delta: src/usd/delta.c, the thread that looks for changes of the clock, as a function of its readings
--   of the clock, and from src/usd/marshal.c the correction of the triggers; Jump holds the proofs.
-- - Usd/Marshal: from src/usd/marshal.c the loop that gives the entries of the file new triggers and timers, with
--   the readings of the clock as a function of their number; CatchUp and Ready hold the proofs.
-- - Usd/Schedule: src/usd/schedule.c, the operations on the active pool as steps on the runtime; Create,
--   Delete, Listing and Update hold the proofs, Update also schedule_entry_update.
-- - Usd/Auth: the two steps of a remote session in src/usd/auth.c; the key exchange of libpsec and the
--   table of the users are parameters.
-- - Usd/Authorize, Usd/Dispatch, Usd/Serialize: the three parts of src/usd/entry.c, with
--   auth_daemon_local of src/usd/auth.c and the connection kinds of src/common/conn.c.
-- - Usd/Process: src/usd/process.c. Process has the request to delete entries, New the one for a new
--   entry, Get the one for copies, Stages the two stages of a received entry: the header and its reply, and
--   the payload with the operation. What stands in memory that was not written is a parameter.
-- - Usd/Notify: src/usd/notify.c. The end of a read and the end of a write take the pool of connections
--   from one state to the next and say what the connection waits for. Notify/Connections makes of this a
--   step relation on all connections, with whatever else happens to the runtime as a step of its own, and
--   the protocol of one connection; Local, Moves, Reads and Invariant hold the proofs, Broken the requests
--   after which a pool has a freed entry: there the program goes on with undefined behaviour, and the
--   relation has no more notifications.
-- - Usc/Words, Usc/Parse, Usc/Parse/Argument: the language of the client in include/usched.h and its
--   parser in src/usc/parse.c; Grammar says what a sentence is, Sentences proves what is accepted.
-- - Usa: the requests of the administration tool. Words has the words of include/usched.h, Request is
--   src/usa/parse.c, Category with a child for each category and Users is src/usa/category.c, Logic is
--   src/usa/logic.c and src/usa/op.c. A call of a function of the administration is a value.
-- - Usa/Config: src/usa/config.c. Usa/Admin: what core.c, exec.c, ipc.c, network.c and stat.c of src/usa do
--   to show, change, commit and roll back their settings, with file.c, admin.c and print.c, as functions from
--   the files, the configuration and the lines printed; a child for each category. Frame, Commit, Outcome,
--   Release, RoundTrip and Uncommitted hold the proofs. Of a configuration that was filled in part, the
--   pointer to the string that is read last is kept.
-- - Usa/Lists: src/usa/auth.c, and the lists of lines of src/usa/file.c. A list of libpall is a record of
--   operations with the laws that are relied on, which leave the order open. Ops has what the four lists have
--   in common, Auth the functions; Text, Read and Shown are about a file of numbers, Added, Deleted, Broken,
--   Empty and Uncommitted hold the proofs, and Samples shows that the laws can be met.
-- - Base: tests on numbers, lists, bits and error values that the others share.
--
-- A function that changes an object takes it and returns it. A failure is an errno (Base/Errors). Locks
-- are not modelled: each function runs under the lock of its pool, and a notification, which takes these
-- locks one after the other, is one step. `alloc` says which allocations
-- succeed, by their size. Logging is left out. Numbers keep the width of their C type by `% 2 ^ w`.
--
-- Fuel: Usd/Schedule.unique_id repeats until a free id is found, which depends on the clock, and its
-- fuel is an argument; Usc/Parse.parse_compounds takes one more than the number of words;
-- Usa/Lists.read_lines takes the length of the file; Usd/Marshal.activate_each allows each loop on a trigger as many rounds as its
-- argument, and Ready says how many are enough; Common/Str.replace_rounds takes one more than the length of the text.
--
-- Not modelled: the network and the threads of the daemon, the marshaling of the pool apart from the triggers, the functions of the
-- administration tool for the users, the users of the configuration,
-- the executer, the
-- statistics and the monitor, the bindings and the port to Windows; what a daemon does once a pool has a
-- freed entry; a message size below the 24 bytes of the header of a message, and an entry without a
-- subject when its id is made.
pub mod Base
pub mod Common
pub mod Usd
pub mod Usc
pub mod Usa
