-- ===== src/Lib.antt =====
-- Verification library of capi_net, a distributed tester of chess engines. A server keeps tests,
-- clients, pairs of games and their statistics in one PostgreSQL database; clients register,
-- claim pairs, play them with fastchess and submit the games; the server scores the pairs,
-- decides with a sequential test when a test is over and promotes the next.
--
-- Parts and files. Names of functions are those of the source, paths are from the repository's
-- root.
--
-- Base and Base/*: the shared helpers: tests into Bool, lists, tables (find, select, update,
--   sort), tables with a key and their extension, signed integers.
-- Server/Penta and Server/Stats: common/penta.cpp, common/gsprt.cpp and common/elo.cpp.
--   Server/Stats/Laws holds the lemma on the bisections.
-- Server/Types, Server/Schema: server/types.hpp, server/spec.hpp, server/queue.hpp and the
--   tables of migrations/, one record for each row type and Db for the database.
-- Server/Outcomes: the view pair_outcomes of migrations/001_initial.sql and the counts of
--   refresh_test.
-- Server/Lifecycle: server/test_lifecycle.cpp (refresh_test, finish_test, promote_next_test).
--   Its Order, Promotion and Frame hold the order of the queue, what a promotion does and what a
--   refresh leaves alone.
-- Server/Sanity: server/sanity.cpp, with Plausible.
-- Server/Clients: register_client and heartbeat of server/queue.cpp. Server/Queue: claim_pairs
--   (Claim), submit_result (Submit), abandon_pair and recover_expired_leases (Leases) of the
--   same file.
-- Server/Admin: insert_test, stop_test and set_priority of server/admin.cpp. Server/Smoke: the
--   transaction of server/smoke.cpp that concludes a smoke test.
-- Server/Books: epd_to_fen and sample_book of server/books.cpp.
-- Server/Spec: server/spec.cpp, with Parse for parse_test_spec and Accepted for what it lets
--   through.
-- Server/Views, Server/Reports: the reads of server/queue.cpp, server/test_lifecycle.cpp,
--   server/admin.cpp and server/reports.cpp.
-- Server/System: every request and periodic task (server/http/*.cpp, server/main.cpp) as a
--   transaction, and histories of them. Server/Evolution and Server/Pairs follow the tests and
--   the pairs along a history.
-- Server/Config: server/config.cpp, with Loaded for what a configuration that loads is like.
--   Server/Github: server/github.cpp, on a run of curl. Server/Pool: server/db/pool.cpp as steps
--   of the threads, with Bounds for the semaphore that it refines.
-- Server/Http: server/http/helpers.hpp, with Words for the texts of the enumerations, Readers
--   for what the readers of a body give, and Site for what the routes take from outside the
--   source. Its Games and Routes are server/http/routes.cpp (parse_game; the handlers), Snapshot
--   the statistics of the same file, Admin server/http/admin_routes.cpp, Web
--   server/http/web_routes.cpp, with Download for the length of a compressed download; Atomic
--   holds that an error answer changes nothing.
-- Server/Samples, Server/Tests, Server/ServiceTests, Client/Tests, Common/Tests, Protocol/Tests:
--   concrete states, and the theorems applied to them.
-- Common/Process: tail_lines of common/process.cpp.
-- Client/Topology, Client/Admitted: default_slots and decide_admission of client/topology.cpp,
--   with Linux for detect_linux, its Online for what that finds and its Pinned for the cores
--   that an admission gives there. Client/Config: client/config.cpp, with Loaded for what a
--   configuration that loads is like. Client/Startup: the registration and the exit code of
--   client/main.cpp. Client/Api: the calls of client/api.cpp. Client/Runner: submit_with_retry
--   and slot_loop of client/runner.cpp; Client/Poll: poll_server and the command line of the
--   same file; Client/Results: make_result_body, with Client/Pgn for the games of client/pgn.cpp
--   (its Usage, Games and Outcomes).
-- Cli: the arguments, the body of a new test and the calls of cli/main.cpp.
-- Protocol: the calls of client/api.cpp answered by the routes of the server: Registration,
--   Submits, Claims and Active for the requests and answers, Reports for the body of a result,
--   Delivery for a result on its whole way.
--
-- How the state is modelled. A handler of a route gives a response and a database or throws;
-- guarded turns an exception into an answer. The body of a request is the value that nlohmann's
-- parser gives, a data type in Base/Json; the conversions of its get are a parameter of the
-- client, of which an integer that fits the type is read as it is. A connection of the pool that
-- does not come is an exception of the handler. A request or a task is one transaction on Db, at
-- a time `now` in microseconds; an exception is `none`, after which the state is the one before.
-- Transactions are taken one after the other; the rows that SKIP LOCKED passes over are given by
-- a predicate `locked`. A statement with several CTEs reads one snapshot. Ids come from counters.
-- The commits of a test are of the type CHAR(40), whose padding and truncation of blanks are
-- kept; the widths of the other columns are not, and neither is a commit in doubt: an exception
-- leaves the database as it was. Integers have no upper bound, except for the cast of a priority;
-- cpu factors are in thousandths, so that a lease is a whole number of microseconds. Doubles are
-- an abstract type: Server/Schema takes the statistics as the record Services, which Server/Stats
-- fills from the record Doubles of the operations of the language and of cmath. The outcome of
-- the builds and of the sampling of a smoke test, and the random dispatch orders, are arguments.
--
-- Loops. The digits of a number are written on a fuel that is the number and one more, which is
-- above the number of its digits. The bisections run 200 rounds and mle_t_value 10, as in the
-- source. The loops of the client run over a list with one entry for each round, which says what
-- the network, the clock and the other threads do; that the delivery of a result ends is shown
-- for a list of four entries or more once the stop flag is set, which is the bound of the source.
--
-- Not modelled: the threads and signals of the processes, the entry point of the server, the
-- builds of engines and fastchess itself, the detection of the topology on macOS, what the
-- command line tool prints, the redirect and the headers of the pages, and the wrappers of curl
-- and zlib: they are calls of the operating system and of other programs, or input and output
-- around the operations.
pub mod Base
pub mod Common
pub mod Server
pub mod Client
pub mod Cli
pub mod Protocol
