-- ===== src/Lib.antt =====
-- A verification of a delivery shop, the backend webapp/backend/internal/ and the worker that
-- measures it, benchmarker/worker/.
--
-- The program. Users log in and order products; robots ask for a plan of the orders to carry within
-- a capacity, and report what they have delivered. A request passes the middleware and a handler, a
-- service, the repositories and transactions, and ends at a MySQL server with the tables of
-- webapp/mysql/init/init.sql. Two expiring caches stand in between: users by name, and user ids by
-- session. The worker takes requests for load tests from a queue, one of a team at a time.
--
-- The files, and the code that they model:
--   Model      webapp/backend/internal/model/model.go: the records, and the error values that the code
--              tells apart
--   Delivery   webapp/backend/internal/service/robot.go, selectOrdersForDelivery: Table has the arrays,
--              the path nodes and the loops over them, Select the whole function; Spec is the
--              specification, a recursive knapsack and selections of a list; Halves, Trace, Row, Fill,
--              Loops, Ended, Parts, Choice, Divided and Optimal prove one part each
--   Cache      webapp/backend/internal/service/auth.go, userCache, and
--              webapp/backend/internal/repository/session.go, sessionCache: Defs has get, set and the
--              two evictions; Evict, Oldest, Room, Laws, Contents and Lifetime are about one operation
--              each, Race is about goroutines that interleave critical sections
--   Store      webapp/backend/internal/repository/ and
--              webapp/backend/internal/service/utils/timeout.go: Db has the tables, the state of the
--              backend and the answers of the environment; Orders, Accounts and Listing the statements;
--              Tx has ExecTx and WithTimeout; Leaves has rules for what a computation leaves in every
--              run; Rows, Counter, Paging, Owned, Backing and Recent are about the rows, the order ids,
--              the lists, whose orders they are, and what stands behind the session cache
--   Service    webapp/backend/internal/service/: Robot, Auth, Product and Lists have the methods; Plan,
--              Refill, Wanted, Placement, Backing, Counter, Login and Verify prove what they leave behind,
--              Timed also if a timeout fires, Calm that a login ends well, Turns, Session and
--              Recognised what two calls do in turn
--   Paths      the functions of path/filepath that the handlers and the worker call: cleaning, joining,
--              extensions; Elements, Dots, Joined and Names are about the elements of a path
--   Handler    webapp/backend/internal/handler/ and webapp/backend/internal/middleware/auth.go: Requests
--              prepares list requests, Replies has the handlers with their status codes, Image the
--              handler of images; Access is about the middleware, Safety, Pages and Owned about lists,
--              Confined about images
--   Start      webapp/backend/cmd/main.go, webapp/backend/internal/server/server.go,
--              webapp/backend/internal/db/db.go, webapp/backend/internal/telemetry/ and the tracers of
--              webapp/backend/internal/middleware/: Environment reads variables, Telemetry chooses what
--              traces, Database opens the connection, Routes has the routes and runs a request;
--              Tracers has two tracers that nothing calls; Tracing is about where spans go, Guarded about
--              which handler a request reaches, Owners about whose orders leave the server
--   Worker     benchmarker/worker/queue.go, lock.go, dlq.go, utils.go and main.go beside it: Flow has
--              processMessage, Post the request of postScore.go, Poll the polling loop, Clients the start,
--              Program the whole worker, Helpers what nothing calls;
--              Settled is about a delivery without faults, Stuck about two requests that block one
--              another, Filter about the filter of the table, Scored about the scores that are posted
--   Bench      benchmarker/worker/score/calcScore.go, benchmarker/worker/worker.go,
--              benchmarker/worker/localRunBench.go, benchmarker/worker/cmd/ and
--              benchmarker/worker/test_sample_requests_push_generator.go: Machine has the files and the
--              answers of the system, Score the score, LoadTest a load test, Runner the program that
--              runs one, Sample the sample of orders; their children prove what they leave behind
--   Base       shared helpers: tests, lists, the signed 64-bit words, outcomes, association lists
-- A module Tests in a folder runs the code on concrete inputs.
--
-- How the code is represented. An int is its bit pattern, a number below 2 ^ 64, with the wrap-around
-- of the additions, subtractions and products written out; signed comparisons flip the sign bit. A
-- function that can fail has one of four outcomes: a value, an error value, a panic, or fuel that ran
-- out. Fuel bounds four loops of the planner: following the path takes at most one step per node, as a
-- node only points to an earlier one; the swaps take at most half the list; a row of the table and the
-- search for the best capacity take at most one step per capacity. `make` panics for a negative length,
-- and for slices of more than 2 ^ 48 bytes, the most that Go allocates on a 64-bit Linux; memory does not
-- run out below that. A rollback takes back the rows, and not the counter of AUTO_INCREMENT. A
-- computation of the backend takes the state, which is the tables, the two caches and the number of
-- questions asked, and asks the environment about each fault of the driver, each reading of the clock,
-- and the libraries: uuid, bcrypt, the order of range over a map, the collation, LIKE, ORDER BY, and
-- the rows' order without it. A theorem that names no environment holds for every one, so for every
-- sequence of faults. `select` in WithTimeout is a parameter: the answer that comes first.
--
-- Not modelled: a statement of another request between two statements of one computation, as the
-- isolation of the server is not the program's; the contents of logs; JSON, cookies and HTTP headers,
-- which enter as the libraries' results; the router of chi, which is a parameter with the hypothesis
-- that it finds only routes that are there; the exporters of OpenTelemetry; the clients of Azure beyond
-- whether a call succeeds; k6 and the script run_k6.sh, which are a parameter that changes the files of
-- a machine; floating point numbers, which are a type with the operations that the score uses; two
-- programs that share the files of one machine; the user interface.
pub mod Base
pub mod Model
pub mod Delivery
pub mod Cache
pub mod Store
pub mod Service
pub mod Paths
pub mod Handler
pub mod Start
pub mod Worker
pub mod Bench
