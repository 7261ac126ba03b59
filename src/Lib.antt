-- ===== src/Lib.antt =====
-- Verification of go-ordersvc, a service that keeps orders in PostgreSQL, caches them in Redis,
-- publishes events to Kafka and is called by HTTP and by gRPC.
--
-- The parts and how they interact. A handler (internal/handler/http, internal/handler/grpc) reads a
-- request and calls the service (internal/service), which validates by the rules of internal/domain
-- and acts through three interfaces: the repository (internal/repository), the cache
-- (internal/cache) and the event publisher (internal/messaging). cmd/ordersvc/server.go puts them
-- together. The gRPC handler WatchOrders reads from Kafka what the publisher wrote.
--
-- Correspondence. A Go function that returns a value and an error and acts on the world is an
-- `Action` on a state (Effect.antt). Errors are values (Domain/Errors.antt): the sentinel values, an
-- error from outside with its message, and the wrapping of fmt.Errorf. A nil interface or pointer is
-- `none`. An int is ℤ with its wrap-around written out (Prelude/Int.antt); times and durations are
-- nanoseconds. The context is left out: the service hands it on and does not read it.
--   Domain.antt       internal/domain: the statuses and CanTransitionTo, the items, the orders and
--                     their validation; Domain/Lifecycle.antt has the state machine they are read
--                     against.
--   Outside.antt      a server that is called over the network: its content, and for each call to
--                     come its clock and its fate. A call may run, be refused, or run while its
--                     answer is lost. Repository, cache and topic are such servers.
--   Repository.antt   internal/repository and its PostgreSQL implementation: Create, FindByID,
--                     Update, Delete, List, FindByCustomerID as statements over the table of
--                     db/migrations, each in a transaction of its own, with the check constraints,
--                     the trigger and the columns' types. Calls of many clients are any sequence of
--                     calls (Repository/Calls.antt); what a client does between two calls is not a
--                     call, so that any interleaving of requests is such a sequence. Two more views:
--                     a store with one row for an id, which the repository refines
--                     (Repository/Abstract.antt), and a step relation in which clients keep what
--                     they have read and write it back later (Repository/Traffic.antt).
--   Cache.antt        internal/cache and its Redis implementation over keys with expiry times.
--   Messaging.antt    internal/messaging: the events, their JSON and the publishers.
--   Json.antt         what encoding/json writes and reads of items, orders and events, as values.
--   Service.antt      internal/service: CreateOrder, GetOrderByID, UpdateOrder, DeleteOrder,
--                     ListOrders, UpdateOrderStatus over any repository, cache and publisher.
--   Http.antt         internal/handler/http: the requests, the responses, the handlers, the health
--                     checks, and NewRouter with the operations of chi as parameters
--                     (Http/Router.antt).
--   Middleware.antt   internal/middleware: functions from handlers to handlers over the response
--                     writer of net/http (Middleware/Writer.antt).
--   Grpc.antt         internal/handler/grpc: the messages, the three handlers, the registration,
--                     WatchOrders with its reader (Grpc/Watch.antt).
--   Connections.antt  the two connection.go files: NewClient for Redis, NewPool for PostgreSQL.
--   Server.antt       cmd/ordersvc: the service over one world of the three servers; NewServer in
--                     Server/Startup.antt; Start, Shutdown, Run and main in Server/Lifecycle.antt;
--                     sequences of calls of the service, which are traffic of the database in the
--                     sense of Repository/Traffic.antt, in Server/Requests.antt.
--   Mocks.antt        internal/mocks: the test doubles of the service's three dependencies.
--   Config.antt       internal/config: LoadFromEnv over an environment.
--   Examples.antt     the theorems at concrete inputs.
--
-- What is taken from code outside the repository is the record `Platform` (Platform.antt): UUIDs with
-- their texts, float64, and what the server and the columns of the database take. Its laws say that
-- UUIDs are compared by their value and that their text is read back as them. The router of chi,
-- the drivers of PostgreSQL and Redis, the writer of kafka-go, and the host that listens, logs and
-- stops servers are parameters of the definitions that use them. Assumptions on these stand as
-- hypotheses where they are used: for example, that a query returns rows of the table in some order
-- and invents none.
--
-- Bounds and fuel. DeletePattern follows the cursor of SCAN for as long as Redis returns one, which
-- no bound in the code limits: its model takes the number of rounds and says `none` when they are
-- used up; as many as there are answers of SCAN until the one with the cursor zero are enough.
-- WatchOrders is a loop over what the reads return, so it needs no fuel. The digits of a number are
-- written with the number as fuel, which is enough, since each digit divides it by ten. An offset is
-- computed without overflow for pages below 2 ^ 56. Numbers outside the 64 bits of an int have no
-- JSON and are refused where JSON is read into an int.
--
-- Not modelled: the code that protoc generates; the matching of a path against the routes, which
-- is code of chi; the spelling of JSON as text, of which only the values are kept, with every key
-- once and in its own case; concurrent changes of one order object in memory, since every request
-- has its own; and that the servers of one process run at the same time, beyond the interleaving of
-- their calls.
pub mod Middleware
pub mod Connections
pub mod Mocks
pub mod Prelude
pub mod Json
pub mod Platform
pub mod Domain
pub mod Effect
pub mod Outside
pub mod Repository
pub mod Cache
pub mod Messaging
pub mod Service
pub mod Http
pub mod Grpc
pub mod Server
pub mod Config
pub mod Examples
