-- ===== src/Lib.antt =====
-- Verification of a Go microservice that keeps orders: its domain, and the parts of its platform
-- that carry data between the service, the broker and the clients.
--
-- The parts. A call of the gRPC surface is authorized by its token and the policy, passes the
-- quota check and reaches a handler, which converts its message and calls the order service. The
-- service checks the request, builds or changes an order, and writes it together with an event
-- through its ports. A relay moves the events of the outbox to a broker; a consumer hands them
-- to a projection that counts each tenant's orders, and a pruner deletes old rows. Errors return
-- through one table of kinds.
--
--   Order/Errors      internal/order/errors.go: an error is the list of the sentinels that
--                     `errors.Is` finds in it; messages are left out
--   Order/Money       internal/order/money.go: `Money` with every operation but `String`
--   Order/Status      internal/order/order.go: `Status`, its names and its transitions
--   Order/Aggregate   internal/order/order.go: `Item`, `Order`, validation, totals, `Cancel`
--   Order/Cursor      internal/order/cursor.go and the page types of internal/order/store.go
--   Order/Ports       internal/order/store.go: the ports `Store`, `EventPublisher`, `Atomic`
--   Order/Service     internal/order/service.go: `Create`, `Get`, `List`, `Cancel`
--   Order/Memory      internal/order/ordermem: the store that fills the ports
--   Order/Rows        internal/order/orderpg/model.go: `toRow`, `toDomain`
--   Order/Postgres    internal/order/orderpg/orderpg.go: the store over tables; each operation is
--                     its SQL statements over the keys and checks of internal/platform/migrations
--   RateLimit         internal/platform/ratelimit and interceptor/ratelimit.go
--   Outbox            internal/platform/outbox/relay.go: `DrainOnce`, `quarantine`,
--                     `markPublished`; Outbox/Prune is internal/platform/outbox/prune.go, and
--                     Outbox/Custody lets writers, relays and the pruner work on one table
--   Events            internal/platform/events: `Subject`, `dispatch`, `deadLetter`, `eventFrom`;
--                     Events/Publishing is publisher.go
--   Projection        internal/order/orderproj: `Handle`
--   Failures          internal/platform/apperr and internal/grpcapi/errmap.go
--   Auth              internal/platform/auth, interceptor/auth.go and grpcapi/policy.go: claims,
--                     principals, the policy, `authorize`;
--                     Auth/Jwks and Auth/Keys are jwks.go and `keyFunc` of oidc.go: which
--                     published keys are usable, the cache of keys, the choice of a token's key
--   Config            internal/platform/config: `Validate`, and `NewVerifier` of auth/verifier.go
--   Interceptors      internal/platform/interceptor: admission, deadlines, error map, recovery,
--                     in the order in which internal/grpcapi/chain.go chains them
--   Client            internal/platform/client/errors.go: failures of other services; Client/Retries
--                     is serviceconfig.go, the retry policies handed to grpc-go
--   Gateway           internal/gateway/errors.go: errors over REST
--   Shutdown          internal/app/shutdown.go: the steps that end the program
--   Grpc              internal/grpcapi: convert.go and, in Grpc/Server, the handlers of server.go
--   Tests             the theorems at concrete inputs
--
-- Conventions. An int64 or int32 is an integer whose operations wrap as Go's do (Common/Int). A
-- string is its list of bytes, an instant a number. A Go map is a list of its entries. Code that
-- fails returns a result; code with state takes it and returns it. `strings.ToUpper` (Casing) and
-- the JSON, base64 and UUID functions around a page token (TokenCodec) are interfaces with the
-- one law that the code relies on. The clock, the id generator, the event handler, the broker's
-- answers and the failure of each database statement are arguments.
--
-- A statement over the tables is what SQL says of it; `json.Marshal` of an order, what a timestamptz
-- stores for an instant and a uuid column for a text, and the texts that PostgreSQL takes are the
-- interface Storage. A statement with a text that it does not take, such as one with a NUL byte,
-- or with more parameters than its protocol allows fails with an error of no sentinel.
--
-- Trimming and folding of text (Strings) and protobuf time stamps (Timestamps) are such interfaces
-- too, as are base64url with the test of a curve's points (Crypto) and the layout of instants in
-- headers (TimeFormat), whose law is for the years that the layout holds; the parser of tokens is an
-- argument, and so is what a request for keys brings. The cache of keys has beside its fields the
-- number of requests that it made. A float64 of the configuration is a fraction, an infinity or NaN.
--
-- Bounds. The loop of the pruner takes fuel; a round that goes through and does not end it
-- deletes a row, so one round more than there are rows to delete is enough. The digits of a
-- number take fuel, the number and one, since each step divides it by ten. Each other loop is
-- structural. The fuel of `Order.Memory.Paging.read_all` is the number of pages that a client is
-- ready to read; more than the number of selected orders is enough, since a page that is not the
-- last has an order on it. Lua's numbers are natural numbers, exact below 2 ^ 53, and Redis's
-- clock does not go back within a timeline.
--
-- Not modelled. A statement that fails as the connection is lost; messages of errors, logs and
-- traces; the polling loops; the discovery of an issuer's metadata; the parser of the environment;
-- the interceptors that log, count or validate messages; the budget of the client of other
-- services; the wiring of the gateway; start-up, observability and the commands; generated code.
pub mod Common
pub mod Order
pub mod RateLimit
pub mod Outbox
pub mod Events
pub mod Projection
pub mod Failures
pub mod Auth
pub mod Grpc
pub mod Config
pub mod Interceptors
pub mod Client
pub mod Gateway
pub mod Shutdown
pub mod Tests
