-- ===== src/Lib.antt =====
-- FulfillHub: the order core, the fulfillment saga and the message consumer.
--
-- A merchant's request creates an order through the service (internal/commerce/service.go), which
-- validates it and hands it to a store together with an outbox event and an audit record. A relay
-- takes events from the outbox and publishes them; workers consume them from queues, record each
-- message in an inbox, run the queue's handler and settle the delivery (internal/messaging). The
-- handlers (internal/fulfillment/handlers.go) move the order on through the store's projections.
--
-- Prelude, Dict, Json      shared names, Go's 64-bit integers, text helpers, `map[string]V`, payloads
-- Commerce.Status          internal/commerce/state_machine.go; Lifecycle has the changes as a relation
-- Commerce.Model, Event    internal/commerce/model.go: the order aggregate, the event envelope
-- Commerce.Result          the errors, and operations that read and write a state and may fail
-- Commerce.Store           internal/commerce/store.go: `MemoryStore`; Projection has the `Record…`
--                          methods, Outbox the relay's side, Move and Outcome what a method can do
--                          to the store, History sequences of calls
-- Commerce.Validation      `validateCreateOrder`, `validateCancelActor`
-- Commerce.Contract        what the store interfaces of internal/commerce promise a caller; Memory
--                          and Moves have the memory store's side
-- Commerce.Ensures         what an operation guarantees where it succeeds or fails
-- Commerce.Service         `CreateOrderContext`, `CancelOrderContext`
-- Postgres                 internal/postgres/store.go over the tables of internal/postgres/migrations:
--                          Tables, Rows, Orders, Stock, Writes, Projection, Outbox and Inbox have the
--                          statements and methods, Calls sequences of them, Rules the statuses,
--                          Contract the promises, Ledger the stock
-- Messaging.Topology       internal/messaging/topology.go
-- Messaging.Inbox          internal/messaging/inbox.go
-- Messaging.Delivery       `decodeDelivery` and the headers of internal/messaging/consumer.go
-- Messaging.Consumer       `Consumer.ProcessDelivery`
-- Messaging.Relay          internal/messaging/relay.go; Once has a run over the memory store
-- Fulfillment              internal/fulfillment/handlers.go: Ports, Rules and Handlers; Adapters has
--                          provider_adapters.go and the fake providers of internal/providers; Saga
--                          has the handlers in sequence over the memory store
-- Ratelimit                internal/ratelimit/limiter.go: `MemoryLimiter`
-- Api                      internal/api/server.go: the handlers of orders and shipments
-- Webhook                  internal/providers/webhook.go; Signed has what an accepted webhook carries,
--                          Replay the memory store of accepted events
-- Examples                 concrete runs
--
-- State is passed explicitly: an operation maps a state to a result and the state after it. A method
-- that holds the store's mutex is one atomic operation, so that an execution of concurrent callers is
-- a list of calls in the order in which they took the lock. Times are nanoseconds since Go's zero
-- time; amounts, quantities and attempts are 64-bit patterns with wrap-around. Loops are structural
-- recursion; only the printing of a number has fuel, one more than the number, which has fewer digits.
--
-- A transaction of the PostgreSQL store is one atomic step, which its row locks stand for; a commit
-- that reports an error is taken as not done. The database engine may refuse any statement, may break
-- off the rows that a statement answers with, and words the breach of a constraint; a column's range
-- is among what it may refuse. Rows have the times and currencies that were written, and the engine
-- says what a TIMESTAMPTZ or CHAR(3) column reads as; sorting goes by the written times, which is one
-- of the orders that the microseconds of the columns allow. The driver counts affected rows without an
-- error. The details of an audit record, texts under texts, read back from JSON as they were.
--
-- Parameters of the model: SHA-256 and lower-casing, the clock, the random identifiers, the JSON
-- decoder, the broker's answers, the providers and the publisher, the database engine with the JSON of
-- an outbox payload, and for webhooks HMAC, the hexadecimal digits, the number parser and the
-- conversion of Unix seconds. Not modelled: the migrations runner and connection pools, the AMQP client
-- code and queue inspection, the Redis limiter, the HTTP routing and operator tokens, tracing and the
-- process wiring, which are calls into other packages; Go's mutexes, which the atomic operations stand
-- for.
pub mod Prelude
pub mod Dict
pub mod Json
pub mod Commerce
pub mod Messaging
pub mod Fulfillment
pub mod Postgres
pub mod Ratelimit
pub mod Api
pub mod Webhook
pub mod Examples
