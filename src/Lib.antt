-- ===== src/Lib.antt =====
-- RockSys, an API gateway whose middlewares stand in a chain of three slots. The gateway's own
-- logic is modelled file by file, every function as a function on explicit state.
--
-- The parts and the files that model them
--   internal/chain       Chain         the chain of middlewares and the way of a request through it
--     interface.go       Chain/Context (contexts, middlewares, slots), Chain/Client (what is used of
--                        net/http)
--     impl.go            Chain/Slots (`Add`, `Remove`, `Replace` over shared arrays), Chain/Execute
--                        (`Execute`, `safeHandle`, `ResponseHooks`), Chain/Context (`WriteFinal`)
--     adapter.go         Chain/Buffer (`respBufferWriter`), Chain/Adapter (`Handler` is `handler`)
--   internal/dataflow    Flow          what a request carries: times, trace identifier, target
--   plugins/dispatch     Dispatch      the route dispatcher: rules, balancers, nodes
--     model.go           Dispatch/Model (the rows and the objects), Dispatch/Graph (validation in
--                        Graph/Validate, sorting in Graph/Sort, the lists per host in Graph/Hosts,
--                        `BuildGraph` in Graph/Build)
--     match.go           Dispatch/Segments, Dispatch/Match (`Match` is `match_route`)
--     registry.go        Dispatch/Registry (`Registry`, its methods under their own names)
--     select.go          Dispatch/Select
--     sticky.go          Dispatch/Sticky; Base/Decimal has the numbers in cookies
--     dispatch.go, snapshot.go, tailfin.go
--                        Dispatch/Handle (`Handle`, `RouteParamHeaders`, `OnResponse`),
--                        Dispatch/Component (`Rebuild` is `reload`, with `Start`, `Stop`, the retry)
--     healthcenter.go    Dispatch/Health (`Rebuild`, `Stop`, the verdict of `probe`)
--   internal/workpool    Workpool      the pool of workers: its calls, Workpool/Submit (the three ways to
--                        submit), Workpool/Steps (what a worker, the holder of `stateMutex` and a
--                        submitter do next, and the runs of their steps in any order)
--   internal/taskcenter  Taskcenter    the tasks in the background: Taskcenter/Rules (`Submit` and the rules of
--                        exclusion), Taskcenter/Finish (`run`, `Cancel`, progress), Taskcenter/Views
--   internal/netutil     Netutil       trusted proxies and the address of a client; Netutil/Paths has
--                        `safeRelPath`, Netutil/Load the ways to load the list
--   internal/jwtutil     Jwt           `Sign` and `Verify`
--   plugins/auth         Auth          the middleware that asks for a token
--   plugins/rewrite      Rewrite       the middleware that changes the path and the header
--   plugins/result       Result        the hook that masks and wraps a JSON response
--   plugins/mq           Mq            the outbox of messages, Mq/Polling (`PollingDeliverer`), Mq/Life (`MQ`)
--   Base                 lists, integers, texts and dictionaries that the parts share
-- A request enters the handler, which runs the middlewares of Head and Middle. The dispatcher is one
-- of them: it asks `Match` on the snapshot that `BuildGraph` has made of the four tables, then for a
-- node, which reads the registry's health and counts and moves the balancer's cursor. The handler
-- forwards the request, and the response comes back through the buffer and the hooks of Tail. The
-- authentication is another middleware of Head: it verifies the token and notes the tenant in the
-- data flow. The pool, the center of tasks and the outbox run beside the requests.
--
-- How code and model correspond
--   A Go struct is a record, an enumeration that rows hold as a number stays a number, a map is an
--   association list without duplicates, a slice is a list, nil is `none`. A method that changes its
--   receiver returns the new receiver. A pointer that the code compares carries its identity as a
--   field `ref`. In the chain, where a request under way shares the array of a slice, a slice is an
--   address with a length, and the arrays are a heap. A text is the list of its bytes, and where the
--   code folds case or trims space the model reads ASCII. Go's `int` and `int64` are integers without
--   a bound: weights, orders and counts stay far from 2^63; the pauses of the outbox wrap around.
--   A method that holds a lock, or works by one atomic operation, is one step: a concurrent run is a
--   sequence of such steps. In the pool of workers a step is one access to the shared state: a worker
--   is the place in the code where it stands, the caller that holds `stateMutex` is what it has left to do,
--   and a channel is its capacity with what it holds; the counters of 32 bits wrap around.
--   A middleware is a function on the context with its end (it goes on, stops or panics); a hook that
--   panics is a function that leaves what it had done.
--   `Rebuild` of the dispatcher is two: what reads `stopped`, and what works under the lock after it.
--   Parameters: `parses` of `build_graph`, whether `url.Parse` takes an address; `grow`, the
--   capacity that Go's `append` chooses; the record `Flow`, what the handler uses of a request and
--   of the data flow, which a third-party package keeps; `forward`, the engine's forwarding, as the
--   calls that it makes on the writer; the record `Kv`, the store of the data flow; `RowSource`,
--   what a read of the four tables returns. A header map has canonical keys, and a status is
--   final: 101, or between 200 and 999. Base64, HMAC and JSON are the record
--   `Codec` of Jwt, `unmarshal` and `marshal` in Result, where a text is the list of its runes; `order`, in
--   which `range` comes to the entries of a map, the addresses of package net the record `Net` of Netutil,
--   the answers of consumers and what works of the database the record `World` of Mq; clocks, and what happens between two
--   attempts to submit, are arguments.
--   Loops are structural recursion. The one fuel is that of the digits of a number n, n + 1, which
--   is shown to be enough by reading them back.
--
-- Not modelled: the administration API of the dispatcher, the conversion of its rows
-- and the ticker of its health checks, the creation of the table of messages, the other plugins, the
-- configuration, the hot swap of components, the database, the HTTP server and the console.
pub mod Auth
pub mod Base
pub mod Chain
pub mod Dispatch
pub mod Flow
pub mod Jwt
pub mod Mq
pub mod Netutil
pub mod Result
pub mod Rewrite
pub mod Taskcenter
pub mod Workpool
