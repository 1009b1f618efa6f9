-- ===== src/Lib.antt =====
-- Verification library of the Thing Directory, a W3C WoT directory service in Go.
--
-- The directory stores Thing Descriptions, JSON objects with an id, in LevelDB (catalog/ldbstorage.go).
-- The controller (catalog/controller.go) validates them (wot/validation.go), stamps them with a
-- registration of times and a TTL, stores them, tells its listeners (catalog/events.go) in goroutines, and
-- removes them once a minute when they have expired. The HTTP handlers (catalog/http.go) call the
-- controller and turn its errors into statuses. The notification package listens to the controller and
-- keeps the events of the past in a second LevelDB (notification/ldb_eventqueue.go); its controller
-- (notification/controller.go) passes them on to the clients that have subscribed
-- (notification/sse.go). The root holds the configuration (config.go), the announcement of the
-- directory (discovery.go), the routes (router.go) and the start (main.go).
--
-- Which file models what:
--   Wot, Wot/Validation: wot/discovery.go, wot/error.go, wot/validation.go
--   Errors, Catalog/Responses: catalog/errors.go. A call returns `ok`, an error of the source's types, or
--     the panic that ended it.
--   Json, Json/Print, Json/Parse: encoding/json on the values of the program. Text is a list of tokens.
--   LevelDb: the operations of goleveldb that the code calls, with laws; LevelDb/Memory meets them.
--   Libraries: the other packages that the code calls, as parameters.
--   Time: time.Time and time.Duration, with the wrap-around of int64, and the product of a float64.
--   Catalog/Storage: catalog/ldbstorage.go. The state is the database and the number of open iterators.
--   Catalog/Storage/Interface: the interface Storage of catalog/catalog.go, with its contract
--   Catalog/Registration: ThingRegistration, computeExpiry, ThingExpires and ThingTTL of
--     catalog/controller.go
--   Catalog/Controller: the operations of catalog/controller.go. The state is the storage and the list of
--     the goroutines started; the clock and the UUIDs are arguments.
--   Catalog/Expiry: cleanExpired of catalog/controller.go, one round for each time of its ticker
--   Catalog/Filter: the searches and getObjectFromXPathNode of catalog/controller.go
--   Catalog/Events: catalog/events.go
--   Catalog/Http, Catalog/Http/Queries: catalog/http.go. A request holds what a handler reads of it.
--   Notification/Queue, Notification/Numbers: notification/ldb_eventqueue.go and its keys
--   Notification/Controller: notification/controller.go. A client is the number of its channel, and
--     one round of the loop of `handler` is a function on the queue, the active clients, the closed
--     channels and what has been sent.
--   Notification/Controller/Steps: the goroutines around that loop, as a relation on states. The
--     loading of the latest number, the storing of the next one and the reading of it are three steps,
--     and the handing over of an event and its storage are two, so that publishers and clients
--     interleave as they do in the code, and an increment may be lost.
--   Notification/Sse: notification/sse.go, up to the connection that the events are written to
--   Start/Config: config.go
--   Start/Discovery: discovery.go
--   Start/Router, Start/Pages: router.go, init.go, and the table of routes and the middleware of main.go
--   Start/Router/Mux: gorilla/mux, as a parameter with its documented behaviour
--   Start/Serving: a request on its way through the router and the middleware to its handler
--   Start/Main: main of main.go, as what it opens and what it defers
--   Start/Packages: the packages that these call, as parameters
--   Examples: concrete libraries, states and requests, on which the theorems are applied
-- Catalog/Controller/Specification, Catalog/Controller/Stamping, Catalog/Registration/Expiration and
-- Notification/Controller/Receiving say, apart from the code, what it is to do.
-- The other files hold the laws of the one that they stand under. Catalog/Stored has the invariant of
-- the catalog, and Start/Serving/Invariant the life of the server as a relation on states.
--
-- Bounds: the parser's fuel is twice the number of tokens, which every printed value needs at most.
-- The loop of listAll takes its fuel as an argument, one for each page of 100 entries and one at
-- least, and panics without it. Each model of an int64 or a uint64 writes its wrap-around out.
--
-- Not modelled: wot/thing_description.go, whose structs nothing reads; what a middleware does, but
-- for whether it calls the handler behind it; the flags and log lines; the texts of JSON errors;
-- numbers that are not finite; the offset of a time, which is held as an instant; the order of the
-- members in the stored text of an event, which is that of their names; an entry, or a merge, whose
-- text is null, which is read as an empty object; the goroutine and the iterator of iterateBytes,
-- which end with the request that has started them; other goroutines between the steps of
-- addRotate; the blocking of a goroutine on a channel that is full or not read; and the concurrency
-- of requests on the catalog, each of which runs to its end before the next.
pub mod Common
pub mod Time
pub mod Wot
pub mod Json
pub mod Errors
pub mod Exec
pub mod LevelDb
pub mod Libraries
pub mod Catalog
pub mod Notification
pub mod Start
pub mod Examples
