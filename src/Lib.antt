-- ===== src/Lib.antt =====
-- The core of odysee-api: the way of a client's JSON-RPC request through the proxy to an SDK
-- server, what decides who may have which answer, and the way of an uploaded file to a stream.
--
-- The proxy's handler (app/proxy) takes the user that the middlewares of app/auth found, by a
-- token that app/wallet turns into a user with a server and a wallet. It makes a caller
-- (app/query/caller.go), whose requests NewQuery (app/query/query.go) checks and rewrites for the
-- user's wallet. Hooks on the method then answer it, refuse it or change it: a search is filtered,
-- a cached response is served, and access to a stream is checked (app/query/processors.go,
-- cache.go and validation.go). What no hook answers is sent to an SDK server, up to three times
-- where the wallet has to be loaded. The servers are those of app/sdkrouter. Errors carry a chain
-- and a code (internal/errors, internal/lbrynet, pkg/rpcerrors) and end as the JSON-RPC error of
-- the response. Beside the query path stand the rate limiters of IP addresses (pkg/iprate) and a
-- cache with replicas (pkg/sturdycache), which the response cache can be stored in.
--
-- Files come to the network in two ways. The uploads service (apps/uploads) lets a user in by a
-- token that app/asynquery made with a keyfob (pkg/keybox), keeps a table of uploads and hands a
-- complete one to apps/forklift by a queue (pkg/queue); that makes a stream of it and tells
-- app/asynquery, which sends the query that waited for it. The older app/geopublish does all of
-- this in one program: Notify hands a complete upload to a queue, its task makes the stream and
-- sends the query, and Status tells the user of the result. Both lock an upload by
-- pkg/redislocker.
--
-- Which file models which part:
--   Base         shared names, texts, lists, integers, Go maps, decimal texts
--   Errors       internal/errors/errors.go and internal/lbrynet/errors.go; `err_of` is Err
--   Rpc          the JSON-RPC messages and pkg/rpcerrors/rpcerrors.go
--   SdkRouter    app/sdkrouter/sdkrouter.go; `update_load` is updateLoadAndMetrics
--   Query        app/query/query.go, and const.go in Query/Const
--   Caller       app/query/caller.go; `attempts` is the loop of SendQuery
--   Cache        app/query/cache.go, isUserInputError of errors.go, and preflightCacheHook
--   Signature    app/query/validation.go
--   Access       checkStreamAccess and what it calls, in app/query/processors.go
--   ClaimSearch  preflightHookClaimSearch of app/query/processors.go
--   Stream       preflightHookGet and resolve of processors.go, and signStreamURL77 of paid.go
--   IpRate       pkg/iprate/iprate.go
--   SturdyCache  pkg/sturdycache/sturdycache.go
--   Uploads      apps/uploads/uploads.go and database/queries.sql.go: `listen` is a listener;
--                Uploads/Admission has the middlewares, Uploads/Payload payload.go,
--                Uploads/Handing PostURL and what is sent to forklift
--   Keybox       pkg/keybox/keybox.go: GenerateToken and ParseToken
--   Redislocker  pkg/redislocker/redislocker.go
--   Geopublish   app/geopublish: Table and Processing have db.go, Notify and Status those handlers
--                of geopublish.go, Files what Notify uses, and Carriage forklift/carriage.go
--   Wallet       app/wallet/wallet.go: Wallet/Database has inTx and the rows of users, Wallet/Tokens
--                the token cache, GetUserWithSDKServer and oauth.go's Authenticate
--   Auth         app/auth/auth.go and middleware.go
--   Proxy        app/proxy/proxy.go: `handle` is Handle
--   AsyncQuery   app/asynquery/asynquery.go: Location is parseFilePath, Rows the table of queries,
--                Transactions callUploadTx and handleMergeTx, Firing robustCall, Http
--                http_handlers.go
--   Forklift     apps/forklift/forklift.go: HandleUpload and HandleURL
--   Queue        pkg/queue/queue.go: options, handlers and messages
--   Ip           internal/ip/ip.go: `for_request` is ForRequest
--   Examples     concrete inputs
-- A child module holds what is shown of its parent, under the name of the subject.
--
-- How code is modelled: a Go map is an association list, a value of type `any` is a `Value`, a
-- pair of a value and an error is a `Result`, and a function that can panic returns an `Exit`, or
-- an `Option` where the panic is its only failure. A pointer that is written through is passed in
-- and out. Other services, the store of the cache, the clock, random numbers and the libraries for
-- JSON, hashing, keys and decoding are arguments, and so are the errors that a database or a queue
-- gives, where they are not the answers of a record of operations. Deferred calls are made at the
-- end of the function that holds them. A database transaction of
-- app/asynquery is one step: that its writes are gone where it does not commit is the database's
-- doing and is part of the model, in `tx_rollback`; inTx of app/wallet has its calls of begin, commit
-- and rollback as such. A hook's function is a value that an interpreter runs over a `Session`, which it
-- may change.
--
-- Loops are structural recursion. Those with a number of rounds take the source's own bound: the
-- three attempts of SendQuery and the configured ones of the cache getter. reverse_loop takes the
-- length of the slice, and its indices meet before that many rounds.
--
-- Not modelled: metrics, logs, waiting, timers, locks and the requests that singleflight joins;
-- generated code (models, gen); HTTP wiring, configuration and the command line; and the
-- components beside these: publishing in one request (app/publish), the serving of the task queue,
-- the retrievers of forklift, keys as PEM and Base64 texts, the clients of other services, and the
-- user that OauthAuthenticator may return beside an error (Auth takes an authenticator that returns
-- both). A run of a query
-- between its call of the SDK and its final update is one step, and so are the calls of one
-- request; what other requests do between them is left to the world that the operations share.
pub mod AsyncQuery
pub mod Base
pub mod Errors
pub mod Rpc
pub mod SdkRouter
pub mod Query
pub mod Caller
pub mod Cache
pub mod Signature
pub mod Access
pub mod ClaimSearch
pub mod Stream
pub mod IpRate
pub mod SturdyCache
pub mod Uploads
pub mod Wallet
pub mod Auth
pub mod Proxy
pub mod Forklift
pub mod Geopublish
pub mod Keybox
pub mod Redislocker
pub mod Ip
pub mod Queue
pub mod Examples
