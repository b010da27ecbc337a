-- ===== src/Lib.antt =====
-- Coupang Eats back end: the services of a NestJS application for ordering food.
--
-- Clients order dishes of a restaurant, its owner cooks them, a driver delivers them, and the client
-- pays for the order and reviews it. Every service reads and writes tables through a repository class
-- built on TypeORM; the order service also sends socket messages. An account is opened with an email
-- that a mailed token verifies; signing in gives an access and a refresh token, and the guards of a
-- route check the access token, the blacklist and the role before the controller calls a service.
--
-- How the files correspond to the code (paths from the repository's root):
--   Base, Base/*        texts, lists, options and integers, as the code uses them
--   Http                the exceptions of NestJS that the services throw, and a result type
--   Action              a method call: it takes a state, and returns or throws, with a new state
--   Entity/Common       src/core/database/typeorm/base.entity.ts, src/common/type, user.interface.ts
--   Entity/Rows         src/entities: one record for each entity class
--   Packages/Interface  TypeORM and uuid as a parameter: the operations that the code calls, and laws
--                       that state what they are documented to do
--   Packages/Memory     tables in memory which meet those laws, for every entity
--   Pagination/Objects  src/common/pagination
--   Pagination/Pages    the pages of `paginate` against the whole result
--   Repository/Generic  src/core/database/typeorm/generic-typeorm.repository.ts
--   Repository/Laws, Repository/Joined
--                       its queries by key against the row of that key
--   World/State, World/Tables, World/Saves
--                       the shared state (every table, the socket messages that were sent, the ones
--                       that wait for a commit), `save` with the hook that draws a UUID
--   World/Transaction   `@Transactional()` of typeorm-transactional as a parameter with laws
--   World/Memory        a transaction manager that meets them
--   World/Laws, World/Runs, World/Unique
--                       what a `save` and a transaction that returned have done
--   Orders/Dto          src/modules/order/dto and `processOrderItem`
--   Orders/Service      `createOrder` and `editOrderStatus` of src/modules/order/order.service.ts, and
--                       src/modules/order/order-cron.service.ts
--   Orders/Queries      `getOrders` and `getOrderById`
--   Orders/Bill, Orders/Create, Orders/Placing, Orders/PlaceOutcome
--                       lemmas and theorems on `createOrder`
--   Orders/Permission, Orders/Edit, Orders/Editing, Orders/EditOutcome, Orders/EditReturns
--                       lemmas and theorems on `editOrderStatus`
--   Orders/History      the life of an order through a sequence of changes
--   Orders/Visible      which orders a user sees
--   Orders/Cleaning     the nightly job
--   Payments/*          src/modules/payment: Service is the code, Once its ways to end
--   Reviews/*           src/modules/review: Service is the code
--   Dishes/*            src/modules/dish: Service is the code
--   Restaurants/*       src/modules/restaurant: Service is the code
--   Auth/Redis          ioredis, the JWT library and JSON as parameters, with laws
--   Auth/Tokens         src/core/cache/cache.service.ts and src/core/jwt/jwt.service.ts
--   Auth/Cache, Auth/Sessions
--                       reading the cache back; the tokens of a user over time
--   Auth/Hash           bcrypt as a parameter, and src/core/hash/bcrypt.service.ts
--   Auth/Mail           the mail client as a parameter, src/core/aws/aws-ses.service.ts and
--                       src/core/notification/email.service.ts
--   Auth/Server         what requests share: the tables, Redis with its clock, the mails, the salts
--   Auth/Service        src/modules/auth: the bodies, auth.tx.service.ts and auth.service.ts
--   Auth/Accounts, Auth/SigningIn, Auth/Verifying, Auth/Verified, Auth/Registering
--                       lemmas and theorems on `signUp`, `verifyEmail` and `signIn`
--   Auth/Memory         a store, encodings and signatures which meet the laws
--   Access/Passport     passport as a parameter; the strategies of src/core/jwt and the guards of the
--                       two tokens in src/core/guard
--   Access/Guards       the blacklist and the roles guard, the guards of a route in their order
--                       (src/core/core.module.ts), and src/core/decorator
--   Access/Bearer       what the blacklist guard reads from a header 'Bearer ' and a token
--   Access/Allowed, Access/Restricted, Access/SignedOut, Access/Welcome
--                       which requests reach a handler
--   Access/Memory       a passport which meets the laws
--   Cached/Methods      src/core/cache/cache.module.ts
--   Users/*             src/modules/user: Service is the code
--   Categories/*        src/modules/category: Service is the code
--   Upload/Storage      src/core/aws/aws-s3.service.ts, over the S3 client as a parameter
--   Upload/Service      src/modules/upload, over the file interceptor and pipe as parameters
--   Upload/Bounds       what an upload of several images stores
--   Logging/Config      the part of src/core/config that the logger reads
--   Logging/Service     src/core/logger/logger.service.ts, over winston as a journal of entries
--   Logging/Requests    src/core/middleware/requestLogger.middleware.ts
--   Logging/Ids         the ids of the entries over any sequence of calls
--   Errors/Objects, Errors/Filter
--                       src/core/filter/error.filter.ts and src/core/interceptor
--   Errors/Replies      what the client gets in production
--   Controllers/Routes, Controllers/Market, Controllers/Accounts
--                       every controller method behind its guards and pipes
--   Controllers/Placing from the header of a request to the row of an order
--   Events/Gateway      src/events/events.gateway.ts
--   Events/Delivery     who hears of an order
--   Tests/*             concrete data in memory, with each theorem applied to it
--
-- How the services interact: they share the tables of `World`. A payment and a review read the order
-- that the order service wrote, by its customer and its status; an order reads dishes and restaurants;
-- the writes of the restaurant and dish services are what later orders read. The token service keeps
-- its state in Redis alone, where the mail tokens and the cached users are too. A route runs the two
-- global guards, then its own, then the controller method, which runs a service on the same state.
--
-- A method is an action on `World`: it throws by returning an exception, and what it wrote before
-- stays, unless it runs in a transaction, whose law undoes the writes to the tables but not what went
-- over a socket. Where the code reads a property of a relation that may be null, the model throws the
-- TypeError that JavaScript throws. An asynchronous call is one step: calls of different requests do
-- not interleave inside a method.
--
-- Numbers: prices are integers, and counts and times natural numbers, both without bound. `total` is
-- exact below 2^53 in the code. Times are in milliseconds, and a day of the nightly job is 24 hours.
-- There is no fuel: every loop of the code runs over a list.
--
-- What is a parameter: TypeORM, uuid, typeorm-transactional, ioredis, the JWT library, JSON, bcrypt,
-- passport, the clients of the mail service and of S3, the file interceptor and pipe of NestJS, the
-- test of a UUID, `trim`, `toLowerCase` and the way a number is written, and the clock, which does not
-- run backwards. A constraint that the database enforces shows as a `save` that answers `none`, which
-- the model throws as a failed query. A connection to Redis does not fail, except through the cache
-- interface of a wrapped method. A random salt or UUID is the next one of a sequence. Of several
-- uploads that fail the first of the list is the error reported.
--
-- Bodies: the validation pipe has no whitelist, so a body may hold properties that its class does not
-- declare. What they set where the code copies a whole body into an entity is the field `undeclared`
-- of the request objects of sign-ups, categories, payments, restaurants, dishes and reviews: any
-- entity for a new row, and any change for an update.
--
-- What is not modelled: what the validation pipe refuses before a method is called, the routing
-- itself; what the services log, except for the logger, the middleware of the requests and the error
-- filter; the rest of the configuration, the wiring of the modules, the connection to Redis and the
-- schema migration, which are input and output or settings. The order document of the repository,
-- Swagger decorators and response classes have no code to model.
pub mod Base
pub mod Http
pub mod Entity
pub mod Packages
pub mod Action
pub mod Pagination
pub mod Repository
pub mod World
pub mod Orders
pub mod Payments
pub mod Reviews
pub mod Dishes
pub mod Restaurants
pub mod Auth
pub mod Access
pub mod Cached
pub mod Users
pub mod Categories
pub mod Upload
pub mod Logging
pub mod Errors
pub mod Controllers
pub mod Events
pub mod Tests
