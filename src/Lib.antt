-- ===== src/Lib.antt =====
-- The core of the electronic shop's backend (backend/app): the catalog, stock, wallets, carts,
-- orders, payments, accounts, sessions and tickets, and the requests that work on them.
--
-- The program is a FastAPI application over a relational database. A router opens one session per
-- request, calls the services of its module, and commits when the handler returns; an exception
-- rolls the session back. The services read and write rows, and raise one of the error classes of
-- common/errors.py. Orders use the inventory and the cart, payments use the orders and the gateway's
-- client, and the wallet is paid by the refund of an order.
--
-- The files, and the code that each models, with paths under backend/app:
--   Base, Base/*: shared helpers; Base/Exec has methods that may raise (common/errors.py) and what a
--     request makes of them (`transaction`, db/session.py); Base/Table has tables as association lists
--     by primary key, and Base/Amount decimal amounts and their rounding.
--   Users/Models: modules/users/models.py, roles and what the modules read of a user.
--   Users/Admin: modules/users/admin_service.py with the guarded route of router.py and the audit rows of
--     modules/audit/service.py; Admin/Updates and Admin/Managers for the proofs.
--   Integrations/Zarinpal: integrations/zarinpal.py, both calls of the gateway's client.
--   Integrations/GoogleOauth: integrations/google_oauth.py, the exchange of a code and the check of a token.
--   Catalog/Models, Catalog/Inventory: modules/catalog/models.py and inventory_service.py, with
--     Inventory/Reservation, Inventory/Reserved and Inventory/Calls for the proofs.
--   Catalog/Categories, Catalog/Categories/Tree: class CategoryService of modules/catalog/service.py with
--     its queries of repository.py, and the tree of categories. Categories/Walk and Categories/Descendants
--     are on the walk over the descendants, Categories/Forest and Categories/Steps on the shape that the
--     methods keep, Categories/Granted on moves, Tree/Complete on the tree.
--   Catalog/Products: class ProductService with its queries, and the requests of schemas.py;
--     Products/Catalogue and Products/Shelves for the proofs.
--   Catalog/Search: ProductRepository.search and the route list_products of modules/catalog/router.py, with
--     Search/Wanted, which describes the result apart from the query, and Search/Pages for the proofs.
--   Catalog/Requests: sequences of requests of both services.
--   Wallet/Models, Wallet/Service: modules/wallet/models.py and service.py, with Service/Shape
--     and Service/Reconciled for the proofs.
--   Cart/Models, Cart/Service: modules/cart/models.py, repository.py, service.py and schemas.py, with
--     Service/Adding for the proofs.
--   Orders/Models, Orders/Service, Orders/Router: modules/orders/models.py, service.py, repository.py
--     and the status change of router.py, with Service/* and Router/Refund for the proofs.
--   Payments/Models, Payments/Service: modules/payments/models.py, repository.py and service.py, with
--     Service/Lookup, Service/Settling, Service/Callback, Service/Retry and
--     Service/Ends for the proofs.
--   Auth/Models, Auth/Service: the token tables of modules/users/models.py, and of modules/auth the
--     refresh tokens, passwords and one-time tokens of service.py and repository.py, with Service/* for
--     the proofs. A session there can commit on its own (`commit`, `request`), as the code does.
--   Auth/Accounts: the rest of modules/auth/service.py, registration, login by password and by Google, and
--     the requests for one-time tokens; Accounts/* for the proofs.
--   Auth/Router: the Google routes of modules/auth/router.py, with Router/Callback for the proofs.
--   Auth/Access: security/jwt.py and modules/auth/dependencies.py, with Access/Granted for the proofs.
--   Tickets/Models, Tickets/Service, Tickets/Task: modules/tickets/models.py and service.py, and
--     tasks/ticket_tasks.py, with Service/Replies and Task/Closing for the proofs.
--   Common/Idempotency, Common/Permissions: common/idempotency.py with its model, over any handler, and
--     security/permissions.py, with Idempotency/Replay and Permissions/Roles for the proofs.
--   Common/Csrf, Common/Pagination: security/csrf.py with the check of core/middleware.py, and
--     common/pagination.py, with Csrf/Checked and Pagination/Covers for the proofs.
--   Reports: modules/reports, Reports/Models the rows and the schemas of schemas.py, Reports/Queries the
--     aggregating queries, Reports/Service and Reports/Admin the functions of service.py; Reports/Series
--     and Reports/Agreement for the proofs.
--   Database: the tables that one session sees.
--   Shop: the state-changing requests of the routers and sequences of them; Shop/Sound, Shop/Keeps,
--     Shop/Served and Shop/Traces prove what any sequence of them keeps. Shop/Samples,
--     Shop/Examples, Shop/Settlements, Shop/Callbacks, Shop/Services, Shop/Listings, Shop/Members,
--     Shop/Guards, Shop/SignIns and Shop/Summaries apply the theorems to a concrete shop.
--
-- A service's method is a function from the session's tables to a result and the tables, under the
-- method's name; `self.session` is the state. What the code gets from outside is an argument: the
-- identifiers of new rows, the time, and the gateway's answer to a posted request. Identifiers, points
-- in time and texts that are only compared are natural numbers. The amounts that requests send are
-- decimals, of any number of digits (Base/Amount); those of the tables are whole toman, as the NUMERIC
-- columns without decimal places round them. A request to the catalog or the wallet fails where one does
-- not fit its column; the totals of carts, orders and payments have no bound.
-- The digests of tokens are numbers; the hashing of passwords, the JWT library, the keyed digest of the
-- CSRF token, `str.lower`, `str.strip`, and the database's ILIKE and order of rows are parameters.
-- Most loops are over lists and recursive on them, and need no fuel. Three others have fuel: the walk over
-- the descendants of a category, with one round per row and one more, the search for a free user name,
-- with one round per user and one more, and the recursion that builds the tree of categories, whose fuel
-- is an argument; each has a theorem that enough fuel is given or exists. The row locks and
-- conditional updates of the code are the reason why a method is one step of the model; that a
-- session may read a row before it locks it is not modelled, nor are the timestamps that the database
-- fills in (but for those that the reports read), the serialization of responses, and the Persian texts, which are written in English.
--
-- Not modelled: the search queries of the other repositories and the page cache, the audit rows but for those
-- of the periodic task and of the user administration, notifications, the client of the object
-- storage, configuration, logging, migrations, and the seed script.
pub mod Auth
pub mod Base
pub mod Cart
pub mod Catalog
pub mod Common
pub mod Database
pub mod Integrations
pub mod Orders
pub mod Payments
pub mod Reports
pub mod Shop
pub mod Tickets
pub mod Users
pub mod Wallet
