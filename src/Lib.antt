-- ===== src/Lib.antt =====
-- Verification of the core of the Lotzi backend, a marketplace of local shops: the stock engine, the
-- pricing of a checkout, request keys, carts, the payment status machine, rate limits, permissions,
-- the cache in front of Redis, the units of products and the semaphore of the uploads.
--
-- The program. An order reserves stock at checkout, pays, and then confirms or releases what it
-- reserved; an unpaid reservation expires. backend/src/modules/inventory/inventory.service.ts
-- (InventoryService) does this on Postgres tables, inside a transaction that the caller opens. Each of
-- its calls claims an operation key first, under which its response is stored. backend/src/modules/payments holds the status machine of payments and orders
-- (payment-state.machine.ts), the service that moves a row and writes its history
-- (payment-transition.service.ts), and the rounding of amounts (money.ts). Requests are limited by key,
-- in Redis or, where it is away, in the process; what a user may do follows from the user's rows.
--
-- A checkout (backend/src/modules/checkout/checkout.service.ts) merges the lines of the request, checks
-- the products and the store, prices the lines, spreads the discount of a coupon over them, chooses the
-- payment method, and runs under a request key (backend/src/modules/idempotency), so that a repeated
-- request is answered with the first response. The cart that precedes it is validated by
-- backend/src/modules/cart/cart-validation.service.ts. Keys and rate limits live in Redis, behind
-- backend/src/modules/redis/redis.service.ts.
--
-- Files and code.
-- - Base, Base/Tests, Base/Lists, Base/Int, Base/Tables, Base/Sorting, Base/Outcome: shared tests,
--   lists, integers, tables with a key, insertion sort, and the outcome of a method that may throw.
-- - Inventory/Types: rows, inputs, responses and errors. Inventory/Tx: a method inside a transaction,
--   with `transaction` for `prisma.$transaction`.
-- - Inventory/Rows: updateInventoryItem, createLedger, emitInventoryEvent, emitLowStockIfNeeded.
--   Inventory/Claims: claimOperation, completeOperation. Inventory/Locations: getCached, setCached,
--   ensureDefaultLocation, configureTx, configurePlatformTx. Inventory/Items: ensureInventoryItems,
--   lockInventoryItems, lockInventoryItemsForReservations. Inventory/Lines: aggregateItems,
--   assertLockBudget.
-- - Inventory/Reserve: reserveOrderStock, authorizeCodOrderStock. Inventory/Confirm: confirmOrderStock.
--   Inventory/Release: releaseOrderStock, releaseReservations, expireReservations. Inventory/Adjust:
--   applyManualAdjustment. Inventory/Reconcile: reconcile. Inventory/Seed: initializeCatalogInventory.
-- - The other files of Inventory hold the proofs: Counts and Invariant state what the tables satisfy,
--   Steps and Turns what one row of a loop does, Creation, Loops, Taking, Reserving, Confirming, Ending
--   and Releasing follow the calls, Soundness composes them, History runs sequences of calls. Untouched,
--   Replay and Idempotence are about calls made twice, Aggregation is about the lines of an order, and
--   Frames about which tables a write leaves alone.
-- - Payments/Status: payment-state.machine.ts. Payments/Transition: payment-transition.service.ts.
--   Payments/Money: money.ts. Payments/Enumeration, Paths, History and Rounding hold the proofs.
-- - RateLimit/Limiter: backend/src/modules/rate-limit/rate-limit.service.ts, with the script that it
--   runs in Redis. RateLimit/Gcra and RateLimit/Window hold the proofs.
-- - Rbac/Engine: backend/src/modules/rbac/rbac.engine.ts, behind its caches. Rbac/Grants holds the
--   proofs.
-- - Checkout/Types, Normalize, Allocation, Quote and Methods: checkout.service.ts, namely
--   normalizeCheckout, allocateByLargestRemainder, discountFor, the checks and the quote of
--   prepareLocalCheckout, the rows of the order's items, and resolveCheckoutPaymentIntent with
--   storeOwnedCheckoutMethods. HandOut, Shares, Totals, Lines, Checks and Offers hold the proofs.
-- - Idempotency/Types and Service: idempotency.service.ts, with `reserve` and `reserveCached` command by
--   command (`step`), so that calls can interleave. Contract states what a key promises; Commands,
--   Refinement, Replay, Race and Persistence hold the proofs.
-- - Cart/Validation: cart-validation.service.ts. Availability, Merging and Purchase hold the proofs;
--   Purchase leads over to Checkout.
-- - Redis/Local and Service: redis.service.ts. Bounds, Calls, Entries and Keeping hold
--   the proofs.
-- - Products/Units, Presets and Measurement: backend/src/modules/products/product-measurement.ts, without
--   the matching of a product's category. Validity holds the proofs.
-- - Uploads/Semaphore: backend/src/modules/uploads/processing-semaphore.service.ts.
-- - The Examples files hold concrete runs.
--
-- How the code is modelled. Tables are lists, identifiers and instants natural numbers; the strings
-- that the code builds for keys are constructors, so that two keys are equal where the strings are.
-- The clock, `gen_random_uuid()` and the digest of a request are fields of `Env`; a call reads the
-- clock once. Quantities are JavaScript numbers up to `aggregateItems`, natural numbers behind it.
-- Transactions run one after another, which the row locks of the code ensure for the rows they share;
-- a failed one is rolled back, but for the process's own cache. The unique indexes of the reservations
-- and the foreign key of the items on their location are checked where rows are inserted. Whether a
-- transaction goes on after a caught unique conflict is a field of `Env`; in PostgreSQL it is aborted.
-- All loops run over lists, so that no fuel is needed; `reserve` calls itself after it has deleted a stale record, and four of its commands
-- are enough for any call that runs on its own.
--
-- Amounts are whole paise, and not negative; a price is one that `decimalRupeesToPaise` has read. The
-- coupon is the trimmed code in capitals, the merchant id is trimmed. The order of names by
-- `localeCompare`, the admission by the inventory, the digest of a cart and the answers of the Redis
-- client are arguments. Quantities of products come in as
-- fractions and are kept in ten-thousandths.
-- Redis answers all commands of one `reserve` or none.
--
-- Not modelled: request and trace identifiers and other fields that are only passed through, the row
-- level security that `set_config` feeds, `admitCheckout` and `evictPublicStockCache` (Redis), the list
-- calls (reads only), the rows that a checkout writes beside the order's items, the gateways, and the
-- rest of the backend and the frontend.
pub mod Base
pub mod Cart
pub mod Checkout
pub mod Idempotency
pub mod Inventory
pub mod Payments
pub mod Products
pub mod RateLimit
pub mod Rbac
pub mod Redis
pub mod Uploads
