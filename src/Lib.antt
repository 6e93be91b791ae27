-- ===== src/Lib.antt =====
-- The IoT billing service: devices report metered units, a Soroban contract (contracts/) charges
-- them to escrow deposits, and a Node.js backend (backend/) relays readings, indexes the contract's
-- events into a relational cache and streams them to dashboards.
--
-- How the parts interact. A device posts a signed reading to the gateway
-- (backend/src/api/readings.js), which checks the signature, submits the reading to the contract
-- through a relayer and records it as pending in the cache. The contract emits `meter` events. The
-- indexer (backend/src/indexer/indexer.js) polls the RPC server for them page by page, decodes
-- them (backend/src/indexer/decode.js), stores them in the cache (backend/src/db/store.js) and
-- passes each to the WebSocket hub (backend/src/api/ws.js). The cache answers the REST queries.
--
-- Which file models which part:
--   Base       shared names: tests, lists, strings as lists of UTF-16 units, signed integers.
--   Js         String(n), BigInt(s) and Number(s) of decimal digits, with the round trips; Number of
--              an integer, which is the nearest double.
--   Sql        what ORDER BY, GROUP BY, SUM, COUNT, MIN and MAX mean on lists of rows; Exact has the
--              sums that doubles hold.
--   Store      backend/src/db/store.js. Tables has the schema and the state, Write has ingest,
--              setLastLedger and recordPendingReading, Read has the queries, each for both
--              dialects. A method is a function on the state; an exception is `threw`.
--   Decode     backend/src/indexer/decode.js: scvalToString, scvalToBigInt, unwrapVec.
--   Indexer    backend/src/indexer/indexer.js. Event has handleEvent, Poll has poll as one function,
--              Overlap has it as steps between awaits, which the polls of the timer interleave.
--   Hub        backend/src/api/ws.js: the connections, broadcast, heartbeat and close.
--   Gateway    backend/src/api/readings.js: verifyDeviceSignature, parseU64, relayReading and the
--              handler of POST /api/readings.
--   Api        backend/src/api/server.js. Cors has the origins, Routes the replies of the metrics
--              and balance routes, Pages the dashboard's files, App the way from a request to its
--              response, Bus the telemetry bus.
--   Contract   contracts/src/lib.rs, storage.rs and types.rs: the entry points as actions on the
--              contract's storage, its events and the token ledgers. History has the calls and
--              the worlds that they lead to, Rules how an action is followed step by step, Effects
--              what a call that returns has done, Accounts and Books what its events add up to.
--   Frontend   frontend/src. Requests has services/api.ts, Devices has components/DeviceList.tsx,
--              Telemetry has hooks/useTelemetry.ts and components/LiveStream.tsx, Wallet has
--              hooks/useWallet.ts and components/WalletConnect.tsx, App has App.tsx. A component is its state, what
--              settles or arrives is an input, and what it shows is a value.
--   Emulator   emulator/client.py: the device that meters, signs and posts readings.
--   Service    backend/src/index.js: the parts wired together, and the steps of the running service.
--              Config has backend/src/config.js, Migrate backend/src/db/migrate.js, Published has
--              the contract's events as the RPC server gives them to the indexer, Billing the way
--              of a charge from the contract to the cache, Relayed has relayReading's call of the
--              contract, Metering the way of a reading from the device to the charge, Feed and
--              Reconciled all of the contract's events against the cache, Oversized a deposit that
--              does not fit the cache, Stopped the time after shutdown, Crashes a reading that ends
--              the process, Processes has ecosystem.config.cjs. The service starts over what its
--              database holds already, or over empty tables. A promise that an async route leaves
--              rejected ends the process.
--
-- Bounds and fuel. The `while (true)` loop of poll runs on fuel, one for each page; a poll that runs
-- out of fuel is a case of its own, and it does not occur where the fuel is at least the number of
-- pages that the server has. Integers that a driver binds as bigint are held to 64 bits, and over
-- PostgreSQL every integer is. What a query returns of an integer column or of a SUM, what Number()
-- makes of a bigint and every addition of Numbers is rounded to the nearest double; theorems on
-- sums name the bound, 2 ^ 53, below which that changes nothing. SUM raises an exception over
-- SQLite where a sum on the way leaves 64 bits. The ledger numbers are taken to be below 2 ^ 53. In the contract, i128 and u64 operations that the
-- source checks are checked here.
--
-- What is a parameter. The SDK's XDR values, how the host writes them, scValToNative, the address
-- encoding and the relayer's transaction calls; the RPC server's answers; node:crypto; Number() of
-- an arbitrary text; a device's key pair, sensor and clock; SQLite's date functions; the clock;
-- the text that JSON.stringify makes; the rate limiter's decision; the files of the dashboard and
-- react-router's comparison of paths; the host of the contract with its token contracts and its
-- signature check. No property assumes anything of them that it does not name.
--
-- What is not modelled. Failures of the database other than refused values and constraints; ties
-- under ORDER BY keep the order of insertion here, and SQL leaves them open; text is compared by
-- code units, as SQLite and the C collation do; the extension of storage entries' time to live in
-- the contract; the layout of the pages; the emulator's curve of values, which the device's sensor
-- stands for, and its command line; the scripts.
pub mod Base
pub mod Js
pub mod Sql
pub mod Store
pub mod Decode
pub mod Indexer
pub mod Hub
pub mod Gateway
pub mod Api
pub mod Contract
pub mod Frontend
pub mod Emulator
pub mod Service
