-- ===== src/Lib.antt =====
-- Verification of an automatic stock-trading server for the KRX (server/app). A tick collects the
-- holdings and a watch list from the broker, screens the stocks, asks a judge for decisions, sizes
-- them and submits orders; the order layer checks every order against hard guardrails, calls an
-- executor in LIVE mode only, and keeps a circuit breaker and a kill switch.
--
-- The files and the code they are about, with paths below server/app:
--   Prelude, Numeric    shared notation and lemmas; the arithmetic of Decimal and float
--   Clock               aware datetimes in KST, as instants and ordinals of dates
--   Core                core/config.py (Modes), core/calendar.py (Calendar), core/notify.py (Alerts),
--                       core/settings.py (Settings)
--   Toss                toss/models.py, the fields that are computed with; toss/caching.py (Caching);
--                       toss/client.py (Client), its tokens, retries and errors
--   News                news/alignment.py, return_window
--   Db                  db/models.py (Rows) and db/repo.py: Ledger (ticks, decisions, orders), Positions,
--                       PaperBook, Stats, State (engine state and audit)
--   Api                 api/tick.py (Reconciling, Judging, Tick, Hours), main.py (Startup),
--                       api/routes.py (Controls); World is what they change
--   Orders.Models       orders/models.py
--   Orders.Guardrails   orders/guardrails.py, one function for each guard, and run_guardrails
--   Orders.Breaker      orders/circuit_breaker.py, assess in the three steps of its body
--   Orders.Context      orders/context.py
--   Orders.Service      orders/service.py, submit as effective, decide, gate, send and finalize
--   Orders.Reconcile    orders/reconcile.py
--   Engine.Costs, Regime, Indicators, Exits, Paper, Screener, Universe, Allocator, Symbols,
--   Calibration, Evaluation         the files of engine/ with those names
--   Engine.Judge        engine/llm.py without the prompt and the call of the model
--   Engine.Pipeline     engine/pipeline.py: run_tick in stages (Stages, Decisions, Sizing)
--   Examples            an arithmetic that meets the laws, and the theorems at concrete inputs
-- A child module under one of these holds theorems on it, and is named for what they say.
--
-- Numbers. Decimal and float round, to a context that the code does not fix, so the definitions run
-- over any type with the operations of `Numeric`. A theorem that needs more than the operations
-- asks for it: an order that is total and transitive (IsOrdered), results that keep the sign of
-- the exact result (IsRounded), factors and divisors against one (IsScaled), quotients that keep the
-- order of their dividends, and rounding down (IsFloored). The values are those of the precision of
-- the context, on which correctly rounded operations meet these laws; that a product of a quotient
-- is no more than its dividend is not among them, since a quotient can be rounded up.
-- Fixed-point numbers of four places meet all of them (Examples.Fixed). NaN and infinities are left out.
--
-- State and errors. A mutable object is a record, and a method a function to the new record and the
-- answer. The executor, the broker, the judge and the research are functions; an exception of the
-- executor is an outcome, and `none` stands for one of a broker call. The audit sink is taken to
-- return, a judge and the research to answer. A formatted reason is the list of its parts.
--
-- Loops. All loops are structural but the search of the next trading day, which has fuel for the
-- days up to the last holiday and for the days of a weekend after it, which is enough because no
-- day past the last holiday but a Saturday or a Sunday is closed.
--
-- The database. A table is the list of its rows; an operation takes effect whole, or raises. What a
-- column of a time keeps of an aware datetime depends on the database: it is a parameter, which keeps
-- a time in UTC. The texts of decimals are a parameter that reads back. The creation time of a result
-- is given beside it. The cache of candles around the broker of a tick is a second broker.
--
-- The client of the broker. What a server answers depends on the number of requests before it and on
-- the request. One task uses a client at one instant, so the lock of the token is free. A round
-- that waits adds to the list of waits. The HTTP library and JSON are left to an interface.
--
-- Not modelled: the query methods of the client, the other routes, the prompt and the reading of answers of the
-- language model, the collection of news, logging, reports and scripts, which are I/O or glue, and
-- the tables of news, candles and research.

pub mod Prelude
pub mod Numeric
pub mod Clock
pub mod Core
pub mod News
pub mod Toss
pub mod Orders
pub mod Engine
pub mod Db
pub mod Api
pub mod Examples
