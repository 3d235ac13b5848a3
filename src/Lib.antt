-- ===== src/Lib.antt =====
-- Yitu: a parcel service. This library models the part of backend/src/yitu that moves a shipment
-- from its payment to its delivery or return, and the policies around it.
--
-- The parts, and the files of the repository that they are about:
--   Shipments/StateMachine  shipments/state_machine.py: statuses, transitions, offered actions
--   Shipments/Control       shipments/control.py: the lock on a shipment and the holds that block it
--   Shipments/Transition    shipments/service.py, `ShipmentTransitionService`: a status change with
--                           its stages, track, notification and audit entry
--   Shipments/Application, Shipments/Reweigh, Shipments/Views   shipments/service.py,
--                           `ShipmentApplicationService`: creation, a new quote after weighing, and
--                           the list and the detail that an actor sees
--   Dispatch, Linehaul, LastMile   dispatch/service.py, shipments/linehaul.py and
--                           shipments/credentials.py: the calls that use it, from pickup to proof
--   Payments, Returns       payments/service.py and returns/service.py
--   Pricing/Policy, Pricing/Service   pricing/policy.py; pricing/service.py: quotes and rules
--   Stations                stations/service.py: the station of a district
--   Sla/Calendar, Sla/Service, Sla/Pauses, Sla/Breaches   sla/calendar.py, sla/policy.py and
--                           sla/service.py: stages, their pauses, the scan for breaches
--   Exceptions/StateMachine exceptions/state_machine.py
--   Exceptions/Opening, Handling, Reassigning, Resume, Listing   exceptions/service.py: a case is
--                           reported, worked on and closed, a task replaced, a shipment resumed;
--                           Exceptions/Cases has what they share
--   Tracking, Platform, Identity   tracking/service.py; platform/errors.py, idempotency.py, audit.py
--                           and outbox.py (Platform/Outbox, Consumer and Relay); the guards of
--                           identity/service.py
--   Agent                   agent/workflow/routes.py and assistant_graph.py (Agent, Agent/Walks);
--                           agent/domain/drafts.py, grants.py and shipment_write_service.py: the
--                           shipment that a conversation collects, its quote and its grants
--   Blocked                 what all the services do while a hold stands
--   Store                   the tables' rows (Rows, Cases, Catalog, Drafts), the session that the
--                           calls are written over, and the steps of a call that returned (Steps)
--   Base, Tests             shared helpers; the theorems at examples
-- An operation keeps the name of its method; a private method loses its underscore.
--
-- How the code is written down. A call is a function from a session to a result and a session
-- (Store/Session): the session holds the tables as lists of rows in the order of their insertion,
-- the clock, which stands still within a request and does not run backwards from one request to the
-- next, and the supply of ids. An `AppError` is a
-- constructor of Error, and a call that raises leaves what it wrote in the session; `transact` is the
-- request, which rolls it back. A shared object that a call changes is written to its table at
-- each change. Row locks and the advisory lock of the idempotency arbiter are the order of the
-- requests: one runs after another. A query without an order gives the row that was added first.
-- A key such as f"shipment:{id}:..." is the tree of its parts.
--
-- Loops and fuel. The calendar counts microseconds from a Monday's midnight in the business time
-- zone. `_next_business_start` has three rounds, since one free day at most comes between two
-- workdays; `add_work_hours` has one round for each microsecond of the span and one more, since
-- every round but the last uses some of it; `work_hours_between` has one round for each day that
-- it touches and one more. The theorems on the calendar give the results, so that the fuel is
-- enough. All else is structural recursion on lists.
--
-- Orders. `order_by` is an insertion sort (Base/Sorting); rows that the order does not tell apart
-- keep the order of the table.
--
-- Parameters: the order of texts in the database, the hash and the check of argon2 with the pepper,
-- the random pickup code, the hashes of request bodies and commands, the handler of an event, the
-- text of an exception and the broker that the relay publishes to.
--
-- Not modelled: HTTP routers and schemas beyond what is named here; tokens and passwords;
-- the forms of addresses, the administration of stations, regions, labels,
-- notifications, knowledge and demonstration data; the nodes and tools of the assistant, which call
-- a language model; migrations, scripts, tests and the front end. The unique constraints of the
-- tables are left out where a call looks for the row before it adds one.
pub mod Base
pub mod Platform
pub mod Shipments
pub mod Exceptions
pub mod Pricing
pub mod Sla
pub mod Store
pub mod Tracking
pub mod Stations
pub mod Identity
pub mod Dispatch
pub mod Linehaul
pub mod Payments
pub mod Returns
pub mod LastMile
pub mod Blocked
pub mod Agent
pub mod Tests
