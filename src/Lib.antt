-- ===== src/Lib.antt =====
-- A model of the social runtime of astrbot_plugin_groupmate, with the theorems that make its parts
-- correct. The program takes part in group chats: it decides when to act, plans what to do, runs
-- tasks, and delivers messages. This development is about the delivery of messages, the tasks
-- that providers run, the attention to messages, choruses of members, the choice of an intention,
-- and the validation of action plans.
--
-- Parts, and how they interact. A caller commits a bundle of parts; the outbox stores the bundle and
-- one row per part. A dispatcher claims ready parts, sends each through the platform's transport,
-- and records the receipt that comes back. After a restart the outbox makes every part that was
-- being sent unknown, since nobody knows whether it arrived, and never sends it again.
--
-- A capability that a member asks for becomes a task: it is proposed, confirmed by its requester
-- where the capability requires that, started, and moved on by the events of its provider until it
-- ends or expires. Each saved change raises the version and adds an event; a save of a task that
-- another worker has advanced is refused. After a restart the running tasks are asked for, or marked
-- unknown.
--
-- The attention scheduler hears every event of a group. A call of the bot, a due commitment and a
-- message of a leased conversation become a frame at once; other messages of a group are gathered in
-- its window until the window is due, and flushed then.
--
-- Which file models what (paths below groupmate/social_runtime):
--   Delivery/Contracts  actions/contracts.py, from DeliveryPartKind to BotLedgerEntry
--   Delivery/Database   the tables delivery_bundles, outbox and journal of persistence/schema.py, and
--                       the SQL statements of delivery/outbox.py
--   Delivery/Outbox     OutboxService of delivery/outbox.py: Outbox.antt has commit_bundle and the
--                       two sweeps, Outbox/Claim claim_ready, Outbox/Receipt the other methods
--   Delivery/Dispatcher DeliveryDispatcher of delivery/dispatcher.py
--   Planning            the action plans of actions/contracts.py and ActionPlanValidator of
--                       validator.py: Planning/Graph has the check for cycles
--   Tasks               Contracts, TaskRun and Payload: tasks/contracts.py and the JSON form of a
--                       task; Store: the tables tasks and task_events of persistence/schema.py with
--                       the reads and writes of tasks/runtime.py; Runtime, Events and Recover:
--                       TaskRuntime of tasks/runtime.py
--   Governor            SocialGovernor of governor.py, with the candidates of intentions.py
--   Attention           AttentionScheduler of attention.py: Attention/Frames has what an event asks for,
--                       Attention/Opportunities which opportunities may be looked at
--   Chorus              ChorusDetector of chorus.py, with the event facts of social_context.py and
--                       sticker_chorus_payload of chorus_media.py
--   Json                the JSON values of payloads
--   Result, Exec        exceptions as values, and methods that change a store and may raise
--   Prelude             the shared library: integers, texts, tests, lists
-- The other files below these hold proofs; the files Samples and Examples hold test
-- data and the theorems at concrete inputs.
--
-- How the code corresponds to the model. A method is a function of the database that returns a
-- result or an exception with the new database; `transaction` is BEGIN IMMEDIATE ... commit with the
-- rollback on every exception, so a method is one step. Python's unbounded integers are ℤ. A record
-- is the dataclass, valid or not, and `create_part`, `create_bundle` and `create_receipt` are its
-- `create`. Fields have their declared types, so the conversions `str(...)` and `int(...)` of values
-- that have them are the identity, and payloads are JSON values. A JSON column holds the value that
-- its canonical text encodes, where `create` has sorted the keys of a payload as that text has them: two
-- texts are equal exactly when the values are, and reading one back
-- runs `create`.
-- A table is the list of its rows in rowid order, and an UPDATE maps over it. `strip` removes the
-- white space that Python's does; `lower` is modelled on ASCII, which is enough for the test against
-- three ASCII words.
--
-- SQLite takes integers of 64 bits only: a time outside them makes `_expire_ready` and the INSERT
-- statements of the outbox raise OverflowError, before the statement runs. The tables of tasks are
-- modelled without that limit.
--
-- Parameters. The two authorizers, the supported kinds, the transport and the receipt handler are
-- arguments. An authorizer answers or raises; each call of the service has its own, since what they
-- read may change between calls, and during a call nobody else writes. The transport and the handler may change the database, since other tasks run while
-- they are awaited. The SHA-256 digest of a plan is a function of the plan.
-- The task runtime takes `str.lower`, the equality of JSON mappings and the hex digest of a task's
-- identity as the record Library, and the provider's adapter as two functions of a task that may
-- raise.
-- The governor takes Python's finite floats as a type with its arithmetic and comparisons.
-- The attention scheduler takes `str` and `int` of a JSON value, `str.casefold` and the digest of a
-- frame's identity as the record Builtins. ValueError also stands for the TypeError of `int`.
-- The chorus detector takes `str.casefold`, `str.upper`, the NFKC form, `str.split`, the search for a
-- URL and the digest of a chain as the record Texts; LookupError stands for IndexError.
--
-- Workers. A method of the task runtime loads a task in one transaction and saves it in another. Its
-- second part is a definition of its own, and Tasks/Workers lets the parts of any number of workers
-- interleave: a worker may save a task that it loaded long ago. Times of the runtime's own calls are
-- natural numbers there, since a task with a negative time is not read back.
--
-- Loops are structural recursion over the rows or nodes that were read, but for two: the printing of
-- decimal numbers has one more than the number as fuel, enough for its digits, and Kahn's loop has
-- the number of nodes, since a round takes one node for good.
--
-- Not modelled: opening and closing connections, the journal rows of other effects, the construction
-- of plans, the table of the choruses that were joined, and the parts of the program outside delivery,
-- tasks, attention, choruses, the governor and the validation of plans.
pub mod Attention
pub mod Chorus
pub mod Delivery
pub mod Exec
pub mod Governor
pub mod Json
pub mod Planning
pub mod Prelude
pub mod Result
pub mod Tasks
