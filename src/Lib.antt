-- ===== src/Lib.antt =====
-- The response plane of the repository and what feeds it: from normalised events to feature vectors, from
-- a policy document and a signed command to an action on a firewall or an endpoint, its audit trail and its
-- reversal. The code is response/, soc/workers/outbox.py and ai/features/ of the repository.
--
-- The parts and their files:
--   Policy (response/policy.py): Policy.Fields reads single fields, Policy.Protection the targets that are
--     never touched, Policy.Rules one rule, Policy.Catalog the document. Policy.Listed is
--     membership in its lists, Policy.Eligible says which targets pass, and Policy.Loaded within which
--     bounds a loaded catalog is.
--   Decision (response/decision.py): Decision.Evidence checks the anomaly, the target and the signals,
--     Decision.Engine decides and issues the command, Decision.Gate says when (with
--     Decision.Corroborated for the signals), Decision.Contract that the orchestrator's validation takes
--     it, and Decision.Issued has both together.
--   Validation (`_validate_command` of response/orchestrator/engine.py): what a command must be, at its
--     submission and again before it is applied. Validation.Named is about the policy and the target that
--     it names, Validation.Accepted about all of it.
--   Audit (response/orchestrator/audit.py): the states, the events and the check of a transition;
--     Audit.Lifecycle has the lifecycle as a step relation, Audit.Proven what a checked trail claims.
--   Store (response/orchestrator/store.py): the journal, whose transactions are whole or nothing.
--   Orchestrator (response/orchestrator/engine.py): Machine has the state and the private methods that
--     write the journal or call an adapter, Operations has `submit`, Enforcement the operations that
--     reach an adapter, Restart the start from a journal and runs of inputs. Authorized says what an
--     adapter call needs, Once and Trail what holds of all runs. Steps reduces a property of
--     all runs to the steps, Journaled further to the checkpoints of the journal.
--   Ownership (response/transports/ownership.py): who holds an address of a firewall's blocklist.
--   Adapters (response/adapters/): Client is the contract of a firewall's client, Blocklist, Apply and
--     Release the adapter over all peers, Owned the ownership client as such a client, Endpoint and Wazuh
--     the isolation of a host. Applied and Reverted say what an outcome proves, Spared what no sequence
--     of commands touches.
--   Service (response/service/runner.py): what drives the orchestrator and exports its events; Observed
--     is about its observe mode, Exported says what an export delivers.
--   Runner (response/service/decision_runner.py): anomalies to decisions and commands. Handling is
--     what becomes of an anomaly, Kept what all of it keeps, Quiet its observe mode, Cursor how far a pass goes.
--   Workers.Outbox (soc/workers/outbox.py): the jobs of the feature worker. Kept, Due, Retry, Requeue and
--     Totals are named for what they prove of them.
--   Features (ai/features/): Contract has the closed feature lists, Sequences the rows of a sequence, Events
--     the reading and selection of events, Network and Endpoint the counts, Vectors the vectors. Bounds
--     and Selected are about them.
--   Value and Platform: the values that json and yaml load, and what the code uses of Python's library.
--
-- How state corresponds: a method is a function from the object to a result and the object as it left
-- it, so what was written before an exception stays written. `Orchestrator` holds `_records`, `_dedup`,
-- `_storage_failed` and the store, beside the adapters' answers and the disk's faults still to come and
-- the trace of adapter calls. A record is one value under its key; every write through the shared object
-- is a write of that value. A fault of the disk is a refusal, or a commit whose answer is lost.
--
-- Bounds: instants are microseconds in unbounded natural numbers, floats are exact dyadic numbers, and
-- no definition takes fuel. Digests, addresses as text, timestamps as text, the case of texts and the
-- command's authenticator are arguments (`Platform`, `Environment`), and so are Python's functions on texts
-- (`Python`), the clients' transports and the answers of Elasticsearch.
--
-- Not modelled: locks and processes side by side, the files of the store and their permissions, the
-- messages shown to a caller, the orchestrator with a bare ledger and its `restore_recovery`, the queries
-- and the building of signals in `DecisionRunner._signals`, the configuration of the services, the signing
-- of texts, the loops of soc/workers over Elasticsearch, the models and their training (numeric libraries),
-- the transports (HTTP), compliance/ and the scripts.
pub mod Common
pub mod Ownership
pub mod Value
pub mod Workers
pub mod Features
pub mod Service
pub mod Runner
pub mod Platform
pub mod Policy
pub mod Adapters
pub mod Audit
pub mod Store
pub mod Validation
pub mod Orchestrator
pub mod Decision
pub mod Fixtures
