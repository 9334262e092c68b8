-- ===== src/Lib.antt =====
-- A verification library for the Python SDK of the ROAR protocol (python/src/roar_sdk).
--
-- Agents exchange messages that carry a signature, by HMAC (types.py) or Ed25519 (signing.py). The
-- router (router.py) takes a message through a token bucket, then through the strict verifier
-- (verifier.py) or an HMAC and a replay test of its own, and hands it to the server. The strict
-- verifier asks the replay guard (dedup.py). Agents are found through a directory (types.py) and a
-- cache of its answers (discovery_cache.py), register at a hub by a challenge (hub_auth.py), and
-- have their keys in a trust store (key_trust.py). Delegation tokens (delegation.py) and their
-- count of uses (token_store.py) grant capabilities, and so does the server's own table of grants
-- (autonomy.py). A client (client.py) signs what it sends; the server (server.py) verifies it,
-- tests the delegation token in it under the key that its delegator's DID resolves to
-- (did_resolver.py), and hands it to a handler. The hub (hub.py) takes registrations through its
-- challenges, and exchanges entries with other hubs, a cluster (ha.py) sends to several of them,
-- and a registry (registry.py) gathers their agents; a directory can also stand in SQLite
-- (sqlite_directory.py). The event bus (streaming.py) carries events to subscribers, workflows
-- (workflow.py) run tasks in the order of their dependencies, credentials
-- (verifiable_credentials.py) attest capabilities, and the middleware (auth_middleware.py) lets
-- requests through. Heartbeats (heartbeat.py) tell a hub which agents are alive. Transactions and
-- receipts (transaction.py) and the audit log (audit.py) record what was agreed and said.
--
-- Base          numbers, texts and lists; Base.Dict is Python's dict and OrderedDict as a list of
--               pairs in insertion order, Base.Recency its move_to_end.
-- Json          the values of Dict[str, Any].
-- Types         the wire types; Types.Message is ROARMessage.sign and verify, Types.Directory the
--               AgentDirectory.
-- Dedup         IdempotencyGuard; Dedup.Bounds, Dedup.Held and Dedup.Window.
-- Cache         DiscoveryCache; Cache.Bounds and Cache.Fresh.
-- Audit         AuditLog; Audit.Chain, Audit.Tamper and Audit.Query.
-- Signing       sign_ed25519 and verify_ed25519; Signing.Cards the attestations of agent cards.
-- Verifier      StrictMessageVerifier; Verifier.Soundness and Verifier.Replay.
-- Bucket        TokenBucket of router.py; Bucket.Rate.
-- Router        create_roar_router: `handle_message` is POST /roar/message, `handle_frame` one frame
--               of the WebSocket; Router.Dispatch and Router.Replay.
-- KeyTrust      KeyTrustStore; KeyTrust.Lookup and KeyTrust.Rotation.
-- TokenStore    InMemoryTokenStore; TokenStore.Limits.
-- Delegation    DelegationToken, issue_token and verify_token; Delegation.Uses and Delegation.Issue.
-- Challenge     ChallengeStore; Challenge.OneShot.
-- Transaction   Transaction and TransactionReceipt; Transaction.Lifecycle and Transaction.Receipts.
-- Autonomy      CapabilityDelegation and its tokens (autonomy.py); Autonomy.Soundness,
--               Autonomy.Revocation and Autonomy.Cleanup.
-- Heartbeat     HeartbeatTracker (heartbeat.py); Heartbeat.Reaping.
-- Stream        EventBus and Subscription (streaming.py) with the events of types.py; Stream.Channel
--               is the abstract channel of a subscriber; Stream.Offer and Stream.Refine.
-- Did           resolve_did_to_public_key, did_to_url and _public_key_to_did (did_resolver.py,
--               did_web.py, did_key.py); Did.Resolve.
-- Server        ROARServer.handle_message and the endpoint of `serve` (server.py);
--               Server.Admission and Server.Uses.
-- Client        ROARClient (client.py); Client.Delivery.
-- Hub           the handlers of ROARHub.serve: registration and removal in Hub itself (`register` is
--               begin_registration there, `unregister` delete_agent), Hub.Sync the exchange with
--               peers, Hub.Listing the listing; Hub.Registration, Hub.Removal, Hub.Federation,
--               Hub.Paging, Hub.Filing and Hub.Invariant.
-- Workflow      Workflow and the parts of WorkflowEngine.run (workflow.py); Workflow.Graph is
--               _check_cycles, Workflow.Run add_task and run; Workflow.Cycles, Workflow.Progress,
--               Workflow.Ready, Workflow.Engine and Workflow.Order.
-- Credential    verifiable_credentials.py; Credential.Chain.
-- Auth          auth_middleware.py, `none` being no_auth; Auth.Admission.
-- Registry      PublicRegistry (registry.py); Registry.Newest.
-- Cluster       HubCluster (ha.py); Cluster.Failover.
-- Types.Sqlite  SQLiteAgentDirectory on a database that is a parameter; Types.Sqlite.Refine.
-- The Tests modules run the definitions on concrete values and instantiate the theorems.
--
-- Each component's state is a record, and each method a function from the state to the state and
-- the answer, with Option or a sum where the method can raise. A method that changes its object
-- and then raises returns the object as it is then. Calls of several threads or requests are a
-- list of calls: the lock of the token store, and the event loop of the router between two awaits,
-- make each call one step. Loops are structural recursion, but for two loops of the workflows that
-- run on fuel: the test of cycles, for which a step for each task and each dependency is enough,
-- and the engine's, for which a round for each task and one more is enough.
--
-- Times and durations are whole seconds and never negative, amounts and JSON numbers natural; a time
-- that comes in with a message, a request, a token or an entry can also be NaN, and its comparisons
-- are then False, as Python's are. Each
-- reading of a clock is an argument, except that one pass over a list reads it once. A comparison
-- of a difference of times is written as one of sums. The token bucket counts in 60ths of a token.
-- Identifiers and nonces that the code draws at random are arguments. SHA-256, HMAC, Ed25519,
-- base64 and json.dumps are not the repository's code: they are parameters, with what a theorem
-- needs of them among its hypotheses.
--
-- The tasks of a round of the engine, which asyncio.gather interleaves, are executed one after the
-- other: each writes to its own task alone.
--
-- Not modelled: files, sockets, HTTP, Redis and the SQL engine; the handlers of the users; the SSE
-- endpoint; the logging, tracing and metrics. Of the workflows, get_execution_order, which
-- iterates over a set, and the conversion to and from dicts; of the hub cluster, the merge of
-- searches and the test for split brains; of the registry, the full-text search and the routes.
-- The bridges, plugins, DNS discovery, the migration tools and the command line are left out as
-- well.
pub mod Base
pub mod Json
pub mod Types
pub mod Cache
pub mod Dedup
pub mod Audit
pub mod Signing
pub mod Verifier
pub mod Bucket
pub mod Router
pub mod KeyTrust
pub mod TokenStore
pub mod Delegation
pub mod Challenge
pub mod Transaction
pub mod Autonomy
pub mod Heartbeat
pub mod Stream
pub mod Did
pub mod Server
pub mod Hub
pub mod Workflow
pub mod Credential
pub mod Auth
pub mod Client
pub mod Cluster
pub mod Registry
