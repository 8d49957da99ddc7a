-- ===== src/Lib.antt =====
-- A model of hull-ci, a CI runner for Hull, and theorems about it. A dispatch from Hull names a
-- repository, a tree and a callback url. The control plane admits it (`Control.Claims`), and a
-- driver (`Control.Drive`) runs the steps that the tree's plan declares: on each pass it applies
-- the clocks (`Control.Timeouts`), lets the graph of needs start, skip or break steps
-- (`Control.Graph`), and folds the steps to a verdict, if they decide one (`Control.Aggregate`).
-- The scheduler's grants are handed to nodes (`Control.Handover`), whose reports come back
-- (`Control.Lease`). The verdict is delivered to Hull with retries (`Control.Callback`). A node
-- keeps the end of what a step prints (`Node.Capture`), and the steps fetch packages through a
-- proxy with a grant for their job (`Proxy`). Before that the tree's archive is unpacked (`Fetch`)
-- and its pipeline file is checked and made a plan (`Plan`). What a job may know of its tenant's
-- secrets goes through the broker, which hands them to nodes for one-time capabilities, and what
-- is handed over is masked in a step's output (`Secrets`).
--
-- Files and the sources that they model, under crates/:
--   Base             shared names, tests on numbers, lists, text, integers, maps and results
--   Proto.Verdict    hull-ci-proto/src/lib.rs: Status, Reason, Verdict, AuthorClass
--   Proto.Chars      lib.rs: is_invisible_formatting, and the character tests of the
--                    standard library that lib.rs calls
--   Proto.Sanitize   lib.rs: sanitize_summary
--   Proto.Paths      lib.rs: tenant_of, canonical_repo, check_path_segment, check_log_key
--   Control.JobState, Control.StepState, Control.Step, Control.Job
--                    hull-ci-control/src/model.rs: the states, their transitions, the records
--   Control.Graph    hull-ci-control/src/graph.rs: advance
--   Control.Aggregate  hull-ci-control/src/aggregate.rs: fold and its summaries
--   Control.Timeouts   hull-ci-control/src/timeouts.rs: sweep, next_step_deadline
--   Control.Claims   hull-ci-control/src/claims.rs: LocalClaims
--   Control.Lease    hull-ci-control/src/control.rs: record_step_report, renew_lease
--   Control.Handover control.rs: settle_assignment, cancel_steps, claim_delivery,
--                    claim_delivery_if_parked, release_delivery
--   Control.Drive    control.rs: the loop of phase_run, and what finish records
--   Control.Store    hull-ci-control/src/store.rs: JobStore
--   Control.Callback hull-ci-control/src/callback.rs: RetryPolicy, deliver_reporting
--   Proxy.RateLimit  hull-ci-proxy/src/ratelimit.rs: TokenBucket
--   Proxy.Grant      hull-ci-proxy/src/grant.rs: GrantToken, GrantRegistry
--   Node.Capture     hull-ci-node/src/capture.rs: OutputCapture
--   Secrets.Context, Secrets.Error
--                    hull-ci-secrets/src/lib.rs: the names, the associated data, the errors
--   Secrets.Keys     keys.rs: DevKeyManager, aead_seal, aead_open
--   Secrets.Seal     seal.rs: Vault; store.rs: MemorySealedStore
--   Secrets.Capability  capability.rs: tokens and records; broker.rs: what is done under
--                    the lock of a registry
--   Secrets.Broker   broker.rs: SecretBroker, in State, Mint, Redeem and Keep
--   Secrets.Identity, Secrets.Service
--                    identity.rs: NodeRegistry; service.rs: SecretService::redeem
--   Secrets.Mask     mask.rs: Masker
--   Fetch.Paths, Fetch.Disk
--                    `Path` of the standard library, and the directory that is filled
--   Fetch.Extract    hull-ci-fetch/src/extract.rs: extract_into, in Model, Checks and Fill
--   Plan.Validate, Plan.Error
--                    hull-ci-plan/src/validate.rs and error.rs: the checks of a step
--   Plan.Shape       shape.rs: measure; eval.rs: the refusals by it
--   Plan.Pipeline    pipeline.rs: the plan
--   Plan.Recorder    eval.rs: Recorder, as the calls of a pipeline file fill it
-- A module's definitions stand in the file of its name, under the source's names; where the source
-- has a `match`, a loop or a guard that stands on its own here, the helper is named for what it
-- does. The files below it hold what is proved, and its Examples the uses of it at concrete
-- inputs.
--
-- The disk of Fetch.Disk is the nodes that were made below the destination; a call that the system
-- would lead through a link is not carried out in the model but noted in `astray`.
--
-- State. A method on `&mut self` is a function from the state to the state and the answer. A mutex
-- is held for the whole of each modelled method of the control plane and the proxy. The secret
-- broker lets the registry go before it opens what it hands over, and a rotation takes the keys
-- and the store call by call: here each of these is one step. A method is one change of state
-- then, and an interleaving of callers is a sequence of changes: the data types `Reach`, `Used`,
-- `After` and `Called` and the lists of requests of the Lifecycle and Delivering files are such
-- sequences. `HashMap` and `BTreeMap` are association lists with `get`, `put` and `erase`
-- (`Base.Assoc`). An error result is a constructor of the answer.
--
-- Numbers. Instants and durations are natural numbers of nanoseconds in the control plane,
-- milliseconds in the claim store and whole seconds in the proxy, as the sources have them; the
-- `i64` clock of the claim store is taken to be non-negative. Saturating and checked operations of
-- machine integers are written out at their width. The `{:.0}` of a duration in a summary is the
-- seconds rounded half to even. The difference of two `usize` in an eviction wraps, as it does in
-- a release build. Counters that only grow by what a process sees (attempts, dropped bytes) are
-- exact.
--
-- Text. A string is the list of its code points, and of its bytes where the source takes bytes;
-- nothing that is modelled depends on UTF-8.
--
-- Loops. `advance` runs its rounds on the number of steps plus one as fuel: each round that moves
-- something takes a step out of `pending`, so the loop ends by itself within the fuel
-- (`rounds_enough` in Control.Graph.Settled), and a second call finds nothing to move. The decimal
-- printer's fuel is the number plus one, which has no more digits than that. `replace_all`, `scan`
-- and `skip_string` take a byte at least in each round and run on the number of bytes as fuel. All
-- other loops are recursions on the list that the source iterates over, or on the number of
-- attempts that are left.
--
-- Parameters. Each attempt's reply of Hull and the random numbers of the backoff are functions of
-- the attempt. `hex`, `blake3` and `subtle` are the record `Crypto` of Proxy.Grant, with the three
-- facts that the code relies on; an instance is in Proxy.Grant.Shifting. The cipher is the record
-- `Aead` of Secrets.Keys: what it decrypts of an encrypted message is the message. The nodes'
-- signatures are `Signing` of Secrets.Identity, and the decoding and normal form of file names are
-- `Unicode` of Fetch.Extract, both without any law. An archive is a list of entries, or of errors
-- where its stream breaks; an evaluation of a pipeline file is the list of its calls, which the
-- third-party interpreter makes. New ids and random bytes are arguments. What a handler tells the
-- scheduler, the memo store or the fleet is returned beside the new state.
--
-- Not modelled: the HTTP servers and clients, the journal and the Postgres store of claims,
-- containers and processes, the fair-share queue (its virtual time is in floating point), the step
-- memo's keys, the evaluation of plans by Starlark and its bounded process, the download and the
-- verification of trees and their store, the warm pool, and the services around the broker
-- (Infisical, the package proxy's). Logging has no part in any result and is left out.
pub mod Base
pub mod Proto
pub mod Control
pub mod Proxy
pub mod Node
pub mod Plan
pub mod Secrets
pub mod Fetch
