-- ===== src/Lib.antt =====
-- TAPLE Core: a library for ledgers of subjects whose events are signed, evaluated, approved and
-- validated by the nodes that a governance names. The development covers the data that the
-- components exchange, the governance, the validator, the manager of approvals, and of the ledger
-- the event sourcing and the events that were validated.
--
-- The parts, the files that model them, and how they correspond to the code:
--
-- * Identifier (core/src/commons/identifier): `DigestIdentifier` and `KeyIdentifier`, the codes of
--   their derivators, `to_str` and `from_str`. A string is its list of bytes; a slice that leaves
--   the text or splits a character is the error `panic`.
-- * Models (core/src/commons/models, core/src/commons/crypto): requests, events, signatures,
--   subjects, evaluations, approvals and validation proofs, one record per struct and one data type
--   per enum. Models/Verification is `verify_signatures` and `verify_eval_appr` of event.rs, with
--   the loop over the signatures of one set as `collect_signers`. Crypto is `verify` of
--   `KeyIdentifier` and of the two kinds of key pairs, which panic on bytes that are no public key,
--   the second also on bytes that are no signature; Signatures is `Signature::new` and `verify`,
--   and Signatures/Validity about when it accepts and when it panics.
-- * Governance (core/src/governance): Inner is one function per operation of `InnerGovernance`.
--   The outer error of an answer is one that stops the component, or a panic of an `unwrap`; the
--   inner one goes to who asked. Roles holds the loops of `get_signers_aux` and
--   `issue_create_info`, Sourcing is `governance_event_sourcing`, with Patches about the events that
--   make a version, Payload the readers of the JSON properties, Namespaces `namespace_contiene`.
--   Interface is what the other components ask of it.
-- * Validation (core/src/validation): Checks is `check_proofs` and `validate_previous_proof`;
--   Process is `validation_event`, on a state of the database and the messages sent, and a run of
--   calls. A call ends in a panic where `verify` of a signature does; a run then goes on, so that runs
--   which stop there are among those modelled. The governance, the channel and the clock that a call
--   meets are its surroundings, and may differ from call to call. Defs states what the validator
--   needs of its registers. Order, Steps, Forks, Endorsed, Agreement and Successors are about them.
-- * Database (core/src/database): Memory is the map of memory.rs, which all collections share,
--   Iterators its iterator, Keys is `get_key` of layers/utils.rs. Collections is the trait of
--   mod.rs, with what its comments promise as `IsCollection`, and the three accesses by which every
--   layer is written; Collections/InMemory is the map as such a collection. Registers is the layer of
--   layers/validation.rs, Approvals that of layers/approvals.rs, Layers those of subjects, events,
--   keys, signatures and requests.
-- * Approval (core/src/approval): Manager is one function per operation of `InnerApprovalManager`,
--   on a state of the database and the calls of the notifier. A call ends with a result, with an
--   answer (`Ok(Err(..))` in the code), with an error of the manager, or with a panic. Lifecycle is
--   a step relation that says what may become of one request, Evolution shows that the operations
--   keep to it, and Runs is about their calls in any order.
-- * Ledger (core/src/ledger): Checks is what ledger.rs tests ahead of a change, Signers is its
--   `verify_signatures`, Sourcing its event sourcing, Validated its `event_validated`, on a state of
--   the database, the two maps of the ledger and what it has sent; Agreement, Chain and Recorded are
--   about them.
-- * Prelude is what the parts share; Tests holds definitions and theorems at concrete inputs.
--
-- How the code is written here: a `u64` is a native number, with `sn + 1` taken modulo 2^64, and
-- the count of signers that is cast to a `u32` modulo 2^32. A `HashSet` is a list in the order of
-- its iteration, with insertion that keeps elements different. The loop of event sourcing is
-- recursion on the version, so no definition needs fuel. `sn - 1` wraps around at 0, as in a build
-- without overflow checks. An action of Prelude/Actions is a function of `&mut self` with `?`: what
-- it has written stays written when it fails. `async` calls are calls; a broken channel
-- is an error of the surroundings.
--
-- Parameters stand for third-party crates: base64, borsh, the hash functions and signature schemes,
-- serde_json, json_patch, and the ceiling of a float. No property assumes that signatures cannot be
-- forged or that hashes do not collide.
--
-- Not modelled: the network, the message loops and channel clients, the API and the node, settings,
-- serde and borsh forms of values, the WebAssembly evaluator, which are input and output or calls
-- of third-party code; reading by range and the layers of the database that nothing modelled uses;
-- of the approval manager `get_all_request`; of the ledger the genesis and the
-- handlers of external events; the event completer and the distribution of signatures.
pub mod Prelude
pub mod Identifier
pub mod Models
pub mod Governance
pub mod Approval
pub mod Database
pub mod Ledger
pub mod Validation
pub mod Tests
