-- ===== src/Lib.antt =====
-- A model of the core of the webchannel packages: the agent's plugin (packages/plugin), the browser
-- client (packages/client) and the SaaS side (packages/saas).
--
-- A browser registers with the agent by a proof of possession, after which its messages, less those
-- that are known already, wait in the plugin under a budget and are answered by frames of result
-- ids; the plugin itself is enrolled at the SaaS, which keeps the agents' keys and a ledger of the
-- browser credentials that it issued.
--
-- - Common: boolean tests, lists, maps as association lists in insertion order, texts as lists of
--   UTF-16 code units.
-- - Retention, from packages/plugin/src/inbound-retention.ts: `try_reserve`, and `hold`, `unhold`,
--   `transfer`, `request_release` and `release` of a reservation, on the budget that they share. A
--   reservation is a handle into a list and a session token a number, since the source's closures
--   share their state; `throw` is an exception.
-- - Pop, from packages/plugin/src/pop-challenge.ts and pop-signed-message.ts: `issue`, `sweep`,
--   `consume` and `verify`. The clock readings and the nonce are arguments; importing a key and the
--   Ed25519 check are parameters.
-- - Aead, from packages/client/src/chacha20poly1305.ts: the block function, the stream, Poly1305, and
--   `encrypt` and `decrypt`. The loops over blocks run on fuel, one step for each byte, which is
--   enough since a block takes at least one byte.
-- - Registry, from packages/saas/src/agent-key-registry.ts and the registry's half of
--   packages/saas/src/enrollment-repository.ts: `register_sync` and `revoke_active` on the histories.
-- - Enrollment, from packages/saas/src/enrollment-repository.ts with the record of
--   packages/saas/src/device-flow-types.ts: one function for each method. `commit_approval` calls
--   `register_sync` of Registry, in one transition as in the source. SHA-256 is a parameter.
-- - DeviceFlow, from packages/saas/src/device-flow-enrollment.ts: `enroll`, `poll`, `approve` and
--   `deny` over Enrollment. Where the source awaits, a parameter says what other calls do to the
--   repository. The random codes, the mint and the clock are arguments. A user code is sampled on
--   fuel, for which an array with one byte that is not rejected suffices.
-- - Ledger, from packages/saas/src/browser-credential-ledger.ts: `record_issuance`, `get`, `list`,
--   `mark_revoked` and `sweep`. The encoding of a cursor is a parameter.
-- - Chunks, from packages/plugin/src/ingress-result-chunks.ts: `add` and `finish` of the writer, with
--   its measure and its publisher as parameters.
-- - Tokens, from packages/plugin/src/subject-token.ts, client-nonce.ts and wrap-aad.ts.
-- - Ingress, from packages/plugin/src/ingress-dedupe.ts: `ingressDedupeKey`, `has`, `delete` and `add`
--   of `CancelledInboundFallbackTombstones`, and `filterFreshInboundItems`. The size of a text in
--   bytes, `checkAndRecord` and `isActive` are parameters; `createIngressOnFlush` is not modelled.
-- - Coalesce, from packages/plugin/src/inbound-queue.ts: the merge of waiting messages into one turn,
--   under the session's limit of Retention.
-- - Dispatcher, from the same file: `begin_batch`, `offer`, `commit`, `rollback`, `finish`,
--   `dispatch`, `clear_pending` and `dispose` of `createSerializedInboundDispatcher`, over the budget
--   of Retention. A promise's reactions are steps: `run_turn` is the microtask that calls the
--   handler, `settle` what follows its return. A turn's message is the result of `run_turn`; `dispose`
--   leaves the microtasks that are queued as `orphans`. The promise chains of a dispatcher that has
--   no `coalesce` are not modelled, as the plugin has one.
--
-- Numbers are natural: the source's are non-negative safe integers there, and its clocks read
-- milliseconds or seconds. The copies that the source makes of a record on its way in and out are the
-- record itself. Timers, log lines, the texts of errors, and the packages' sockets, files and HTTP
-- handlers are not modelled.
pub mod Common
pub mod Retention
pub mod Pop
pub mod Aead
pub mod Registry
pub mod Enrollment
pub mod Ledger
pub mod Chunks
pub mod Tokens
pub mod Coalesce
pub mod DeviceFlow
pub mod Dispatcher
pub mod Ingress
