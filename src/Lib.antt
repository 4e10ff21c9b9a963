-- ===== src/Lib.antt =====
-- Verification of the circuit agent cloud: custody of agent wallets and the trades they may make.
--
-- The program. A control plane (control-plane/server.js) places agents on node hosts
-- (node-host/host.js), which run them as processes or containers (agentd/). No host holds a wallet
-- key: the signer (signer/server.js) keeps one sealed key per agent, hands the control plane a
-- session (epoch and token) for each placement, and signs a trade intent only if it comes from the
-- current session, is justified by a committed rule where the owner demands one
-- (lib/verified-intent.js), and is within the owner's policy (lib/proto.js). Funds leave only to the
-- owner on file (signer/withdraw.js).
--
-- The files.
--   Prelude: tests and lists over the native numbers, association lists for objects and maps
--     (Prelude/Dict), JavaScript's numbers as NaN or an integer of a fixed unit (Prelude/Numbers).
--   Proto: lib/proto.js. Proto/Value has the JSON values that reach the code and `===`, `String`,
--     `Number` on them; Proto/Policy `DEFAULT_POLICY` and `normalizePolicy`; Proto/Sandbox
--     `SANDBOX_RANK`, `nodeSatisfies` and `isFirstPartyNodeRuntime`.
--   VerifiedIntent: lib/verified-intent.js. Replay is the nonce memory of signer/server.js
--     (`VERIFIED_NONCES`), Evidence `verifyEvidence` and `evidenceBacks`, Rule `normalizeRule`,
--     `normalizeVerified`, `cmp`, `evaluateRule` and `sameIntent`, Gate `decisionGate`.
--   Auth: lib/owner-auth.js and lib/node-auth.js. Auth/Nonces is `NonceStore`, Auth the check of a
--     request (one definition for owners and nodes), Auth/Replay its second use.
--   Base58: `base58` and `base58decode` of lib/ed25519.js, over bytes; Value has the number that digits
--     stand for, Alphabet the characters, RoundTrip the two functions together.
--   Bundle: lib/bundle.js, the manifest, its canonical form and the checks of a bundle. Store and Pull
--     are lib/bundle-store.js, Store also the routes of control-plane/server.js that upload and
--     download bundles.
--   Http: lib/http.js, the router with `readBody`, `_match` and the listener.
--   Agentd: agentd/agentd.js, the reference workload: `tick` in two steps, around its call of the
--     signer, and `shutdown`.
--   ControlPlane: control-plane/server.js over the records of lib/store.js. Placement is
--     `pickNode` and `schedule`, Sweep the timer's sweep, Access the ownership check with the
--     start, stop and destroy routes, and `assertBundleOwnerBinding`, Access/Reads the other routes
--     of an owner, Heartbeat the heartbeat of a node with `ensureSession`, Nodes the registration,
--     trust and report routes, Create the creation of an agent and the change of its owner, Collect
--     `bundleGcSweep`, Quota the rate limit, the check of a node's key and the ring of log lines;
--     History runs requests and sweeps in sequence.
--   NodeHost: Env is node-host/env.js (`buildAgentEnv`), Container node-host/oci.js
--     (`buildContainerSpec`), Egress node-host/egress-proxy.js with `assertPublicHost` of
--     lib/netguard.js. Resolve and Host are node-host/host.js: Resolve what a start assignment comes to
--     (`resolveWorkload`, `resolveBundle`), Host `startAgent`, `stopAgent`, the handlers of a process,
--     `enforceMemory` and `shutdown`, over the records of the processes; Host/History has `beat`, step
--     by step, between the other handlers, and Host/Cycle joins the host to the heartbeat of
--     ControlPlane.
--   Netguard: the address ranges of lib/netguard.js.
--   Signer: signer/server.js and signer/withdraw.js. State has the agent records, the sealed keys and
--     the spent nonces; Trade is the intent route, Routes the other routes, Transfer the RPC failover
--     and the withdrawal up to the bytes that it broadcasts, Transfer/Message the bytes of a transfer; History runs requests in sequence.
--   Submit: signer/submit.js. Wire has `readCompactU16` and the reads of a message, Inspect
--     `inspectTransaction`, `findSignerIndex` and `signSerializedTx`, Execute `assertSafeBase` and
--     `executeUltraSwap`; Transaction is the format written out, as a value and its bytes, with the
--     readings of the two functions in Transaction/Readback and Transaction/Signing.
-- Bounds. Amounts of SOL are natural numbers of 1e-9 SOL and times are milliseconds, so the rounding
-- of floats, infinities and fractions of a unit are not modelled. The loop of `compactU16` runs on
-- fuel 5, which covers 32 bits at seven bits a round. The polls of a withdrawal are the source's
-- fifteen. The last loop of `base58` runs on its carry as fuel, which every round divides. All other
-- loops are structural. A log buffer holds 300 lines and a request 1,000,000 code units, as in the
-- source.
--
-- Parameters. Hashing, sealing, signing and signature checks, the printing of JSON and the
-- conversions `String` and `Number` of objects are fields of `Runtime`, `Options`, `Convert` or
-- `Crypto`; https and the files of a pull are those of `Transport`, DNS of `Net`, and the settings and
-- the machine of a host, with `tar`, of `Site`. What the RPC endpoints and the broker of swaps answer,
-- and how an assignment reads on the host (`Wire`), is an argument.
--
-- Not modelled: the sockets of the HTTP servers, the files of the stores (a map stands for a
-- directory), `tar`, the cgroups, the status file and the command that starts the proxy container, the
-- log and the heartbeat file of the workload, the writing of the records to disk, and the bearer check
-- (a comparison with a secret). A heartbeat is one step: the sessions it opens are taken to be opened
-- before another request is served. The start of an agent on a host is two steps, with other handlers
-- in between, but beats do not overlap in Host/History; two starts that do are in Host/Overlap. In
-- Host/Cycle a start is one step. Names that every JavaScript object inherits (`constructor`), as
-- agent ids or inputs of a rule, and JSON objects with a `toString` or `valueOf` of their own are not
-- modelled either.
pub mod Agentd
pub mod Auth
pub mod Base58
pub mod Bundle
pub mod ControlPlane
pub mod Http
pub mod Netguard
pub mod NodeHost
pub mod Prelude
pub mod Proto
pub mod Signer
pub mod Submit
pub mod VerifiedIntent
