-- ===== src/Lib.antt =====
-- Compass, a proxy between an agent host and a wallet's MCP server (the upstream), and the rules that
-- decide which of the host's calls reach the wallet.
--
-- The parts and the files that model them, with the paths of the repository:
--   Prelude, Prelude/*     tests on numbers, lists and texts that the other files share
--   Js, Js/Json            values of the dynamic language, truthiness, property lookup, JSON.stringify,
--                          and canonicalJson of mcp/proxy/toolSemanticsBridge.ts; Js/Spaces is trim, and
--                          Js/BigInt reads and prints whole numbers (Js/Bases, Js/Decimals)
--   Codes                  SafeErrorCode, ToolClass and SafeError of shared/types/index.ts
--   Constants              shared/constants/index.ts
--   ToolSemantics/*        packages/coding-agent/src/tool-semantics: the registry (Registry), the regular
--                          expressions with a matcher (Patterns), and resolveToolDescriptor,
--                          classifyBlockedTool, filterVisibleTools (Resolver)
--   Audit, Audit/*         back/services/audit/auditLog.ts (record is append_event, and tail) and
--                          mcp/tools/compassAuditEvents.ts; Audit/Print is the JSON of an event
--   WalletAgent            back/services/adapters/walletAgent.ts: buildUpstreamEnv, classifyTool;
--                          WalletAgent/Command is parseCommand
--   Idempotency            packages/coding-agent/src/idempotency/idempotencyStore.js
--   PolicyCache            packages/coding-agent/src/policy-source/policyCache.js
--   Keccak                 packages/coding-agent/src/policy/keccak256.js, and toolKey
--   Risk                   packages/coding-agent/src/risk: riskTypes.js, policySourceRisk.js
--   Consent                packages/coding-agent/src/action-coverage/consentGate.js
--   Policy                 the type of a policy; Policy/Checks is packages/coding-agent/src/risk/riskChecks.js
--                          (assessRisk), Policy/Evaluate is evaluatePolicy and policyDecision
--   Source                 packages/coding-agent/src/policy-source: readPaged; Source/Snapshot is
--                          policySnapshot.js, Source/Fetch is fetchPolicySnapshot, Source/Config is
--                          policySourceConfig.js
--   SafeErrors             packages/coding-agent/src: safe-errors/safeError.js, policySourceErrors.js
--   Redaction              packages/coding-agent/src: safe-errors/redact.js, audit/auditRedaction.js
--   Digest                 packages/coding-agent/src/digest/candidateTxDigest.js
--   Review                 packages/coding-agent/src/llm: finalSafetyReview.js; Review/Context is
--                          sanitizeContext.js, Review/Azure is azureClient.js
--   Forward                packages/coding-agent/src/guarded-forward: guardedForward up to the upstream;
--                          Forward/Run is the part around the call, with its result and record
--   Coverage               packages/coding-agent/src/action-coverage: extractEvidence, coverToolCall
--   Lifecycle              packages/coding-agent/src/policy-contract-lifecycle: coverPolicyUpdate
--   Rpc, Rpc/Simulation    packages/coding-agent/src/monad-rpc: the transport, and the evidence of a
--                          simulation
--   Pipeline               mcp/proxy/guardedPipeline.ts: buildGuardedRunner and its run; Pipeline/Wei is
--                          toWeiHex
--   Proxy/Bridge           mcp/proxy/toolSemanticsBridge.ts: withInputSchemaHash,
--                          filterHostExposedTools, resolveToolForCall
--   Proxy/Schemas          mcp/proxy/schemas.ts
--   Proxy/Upstream         mcp/proxy/upstreamClient.ts: connect, bootstrapMonadChain, callTool, shutdown
--   Proxy/ToolMirror       mcp/proxy/toolMirror.ts
--   Proxy/Interceptor      mcp/proxy/callInterceptor.ts: plan, handleUpstreamCall
--   Proxy/Server           mcp/proxy/server.ts and mcp/tools/compassStatus.ts: the handlers of tools/list
--                          and tools/call
--   Entrypoint             bin/compass-proxy.ts: parseArgs, resolveConfig, main
--
-- How they work together: main reads the configuration, connects the upstream client and gives it, with
-- the audit log, to the server. The server shows the tools that the mirror lets through, and hands each
-- call to the interceptor. The interceptor asks the bridge, which hashes a descriptor's schema and asks
-- the resolver; a call that passes goes to the upstream client, and every call leaves two entries in the
-- audit log. Behind the interceptor's guarded runner stands the package: coverToolCall asks for consent
-- and extracts the evidence, and guardedForward resolves the tool, reads the policy, evaluates it with the
-- checks of risk, makes the digest, asks the reviewer, and forwards, once for each digest. The pipeline
-- is that runner: it simulates a mutation over RPC, makes its consent, reads the policy's contract, and
-- hands all of it to coverToolCall.
--
-- State is explicit: an operation takes the record of its object and returns the new one with its
-- result. The mirror, the interceptor and the server of the source share one client and one log, and
-- here these are the fields of the interceptor. The client's field calls keeps, in order, what has been
-- sent to the upstream. The interleaved calls of runOnce are steps of a relation, each call split where
-- it awaits. The store's field started is an observation: the keys for which runOnce has called its
-- function. A run of the pipeline is one step, on the counter of its RPC transport and its idempotency
-- store: where it waits for another run with its key, what that one settles to is an argument.
--
-- Parameters, for what the repository does not contain: sha256; uuid and now_iso, randomUUID and the
-- clock, by the number of the audit entry; record_of, what zod takes for a record; Sdk, the MCP client
-- and transport, with the answer of the upstream to each call; floor_positive, the floor of a number
-- that is no natural; the guarded runner is the interceptor's argument, as it is in the source;
-- number_of_text, Number(s) of a text that is no decimal; a Reviewer, the client of the language model;
-- an audit writer, by the actions that it writes; the answers of the policy's contract, with its page
-- functions; fetch, of the RPC and of the reviewer's service, where a request that its timer aborts is
-- one that fetch rejects; json_parse and encode, JSON.parse and encodeURIComponent; debug_ref, the
-- random reference of an error; artifact, what the deployment's file holds. The word of an action is one
-- of the program's own.
--
-- Bounds: the loop of the paged reads has the number of entries and one for its fuel, which its growing
-- cursor cannot use up; decimal gives a number n as many digits as it needs, with the fuel n + 1, and
-- more fuel gives the same text (Js/Digits); hexadecimal has the same fuel. parse_command has the length
-- of its text for fuel, which is enough (WalletAgent/Command/Parsed), since each match takes a
-- character. The text of a number from 2 ^ 53 on (Js) has 971, 308 and 17 for fuel: a double is a
-- multiple of at most 2 ^ 971, it has at most 309 digits, and 17 of them tell it from any other. No
-- other definition has fuel. Numbers are naturals, and any other number is a text; a time difference
-- stops at 0, where the source's is negative, and is then below every bound too.
--
-- Not modelled: mcp/proxy/monadPolicyTransport.ts, which binds a library to the contract's ABI;
-- mcp/proxy/guardedForwardBridge.ts, which only gives the package types; the package's audit event and
-- writer; the configuration of a policy source whose versions are no naturals; random identifiers and
-- times of records; an object's key __proto__; the rounding of a number above 2 ^ 53 that is read from a
-- text; the signal handlers; the failure to write the audit file; the buffer of stderr and the field
-- notes of a registry entry, which nothing reads; lower case beyond ASCII, and the order of UTF-16
-- beyond U+FFFF; the dashboard.
pub mod Prelude
pub mod Js
pub mod Codes
pub mod ToolSemantics
pub mod Audit
pub mod Constants
pub mod WalletAgent
pub mod Idempotency
pub mod PolicyCache
pub mod Keccak
pub mod Risk
pub mod Consent
pub mod Policy
pub mod Source
pub mod Redaction
pub mod Digest
pub mod Review
pub mod Forward
pub mod Coverage
pub mod Lifecycle
pub mod Proxy
pub mod SafeErrors
pub mod Rpc
pub mod Pipeline
pub mod Entrypoint
