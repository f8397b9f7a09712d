-- ===== src/Lib.antt =====
-- Verification of the Phala Cloud command line (cli/) and TypeScript SDK (js/).
--
-- The command line keeps a file of profiles, finds a command in a registry by its path, reads options and
-- environment files, and calls the API through the SDK. The SDK watches the state of a CVM over an event
-- stream, computes the hash of an app compose, executes transactions, names CVMs, checks
-- webhooks, builds the document that a machine is measured with and turns failed responses into errors.
--
-- Files and the code they are about (names are the source's, in snake case):
-- - Common: strings as lists of UTF-16 code units, JSON values, JavaScript objects and maps as
--   association lists in enumeration order, list lemmas.
-- - Credentials, Credentials/*: cli/src/utils/credentials.ts. `Disk` is what stands at the path of the
--   credentials file; each operation maps a disk to a disk or to the error it throws. Credentials/Auth is
--   resolveAuth, which reads that file, the environment and the flags. Credentials/Spec is the file seen as
--   a map from names to profiles with a current name, and what each operation may do to it.
-- - Cli/Options, Cli/Hoist, Cli/Registry: cli/src/core/flags.ts, common-flags.ts, utils.ts, parser.ts,
--   registry.ts. The registry is a value; a write to a node is a change at its path. Cli/Dispatch:
--   cli/src/core/dispatcher.ts, up to the run of a command.
-- - Client: js/src/client.ts.
-- - Conflict: cli/src/utils/retry.ts. Env: cli/src/utils/secrets.ts.
-- - Compose: js/src/utils/get_compose_hash.ts. Network: js/src/utils/network.ts, with the polling for a
--   receipt in rounds.
-- - Transaction: js/src/utils/transaction.ts. Transaction is the tracker of one transaction as a state
--   machine over the events of the wallet and the chain, one execution at a time; Transaction/Batch and
--   Transaction/Retry are the batch and the attempts with a growing delay.
-- - Names: js/src/utils/hostname.ts and js/src/types/cvm_id.ts.
-- - Deploy: cli/src/utils/env-parsing.ts and resolveEnvVars of cli/src/commands/deploy/handler.ts.
--   Deploy/Options: the checks of the options at the start of runDeploy in that file.
-- - Errors: js/src/utils/errors.ts. Webhook: js/src/utils/verify-webhook.ts. MrConfig:
--   js/src/utils/get_mr_config_id.ts: the document from loose inputs, MrConfig/Canonical its canonical
--   JSON, MrConfig/Id the identifiers of the three layouts and verifyMrConfigId.
-- - Watch: js/src/actions/cvms/watch_cvm_state.ts. Watch is processLine, Watch/Stream the reading of the
--   body, Watch/Retry the attempts.
--
-- Parameters: JSON.parse, SHA-256 and HMAC-SHA256, the functions of viem, the encoding of text, the
-- lower case of units that are not ASCII, random digits, the responses of the API and the chain, the
-- content of files, the look from which an abort signal is set, and which calls of onProgress and of the
-- callbacks of a transaction throw. The other callbacks and the listeners of error events are taken not
-- to throw. Each theorem holds for all of them; those on verifyMrConfigId ask of viem what
-- MrConfig/Id/Bytes lists as IsViem and IsHashing.
--
-- Fuel: watchCvmState runs on fuel, and its retries plus two are enough; polling for a receipt needs the
-- rounds up to the first at the timeout; retryOnConflict needs one round more than its retries. Each of
-- these is a theorem. All other functions are structurally recursive.
--
-- Not modelled: the times of day and the estimation of gas in js/src/utils/transaction.ts; the actions of
-- the SDK, which validate a request and send it (zod and ofetch do the work); the commands, which call
-- them and print, but for the parts of deploy named above; terminal output, help pages and shell
-- completion; file system access beyond the content of a file; the simulator, SSH and self-update, which
-- run other programs; the other SDKs (go/, python/).
pub mod Common
pub mod Watch
pub mod Cli
pub mod Client
pub mod Credentials
pub mod Conflict
pub mod Compose
pub mod Deploy
pub mod Env
pub mod Errors
pub mod MrConfig
pub mod Names
pub mod Network
pub mod Transaction
pub mod Webhook
