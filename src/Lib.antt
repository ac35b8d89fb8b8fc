-- ===== src/Lib.antt =====
-- codex-preflight decides whether a command may run in a repository: it classifies the command,
-- scans the repository for findings, and asks a policy gate for ALLOW, WARN, ASK_USER or BLOCK.
-- This library models the parts below.
--
-- Command models codex_preflight_core/command: Command.Scope is scope.py; Command.Words the
-- tokenizer split_command_words of java.py and the shlex.join of
-- codex_preflight_cli/exec_wrapper.py; Command.Segments split_shell_segments of classifier.py,
-- with its one character of lookahead; Command.Java the Maven and Gradle command lines of
-- java.py; Command.Classifier classify_command, whose chain of tests stands in classify_words,
-- classify_tool, classify_build and classify_readonly. A text is a list of code points, lower
-- case is that of ASCII and white space is that of ASCII.
--
-- Scanner.Finding is the data of codex_preflight_core/scanner/finding.py. Policy models
-- codex_preflight_core/policy: Policy.Matrix is the table of matrix.py, Policy.Engine is
-- evaluate_policy of engine.py, Policy.Explanation is build_policy_explanation of explanation.py.
-- The engine walks a Python set of rule ids, in any order: evaluate_over has the order as an
-- argument. An index into an empty list is the error none in Policy.Explanation.
--
-- Mcp.MutationConfirmation models codex_preflight_mcp/trust_mutation_confirmation.py, the signed
-- one-time challenges of trust mutations: Manager holds what changes, issue,
-- authenticate_and_consume and invalidate_all are its operations in the order of its lock, and
-- Mcp.MutationConfirmation.Steps is a sequence of them. Clock readings are natural numbers; the
-- random draws are arguments; the signature, the encoding in base64, JSON and the digests are the
-- parameter Crypto.
--
-- Cache models codex_preflight_core/cache/trust_cache.py: Cache.TrustEntry is an entry and
-- _validate_entry, Cache.TrustCache the lookups and the protocol of a mutation (plan, prepare,
-- write, commit), Cache.TrustCache.Operations approve, approve_mcp, revoke_entry_id and
-- revoke_identity. A store is the list of entries that its reader has accepted; a write replaces
-- it whole or leaves it, and may raise after either, since the directory is written to disk
-- behind the replacement; the private storage may fail its check behind the write, which ends the
-- mutation like a failed commit; the hooks of a caller and the library that reads times, ids and
-- JSON are parameters. Reading the file and migrating old entries are not modelled.
-- Cache.ScanCache is the scan cache of codex_preflight_core/cache/scan_cache.py, over any report
-- with a decision.
--
-- Preflight models _dedupe_findings of codex_preflight_core/preflight.py, through which the
-- findings pass on their way to the gate; Preflight.Run is run_preflight, on what the scanners,
-- the trust store and the scan cache give it.
--
-- Mcp.Audit is codex_preflight_mcp/trust_mutation_audit.py: Record the records, Segments the
-- files, Chain verification and append, Protocol the mutation protocol (prepare_mutation,
-- commit_mutation, verify_and_recover). Its codes and digests, the reading of UUIDs and the
-- length of a line are parameters; the key never changes; a write of the key file, of one line or
-- of one rename is atomic; the capacity reserved before a rotation is input and output. The
-- recovery takes what other writers do between its two holds of the inner lock as a function.
--
-- Reachability is codex_preflight_core/reachability: Graph the execution graph of graph.py with
-- its budget of nodes, Uncertainty the reports of uncertainty.py, Files the following of scripts
-- in resolver.py. A depth is counted down from MAX_CHAIN_DEPTH, so the recursion is structural;
-- pathlib's answers on a target and the findings of the language scanners are a record that the
-- resolver takes. Parser is command_parser.py: Paths the tokens and paths, Interpreters what
-- shells, Python, Node and the Windows shells run, Parsed parse_reachable_command. Splitting by
-- shlex and str.split, the suffix of a path and str.isalnum are a record Lexing; the display
-- text, which nothing reads, is left out. _parse_tokens calls itself on the words behind env: the
-- number of nested calls that Python allows is an argument, and none is its RecursionError.
--
-- Mcp.RemoteConfirmation is codex_preflight_mcp/remote_confirmation.py, the challenges of remote
-- scans: issue_remote and consume_remote on the records, with what decoding and verifying a token
-- gives as an argument.
--
-- Mcp.TrustMutation is codex_preflight_mcp/trust_mutation.py, the service that composes the
-- challenges (Mcp.MutationConfirmation), the audit log (Mcp.Audit) and the trust store
-- (Cache.TrustCache), whose hooks carry the state of the service through a mutation. A method is
-- an action on the state of the service that returns or raises (Mcp.Action); what was changed
-- before an exception stays. Codes, Service, Request, Target, Bound, Confirm, Consume, Mutation,
-- Approve and Revoke are the code; Calls is a sequence of its calls. Parameters are the digests,
-- the text of an instant, the canonical form of the id of a challenge, the writing and reading of
-- a binding, and the readers of paths; every reading of a clock, of the repository and every
-- random draw is an argument of the call that meets it. The second reading of a target under the
-- lock of the store is a reading of its own. An argument that is missing is none: without a token
-- the code goes on from the issue to the confirmation, which an argument that is no text ends. A
-- mutation holds the lock throughout, so no other writer comes between its steps; a process that
-- stops in a mutation is modelled in Mcp.Audit.
--
-- Every loop is structural recursion, that of parse_tokens on the depth of calls that Python
-- allows. Not modelled: the rules, which are regular expressions over files; the collection of
-- files, git, clones and locks, which are input and output; the reports; the command line and the
-- request handling of the MCP server.
pub mod Base
pub mod Command
pub mod Scanner
pub mod Policy
pub mod Cache
pub mod Preflight
pub mod Reachability
pub mod Mcp
pub mod Tests
