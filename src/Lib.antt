-- ===== src/Lib.antt =====
-- Verification of the analytics SDK for MCP servers in armatureanalytics/.
--
-- The program records the tool calls of an MCP server. The framework adapters take the telemetry
-- block out of a call's arguments, the recorder builds events, the privacy queue finalizes them in
-- batches of its own goroutine, and the ingest client sends each batch. A stateless HTTP server
-- carries the client's identity in its session id.
--
-- Files, and the code they model:
--   Prelude      shared names, tests on numbers, lists of bytes for Go strings
--   KeySet       armatureanalytics/bounded_keys.go: boundedKeySet, Add, Delete. A panic is `none`.
--   Queue        armatureanalytics/queue.go: the parts of privacyQueue that run under its mutex
--   Queue/World  the goroutines of queue.go: a schedule is any list of atomic parts of enqueue, of
--                close and of the worker, so that every interleaving is a schedule
--   Json         the values that encoding/json decodes into `any`, and maps with string keys
--   Telemetry    armatureanalytics/tools.go: extractTelemetryFromArgs, NormalizeTelemetry, and in
--                Telemetry/FieldMap applyTelemetryFieldMap; firstTelemetry of recorder.go
--   Schema       armatureanalytics/tools.go: decorateToolSchema, injectTelemetryIntoRawSchema and the
--                registry of tools that own their telemetry field
--   Hints        armatureanalytics/tools.go: stripLegacyTelemetryHint and what it removes
--   Ingest       armatureanalytics/ingest.go: Send, ingestResponseCode, ingestBodyError
--   Session      armatureanalytics/stateless_http.go and request.go: buildStatelessSessionID,
--                ParseStatelessSessionClientInfo, slugSessionPart, randomUUID
--   Session/Resolve  ResolveStatelessHTTPSession and the functions that read its body
--   Handler      armatureanalytics/stateless_http_handler.go: WrapStatelessHTTPHandler and its
--                response writer. The wrapped handler is a list of writer calls for each id.
--   Secrets      armatureanalytics/secrets.go: RedactSecretsInValue on decoded JSON
--   Client       armatureanalytics/event.go: ClientInfo
--   Event        armatureanalytics/event.go: Event, ActorID, EventID, stringifyPreview
--   Event/Prepare  what is taken of a tool call, sanitized and redacted: prepareToolCallCandidate and
--                the functions it calls; Telemetry.UnmarshalJSON of tools.go
--   Event/Build  BuildActorIdentityEvent, BuildSessionInitEvent, BuildToolCallEvent,
--                FinalizeToolCallEvent. A hook that panics or fails is a value.
--   Truncate     armatureanalytics/event.go: truncateUTF8
--   Sanitize     armatureanalytics/sanitize.go: SanitizeValue on decoded JSON. Maps are put into the order
--                of their keys first.
--   Recorder     armatureanalytics/recorder.go: buildToolCallEvents, the work of RecordSessionInit and
--                what the recorder remembers for them; Recorder/Settings has the settings
--   Recorder/Hooks  what onBeforeAny takes of a call, and the inputs of onSuccess, onError and
--                onAbandonedCall
--   Recorder/Connections  onAfterInitialize, onUnregisterSession and clientInfoFor
--   Lifecycle    recorder.go: the pending calls, the reservations, the in-flight counter and close. A
--                schedule is any list of hook calls and of atomic parts of goroutines in hooks
--                and in Close.
--   Feedback     armatureanalytics/send_feedback.go: the handler, its registration, and the marker that
--                consumeCapabilityResult of recorder.go takes off
--   Official     armatureanalytics/official/official.go: analyticsSessionID
--   Official/Modern  armatureanalytics/official/modern_protocol.go: baggage, isModernRequest, the client
--                of a stateless request
--   Official/Capability  official/official.go and official/send_feedback.go: capabilityCallState, the
--                feedback handler and the middleware around it
--   Official/Arguments  official/official.go: parseArguments, decodeRawArguments, stripTelemetryValue
--   Official/Sessions  official/official.go: sessionKey, rememberSession, forgetSessionWhenClosed,
--                clientInfo, recordModernSessionInit
--   Version      armatureanalytics/version.go: detectSDKVersion and what it is put into
--   Tests        runs at small inputs
--
-- The modules below a file hold its proofs. Parameters stand for encoding/json, SHA-256, times, the
-- HTTP client, the context, crypto/rand, regular expressions, url.PathUnescape, wrapped handlers, the
-- callbacks of a customer, the order in which a map is iterated and the finalizers of queue items; the
-- random bytes are below 256, HTTP statuses have three digits, hashes have one length and an iteration
-- begins with a key of its map where a theorem says so.
--
-- A call goes through the parts in this order: Recorder/Hooks takes its arguments and telemetry and
-- Lifecycle keeps it pending until it ends, then Queue runs the work whose events Recorder builds with
-- Event, and Ingest sends them.
--
-- Bounds and fuel: the queue holds 1000 items and hands out 20 at a time, `Send` makes two attempts
-- and the key set has the bound it is made with, 10000 for the recorder. Stripping hints runs on fuel,
-- a pass for each byte of the description and one more; each pass that goes on shortens it. Digits of a
-- status are printed on fuel, a digit for each unit and one more. All else is structural.
--
-- Not modelled: the sanitizing and redaction of Go structs, cycles and values with a JSON form of their
-- own; recordInitialize and the rest of the instrumentation of typed tools of the adapter for the
-- official SDK; the registry of servers by weak pointers; the constructors of servers, which only call
-- the framework; the panics of a sync.WaitGroup whose Add races with the Wait of Flush; NewClient and
-- the headers of its requests; logging, texts of errors, examples, canaries and tests.
pub mod Prelude
pub mod KeySet
pub mod Queue
pub mod Json
pub mod Client
pub mod Telemetry
pub mod Schema
pub mod Hints
pub mod Ingest
pub mod Session
pub mod Handler
pub mod Secrets
pub mod Truncate
pub mod Sanitize
pub mod Event
pub mod Recorder
pub mod Lifecycle
pub mod Feedback
pub mod Official
pub mod Version
pub mod Tests
