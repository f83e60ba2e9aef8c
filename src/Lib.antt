-- ===== src/Lib.antt =====
-- Verification of the SUPERION backend (backend/src): the assistant that guides a technician through
-- a maintenance procedure, logs what happens and controls who may do it.
--
-- The parts of the program and their modules:
--
--   Prelude, Dict, Effect, Value   lists, numbers and tests; Python's dict; methods that change a
--         state and return or raise, with rules for what they ensure; JSON values
--   Domain      domain/entities and domain/value_objects: sessions, work orders, procedure
--         templates, events, photos, users
--   Events      the log of each session. Events.Store is
--         infrastructure/persistence/in_memory/session_event_repository.py; Events.Append is
--         application/use_cases/events/append.py (`execute`, `emit_system_event`); Events.Post is
--         application/use_cases/events/post.py, which dispatches a request on its type
--   World       the stores that the use cases share, identifiers, the clock and the event bus
--   Sessions    application/use_cases/work_orders/start_session.py (Sessions.Start),
--         application/use_cases/sessions/pause.py and resume.py (Sessions.Pause) and
--         transition_step.py (Sessions.Transition, Sessions.Current), on the repositories of
--         Sessions.Repository; sessions/get.py and events/list_since.py (Sessions.Reading)
--   Audit       application/decorators/audit.py, application/use_cases/audit/log.py and
--         infrastructure/persistence/in_memory/audit_log_repository.py
--   Security    application/use_cases/auth, domain/services/token_service.py and the token blacklist
--         (Security.Auth, Security.Tokens, Security.Blacklist);
--         infrastructure/security/rate_limiter.py (Security.RateLimiter) and signature.py
--         (Security.Signature)
--   Photos      application/use_cases/photos (Photos.Upload, Photos.Validate), on
--         infrastructure/persistence/in_memory/photo_repository.py and
--         application/services/photo_validation.py (Photos)
--   Manuals     application/use_cases/manuals: upload.py, archive.py and reindex.py
--         (Manuals.Lifecycle) and the background task of index.py, in its two steps (Manuals.Index);
--         the in-memory repositories of manuals and chunks (Manuals.Repository), and
--         infrastructure/services/chunker.py (Manuals.Chunker)
--   Reports     application/use_cases/reports: the builder (Reports.Builder, Reports.Diff), the live
--         report that listens on the bus (Reports.Live), the finalization of a session
--         (Reports.Finalize) and the readers of a report and of its PDF (Reports.Read)
--   Voice       application/use_cases/voice: the tools (Voice.Tools, Voice.Query), execute_tool.py
--         (Voice.Dispatch), classify_and_route.py (Voice.Route) and handle_webhook.py (Voice.Webhook)
--   Http        interface/http/exception_handlers.py (Http.Errors), with the catalogue of errors of
--         integration_contracts.md (Http.Statuses)
--   Tests       a small plant, and the theorems at concrete requests
--
-- All paths are under backend/src, from the repository's root. A use case is an action on the `World`:
-- it takes the state, and gives a result or an error with the state behind it; what was written before
-- an error stays. A method of a repository holds its lock from its first line to its last, so it is
-- one step. The domain errors keep their class and their code.
--
-- How the parts interact: every use case of a session appends to its log through Events.Append, which
-- publishes each event on the bus. The live report is a handler on that bus: Reports.Live.Bus puts it
-- on a bus below, and has the result that this is again a bus as the use cases take it. The background
-- task of a manual is two steps, between which other operations run (Manuals.Versions). The voice
-- tools call the use cases of sessions.
--
-- Parameters: the event bus (its handlers may raise, and write to no repository but that of the
-- reports; theorems that need a bus whose handlers never raise say so, and the live report is not such
-- a handler), the JWT library, the password hasher, the photo validator, the PDF renderer, the
-- extractor of PDF pages, the embedding service, the classifier of intents, the regular expression for
-- measurements, the HMAC, the check and the parser of a webhook's body, the signing of URLs, and of
-- Python: `str`, `int` and `float` of values, `strip`, `split` and `lower`, the decoding of UTF-8, its
-- equality of JSON values and its test for white space. The search behind the question tool of the
-- assistant (Voice.Query.Retrieval) is a function of the state. The calls of `uuid4` and of the clock
-- read sequences that the world holds.
--
-- Bounds: the loop of the chunker runs on fuel, one turn for each character of the page, and the
-- theorem on it shows that this is enough. All other loops are structural.
--
-- Times are natural numbers (seconds where they are added), and so are step indices: POST /events
-- refuses a negative one, and so does the constructor of a photo.
--
-- Not modelled: HTTP routers, WebSocket and CLI glue, the Supabase and Redis adapters, the clients of
-- external services, configuration and metrics; and of the core, for now, the retrieval (whose scores
-- are floating-point numbers), the use cases that only list or read, and the connection of a voice session.
pub mod Prelude
pub mod Dict
pub mod Effect
pub mod Value
pub mod Domain
pub mod Events
pub mod World
pub mod Audit
pub mod Sessions
pub mod Security
pub mod Photos
pub mod Manuals
pub mod Reports
pub mod Voice
pub mod Http
pub mod Tests
