-- ===== src/Lib.antt =====
-- A model of the core of the gravity workspace (API/gravity/crates), a client for many providers
-- of chat models.
--
-- The parts. A chat request goes to `AsyncGravityClient::chat_over`, which tries a list of
-- accounts in order. On each account it opens a remote checkpoint where the provider needs one,
-- runs the tool loop, retries a transient rate limit after a delay, and goes on to the next
-- account for the errors that rotate. The list comes from the `AccountManager`, which selects and
-- orders the accounts of a provider and records their failures and successes. The tool loop runs
-- a batch of tool calls as concurrent tasks; for a provider without native tools it asks for one
-- JSON envelope in each round instead. The client keeps a map of conversations, and the persistent
-- ones in files. Providers read their answers as server-sent events or in a framing of their own:
-- Connect-RPC frames of protobuf fields for Cursor, objects without separators for Kiro, chunks
-- behind their length for Gemini.
--
-- Which file models which part, by the paths under API/gravity/crates:
--   * Client: chat_over, ctx, RetryPolicy and classify_failure of gravity-client/src/client.rs;
--     ChatCtx and the Provider trait of gravity-providers/src/context.rs and provider.rs.
--   * Client.Managed: chat_with_manager and, in Client.Managed.Entry, anon_fallback of client.rs,
--     over the account manager of the module Manager.
--   * Client.ToolLoop: run_afc of client.rs, with the scheduling of each batch as an argument.
--   * Client.Emulated: run_json_emulated of client.rs. Client.Emulated.Whole puts it into run_afc.
--   * Client.Histories: record_turn, history, start_persistent, conversation and the files of
--     load_conversation and save_conversation of client.rs.
--   * Client.Streams: chat_stream_over, discover_models_over, discover_models_with_manager and
--     chat_stream_chunks of client.rs.
--   * Afc: ToolRegistry and execute_tools_parallel of gravity-client/src/afc.rs.
--   * Manager: accounts_for, mark_success, mark_failure, update_auth, set_enabled and account_mut
--     of gravity-accounts/src/manager.rs.
--   * Metrics: gravity-accounts/src/metrics.rs.
--   * Core.Accounts, Core.Capabilities, Core.Conversation, Core.Error, Core.Message,
--     Core.ModelId, Core.Request, Core.Response, Core.Tool: the files of those names in
--     gravity-core/src. Core.Json: metadata.rs, over the constructors of serde_json values.
--   * Core.Stream, Core.Structured, Core.Emulation, Core.ModelInfo: stream.rs,
--     structured_output.rs, tool_emulation.rs and model_info.rs of gravity-core/src, over the
--     serializer Core.Serde.
--   * Util: gravity-providers/src/util.rs.
--   * Kiro: parser.rs, build.rs and the answers of provider.rs in gravity-providers/src/kiro.
--   * Gemini: gravity-providers/src/gemini/parser.rs.
--   * Claude: gravity-providers/src/claude/parser.rs.
--   * OpenaiCompat: wire.rs and provider.rs of gravity-providers/src/openai_compat, any OaiConfig.
--   * Anthropic: wire.rs and the stream of mod.rs in gravity-providers/src/anthropic;
--     Anthropic.Streamed describes the events of a stream.
--   * Http: client.rs and profile.rs of gravity-http/src, over the library wreq.
--   * Proto: gravity-providers/src/cursor/proto.rs.
--   * Sse: gravity-http/src/sse.rs.
--   * Base: what these share. A text is the list of its code points, bytes are numbers, a
--     machine integer is a natural number with its wrap-around written out.
--
-- State is passed explicitly. In Client, W is the state of all that the client calls: an
-- operation of a provider takes it and returns it with its result. A panic is a result of its
-- own: `Outcome.panic` in Proto, `none` in Afc. The account manager's methods take the reading of
-- the clock that they make; chrono's date type is the record Chrono, with its conversions to and
-- from milliseconds.
--
-- Fuel. The loop of chat_over on one account runs on one more unit than the policy's retries,
-- each repetition of the loop being one retry. `decode_fields` and `decode_frames` run on the
-- length of their input, each round taking one byte at least; so do, on the characters of their
-- texts, the loops of Kiro.Parser, Gemini.Frames, Gemini.Parts and Core.Structured. The tool loops
-- run on the rounds that the policy allows.
--
-- Left to parameters: the providers' servers, the handlers of the tools and the order in which
-- tokio ends their tasks, gunzip, chrono, serde_json, wreq, the files of the conversations and of
-- the metrics, the bytes of entropy. `chat_over` takes the tool loop `run_afc` as an argument, whatever it does, and
-- `run_afc` the JSON-emulated loop; `chat_with_manager` takes `run_afc`, `resolve_secret`, `save`
-- and `record_usage`. Not modelled: the key store, the language bindings, the server and the
-- command line, the request builders of the providers other than Kiro, Anthropic and the
-- OpenAI-compatible.
pub mod Base
pub mod Core
pub mod Proto
pub mod Sse
pub mod Http
pub mod Manager
pub mod Metrics
pub mod Afc
pub mod Util
pub mod Client
pub mod Kiro
pub mod Gemini
pub mod Claude
pub mod OpenaiCompat
pub mod Anthropic
