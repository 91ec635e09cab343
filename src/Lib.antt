-- ===== src/Lib.antt =====
-- A verification library for the routing core of the Tokligence gateway, a proxy in front of many
-- model providers: it takes a request in one of three protocols, decides which backends may serve
-- it, and tries them in turn.
--
-- The parts, and how they interact. A request names a model. The planner (routing-planner.mjs)
-- looks the name up in the routing policy (route-config.mjs), collects the lanes that are enabled,
-- have the features that the request asks for (protocol-codecs.mjs) and are not cooling down, and
-- orders them by cost, quota and the session's own history. The result is a plan, which the
-- executor works off. Model ids are rewritten for the provider (upstream-model.mjs). One provider,
-- OpenCode Zen, has a pool of accounts (opencode-account-pool.mjs), of which one is selected for
-- each attempt, and serves only models that a discovery has found to be free
-- (opencode-free-models.mjs); planner and pool ask that discovery.
--
-- Where what is modelled:
--   Prelude        texts as lists of codes, JavaScript's Map in insertion order, stable sorting,
--                  filters and searches on lists, Boolean tests on native numbers
--   UpstreamModel  upstream-model.mjs: normalizeUpstreamModel and the three resolvers
--   Protocols      protocol-codecs.mjs: protocolForPath, inspectRequestFeatures, supportsFeatures
--   FreeModels     opencode-free-models.mjs: Costs has freeOpenCodeModels with its price checks; the
--                  parent has the snapshot and discoverOpenCodeFreeModels, whose wait for the two
--                  catalogs splits it into launch and complete; Listing and Freshness have the proofs
--   AccountPool    opencode-account-pool.mjs: the pool's state with select, markSuccess, markFailure,
--                  markSessionFailure, diagnostic; Config makes the accounts of the configuration;
--                  Selection, Cooldown, Affinity, Diagnostic and Reach have the proofs
--   Routes         route-config.mjs: the parsed policy as records, providerById, profileByModel,
--                  roleByModel, matchConfiguredProvider, providerEnabled, enabledProviders,
--                  resolveConfiguredAlias; Wildcard has the patterns
--   Preferences    preferences.mjs: RoutingPreferences with set, clear, reset, _load, _persist and
--                  resolve; Bake has bakeToRoutes; Saved, Restart and Baked have the proofs
--   Planner        routing-planner.mjs: the parent has candidateSupports, translationFor and the tests
--                  on one lane; Ordering has reorderByQuota and reorderByAffinity; Candidates has the
--                  loops over references and cheapClassCandidate; Profile, Role, Direct and Build are
--                  the branches of buildRoutePlan and its head; the other children have the proofs
--   Executor       request-executor.mjs: the parent has the answers, the errors and the cooldowns;
--                  History has recordModelFamily, Attempts the loop over the accounts, Failover the
--                  rest of executeRoutePlan; Order and Resting have the proofs
--   Messages       anthropic-openai-codec.mjs: requests as JSON values; Validate has
--                  validateNativeAnthropicRequest, Translate the messages of anthropicToOpenAI, Request
--                  the rest of what it sends; Kept reads what a request says before and after
--   QuotaCache     quota-cache.mjs: Values has what is read of a provider and how it ages, Cache
--                  createQuotaCache as a state machine over calls and the ends of probes; Served and
--                  Probes have the proofs
--   Streams        anthropic-openai-codec.mjs: Reader has createSseChunkReader; Frames what is read of a
--                  stream and the events that are sent; Codec createAnthropicStreamCodec, with the
--                  loop of respondWithCodec (request-executor.mjs); Collect collectAnthropicStream;
--                  Reply openaiToAnthropicMessage; Preflight preflightOpenCodeStream
--                  (request-executor.mjs). Codec.Grammar describes the order of events of a message
--                  as an automaton, Collect.Whole what it says
--
-- How the model corresponds to the code. Mutable state is passed: an operation of the pool takes the
-- pool and returns the new one, and a plan comes with the runtime state that it leaves. An object
-- that may be undefined is an Option. What throws is an outcome of its own. Times are milliseconds
-- in the native numbers. Percentages of quotas are in thousandths, and so are the scores. The
-- environment, the readable credential files and the discovery state are functions and fields of
-- a World, which is a parameter. An explicitly empty list of protocols is read as one that is left
-- out. Texts fold to lower case in the ASCII range. A hint to retry after is in whole milliseconds.
-- Numbers in price texts that round to zero although they have a digit that is not zero are not
-- taken for zero.
--
-- The files of preferences are the documents that the YAML library reads from them: that it reads
-- back the document it has printed is taken for granted.
--
-- A request in the Anthropic protocol is a JSON value, of which a number is read only for being zero;
-- a stream is what JSON.parse reads of its payloads: the fields that the code looks at. The parser
-- of the preflight is a parameter, and the codec takes the frames as data. Its events are data too,
-- without the id and the model of the message; the input of a tool is the JSON text. A pushed chunk
-- returns events, returns nothing, which its callers cannot read and throw, or throws itself, and a
-- stream is sent to its end or up to a fault.
--
-- What the services do for the executor is a script: for each candidate and each attempt the answer
-- or the error. Its calls of the pool are listed in the order in which they are made.
--
-- Fuel. buildRoutePlan has fuel: it counts the roles that are followed to their fallbacks. The policy
-- lets a role fall back only to a profile, so two steps are enough; Evaluation says without fuel what
-- planning comes to. The reader of a stream has as
-- much as its buffer is long: each line that it takes has at least the line feed.
--
-- Not modelled: HTTP, files, clocks and timers; the parsing of the policy file; the
-- adapters; the readings of quotas, observers, the catalog's construction and the
-- OAuth flows; the native bridge, the plugins and the staged proxy, which are other programs.
pub mod Prelude
pub mod UpstreamModel
pub mod Protocols
pub mod FreeModels
pub mod AccountPool
pub mod Routes
pub mod Planner
pub mod Preferences
pub mod Executor
pub mod Streams
pub mod Messages
pub mod QuotaCache
