-- ===== src/Routes.antt =====
-- route-config.mjs: the routing policy after it has been parsed, and the questions that the router
-- asks it. Parsing and validating the YAML file is not modelled. The environment and the readable
-- credential files are parameters.
pub mod Wildcard
mod Tests
use tokligence_gateway.Prelude.{
  ℕ, Bool, true, false, not, ◌&&◌, ◌||◌, List, [], ◌∷◌, Option, none, some, find, keep, any, map,
  Text, codes, text_eq, truthy, or_else, strip_prefix, lower_case, if◌then◌else◌, sort_by, length,
  ◌++◌, ◌==◌,
}
use tokligence_gateway.Protocols.{Protocol, chat_completions}
use tokligence_gateway.AccountPool.Config.{RawAccount, RawKey}
use Wildcard.{matches_wildcard, specificity}

-- The adapters that the router tells apart.
pub data Adapter : Type 0 where
  middleware openai_compatible cline_oauth opencode_native opencode_zen chatgpt_responses
        oauth_proxy agy_native cliproxyapi other_adapter :
      Adapter

pub data CostClass : Type 0 where
  free subscription payg other_class : CostClass

pub record Model : Type 0 where
  pub id : Text
  pub context_window : Option ℕ
  pub family : Option Text
  -- `parallel_tools` and `upstream_capabilities`, where they are Booleans
  pub parallel_tools : Option Bool
  pub tools : Option Bool
  pub vision : Option Bool
  pub reasoning : Option Bool
  pub structured_output : Option Bool

pub record Provider : Type 0 where
  pub id : Text
  pub adapter : Adapter
  pub is_default : Bool
  pub enabled_env : Option Text
  pub api_key_env : Option Text
  pub internal_api_key_env : Text
  pub credential_file : Option Text
  pub credential_file_env : Option Text
  pub pool_accounts : List RawAccount
  pub pool_keys : List RawKey
  -- empty if none are declared
  pub protocols : List Protocol
  -- `messages_translation === false`
  pub no_translation : Bool
  pub models : List Model
  pub discover_free_only : Bool
  -- of `metadata`: the capabilities, `streaming === false`, and the rest
  pub tool_calling : Bool
  pub can_reason : Bool
  pub can_see : Bool
  pub no_streaming : Bool
  pub parallel_tools : Bool
  pub structured_output : Bool
  pub context_window : Option ℕ
  pub cost_class : Option CostClass
  pub family : Option Text

pub record Reference : Type 0 where
  pub provider : Text
  pub model : Text
  pub family : Option Text
  pub context_window : Option ℕ
  -- `parallel_tools` and `upstream_capabilities`, where they are Booleans
  pub parallel_tools : Option Bool
  pub tools : Option Bool
  pub vision : Option Bool
  pub reasoning : Option Bool
  pub structured_output : Option Bool

pub record Profile : Type 0 where
  pub id : Text
  pub candidates : List Reference
  pub max_attempts : ℕ
  pub context_window : Option ℕ

pub record Role : Type 0 where
  pub id : Text
  pub candidates : List Reference
  pub max_attempts : ℕ
  pub fallback : Text
  pub specialist : Bool
  pub avoid_recent_families : Bool

pub record Route : Type 0 where
  pub provider : Text
  pub prefixes : List Text

pub record Alias : Type 0 where
  pub id : Text
  pub patterns : List Text
  pub provider : Option Text
  pub target : Text
  pub fallback : Option Text

pub record ClassRouting : Type 0 where
  pub enabled : Bool
  pub cheap_provider : Text
  pub cheap_model : Text

pub record Config : Type 0 where
  pub providers : List Provider
  pub routes : List Route
  pub profiles : List Profile
  pub roles : List Role
  pub aliases : List Alias
  -- `none` where there is no cheap model
  pub class_routing : Option ClassRouting
  -- the ids of `model_catalog.models`
  pub canonical_models : List Text

unfoldable pub provider_by_id : Config → Text → Option Provider
provider_by_id config id = find (λ p. text_eq p.id id) config.providers

unfoldable pub profile_by_model : Config → Text → Option Profile
profile_by_model config [] = none
profile_by_model config (c ∷ t) =
    find (λ p. text_eq (lower_case p.id) (lower_case (c ∷ t))) config.profiles

unfoldable pub role_by_model : Config → Text → Option Role
role_by_model config [] = none
role_by_model config (c ∷ t) =
    find (λ r. text_eq (lower_case r.id) (lower_case (c ∷ t))) config.roles

abbrev is_agy_native : Adapter → Bool
is_agy_native agy_native = true
is_agy_native _ = false

unfoldable pub starts_with : Text → Text → Bool
starts_with prefix t = elim (strip_prefix prefix t) [ none ↦ false | some rest ↦ true ]

unfoldable pub match_route : List Route → Text → Option Text
match_route [] lower = none
match_route (r ∷ rs) lower =
    if any (λ prefix. starts_with (lower_case prefix) lower) r.prefixes
    then some r.provider
    else match_route rs lower

unfoldable pub default_provider : Config → Option Text
default_provider config = elim (find (λ p. p.is_default) config.providers) [
  | none ↦ none
  | some p ↦ truthy (some p.id)
]

unfoldable pub match_configured_provider : Config → Text → Option Text
unfolding match_route default_provider
match_configured_provider config [] = none
match_configured_provider config (c ∷ t) =
    let lower = lower_case (c ∷ t) in
    if starts_with (codes "agy-native/") lower
    then elim (provider_by_id config (codes "agy-native")) [
      | none ↦ none
      | some p ↦ if is_agy_native p.adapter then some (codes "agy-native") else none
    ]
    else elim (match_route config.routes lower) [ some p ↦ some p | none ↦ default_provider config ]

module _ (env : Text → Option Text) (has_access : Text → Bool) where
  -- `Boolean(env[name])` and `env[name] === "true"`
  abbrev is_set : Text → Bool
  is_set name = elim (truthy (env name)) [ none ↦ false | some v ↦ true ]

  abbrev says_true : Text → Bool
  says_true name = elim (env name) [ none ↦ false | some v ↦ text_eq v (codes "true") ]

  unfoldable pub env_enabled : Provider → Bool
  env_enabled p = elim (truthy p.enabled_env) [
    | none ↦ true
    | some name ↦ elim (env name) [ none ↦ false | some v ↦ text_eq (lower_case v) (codes "true") ]
  ]

  -- `(ref && env[ref]) || …`
  abbrev env_of : Option Text → Option Text
  env_of ref = elim (truthy ref) [ none ↦ none | some name ↦ env name ]

  abbrev readable : Option Text → Bool
  readable file = elim (truthy file) [ none ↦ false | some f ↦ has_access f ]

  -- The credential file of one account of the pool
  account_file : Provider → RawAccount → Option Text
  account_file p a =
      let inherited : Option Text = elim (truthy a.credential_file) [
        | none ↦ p.credential_file_env
        | some f ↦ none
      ] in
      or_else (env_of (or_else a.credential_file_env inherited))
        (or_else a.credential_file p.credential_file)

  single_file : Provider → Option Text
  single_file p =
      or_else (env_of p.credential_file_env)
        (or_else p.credential_file (env (codes "OPENCODE_ZEN_CREDENTIAL_FILE")))

  any_account : Provider → List RawAccount → Bool
  any_account p [] = readable (single_file p)
  any_account p (a ∷ rest) = any (λ x. readable (account_file p x)) (a ∷ rest)

  unfoldable pub zen_enabled : Provider → Bool
  unfolding account_file single_file any_account
  zen_enabled p = any (λ k. is_set k.env) p.pool_keys || any_account p p.pool_accounts

  abbrev key_or : Option Text → Bool → Bool
  key_or key otherwise = elim (truthy key) [ none ↦ otherwise | some name ↦ is_set name ]

  adapter_enabled : Provider → Adapter → Bool
  adapter_enabled p opencode_native =
      says_true (codes "OPENCODE_NATIVE_ENABLED")
      && is_set (codes "OPENCODE_NATIVE_URL")
      && is_set (codes "OPENCODE_NATIVE_KEY")
  adapter_enabled p agy_native =
      says_true (codes "AGY_NATIVE_ENABLED")
      && is_set (codes "AGY_NATIVE_URL")
      && is_set (codes "AGY_NATIVE_KEY")
      && is_set (codes "AGY_NATIVE_MODELS")
  adapter_enabled p chatgpt_responses =
      says_true (codes "CHATGPT_RESPONSES_ENABLED")
      && is_set (codes "CHATGPT_SERVICE_URL")
      && is_set (codes "CHATGPT_SERVICE_TOKEN")
  adapter_enabled p opencode_zen = zen_enabled p
  adapter_enabled p oauth_proxy = key_or p.api_key_env (is_set p.internal_api_key_env)
  adapter_enabled p _ = key_or p.api_key_env true

  unfoldable pub provider_enabled : Provider → Bool
  unfolding adapter_enabled
  provider_enabled p = if env_enabled p then adapter_enabled p p.adapter else false

  unfoldable pub enabled_providers : Config → List Provider
  enabled_providers config = keep provider_enabled config.providers

  -- The patterns of all aliases, each with its alias, in order
  abbrev pub patterns_of : Alias → List Text → List (Alias × Text)
  patterns_of a [] = []
  patterns_of a (p ∷ ps) = (a, p) ∷ patterns_of a ps

  unfoldable pub all_patterns : List Alias → List (Alias × Text)
  all_patterns [] = []
  all_patterns (a ∷ rest) = patterns_of a a.patterns ++ all_patterns rest

  -- The alias whose matching pattern is the most specific, the first of those that are equally so
  unfoldable pub best_alias : Config → Text → List (Alias × Text)
  unfolding all_patterns
  best_alias config model =
      sort_by (λ x. specificity x.1)
        (keep (λ x. matches_wildcard x.1 (lower_case model)) (all_patterns config.aliases))

  abbrev pub alias_or : Option Text → Text → Text
  alias_or none model = model
  alias_or (some t) model = t

  unfoldable pub follow_alias : Config → Text → List (Alias × Text) → Text
  follow_alias config model [] = model
  follow_alias config model ((a, pattern) ∷ rest) = elim (truthy a.provider) [
    | none ↦ a.target
    | some id ↦ elim (provider_by_id config id) [
      | none ↦ alias_or (truthy a.fallback) model
      | some p ↦ if provider_enabled p then a.target else alias_or (truthy a.fallback) model
    ]
  ]

  unfoldable pub resolve_configured_alias : Config → Text → Text
  unfolding follow_alias
  resolve_configured_alias config [] = []
  resolve_configured_alias config (c ∷ t) = follow_alias config (c ∷ t) (best_alias config (c ∷ t))
