-- ===== src/UpstreamModel/Tests.antt =====
-- upstream-model.mjs: some ids, and the theorem at one of them.
use tokligence_gateway.Prelude.{
  ◌≡◌, refl, ◌++◌, Text, codes, lower_case, to_lower, strip_prefix, drop, text_eq, In, inl, inr,
}
use tokligence_gateway.UpstreamModel.{
  normalize_upstream_model, resolve_open_router_model, strip_folded, strip_first, openrouter_alias,
}
use tokligence_gateway.UpstreamModel.Laws.{namespaces, normalize_upstream_model_lem}

free_alias : normalize_upstream_model (codes "openrouter") (codes "Free") ≡ codes "openrouter/free"
unfolding normalize_upstream_model resolve_open_router_model strip_folded strip_first
    openrouter_alias lower_case to_lower strip_prefix drop text_eq
free_alias = refl

normalize_upstream_model_lem_example :
    ((prefix : Text)
      → In (codes "opencode-zen", prefix) namespaces
      → lower_case (codes "Zen/") ≡ prefix
      → normalize_upstream_model (codes "opencode-zen") (codes "Zen/" ++ codes "Kimi")
        ≡ codes "Kimi")
    × (((prefix : Text) → ¬ In (codes "opencode-zen", prefix) namespaces)
        → normalize_upstream_model (codes "opencode-zen") (codes "Kimi") ≡ codes "Kimi")
normalize_upstream_model_lem_example =
    normalize_upstream_model_lem (codes "opencode-zen") (codes "Zen/") (codes "Kimi")

kimi : normalize_upstream_model (codes "opencode-zen") (codes "Zen/Kimi") ≡ codes "Kimi"
unfolding lower_case to_lower
kimi = normalize_upstream_model_lem_example.0 (codes "zen/") (inr (inr (inr (inr (inl refl))))) refl
