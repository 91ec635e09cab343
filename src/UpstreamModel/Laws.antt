-- ===== src/UpstreamModel/Laws.antt =====
-- upstream-model.mjs: a namespace is cut off in any case, and nothing else changes.
use tokligence_gateway.Prelude.{
  ◌≡◌, refl, inl, inr, false, List, [], ◌∷◌, ◌++◌, none, some, arith, length, drop, Text, codes,
  text_eq, text_eq→eq, strip_prefix, strip_prefix-append, lower_case, ap, ◌∙◌, In, Bool-cases,
}
use tokligence_gateway.UpstreamModel.{
  strip_folded, strip_first, openrouter_prefixes, opencode_prefixes, resolve_open_router_model,
  resolve_mistral_model, resolve_open_code_model, normalize_upstream_model,
}

lower_case-append : (a b : Text) → lower_case (a ++ b) ≡ lower_case a ++ lower_case b
unfolding lower_case
lower_case-append [] b = refl
lower_case-append (c ∷ a) b = ground (arith, lower_case-append a b)

length-lower_case : (a : Text) → length (lower_case a) ≡ length a
unfolding lower_case
length-lower_case [] = refl
length-lower_case (c ∷ a) = ground (arith, length-lower_case a)

drop-append : (a b : Text) → drop (length a) (a ++ b) ≡ b
unfolding drop
drop-append [] b = refl
drop-append (c ∷ a) b = drop-append a b

-- A prefix in any case is cut off.
strip_folded-append :
    (prefix written rest : Text)
    → lower_case written ≡ prefix
    → strip_folded prefix (written ++ rest) ≡ some rest
unfolding strip_folded
strip_folded-append prefix written rest h =
    let lowered : lower_case (written ++ rest) ≡ prefix ++ lower_case rest =
      rw (lower_case-append written rest, h) in
    let found : strip_prefix prefix (lower_case (written ++ rest)) ≡ some (lower_case rest) =
      rw lowered (strip_prefix-append prefix (lower_case rest)) in
    let size : length prefix ≡ length written = rw (← h) (length-lower_case written) in
    ground (arith, drop-append written rest)

-- Another prefix does not fit it.
strip_folded-other :
    (prefix written rest : Text)
    → strip_prefix prefix (lower_case written ++ lower_case rest) ≡ none
    → strip_folded prefix (written ++ rest) ≡ none
unfolding strip_folded
strip_folded-other prefix written rest h = ground (arith, lower_case-append written rest)

module _ (written rest : Text) where
  openrouter-strip :
      (prefix : Text)
      → In prefix openrouter_prefixes
      → lower_case written ≡ prefix
      → resolve_open_router_model (written ++ rest) ≡ rest
  unfolding resolve_open_router_model strip_first strip_prefix
  openrouter-strip prefix (inl e) h =
      let here = strip_folded-append (codes "openrouter/") written rest (h ∙ e) in ground arith
  openrouter-strip prefix (inr (inl e)) h =
      let here = strip_folded-append (codes "or/") written rest (h ∙ e) in
      let not_first = strip_folded-other (codes "openrouter/") written rest (rw (h ∙ e)) in
      ground arith
  openrouter-strip prefix (inr (inr m)) h = absurd m

  opencode-strip :
      (prefix : Text)
      → In prefix opencode_prefixes
      → lower_case written ≡ prefix
      → resolve_open_code_model (written ++ rest) ≡ rest
  unfolding resolve_open_code_model strip_first strip_prefix
  opencode-strip prefix (inl e) h =
      let here = strip_folded-append (codes "opencode-go/") written rest (h ∙ e) in ground arith
  opencode-strip prefix (inr (inl e)) h =
      let here = strip_folded-append (codes "opencode-zen/") written rest (h ∙ e) in
      let a = strip_folded-other (codes "opencode-go/") written rest (rw (h ∙ e)) in ground arith
  opencode-strip prefix (inr (inr (inl e))) h =
      let here = strip_folded-append (codes "oc/") written rest (h ∙ e) in
      let a = strip_folded-other (codes "opencode-go/") written rest (rw (h ∙ e)) in
      let b = strip_folded-other (codes "opencode-zen/") written rest (rw (h ∙ e)) in ground arith
  opencode-strip prefix (inr (inr (inr (inl e)))) h =
      let here = strip_folded-append (codes "zen/") written rest (h ∙ e) in
      let a = strip_folded-other (codes "opencode-go/") written rest (rw (h ∙ e)) in
      let b = strip_folded-other (codes "opencode-zen/") written rest (rw (h ∙ e)) in
      let c = strip_folded-other (codes "oc/") written rest (rw (h ∙ e)) in ground arith
  opencode-strip prefix (inr (inr (inr (inr m)))) h = absurd m

  mistral-strip :
      lower_case written ≡ codes "mistral/" → resolve_mistral_model (written ++ rest) ≡ rest
  unfolding resolve_mistral_model strip_first
  mistral-strip h = let here = strip_folded-append (codes "mistral/") written rest h in ground arith

-- The gateway's namespaces: a provider and a prefix under which its models are addressed.
abbrev pub namespaces : List (Text × Text)
namespaces =
    (codes "openrouter", codes "openrouter/")
    ∷ (codes "openrouter", codes "or/")
    ∷ (codes "mistral", codes "mistral/")
    ∷ (codes "opencode-zen", codes "opencode-zen/")
    ∷ (codes "opencode-zen", codes "zen/")
    ∷ (codes "opencode-zen", codes "oc/")
    ∷ (codes "opencode-go", codes "opencode-go/")
    ∷ []

normalize-at :
    (provider prefix : Text) (written rest : Text)
    → In (provider, prefix) namespaces
    → lower_case written ≡ prefix
    → normalize_upstream_model provider (written ++ rest) ≡ rest
unfolding normalize_upstream_model text_eq
normalize-at provider prefix written rest (inl e) h =
    rw (ap (λ x. x.0) e) (openrouter-strip written rest prefix (inl (ap (λ x. x.1) e)) h)
normalize-at provider prefix written rest (inr (inl e)) h =
    rw (ap (λ x. x.0) e) (openrouter-strip written rest prefix (inr (inl (ap (λ x. x.1) e))) h)
normalize-at provider prefix written rest (inr (inr (inl e))) h =
    rw (ap (λ x. x.0) e) (mistral-strip written rest (h ∙ ap (λ x. x.1) e))
normalize-at provider prefix written rest (inr (inr (inr (inl e)))) h =
    rw (ap (λ x. x.0) e) (opencode-strip written rest prefix (inr (inl (ap (λ x. x.1) e))) h)
normalize-at provider prefix written rest (inr (inr (inr (inr (inl e))))) h =
    rw (ap (λ x. x.0) e)
      (opencode-strip written rest prefix (inr (inr (inr (inl (ap (λ x. x.1) e))))) h)
normalize-at provider prefix written rest (inr (inr (inr (inr (inr (inl e)))))) h =
    rw (ap (λ x. x.0) e) (opencode-strip written rest prefix (inr (inr (inl (ap (λ x. x.1) e)))) h)
normalize-at provider prefix written rest (inr (inr (inr (inr (inr (inr (inl e))))))) h =
    rw (ap (λ x. x.0) e) (opencode-strip written rest prefix (inl (ap (λ x. x.1) e)) h)
normalize-at provider prefix written rest (inr (inr (inr (inr (inr (inr (inr m))))))) h = absurd m

not_named :
    (provider n prefix : Text)
    → In (n, prefix) namespaces
    → ((p : Text) → ¬ In (provider, p) namespaces)
    → text_eq provider n ≡ false
not_named provider n prefix m none_of = elim (Bool-cases (text_eq provider n)) [
  | inl t ↦ absurd (none_of prefix (rw (text_eq→eq provider n t) m))
  | inr f ↦ f
]

normalize-other :
    (provider model : Text)
    → ((p : Text) → ¬ In (provider, p) namespaces)
    → normalize_upstream_model provider model ≡ model
unfolding normalize_upstream_model
normalize-other provider model h =
    let a = not_named provider (codes "openrouter") (codes "or/") (inr (inl refl)) h in
    let b = not_named provider (codes "mistral") (codes "mistral/") (inr (inr (inl refl))) h in
    let c =
      not_named provider (codes "opencode-zen") (codes "opencode-zen/") (inr (inr (inr (inl refl))))
        h in
    let d =
      not_named provider (codes "opencode-go") (codes "opencode-go/")
        (inr (inr (inr (inr (inr (inr (inl refl))))))) h in
    ground arith

-- An id under one of its provider's namespaces, written in any case, goes upstream without the
-- namespace and otherwise as it was written; the id of a provider without a namespace is kept.
pub normalize_upstream_model_lem :
    (provider written rest : Text)
    → ((prefix : Text)
        → In (provider, prefix) namespaces
        → lower_case written ≡ prefix
        → normalize_upstream_model provider (written ++ rest) ≡ rest)
      × (((prefix : Text) → ¬ In (provider, prefix) namespaces)
          → normalize_upstream_model provider rest ≡ rest)
normalize_upstream_model_lem provider written rest = (
  λ prefix m h. normalize-at provider prefix written rest m h,
  λ none_of. normalize-other provider rest none_of,
)
