-- ===== src/AccountPool/Config.antt =====
-- opencode-account-pool.mjs: the accounts of a pool, from the provider's configuration, and the
-- checks on them. The environment and the canonical path of a file are parameters.
use tokligence_gateway.Prelude.{
  ℕ, ◌+◌, ◌≤◌, ◌≡◌, refl, ◌≢◌, ◌↔◌, inl, inr, Bool, true, false, List, [], ◌∷◌, ◌++◌, map, Option,
  none, some, arith, length, ltb, Text, codes, decimal, truthy, or_else, if_nullish, includes,
  text_eq, text_eq_refl, text_eq→eq, All, All-map, if◌then◌else◌, Bool-cases, Option-cases,
}
use tokligence_gateway.AccountPool.{Account}

abbrev pub max_accounts : ℕ
max_accounts = 32

pub record RawAccount : Type 0 where
  pub id : Option Text
  pub credential_file : Option Text
  pub credential_file_env : Option Text
  pub token_url : Option Text
  pub client_id : Option Text
  pub refresh_skew_ms : Option ℕ
  pub discover_free_models : Bool
  pub chat_models : List Text
  pub systemone_models : List Text

pub record RawKey : Type 0 where
  pub id : Text
  pub env : Text
  pub systemone_models : List Text

pub record PoolProvider : Type 0 where
  pub credential_file : Option Text
  pub credential_file_env : Option Text
  pub token_url : Option Text
  pub client_id : Option Text
  pub refresh_skew_ms : Option ℕ
  pub models : List Text
  pub accounts : List RawAccount
  pub api_keys : List RawKey

-- The account of a provider that configures no pool
abbrev legacy : PoolProvider → RawAccount
legacy provider = record {
  id = some (codes "legacy-oauth");
  credential_file = provider.credential_file;
  credential_file_env = provider.credential_file_env;
  token_url = none;
  client_id = none;
  refresh_skew_ms = none;
  discover_free_models = false;
  chat_models = provider.models;
  systemone_models = codes "jev-1.13-free" ∷ [];
}

raw_accounts : PoolProvider → List RawAccount
raw_accounts provider = legacy_unless provider.accounts provider.api_keys
  where
    legacy_unless : List RawAccount → List RawKey → List RawAccount
    legacy_unless [] [] = legacy provider ∷ []
    legacy_unless configured keys = configured

abbrev id_or : Option Text → Text → Text
id_or none d = d
id_or (some t) d = t

-- `account.credential_file ? null : provider.credential_file_env`
abbrev inherited_env : PoolProvider → RawAccount → Option Text
inherited_env provider a = elim (truthy a.credential_file) [
  | none ↦ provider.credential_file_env
  | some file ↦ none
]

with_defaults : PoolProvider → ℕ → List RawAccount → List Account
with_defaults provider index [] = []
with_defaults provider index (a ∷ rest) =
    record {
      id = id_or (truthy a.id) (codes "oauth-" ++ decimal (index + 1));
      credential_file = if_nullish a.credential_file provider.credential_file;
      credential_file_env = if_nullish a.credential_file_env (inherited_env provider a);
      token_url = or_else a.token_url provider.token_url;
      client_id = or_else a.client_id provider.client_id;
      refresh_skew_ms = if_nullish a.refresh_skew_ms provider.refresh_skew_ms;
      api_key = false;
      api_key_env = [];
      discover_free_models = a.discover_free_models;
      chat_models = a.chat_models;
      systemone_models = a.systemone_models;
    }
    ∷ with_defaults provider (index + 1) rest

key_account : RawKey → Account
key_account k = record {
  id = k.id;
  credential_file = none;
  credential_file_env = none;
  token_url = none;
  client_id = none;
  refresh_skew_ms = none;
  api_key = true;
  api_key_env = k.env;
  discover_free_models = false;
  chat_models = [];
  systemone_models = k.systemone_models;
}

unfoldable pub configured_accounts : PoolProvider → List Account
unfolding raw_accounts with_defaults key_account
configured_accounts provider =
    with_defaults provider 0 (raw_accounts provider) ++ map key_account provider.api_keys

pub data Outcome : Type 0 where
  accepted : List Account → Outcome
  too_many_accounts shared_credential_file : Outcome

module _ (env : Text → Option Text) (canonical : Text → Text) where
  -- `(account.credential_file_env && env[account.credential_file_env]) || account.credential_file`
  unfoldable pub credential_path : Account → Option Text
  credential_path a = elim (truthy a.credential_file_env) [
    | none ↦ a.credential_file
    | some name ↦ or_else (env name) a.credential_file
  ]

  -- The file that an OAuth account is checked by; an API key, and an empty path, are passed over.
  unfoldable pub oauth_file : Account → Option Text
  unfolding credential_path
  oauth_file a =
      if a.api_key
      then none
      else elim (truthy (credential_path a)) [ none ↦ none | some file ↦ some (canonical file) ]

  -- The loop over the accounts with the set of the files that it has met.
  unfoldable pub distinct_files : List Account → List Text → Bool
  distinct_files [] met = true
  distinct_files (a ∷ rest) met = elim (oauth_file a) [
    | none ↦ distinct_files rest met
    | some file ↦ if includes met file then false else distinct_files rest (file ∷ met)
  ]

  -- The accounts that createOpenCodeAccountPool works with, or the error that it throws.
  unfoldable pub configure : PoolProvider → Outcome
  configure provider =
      if ltb max_accounts (length (configured_accounts provider))
      then too_many_accounts
      else if distinct_files (configured_accounts provider) []
      then accepted (configured_accounts provider)
      else shared_credential_file

  -- The two accounts are not kept in one credential file.
  abbrev pub Apart : Account → Account → Type 0
  Apart a b = (file : Text) → oauth_file a ≡ some file → oauth_file b ≢ some file

  abbrev pub PairwiseApart : List Account → Type 0
  PairwiseApart [] = Unit
  PairwiseApart (a ∷ rest) = All (Apart a) rest × PairwiseApart rest

  abbrev Unmet : List Text → Account → Type 0
  Unmet met b = (file : Text) → oauth_file b ≡ some file → includes met file ≡ false

  Unmet-cons :
      (file : Text) (met : List Text) (a b : Account)
      → oauth_file a ≡ some file
      → Unmet (file ∷ met) b
      → Apart a b × Unmet met b
  unfolding includes
  Unmet-cons file met a b here u =
      (λ f e e'. ground (arith, u f e', text_eq_refl f), λ f e. ground (arith, u f e))

  cons-Unmet :
      (file : Text) (met : List Text) (a b : Account)
      → oauth_file a ≡ some file
      → Apart a b
      → Unmet met b
      → Unmet (file ∷ met) b
  unfolding includes
  cons-Unmet file met a b here apart u f e = elim (Bool-cases (text_eq file f)) [
    | inl same ↦ absurd (apart f (rw (← text_eq→eq file f same) here) e)
    | inr other ↦ rw other (u f e)
  ]

  All-cons-Unmet :
      (file : Text) (met : List Text) (a : Account)
      → oauth_file a ≡ some file
      → (xs : List Account) → All (Apart a) xs
      → All (Unmet met) xs
      → All (Unmet (file ∷ met)) xs
  All-cons-Unmet file met a here [] x y = tt
  All-cons-Unmet file met a here (b ∷ bs) x y =
      (cons-Unmet file met a b here x.0 y.0, All-cons-Unmet file met a here bs x.1 y.1)

  distinct_files_sound :
      (xs : List Account) (met : List Text)
      → distinct_files xs met ≡ true
      → All (Unmet met) xs × PairwiseApart xs
  unfolding distinct_files
  distinct_files_sound [] met h = (tt, tt)
  distinct_files_sound (a ∷ rest) met h = elim (Option-cases (oauth_file a)) [
    | inl nothing ↦
        let (u, p) = distinct_files_sound rest met (ground arith) in
        ((λ f e. cc, u), (All-map (λ b _ f e. cc) rest u, p))
    | inr (file, here) ↦
        let new : includes met file ≡ false = ground arith in
        let (u, p) = distinct_files_sound rest (file ∷ met) (ground arith) in
        (
          (λ f e. ground arith, All-map (λ b x. (Unmet-cons file met a b here x).1) rest u),
          (All-map (λ b x. (Unmet-cons file met a b here x).0) rest u, p),
        )
  ]

  distinct_files_complete :
      (xs : List Account) (met : List Text)
      → All (Unmet met) xs
      → PairwiseApart xs
      → distinct_files xs met ≡ true
  unfolding distinct_files
  distinct_files_complete [] met u p = refl
  distinct_files_complete (a ∷ rest) met (new, u) (apart, p) = elim (Option-cases (oauth_file a)) [
    | inl nothing ↦ rw (nothing, distinct_files) (distinct_files_complete rest met u p)
    | inr (file, here) ↦
        rw (here, distinct_files)
          (rw (new file here) (
            distinct_files_complete rest (file ∷ met) (All-cons-Unmet file met a here rest apart u)
              p))
  ]

  Unmet-nil : (xs : List Account) → All (Unmet []) xs
  unfolding includes
  Unmet-nil [] = tt
  Unmet-nil (a ∷ rest) = (λ f e. refl, Unmet-nil rest)

  -- A pool is made exactly when its accounts are at most 32, OAuth accounts and API keys together,
  -- and no two OAuth accounts are kept in one credential file after the paths are made canonical;
  -- it then works with those accounts.
  pub configure-accepted_iff :
      (provider : PoolProvider) (accounts : List Account)
      → (configure provider ≡ accepted accounts) ↔ (
          (accounts ≡ configured_accounts provider)
          × (length accounts ≤ 32)
          × PairwiseApart accounts)
  configure-accepted_iff provider accounts = (
    λ h.
        let all = configured_accounts provider in
        let same : all ≡ accounts = unfold configure in ground arith in
        let ok : distinct_files all [] ≡ true = unfold configure in ground arith in
        let small : length all ≤ 32 = unfold configure in ground arith in
        rw (← same) (refl, small, (distinct_files_sound all [] ok).1),
    λ h.
        let ok = distinct_files_complete accounts [] (Unmet-nil accounts) h.2 in
        unfold configure in rw (← h.0) (ground (arith, ok, h.1)),
  )
