-- ===== src/Client/Clientset.antt =====
-- The clientset of pkg/client/clientset/versioned/clientset.go and its client of the API group
-- (typed/datafuse/v1alpha1/datafuse_client.go), over the REST client of client-go as a parameter.
use datafuse_operator.Prelude.{
  String, Bool, true, false, Option, none, some, ◌==◌, ◌||◌, not, is_some, nat_eq, ◌≡◌, refl,
  Bool-cases, Option-cases, inl, inr, arith, if◌then◌else◌,
}
use datafuse_operator.Go.Int.{ℤ, pos, negsuc}
use datafuse_operator.Go.Result.{Result, ok, err, panic, errorf, ◌>>=◌}
use datafuse_operator.Api.Types.{scheme_group_version}

-- rest.Config, by the fields that the code reads or writes, and the rest. QPS is a float32.
pub record RestConfig (Qps RateLimiter Codec Rest : Type 0) : Type 0 where
  pub rate_limiter : Option RateLimiter
  pub qps : Qps
  pub burst : ℤ
  pub group_version : Option String
  pub api_path : String
  pub negotiated_serializer : Option Codec
  pub user_agent : String
  pub rest : Rest

-- What the code calls of client-go.
pub record RestLibrary : Type 1 where
  pub Qps : Type 0
  pub RateLimiter : Type 0
  pub Codec : Type 0
  pub Rest : Type 0
  pub Client : Type 0
  pub Discovery : Type 0
  pub is_positive : Qps → Bool
  pub new_token_bucket_rate_limiter : Qps → ℤ → RateLimiter
  pub default_kubernetes_user_agent : String
  -- scheme.Codecs.WithoutConversion()
  pub without_conversion : Codec
  pub rest_client_for : RestConfig Qps RateLimiter Codec Rest → Result Client
  pub new_discovery_client_for_config : RestConfig Qps RateLimiter Codec Rest → Result Discovery
  pub new_discovery_client_for_config_or_die :
      RestConfig Qps RateLimiter Codec Rest → Result Discovery
  pub new_discovery_client : Client → Discovery

abbrev burst_message : String
burst_message =
    "burst is required to be greater than 0 when RateLimiter is not set and QPS is set to greater than 0"

-- `c.Burst <= 0`
unfoldable pub is_not_positive : ℤ → Bool
is_not_positive (pos n) = if nat_eq n 0 then true else false
is_not_positive (negsuc n) = true

-- A call that is not made to fail: its error becomes a panic.
abbrev pub or_die : {A : Type 0} → Result A → Result A
or_die (ok a) = ok a
or_die (err e) = panic
or_die panic = panic

or_die-pair :
    {A B C : Type 0} (m : Result A) (k : Result B) (f : A → B → C)
    → (or_die m >>= λ a. or_die k >>= λ b. ok (f a b)) ≡ or_die (m >>= λ a. k >>= λ b. ok (f a b))
or_die-pair (ok a) (ok b) f = refl
or_die-pair (ok a) (err e) f = refl
or_die-pair (ok a) panic f = refl
or_die-pair (err e) k f = refl
or_die-pair panic k f = refl

module _ (L : RestLibrary) where
  open L use {Client, Discovery}

  abbrev pub Config : Type 0
  Config = RestConfig L.Qps L.RateLimiter L.Codec L.Rest

  -- DatafuseV1alpha1Client
  pub record ApiClient : Type 0 where
    pub rest_client : Client

  -- Clientset
  pub record Clientset : Type 0 where
    pub discovery_client : Discovery
    pub datafuse : ApiClient

  -- setConfigDefaults
  unfoldable pub set_config_defaults : Config → Config
  set_config_defaults config = record config {
    group_version = some scheme_group_version;
    api_path = "/apis";
    negotiated_serializer = some L.without_conversion;
    user_agent =
        if config.user_agent == "" then L.default_kubernetes_user_agent else config.user_agent;
  }

  -- NewForConfig of datafuse_client.go
  unfoldable pub new_api_for_config : Config → Result ApiClient
  new_api_for_config c = do
    client ← L.rest_client_for (set_config_defaults c)
    ok (record { rest_client = client })

  -- NewForConfigOrDie of datafuse_client.go
  unfoldable pub new_api_for_config_or_die : Config → Result ApiClient
  new_api_for_config_or_die c = or_die (new_api_for_config c)

  -- New of datafuse_client.go
  unfoldable pub new_api : Client → ApiClient
  new_api c = record { rest_client = c }

  -- `configShallowCopy` of NewForConfig
  unfoldable pub limited : Config → Result Config
  limited c = elim c.rate_limiter [
    | some _ ↦ ok c
    | none ↦
        if L.is_positive c.qps
        then if is_not_positive c.burst
          then err (errorf burst_message)
          else ok (record c { rate_limiter = some (L.new_token_bucket_rate_limiter c.qps c.burst) })
        else ok c
  ]

  -- NewForConfig
  unfoldable pub new_for_config : Config → Result Clientset
  new_for_config c = do
    copy ← limited c
    datafuse ← new_api_for_config copy
    discovery ← L.new_discovery_client_for_config copy
    ok (record { discovery_client = discovery; datafuse = datafuse })

  -- NewForConfigOrDie
  unfoldable pub new_for_config_or_die : Config → Result Clientset
  new_for_config_or_die c = do
    datafuse ← new_api_for_config_or_die c
    discovery ← L.new_discovery_client_for_config_or_die c
    ok (record { discovery_client = discovery; datafuse = datafuse })

  -- New
  unfoldable pub new : Client → Clientset
  new c = record { discovery_client = L.new_discovery_client c; datafuse = new_api c }

  -- A configuration with a rate limiter, or one that needs none, is used as it is.
  limited_lem :
      (c : Config) → (is_some c.rate_limiter || not (L.is_positive c.qps)) ≡ true → limited c ≡ ok c
  unfolding limited
  limited_lem c h = elim (Option-cases c.rate_limiter) [
    | inr (l, e) ↦ simp (e, limited) refl
    | inl e ↦
        let none_needed : L.is_positive c.qps ≡ false = ground (arith, e, h) in
        simp (e, none_needed, limited) refl
  ]

  -- When NewDiscoveryClientForConfigOrDie panics where NewDiscoveryClientForConfig fails, as documented:
  -- for a configuration that has a rate limiter, or whose QPS asks for none, NewForConfigOrDie gives the
  -- clientset that NewForConfig gives, and panics just where NewForConfig fails or panics.
  pub new_for_config_or_die-new_for_config :
      (c : Config)
      → ((c' : Config)
          → L.new_discovery_client_for_config_or_die c'
            ≡ or_die (L.new_discovery_client_for_config c'))
      → (is_some c.rate_limiter || not (L.is_positive c.qps)) ≡ true
      → new_for_config_or_die c ≡ or_die (new_for_config c)
  unfolding new_for_config new_for_config_or_die new_api_for_config_or_die
  new_for_config_or_die-new_for_config c dies unlimited =
      rw (limited_lem c unlimited, dies c, or_die)
        (or_die-pair (new_api_for_config c) (L.new_discovery_client_for_config c) _)

  -- A configuration without a rate limiter, whose QPS asks for one: with a burst that is not positive
  -- NewForConfig fails, and both clients are made of the configuration with a new limiter otherwise.
  pub new_for_config-limits :
      (c : Config)
      → c.rate_limiter ≡ none
      → L.is_positive c.qps ≡ true
      → new_for_config c ≡ (
          if is_not_positive c.burst
          then err (errorf burst_message)
          else new_for_config
              (record c { rate_limiter = some (L.new_token_bucket_rate_limiter c.qps c.burst) }))
  unfolding new_for_config limited
  new_for_config-limits c unset positive = elim (Bool-cases (is_not_positive c.burst)) [
    | inl low ↦
        let fails : limited c ≡ err (errorf burst_message) =
          simp (unset, positive, low, limited) refl in
        rw (fails, low) refl
    | inr high ↦
        let limits : limited c
            ≡ ok
                (record c { rate_limiter = some (L.new_token_bucket_rate_limiter c.qps c.burst) }) =
          simp (unset, positive, high, limited) refl in
        rw (limits, high) refl
  ]
