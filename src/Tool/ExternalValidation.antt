-- ===== src/Tool/ExternalValidation.antt =====
-- external-tool-validation.service.ts, with the configuration of a tool. The tools that are stored are
-- a parameter.
use schulcloud_server.Prelude.{
  String, Bool, true, false, not, ◌||◌, Option, none, some, Result, ok, validation_error, guard,
  ◌>>=◌, ◌>>◌, ◌==◌, string_eq, nat_eq, ◌≡◌, ◌⊎◌, inl, inr, refl, ap, ==_iff, >>=-returns,
}
use schulcloud_server.Domain.User.{EntityId}
use schulcloud_server.Tool.Validation.{PartialTool, Engine, validate_common, filled}

pub data Config : Type 0 where
  basic lti11 : Config
  oauth2 : (client_id : String) → (client_secret : Option String) → Config

-- A tool as it is given, with its configuration.
pub record ConfiguredTool : Type 0 where
  pub tool : PartialTool
  pub config : Option Config

-- What the service for external tools finds: a tool by its client id, and one by its id or an error.
pub record ExternalTools : Type 0 where
  pub id_by_client_id : String → Option EntityId
  pub config_by_id : EntityId → Result Config

abbrev pub is_oauth2_config : Config → Bool
is_oauth2_config (oauth2 _ _) = true
is_oauth2_config _ = false

abbrev pub same_type : Config → Config → Bool
same_type basic basic = true
same_type lti11 lti11 = true
same_type (oauth2 _ _) (oauth2 _ _) = true
same_type _ _ = false

-- `a === b` for ids that may be missing.
abbrev pub same_id : Option EntityId → Option EntityId → Bool
same_id none none = true
same_id (some a) (some b) = a == b
same_id _ _ = false

-- No duplicate, or the tool itself.
abbrev pub is_own : (duplicate id : Option EntityId) → Bool
is_own none id = true
is_own (some duplicate) id = same_id (some duplicate) id

-- The type of a given configuration is that of the loaded tool, if this is OAuth2.
abbrev pub keeps_type : (given : Option Config) → (loaded : Config) → Bool
keeps_type none loaded = true
keeps_type (some given) loaded = not (is_oauth2_config loaded) || same_type given loaded

abbrev pub keeps_client_id : (given : Option Config) → (loaded : Config) → Bool
keeps_client_id (some (oauth2 given _)) (oauth2 loaded _) = given == loaded
keeps_client_id _ _ = true

module _ (engine : Engine) (tools : ExternalTools) where
  unfoldable pub is_client_id_unique : (id : Option EntityId) → Config → Bool
  is_client_id_unique id (oauth2 client_id _) = is_own (tools.id_by_client_id client_id) id
  is_client_id_unique id basic = true
  is_client_id_unique id lti11 = true

  unfoldable pub validate_oauth2_config : (id : Option EntityId) → Config → Result (Unit {0})
  validate_oauth2_config id basic = ok tt
  validate_oauth2_config id lti11 = ok tt
  validate_oauth2_config id (oauth2 client_id client_secret) =
      guard (filled client_secret) (validation_error "tool_clientSecret_missing")
      >> guard (is_client_id_unique id (oauth2 client_id client_secret))
          (validation_error "tool_clientId_duplicate")

  unfoldable pub validate_create : PartialTool → Config → Result (Unit {0})
  validate_create tool config = validate_common engine tool >> validate_oauth2_config tool.id config

  unfoldable pub validate_update : (tool_id : EntityId) → ConfiguredTool → Result (Unit {0})
  validate_update tool_id given = do
    guard (same_id (some tool_id) given.tool.id) (validation_error "tool_id_mismatch")
    validate_common engine given.tool
    loaded ← tools.config_by_id tool_id
    guard (keeps_type given.config loaded) (validation_error "tool_type_immutable")
    guard (keeps_client_id given.config loaded) (validation_error "tool_clientId_immutable")

  guard-ok :
      (b : Bool) (code : String) {a : Unit {0}} → guard b (validation_error code) ≡ ok a → b ≡ true
  guard-ok true code e = refl
  guard-ok false code e = cc

  kept :
      (given : Option Config) (client_id : String) (secret : Option String)
      → keeps_type given (oauth2 client_id secret) ≡ true
      → keeps_client_id given (oauth2 client_id secret) ≡ true
      → (given ≡ none) ⊎ ((s : Option String) × (given ≡ some (oauth2 client_id s)))
  kept none client_id secret t c = inl refl
  kept (some basic) client_id secret t c = cc
  kept (some lti11) client_id secret t c = cc
  kept (some (oauth2 other s)) client_id secret t c =
      inr (s, ap (λ i. some (oauth2 i s)) ((==_iff other client_id).0 c))

  -- An update that is accepted for a tool that is stored with an OAuth2 configuration passes
  -- the common validation and either gives no configuration or an OAuth2 configuration with the
  -- same client id.
  pub validate_update-oauth2 :
      (tool_id : EntityId) (given : ConfiguredTool) (client_id : String) (secret : Option String)
      → tools.config_by_id tool_id ≡ ok (oauth2 client_id secret)
      → validate_update tool_id given ≡ ok tt
      → (validate_common engine given.tool ≡ ok tt)
        × ((given.config ≡ none)
            ⊎ ((s : Option String) × (given.config ≡ some (oauth2 client_id s))))
  unfolding validate_update
  validate_update-oauth2 tool_id given client_id secret stored accepted =
      let (_, _, h1) = >>=-returns (guard (same_id (some tool_id) given.tool.id) _) _ accepted in
      let (_, common, h2) = >>=-returns (validate_common engine given.tool) _ h1 in
      let (_, same, h3) =
        >>=-returns (guard (keeps_type given.config (oauth2 client_id secret)) _) _
          (rw stored at h2) in
      (common, kept given.config client_id secret (guard-ok _ _ same) (guard-ok _ _ h3))
