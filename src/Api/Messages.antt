-- ===== src/Api/Messages.antt =====
-- internal/api/api.go: what the handlers work on, the requests with their routes, and the answers.
use packrune.Prelude.{ℕ, Bool, Option, List, Bytes}
use packrune.Action.{Action}
use packrune.Database.{Database}
use packrune.Auth.Tables as AuthTables
use packrune.Auth.Service.{User, Token}
use packrune.Webhook.Tables as HookTables
use packrune.Webhook.Service.{Webhook}
use packrune.Audit.{Log, Record, Metadata}
use packrune.Config.{Config}
use packrune.Repo.Tables.{Db, Engine, Repository, Artifact}

-- The one database, by the components that own its tables.
pub record World : Type 0 where
  pub auth : Database AuthTables.Tables
  pub hooks : Database HookTables.Tables
  pub log : Database Log
  pub repos : Db

module _ {A : Type 0} where
  abbrev pub on_auth : Action (Database AuthTables.Tables) A → Action World A
  on_auth m w = let (r, d) = m w.auth in (r, record w { auth = d })

  abbrev pub on_hooks : Action (Database HookTables.Tables) A → Action World A
  on_hooks m w = let (r, d) = m w.hooks in (r, record w { hooks = d })

  abbrev pub on_log : Action (Database Log) A → Action World A
  on_log m w = let (r, d) = m w.log in (r, record w { log = d })

  abbrev pub on_repos : Action Db A → Action World A
  on_repos m w = let (r, d) = m w.repos in (r, record w { repos = d })

pub record Credentials : Type 0 where
  pub username : Bytes
  pub password : Bytes

pub record NewUser : Type 0 where
  pub email : Bytes
  pub username : Bytes
  pub password : Bytes
  pub is_admin : Bool

-- `ttl_hours` is 0 if it is not positive.
pub record NewToken : Type 0 where
  pub name : Bytes
  pub scopes : List Bytes
  pub ttl_hours : ℕ
  pub user_id : Bytes

pub record NewWebhook : Type 0 where
  pub name : Bytes
  pub url : Bytes
  pub secret : Bytes
  pub events : List Bytes

-- The routes of Router behind requireAuth, with what the handlers take from the URL and the body.
pub data Route : Type 0 where
  me list_repositories stats : Route
  get_repository : Bytes → Bytes → Route
  list_repository_artifacts : Bytes → Bytes → Bytes → Route
  list_tokens : Bytes → Route
  create_token : Option NewToken → Route
  revoke_token : Bytes → Route
  list_users : Route
  create_user : Option NewUser → Route
  deactivate_user : Bytes → Route
  list_webhooks : Route
  create_webhook : Option NewWebhook → Route
  delete_webhook : Bytes → Route
  list_audit : Option ℕ → Route
  list_formats system_config : Route

-- The two credentials of a request: the session cookie and the Authorization header.
pub record Request : Type 0 where
  pub cookie : Option Bytes
  pub authorization : Bytes
  pub remote_addr : Bytes
  pub route : Route

pub record RepoView : Type 0 where
  pub repository : Repository
  pub artifact_count : ℕ

pub data Response : Type 0 where
  failed : ℕ → Response
  no_content : Response
  user_view : User → Option Token → Response
  session : Bytes → User → Token → Response
  repositories : List RepoView → Response
  repository : RepoView → Response
  artifacts : List Artifact → Response
  counts : ℕ → ℕ → List (Bytes × ℕ) → Response
  tokens : List Token → Response
  token_created : Bytes → Token → Response
  users : List User → Response
  user_created : User → Response
  webhooks : List Webhook → Response
  webhook_created : Webhook → Response
  audit_records : List Record → Response
  formats : List (Bytes × Bytes) → Response
  config_view : Config → Response

-- What the clock, uuid and crypto/rand deliver to a request.
pub record Env : Type 0 where
  pub now : ℕ
  pub id : Bytes
  pub log_id : Bytes
  pub random : Option Bytes

-- What is not in the repository: bcrypt, SHA-256, JSON and the database engine; and what serve.go wires:
-- what format.All answers, each format by its name and its display name, and the configuration.
pub record Library : Type 0 where
  pub sha256 : Bytes → Bytes
  pub generate : Bytes → Option Bytes
  pub compare : Bytes → Bytes → Bool
  pub metadata : Bytes → Metadata
  pub engine : Engine
  pub formats : List (Bytes × Bytes)
  pub config : Option Config
