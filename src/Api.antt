-- ===== src/Api.antt =====
-- internal/api: the management API. The routes of chi are given as data, and the JSON of a request as
-- what encoding/json reads from it.
pub mod Messages
pub mod Sanitized
pub mod Access
pub mod Login
use packrune.Prelude.{
  ◌%◌, ℕ, zero, suc, ◌+◌, ◌*◌, ◌^◌, Bool, true, false, not, ◌&&◌, ◌||◌, Option, none, some, List,
  [], ◌∷◌, ◌++◌, Bytes, codes, length, ◌==◌, ltb, nat_eq, if◌then◌else◌, has_prefix, trim_prefix,
}
use packrune.Action.{Error, not_found, unauthorized, io, Result, ok, err, Action}
use packrune.Database.{Database}
use packrune.Auth.Tables as AuthTables
use packrune.Auth.Service.{User, Token}
use packrune.Auth.Service as AuthService
use packrune.Webhook.Tables as HookTables
use packrune.Webhook.Service.{Webhook}
use packrune.Webhook.Service as HookService
use packrune.Audit.{Log, Record, Event, Metadata, absent, encoded, allow, deny}
use packrune.Audit
use packrune.Repo.Tables.{Db, Engine, Repository, Artifact}
use packrune.Repo.Store
use packrune.Config.{Config}
use packrune.Api.Sanitized.{sanitized}
use packrune.Api.Messages.{
  World, Credentials, NewUser, NewToken, NewWebhook, Route, Request, RepoView, Response, Env,
  Library, me, list_repositories, stats, get_repository, list_repository_artifacts, list_tokens,
  create_token, revoke_token, list_users, create_user, deactivate_user, list_webhooks,
  create_webhook, delete_webhook, list_audit, failed, no_content, user_view, session, repositories,
  repository, artifacts, counts, tokens, token_created, users, user_created, webhooks,
  webhook_created, audit_records, list_formats, system_config, formats, config_view, on_auth,
  on_hooks, on_log, on_repos,
}

abbrev pub hour : ℕ
hour = 3600 * 10 ^ 9

-- time.Duration(hours) * time.Hour, an int64 that wraps around; a duration that is not positive is given as 0.
abbrev duration_of_hours : ℕ → ℕ
duration_of_hours hours = let bits = hours * hour % 2 ^ 64 in if ltb bits (2 ^ 63) then bits else 0

abbrev internal : Error → ℕ
internal e = 500

abbrev bad_request : Error → ℕ
bad_request e = 400

abbrev missing : Error → ℕ
missing e = elim e [ not_found ↦ 404 | f ↦ 500 ]

abbrev refused : Error → ℕ
refused e = elim e [ unauthorized ↦ 401 | f ↦ 500 ]

module _ {A : Type 0} where
  abbrev answered : (Error → ℕ) → (A → Response) → Result A × World → Response × World
  answered status view (ok a, w) = (view a, w)
  answered status view (err e, w) = (failed (status e), w)

abbrev dropped : {A : Type 0} → Result A × World → World
dropped (r, w) = w

abbrev pub or_self : Bytes → User → Bytes
or_self [] u = u.id
or_self (c ∷ s) u = c ∷ s

-- The user whose tokens are asked for, unless the caller may not.
abbrev pub may_act_for : User → Bytes → Bool
may_act_for u user_id = user_id == u.id || u.is_admin

module _ (lib : Library) (env : Env) where
  abbrev pub authenticate : Bytes → Action World (User × Token)
  authenticate plain = on_auth (AuthService.authenticate_token lib.sha256 env.now plain)

  abbrev user_or : Result (User × Token) × World → Result User × World
  user_or (ok (u, t), w) = (ok u, w)
  user_or (err e, w) = (err unauthorized, w)

  abbrev pub by_header : Bytes → World → Result User × World
  by_header header w =
      if has_prefix header (codes "Bearer ")
      then user_or (authenticate (trim_prefix header (codes "Bearer ")) w)
      else (err unauthorized, w)

  abbrev or_header : Bytes → Result (User × Token) × World → Result User × World
  or_header header (ok (u, t), w) = (ok u, w)
  or_header header (err e, w) = by_header header w

  abbrev pub by_cookie : Bytes → Option Bytes → World → Result User × World
  by_cookie header none w = by_header header w
  by_cookie header (some []) w = by_header header w
  by_cookie header (some (c ∷ s)) w = or_header header (authenticate (c ∷ s) w)

  -- resolveUser
  unfoldable pub resolve_user : Request → World → Result User × World
  resolve_user req w = by_cookie req.authorization req.cookie w

  -- AuditWriter.Write, whose error is dropped.
  abbrev logged : Event → World → World
  logged e w = dropped (on_log (Audit.write env.log_id env.now e) w)

  abbrev login_event : Bytes → Audit.Outcome → Metadata → Bytes → Event
  login_event user_id result metadata remote_addr = record {
    user_id = user_id;
    action = codes "login";
    target_type = [];
    target_id = [];
    result = result;
    metadata = metadata;
    remote_addr = remote_addr;
  }

  abbrev start_session : Bytes → User → Result (Bytes × Token) × World → Response × World
  start_session remote u (ok (plain, t), w) =
      (session plain u t, logged (login_event u.id allow absent remote) w)
  start_session remote u (err e, w) = (failed 500, w)

  abbrev login_checked : Bytes → Bytes → Result User × World → Response × World
  login_checked remote username (ok u, w) = start_session remote u (
      on_auth
        (AuthService.issue_token lib.sha256 env.random env.id env.now u.id (codes "session")
          (codes "session" ∷ []) (24 * hour))
        w)
  login_checked remote username (err e, w) =
      (failed (refused e), logged (login_event [] deny (lib.metadata username) remote) w)

  -- handleLogin, of a body that is JSON or not.
  unfoldable pub handle_login : Bytes → Option Credentials → World → Response × World
  handle_login remote none w = (failed 400, w)
  handle_login remote (some c) w =
      if c.username == [] || c.password == []
      then (failed 400, w)
      else login_checked remote c.username
          (on_auth (AuthService.authenticate_basic lib.compare c.username c.password) w)

  abbrev revoke_found : Result (User × Token) × World → World
  revoke_found (ok (u, t), w) = dropped (on_auth (AuthService.revoke_token t.id) w)
  revoke_found (err e, w) = w

  -- handleLogout
  unfoldable pub handle_logout : Option Bytes → World → Response × World
  handle_logout none w = (no_content, w)
  handle_logout (some []) w = (no_content, w)
  handle_logout (some (c ∷ s)) w = (no_content, revoke_found (authenticate (c ∷ s) w))

  abbrev count_of : Result (List Artifact) → ℕ
  count_of (ok rows) = length rows
  count_of (err e) = 0

  -- The number of artifacts of a repository, or 0 if they cannot be read.
  abbrev counted : Repository → World → ℕ × World
  counted r w =
      let (rows, w') = on_repos (Store.list_artifacts_by_prefix lib.engine r.id []) w in
      (count_of rows, w')

  unfoldable pub repo_views : List Repository → World → List RepoView × World
  repo_views [] w = ([], w)
  repo_views (r ∷ rs) w =
      let (n, w1) = counted r w in
      let (views, w2) = repo_views rs w1 in
      (record { repository = r; artifact_count = n } ∷ views, w2)

  abbrev list_views : Result (List Repository) × World → Response × World
  list_views (ok rs, w) = let (views, w') = repo_views rs w in (repositories views, w')
  list_views (err e, w) = (failed 500, w)

  abbrev one_view : Result Repository × World → Response × World
  one_view (ok r, w) =
      let (n, w') = counted r w in (repository (record { repository = r; artifact_count = n }), w')
  one_view (err e, w) = (failed (missing e), w)

  abbrev list_found : Bytes → Result Repository × World → Response × World
  list_found prefix (ok r, w) =
      answered internal artifacts
        (on_repos (Store.list_artifacts_by_prefix lib.engine r.id prefix) w)
  list_found prefix (err e, w) = (failed (missing e), w)

  -- perFormat[name] += n
  unfoldable pub add_count : Bytes → ℕ → List (Bytes × ℕ) → List (Bytes × ℕ)
  add_count name n [] = (name, n) ∷ []
  add_count name n ((m, k) ∷ cs) =
      let rest = add_count name n cs in if m == name then (m, k + n) ∷ cs else (m, k) ∷ rest

  unfoldable pub add_stats :
      List Repository → ℕ → List (Bytes × ℕ) → World → (ℕ × List (Bytes × ℕ)) × World
  add_stats [] total cs w = ((total, cs), w)
  add_stats (r ∷ rs) total cs w =
      let (n, w1) = counted r w in add_stats rs (total + n) (add_count r.format n cs) w1

  abbrev stats_of : Result (List Repository) × World → Response × World
  stats_of (ok rs, w) =
      let (sums, w') = add_stats rs 0 [] w in (counts (length rs) sums.0 sums.1, w')
  stats_of (err e, w) = (failed 500, w)

  -- handleListTokens
  abbrev handle_list_tokens : User → Bytes → World → Response × World
  handle_list_tokens u user_id w =
      let id = or_self user_id u in
      if not (may_act_for u id)
      then (failed 403, w)
      else answered internal tokens (on_auth (AuthService.list_tokens id) w)

  -- handleCreateToken
  abbrev handle_create_token : User → Option NewToken → World → Response × World
  handle_create_token u none w = (failed 400, w)
  handle_create_token u (some t) w =
      let id = or_self t.user_id u in
      if t.name == []
      then (failed 400, w)
      else if not (may_act_for u id)
      then (failed 403, w)
      else answered internal (λ issued. token_created issued.0 issued.1)
          (on_auth
            (AuthService.issue_token lib.sha256 env.random env.id env.now id t.name t.scopes
              (duration_of_hours t.ttl_hours))
            w)

  abbrev admin_only : User → (World → Response × World) → World → Response × World
  admin_only u go w = if not u.is_admin then (failed 403, w) else go w

  abbrev make_user : Option NewUser → World → Response × World
  make_user none w = (failed 400, w)
  make_user (some n) w = answered bad_request user_created (
      on_auth
        (AuthService.create_user lib.generate env.id env.now n.email n.username n.password
          n.is_admin)
        w)

  abbrev make_webhook : Option NewWebhook → World → Response × World
  make_webhook none w = (failed 400, w)
  make_webhook (some n) w =
      answered bad_request webhook_created
        (on_hooks (HookService.create env.id env.now n.name n.url n.secret n.events) w)

  abbrev show_config : Option Config → World → Response × World
  show_config none w = (failed 503, w)
  show_config (some c) w = (config_view (sanitized c), w)

  -- The handler of a route, for the user that requireAuth found.
  unfoldable pub handle : User → Route → World → Response × World
  handle u me w = (user_view u none, w)
  handle u list_repositories w = list_views (on_repos (Store.list lib.engine) w)
  handle u stats w = stats_of (on_repos (Store.list lib.engine) w)
  handle u (get_repository name format) w = one_view (on_repos (Store.get name format) w)
  handle u (list_repository_artifacts name format prefix) w =
      list_found prefix (on_repos (Store.get name format) w)
  handle u (list_tokens user_id) w = handle_list_tokens u user_id w
  handle u (create_token t) w = handle_create_token u t w
  handle u (revoke_token id) w =
      answered internal (λ x. no_content) (on_auth (AuthService.revoke_token id) w)
  handle u list_users w =
      admin_only u (λ x. answered internal users (on_auth AuthService.list_users x)) w
  handle u (create_user n) w = admin_only u (make_user n) w
  handle u (deactivate_user id) w =
      admin_only u
        (λ x.
          answered internal (λ y. no_content) (on_auth (AuthService.deactivate_user env.now id) x))
        w
  handle u list_webhooks w =
      admin_only u (λ x. answered internal webhooks (on_hooks HookService.list x)) w
  handle u (create_webhook n) w = admin_only u (make_webhook n) w
  handle u (delete_webhook id) w =
      admin_only u (λ x. answered internal (λ y. no_content) (on_hooks (HookService.delete id) x)) w
  handle u (list_audit before) w =
      admin_only u (λ x. answered internal audit_records (on_log (Audit.list before 100) x)) w
  handle u list_formats w = (formats lib.formats, w)
  handle u system_config w = admin_only u (show_config lib.config) w

  abbrev pub required : Route → Result User × World → Response × World
  required route (ok u, w) = handle u route w
  required route (err e, w) = (failed 401, w)

  -- requireAuth and the routes behind it
  unfoldable pub serve : Request → World → Response × World
  serve req w = required req.route (resolve_user req w)
