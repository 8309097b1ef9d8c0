-- ===== src/Api/Access.antt =====
-- internal/api: who may call what, and what a refused call leaves behind.
use packrune.Prelude.{
  ℕ, ◌≡◌, inl, inr, refl, ap, sym, ◌∙◌, Bool, true, false, ◌||◌, Option, none, some, List, [], ◌∷◌,
  arith, Bytes, codes, ◌==◌, has_prefix, trim_prefix, Bool-cases,
}
use mathlib.Core.Path.{subst}
use packrune.Action.{Error, Result, ok, err, ok-injective, Result-cases}
use packrune.Auth.Tables.{TokenRow, Tables, update_by, is_token}
use packrune.Auth.Service.{User, touched}
use packrune.Auth.Sessions.{authenticate_token-Keeps}
use packrune.Api.Messages.{
  World, NewToken, Route, me, list_repositories, stats, get_repository, list_repository_artifacts,
  list_tokens, create_token, revoke_token, list_users, create_user, deactivate_user, list_webhooks,
  create_webhook, delete_webhook, list_audit, list_formats, system_config, Request, Response,
  failed, Env, Library,
}
use packrune.Api.{
  or_self, may_act_for, authenticate, by_header, by_cookie, resolve_user, handle, required, serve,
}

-- The tokens without the times at which they were last used.
unfoldable pub without_use : List TokenRow → List TokenRow
without_use [] = []
without_use (t ∷ ts) = record t { last_used_at = none } ∷ without_use ts

update_by-without_use :
    (now : ℕ) (p : TokenRow → Bool) (ts : List TokenRow)
    → without_use (update_by p (touched now) ts) ≡ without_use ts
unfolding update_by without_use
update_by-without_use now p [] = refl
update_by-without_use now p (t ∷ ts) = ground (arith, update_by-without_use now p ts)

-- No other user is named.
abbrev is_own : User → Bytes → Bool
is_own u user_id = user_id == [] || user_id == u.id

-- Whether a user may call a route.
unfoldable pub may_call : User → Route → Bool
may_call u me = true
may_call u list_repositories = true
may_call u stats = true
may_call u (get_repository name format) = true
may_call u (list_repository_artifacts name format prefix) = true
may_call u (list_tokens user_id) = is_own u user_id || u.is_admin
may_call u (create_token none) = true
may_call u (create_token (some t)) = is_own u t.user_id || u.is_admin
may_call u (revoke_token id) = true
may_call u list_users = u.is_admin
may_call u (create_user n) = u.is_admin
may_call u (deactivate_user id) = u.is_admin
may_call u list_webhooks = u.is_admin
may_call u (create_webhook n) = u.is_admin
may_call u (delete_webhook id) = u.is_admin
may_call u (list_audit before) = u.is_admin
may_call u list_formats = true
may_call u system_config = u.is_admin

abbrev pub is_permitted : Result User → Route → Bool
is_permitted (ok u) route = may_call u route
is_permitted (err e) route = false

-- What a refused call leaves as it was.
abbrev pub Unchanged : World → World → Type 0
Unchanged w w' =
    (w'.auth.tables.users ≡ w.auth.tables.users)
    × (without_use w'.auth.tables.tokens ≡ without_use w.auth.tables.tokens)
    × (w'.hooks ≡ w.hooks)
    × (w'.log ≡ w.log)
    × (w'.repos ≡ w.repos)

module _ (lib : Library) (env : Env) where
  named_self : (u : User) (id : Bytes) → (is_own u id || u.is_admin) ≡ false → or_self id u ≡ id
  unfolding ◌==◌
  named_self u [] h = absurd (ground (arith, h))
  named_self u (c ∷ s) h = refl

  tokens_refused :
      (u : User) (user_id : Bytes) (w : World)
      → (is_own u user_id || u.is_admin) ≡ false
      → (s : ℕ) × (handle lib env u (list_tokens user_id) w ≡ (failed s, w))
  unfolding handle
  tokens_refused u user_id w h =
      let refused : may_act_for u user_id ≡ false = ground (arith, h) in
      (403, rw (named_self u user_id h, refused) refl)

  token_refused :
      (u : User) (t : NewToken) (w : World)
      → (is_own u t.user_id || u.is_admin) ≡ false
      → (s : ℕ) × (handle lib env u (create_token (some t)) w ≡ (failed s, w))
  unfolding handle
  token_refused u t w h =
      let refused : may_act_for u t.user_id ≡ false = ground (arith, h) in
      elim (Bool-cases (t.name == [])) [
        | inl e ↦ (400, rw e refl)
        | inr e ↦ (403, rw (e, named_self u t.user_id h, refused) refl)
      ]

  handle-refused :
      (u : User) (route : Route) (w : World)
      → may_call u route ≡ false
      → (s : ℕ) × (handle lib env u route w ≡ (failed s, w))
  unfolding handle may_call
  handle-refused u (list_tokens user_id) w h = tokens_refused u user_id w h
  handle-refused u (create_token (some t)) w h = token_refused u t w h
  handle-refused u list_users w h = (403, rw h refl)
  handle-refused u (create_user n) w h = (403, rw h refl)
  handle-refused u (deactivate_user id) w h = (403, rw h refl)
  handle-refused u list_webhooks w h = (403, rw h refl)
  handle-refused u (create_webhook n) w h = (403, rw h refl)
  handle-refused u (delete_webhook id) w h = (403, rw h refl)
  handle-refused u (list_audit before) w h = (403, rw h refl)
  handle-refused u system_config w h = (403, rw h refl)
  handle-refused u list_formats w h = absurd (ground (arith, h))
  handle-refused u me w h = absurd (ground (arith, h))
  handle-refused u list_repositories w h = absurd (ground (arith, h))
  handle-refused u stats w h = absurd (ground (arith, h))
  handle-refused u (get_repository name format) w h = absurd (ground (arith, h))
  handle-refused u (list_repository_artifacts name format prefix) w h = absurd (ground (arith, h))
  handle-refused u (create_token none) w h = absurd (ground (arith, h))
  handle-refused u (revoke_token id) w h = absurd (ground (arith, h))

  authenticate-Unchanged :
      (plain : Bytes) (w : World) → Unchanged w (authenticate lib env plain w).1
  authenticate-Unchanged plain w =
      let kept =
        authenticate_token-Keeps lib.sha256
          (λ (t : Tables).
            (t.users ≡ w.auth.tables.users)
            × (without_use t.tokens ≡ without_use w.auth.tables.tokens))
          env.now plain w.auth (refl, refl)
          (λ id. (refl, update_by-without_use env.now (is_token id) w.auth.tables.tokens)) in
      (kept.0, kept.1, refl, refl, refl)

  chain : (w w1 w2 : World) → Unchanged w w1 → Unchanged w1 w2 → Unchanged w w2
  chain w w1 w2 a b = (b.0 ∙ a.0, b.1 ∙ a.1, b.2 ∙ a.2, b.3 ∙ a.3, b.4 ∙ a.4)

  by_header-Unchanged : (header : Bytes) (w : World) → Unchanged w (by_header lib env header w).1
  by_header-Unchanged header w = elim (Bool-cases (has_prefix header (codes "Bearer "))) [
    | inr e ↦ rw e (refl, refl, refl, refl, refl)
    | inl e ↦
        let plain = trim_prefix header (codes "Bearer ") in
        let tried = authenticate-Unchanged plain w in
        elim (Result-cases (authenticate lib env plain w).0) [
          | inl (a, r) ↦ rw (e, r) tried
          | inr (x, r) ↦ rw (e, r) tried
        ]
  ]

  by_cookie-Unchanged :
      (header : Bytes) (cookie : Option Bytes) (w : World)
      → Unchanged w (by_cookie lib env header cookie w).1
  by_cookie-Unchanged header none w = by_header-Unchanged header w
  by_cookie-Unchanged header (some []) w = by_header-Unchanged header w
  by_cookie-Unchanged header (some (c ∷ s)) w =
      let tried = authenticate-Unchanged (c ∷ s) w in
      elim (Result-cases (authenticate lib env (c ∷ s) w).0) [
        | inl (a, e) ↦ rw e tried
        | inr (x, e) ↦ rw e (
            chain w (authenticate lib env (c ∷ s) w).1
              (by_header lib env header (authenticate lib env (c ∷ s) w).1).1 tried
              (by_header-Unchanged header (authenticate lib env (c ∷ s) w).1))
      ]

  required_found :
      (route : Route) (u : User) (r : Result User × World)
      → r.0 ≡ ok u
      → required lib env route r ≡ handle lib env u route r.1
  required_found route u (ok v, w) e = rw (ok-injective e) refl
  required_found route u (err x, w) e = absurd (ground (arith, e))

  required_none :
      (route : Route) (x : Error) (r : Result User × World)
      → r.0 ≡ err x
      → required lib env route r ≡ (failed 401, r.1)
  required_none route x (ok v, w) e = absurd (ground (arith, e))
  required_none route x (err y, w) e = refl

  -- A call without a credential that is accepted, or by a user who is no administrator on a route for
  -- administrators or on behalf of another user, is answered with an error, and changes nothing but the
  -- times at which tokens were last used, whatever statements fail.
  pub serve-refused :
      (req : Request) (w : World)
      → is_permitted (resolve_user lib env req w).0 req.route ≡ false
      → (s : ℕ) × ((serve lib env req w).0 ≡ failed s) × Unchanged w (serve lib env req w).1
  unfolding serve resolve_user
  serve-refused req w h =
      let kept = by_cookie-Unchanged req.authorization req.cookie w in
      let found = by_cookie lib env req.authorization req.cookie w in
      elim (Result-cases found.0) [
        | inr (x, e) ↦
            let step = required_none req.route x found e in
            (
              401,
              ap (λ (y : Response × World). y.0) step,
              subst (λ (y : Response × World). Unchanged w y.1) (sym step) kept,
            )
        | inl (u, e) ↦
            let r = handle-refused u req.route found.1 (ground (arith, e, h)) in
            let step = required_found req.route u found e ∙ r.1 in
            (
              r.0,
              ap (λ (y : Response × World). y.0) step,
              subst (λ (y : Response × World). Unchanged w y.1) (sym step) kept,
            )
      ]
