-- ===== src/Users/Tokens.antt =====
-- The tokens of control/user/service.go. A token is looked up by its hash; an app's own tokens keep
-- their secret, so that they can be shown again.
pub mod Rotation
use hostit.Common.{
  ℕ, String, Bool, true, false, List, [], ◌∷◌, ◌++◌, Option, none, some, ◌≡◌, ◌≢◌, ◌⊎◌, refl, ap,
  sym, ◌∙◌, inl, inr, arith, Bool-cases, Option-cases, some_inj, ◌&&◌, ◌||◌, not, if◌then◌else◌,
  str_eq, str_eq_self, str_eq→eq, str_neq, All, map, string_append,
}
use text.Mathlib.TextEquality.{eq_iff}
use hostit.Store.{User, Status, active}
use hostit.Auth.{is_status_active}
use hostit.Access.{find_user}

pub record Token : Type 0 where
  pub id : String
  pub user_id : String
  pub hash : String
  pub label : String
  pub app_name : String
  pub secret : String

-- What is minted with a token: its row's id and its random half.
pub record Minted : Type 0 where
  pub id : String
  pub random : String

abbrev pub token_prefix : String
token_prefix = "hostit_"

abbrev pub text_of : Minted → String
text_of m = string_append token_prefix m.random

module _ (hash_token : String → String) where
  unfoldable pub new_token : Minted → String → String → String → Token
  new_token m user_id app_name label = record {
    id = m.id;
    user_id = user_id;
    hash = hash_token (text_of m);
    label = label;
    app_name = app_name;
    secret = if not (str_eq app_name "") then text_of m else "";
  }

  -- `CreateAppToken`: the token's text, and the rows with it.
  unfoldable pub create_app_token :
      List Token → Minted → String → String → String → List Token × String
  unfolding new_token
  create_app_token tokens m user_id app_name label =
      (tokens ++ new_token m user_id app_name label ∷ [], text_of m)

  unfoldable pub token_by_hash : List Token → String → Option Token
  token_by_hash [] h = none
  token_by_hash (t ∷ tokens) h =
      let rest = token_by_hash tokens h in if str_eq t.hash h then some t else rest

  unfoldable pub if_active : Option User → String → Option (Option User × String)
  if_active none app_name = none
  if_active (some u) app_name = if is_status_active u.status then some (some u, app_name) else none

  unfoldable pub scope_of : List User → Option Token → Option (Option User × String)
  unfolding if_active
  scope_of users none = none
  scope_of users (some t) =
      if str_eq t.user_id ""
      then some (none, t.app_name)
      else if_active (find_user users t.user_id) t.app_name

  -- `UserAndScopeByToken`
  unfoldable pub user_and_scope_by_token :
      List User → List Token → String → Option (Option User × String)
  unfolding scope_of token_by_hash
  user_and_scope_by_token users tokens text =
      scope_of users (token_by_hash tokens (hash_token text))

unfoldable pub tokens_by_app : List Token → String → List Token
tokens_by_app [] name = []
tokens_by_app (t ∷ tokens) name =
    let rest = tokens_by_app tokens name in if str_eq t.app_name name then t ∷ rest else rest

unfoldable pub first_secret : List Token → Option String
first_secret [] = none
first_secret (t ∷ tokens) =
    let rest = first_secret tokens in if not (str_eq t.secret "") then some t.secret else rest

unfoldable pub remove_token : String → String → List Token → List Token
remove_token user_id id [] = []
remove_token user_id id (t ∷ tokens) =
    let rest = remove_token user_id id tokens in
    if str_eq t.user_id user_id && str_eq t.id id then rest else t ∷ rest

unfoldable pub remove_each : List Token → List Token → List Token
unfolding remove_token
remove_each [] tokens = tokens
remove_each (t ∷ ts) tokens = remove_each ts (remove_token t.user_id t.id tokens)

module _ (hash_token : String → String) where
  unfoldable pub shown_or_new :
      List Token → Minted → String → String → Option String → List Token × String
  unfolding create_app_token
  shown_or_new tokens m user_id app_name (some secret) = (tokens, secret)
  shown_or_new tokens m user_id app_name none =
      create_app_token hash_token tokens m user_id app_name "agent"

  -- `AppToken`
  unfoldable pub app_token : List Token → Minted → String → String → List Token × String
  unfolding shown_or_new tokens_by_app first_secret
  app_token tokens m user_id app_name =
      shown_or_new tokens m user_id app_name (first_secret (tokens_by_app tokens app_name))

  -- `RotateAppToken`
  unfoldable pub rotate_app_token : List Token → Minted → String → String → List Token × String
  unfolding create_app_token remove_each tokens_by_app
  rotate_app_token tokens m user_id app_name =
      create_app_token hash_token (remove_each (tokens_by_app tokens app_name) tokens) m user_id
        app_name "agent"
