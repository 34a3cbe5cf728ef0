-- ===== src/Users/Tests.antt =====
-- Sign-ins and tokens of a small directory.
use hostit.Common.{
  String, true, List, [], ◌∷◌, none, some, ◌≡◌, refl, str_eq, string_append, contains,
}
use hostit.Store.{User, role_user, denied}
use hostit.Users.{
  Config, Accounts, normal, admin_emails_of, email_domain_allowed, user_by_email, is_allowed,
  after_at, or_after, login, login_found, known_user, promoted, swept, named, is_pending,
  update_user,
}
use hostit.Users.Login.{IsSignedIn, login-cases}
use hostit.Users.Tokens.{Token, Minted, new_token}
use hostit.Common.Text.{trim_space}

abbrev config : Config
config = record {
  admin_emails = "root@x.com" ∷ [];
  lower = λ s. s;
  is_email = λ s. true;
  is_domain = λ s. true;
  is_public_provider = λ s. str_eq s "gmail.com";
}

abbrev ann : User
ann = record {
  id = "u1";
  email = "ann@x.com";
  name = "";
  role = role_user;
  status = denied;
  app_limit = none;
  memory_mb = none;
  disk_mb = none;
  memory_pool_mb = none;
  disk_pool_mb = none;
}

abbrev accounts : Accounts
accounts = record { users = ann ∷ []; allowed_domains = "x.com" ∷ [] }

abbrev ann_named : User
ann_named = record ann { name = "Ann" }

abbrev after : Accounts
after = record accounts { users = ann_named ∷ [] }

-- The domain is allowed, but the account was denied.
signed_in : login config accounts "u9" true " ann@x.com" "Ann" ≡ (after, some ann_named)
unfolding login login_found known_user promoted swept named is_pending update_user normal
    admin_emails_of email_domain_allowed after_at or_after is_allowed user_by_email trim_space
signed_in = refl

login-cases_example :
    (user_by_email after.users (normal config " ann@x.com") ≡ some ann_named)
    × (after.allowed_domains ≡ accounts.allowed_domains)
    × IsSignedIn
        (contains (admin_emails_of config) (normal config " ann@x.com"))
        (email_domain_allowed accounts (normal config " ann@x.com"))
        (user_by_email accounts.users (normal config " ann@x.com"))
        ann_named
login-cases_example = login-cases config accounts "u9" " ann@x.com" "Ann" after ann_named signed_in

abbrev hashed : String → String
hashed text = string_append "sha:" text

abbrev minted : Minted
minted = record { id = "tk_2"; random = "beef" }

abbrev minted_later : Minted
minted_later = record { id = "tk_3"; random = "cafe" }

abbrev tokens : List Token
tokens = new_token hashed (record { id = "tk_1"; random = "dead" }) "u1" "blog" "agent" ∷ []
