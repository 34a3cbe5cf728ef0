-- ===== src/Users/Tokens/Rotation.antt =====
-- Rotating an app's token.
use hostit.Common.{
  String, Bool, true, false, List, [], ◌∷◌, ◌++◌, some, ◌≡◌, ◌≢◌, ◌⊎◌, refl, ap, sym, ◌∙◌, inl, inr,
  arith, Bool-cases, ◌&&◌, ◌||◌, if◌then◌else◌, str_eq, str_eq_self, str_neq, string_append, All,
}
use text.Mathlib.TextLemmas.{cons-append}
use hostit.Users.Tokens.{
  Token, Minted, text_of, new_token, create_app_token, tokens_by_app, first_secret, remove_token,
  remove_each, shown_or_new, app_token, rotate_app_token,
}

abbrev is_row : Token → Token → Bool
is_row r t = str_eq t.user_id r.user_id && str_eq t.id r.id

abbrev is_listed : List Token → Token → Bool
is_listed [] t = false
is_listed (r ∷ rs) t = is_row r t || is_listed rs t

remove_each-empty : (rs : List Token) → remove_each rs [] ≡ []
unfolding remove_each remove_token
remove_each-empty [] = refl
remove_each-empty (r ∷ rs) = remove_each-empty rs

remove_each-cons :
    (rs : List Token) (t : Token) (ts : List Token)
    → remove_each rs (t ∷ ts)
      ≡ (if is_listed rs t then remove_each rs ts else t ∷ remove_each rs ts)
unfolding remove_each remove_token
remove_each-cons [] t ts = refl
remove_each-cons (r ∷ rs) t ts = elim (Bool-cases (is_row r t)) [
  | inl here ↦ rw here refl
  | inr later ↦ rw later (remove_each-cons rs t (remove_token r.user_id r.id ts))
]

All-if :
    (P : Token → Type 0) (b : Bool) (t : Token) (ts : List Token)
    → All P (if b then t ∷ ts else ts)
    → All P ts × ((b ≡ false) ⊎ P t)
All-if P true t ts (p, h) = (h, inr p)
All-if P false t ts h = (h, inl refl)

tokens_by_app-other :
    (t : Token) (ts : List Token) (name : String)
    → str_eq t.app_name name ≡ false
    → tokens_by_app (t ∷ ts) name ≡ tokens_by_app ts name
unfolding tokens_by_app
tokens_by_app-other t ts name h = rw h refl

-- Nothing of an app is left if all of its rows are removed.
tokens_by_app-remove_each :
    (rs ts : List Token) (name : String)
    → All (λ t. is_listed rs t ≡ true) (tokens_by_app ts name)
    → tokens_by_app (remove_each rs ts) name ≡ []
unfolding tokens_by_app
tokens_by_app-remove_each rs [] name h = ap (λ l. tokens_by_app l name) (remove_each-empty rs)
tokens_by_app-remove_each rs (t ∷ ts) name h =
    let (rest, own) =
      All-if (λ x. is_listed rs x ≡ true) (str_eq t.app_name name) t (tokens_by_app ts name) h in
    let gone = tokens_by_app-remove_each rs ts name rest in
    rw (remove_each-cons rs t ts) (elim (Bool-cases (is_listed rs t)) [
      | inl listed ↦ rw listed gone
      | inr unlisted ↦ rw unlisted (elim own [
        | inl other ↦ tokens_by_app-other t (remove_each rs ts) name other ∙ gone
        | inr listed ↦ let clash : false ≡ true = sym unlisted ∙ listed in cc
      ])
    ])

All-is_listed :
    (all rs : List Token)
    → ((t : Token) → is_listed rs t ≡ true → is_listed all t ≡ true)
    → All (λ t. is_listed all t ≡ true) rs
All-is_listed all [] within = tt
All-is_listed all (r ∷ rs) within = (
  within r (ground (arith, str_eq_self r.user_id, str_eq_self r.id)),
  All-is_listed all rs (λ t h. within t (ground arith)),
)

tokens_by_app-append :
    (ts us : List Token) (name : String)
    → tokens_by_app (ts ++ us) name ≡ tokens_by_app ts name ++ tokens_by_app us name
unfolding tokens_by_app
tokens_by_app-append [] us name = refl
tokens_by_app-append (t ∷ ts) us name = elim (Bool-cases (str_eq t.app_name name)) [
  | inl own ↦ rw own (ap (◌∷◌ t) (tokens_by_app-append ts us name))
  | inr other ↦ rw other (tokens_by_app-append ts us name)
]

text_of-there : (m : Minted) → str_eq (text_of m) "" ≡ false
text_of-there m = str_neq (text_of m) "" (λ e.
    let clash : String.◌∷◌ "h" (string_append "ostit_" m.random) ≡ "" =
      sym (cons-append "h" "ostit_" m.random) ∙ e in
    cc)

module _ (hash_token : String → String) (m m2 : Minted) (tokens : List Token)
    (user_id app_name : String) where
  tokens_by_app-new_token :
      tokens_by_app (new_token hash_token m user_id app_name "agent" ∷ []) app_name
      ≡ new_token hash_token m user_id app_name "agent" ∷ []
  unfolding tokens_by_app new_token
  tokens_by_app-new_token = rw (str_eq_self app_name) refl

  first_secret-new_token :
      app_name ≢ ""
      → first_secret (new_token hash_token m user_id app_name "agent" ∷ []) ≡ some (text_of m)
  unfolding first_secret new_token
  first_secret-new_token named = rw (str_neq app_name "" named) (rw (text_of-there m) refl)

  -- A rotation leaves an app with one token, the new one, whoever the old ones belonged to; and the
  -- new one is what the app's page shows afterwards, without minting another.
  pub tokens_by_app-rotate_app_token :
      app_name ≢ ""
      → (tokens_by_app (rotate_app_token hash_token tokens m user_id app_name).0 app_name
          ≡ new_token hash_token m user_id app_name "agent" ∷ [])
        × (app_token hash_token
              (rotate_app_token hash_token tokens m user_id app_name).0
              m2
              user_id
              app_name
            ≡ rotate_app_token hash_token tokens m user_id app_name)
  unfolding rotate_app_token create_app_token app_token shown_or_new
  tokens_by_app-rotate_app_token named =
      let old = tokens_by_app tokens app_name in
      let one =
        tokens_by_app-append (remove_each old tokens)
          (new_token hash_token m user_id app_name "agent" ∷ []) app_name
        ∙ ap
            (λ l.
              l ++ tokens_by_app (new_token hash_token m user_id app_name "agent" ∷ []) app_name)
            (tokens_by_app-remove_each old tokens app_name (All-is_listed old old (λ t h. h)))
        ∙ tokens_by_app-new_token in
      (one, rw one (rw (first_secret-new_token named) refl))
