-- ===== src/Limits/Sums.antt =====
-- The sums that the pool check computes, with and without the app that changes, and without the
-- wrap-around of 64 bits, which they do not reach.
use hostit.Common.{
  ℕ, ◌≤◌, suc, ◌*◌, ◌^◌, All, length, ◌+◌, String, Bool, true, false, List, [], ◌∷◌, some, ◌&&◌,
  not, ◌==◌, ◌≡◌, refl, ap, ◌∙◌, subst, inl, inr, arith, Bool-cases, if◌then◌else◌, str_eq,
}
use hostit.Common.Int.{
  ℤ, pos, pos_part, neg_part, IsUpTo, add64, +ℤ-IsUpTo, add64_of_small, ◌+ℤ◌, +ℤ_parts,
}
use hostit.Store.{App, find_app}
use hostit.Limits.Update.{reserved_of, with_limits, update_app_limits}

-- The sum of a limit over the live apps of an owner.
unfoldable pub total_of : (App → ℤ) → String → List App → ℤ
total_of f owner_id [] = pos 0
total_of f owner_id (a ∷ apps) =
    let rest = total_of f owner_id apps in
    if str_eq a.owner_id owner_id && (a.soft_deleted_at == 0) then f a +ℤ rest else rest

-- The same with one app left out: what `reserved_of` is as long as nothing wraps around.
pub rest_of : (App → ℤ) → String → String → List App → ℤ
rest_of f owner_id exclude [] = pos 0
rest_of f owner_id exclude (a ∷ apps) =
    let rest = rest_of f owner_id exclude apps in
    if str_eq a.owner_id owner_id && not (str_eq a.name exclude) && (a.soft_deleted_at == 0)
    then f a +ℤ rest
    else rest

none_named : String → List App → Bool
none_named name [] = true
none_named name (a ∷ apps) = not (str_eq a.name name) && none_named name apps

-- The store keeps names unique.
unfoldable pub named_once : String → List App → Bool
unfolding none_named
named_once name [] = false
named_once name (a ∷ apps) =
    let rest = named_once name apps in if str_eq a.name name then none_named name apps else rest

abbrev pub IsSameℤ : ℤ → ℤ → Type 0
IsSameℤ a b = pos_part a + neg_part b ≡ pos_part b + neg_part a

IsSameℤ-swap : (h t x r : ℤ) → IsSameℤ t (x +ℤ r) → IsSameℤ (h +ℤ t) (x +ℤ (h +ℤ r))
IsSameℤ-swap h t x r e =
    omega (arith, +ℤ_parts h t, +ℤ_parts x (h +ℤ r), +ℤ_parts h r, +ℤ_parts x r)

module _ (f : App → ℤ) (owner_id name : String) (m d cpu : ℤ) where
  total_of-unnamed :
      (apps : List App)
      → none_named name apps ≡ true
      → total_of f owner_id (update_app_limits apps name m d cpu) ≡ rest_of f owner_id name apps
  unfolding total_of update_app_limits rest_of none_named
  total_of-unnamed [] h = refl
  total_of-unnamed (a ∷ apps) h = ground (arith, total_of-unnamed apps)

  pub total_of-updated :
      (apps : List App) (a : App)
      → named_once name apps ≡ true
      → find_app apps name ≡ some a
      → str_eq a.owner_id owner_id ≡ true
      → (a.soft_deleted_at == 0) ≡ true
      → IsSameℤ
          (total_of f owner_id (update_app_limits apps name m d cpu))
          (f (with_limits a m d cpu) +ℤ rest_of f owner_id name apps)
  unfolding total_of update_app_limits rest_of named_once find_app
  total_of-updated [] a h k o live = cc
  total_of-updated (b ∷ apps) a h k o live = elim (Bool-cases (str_eq b.name name)) [
    | inl this ↦
        let e : b ≡ a = ground arith in
        rw this (
          rw (ap (λ (x : App). str_eq x.owner_id owner_id) e ∙ o) (
            rw (ap (λ (x : App). x.soft_deleted_at == 0) e ∙ live) (
              rw (total_of-unnamed apps (ground arith)) (
                subst
                  (λ x.
                    IsSameℤ (f (with_limits b m d cpu) +ℤ rest_of f owner_id name apps)
                      (f (with_limits x m d cpu) +ℤ rest_of f owner_id name apps))
                  e refl))))
    | inr other ↦
        let later = total_of-updated apps a (ground arith) (ground arith) o live in
        elim (Bool-cases (str_eq b.owner_id owner_id)) [
          | inl mine ↦ elim (Bool-cases (b.soft_deleted_at == 0)) [
            | inl there ↦ rw other (
                rw mine (
                  rw there (
                    IsSameℤ-swap (f b) _ (f (with_limits a m d cpu)) (rest_of f owner_id name apps)
                      later)))
            | inr gone ↦ rw other (rw mine (rw gone later))
          ]
          | inr foreign ↦ rw other (rw foreign later)
        ]
  ]

  -- No app's limit is negative or above 2 ^ 40.
  abbrev pub IsModest : List App → Type 0
  IsModest apps = All (λ b. IsUpTo (2 ^ 40) (f b)) apps

  abbrev pub Settled : List App → Type 0
  Settled apps =
      (reserved_of f owner_id name apps ≡ rest_of f owner_id name apps)
      × IsUpTo (length apps * 2 ^ 40) (rest_of f owner_id name apps)

  IsUpTo-suc : (n : ℕ) (v : ℤ) → IsUpTo (n * 2 ^ 40) v → IsUpTo (suc n * 2 ^ 40) v
  IsUpTo-suc n v (p, h) = (p, omega arith)

  pub reserved_of-exact :
      (apps : List App)
      → length apps ≤ 2 ^ 20
      → IsModest (update_app_limits apps name m d cpu)
      → Settled apps
  unfolding reserved_of rest_of update_app_limits
  reserved_of-exact [] h k = (refl, (refl, omega arith))
  reserved_of-exact (a ∷ apps) h (k, ks) =
      let (same, small) = reserved_of-exact apps (omega arith) ks in
      let n = length apps in
      let wider = IsUpTo-suc n (rest_of f owner_id name apps) small in
      elim (Bool-cases (str_eq a.name name)) [
        | inl this ↦ elim (Bool-cases (str_eq a.owner_id owner_id)) [
          | inl mine ↦ rw this (rw mine (same, wider))
          | inr foreign ↦ rw this (rw foreign (same, wider))
        ]
        | inr other ↦ elim (Bool-cases (str_eq a.owner_id owner_id)) [
          | inl mine ↦ elim (Bool-cases (a.soft_deleted_at == 0)) [
            | inl there ↦
                let k' =
                  subst (λ b. IsUpTo (2 ^ 40) (f (if b then with_limits a m d cpu else a))) other
                    k in
                let exact =
                  add64_of_small (2 ^ 40) (n * 2 ^ 40) (f a) (rest_of f owner_id name apps) k' small
                    (omega arith) in
                let both =
                  +ℤ-IsUpTo (2 ^ 40) (n * 2 ^ 40) (f a) (rest_of f owner_id name apps) k' small in
                rw other (
                  rw mine
                    (rw there (ap (add64 (f a)) same ∙ exact, (both.0, omega (arith, both.1)))))
            | inr gone ↦ rw other (rw mine (rw gone (same, wider)))
          ]
          | inr foreign ↦ rw other (rw foreign (same, wider))
        ]
      ]

  -- The row that the update writes is one of those after it.
  pub IsModest-written :
      (apps : List App) (a : App)
      → find_app apps name ≡ some a
      → IsModest (update_app_limits apps name m d cpu)
      → IsUpTo (2 ^ 40) (f (with_limits a m d cpu))
  unfolding find_app update_app_limits
  IsModest-written [] a h k = cc
  IsModest-written (b ∷ apps) a h (k, ks) = elim (Bool-cases (str_eq b.name name)) [
    | inl this ↦
        let e : b ≡ a = ground arith in
        subst (λ x. IsUpTo (2 ^ 40) (f (with_limits x m d cpu))) e
          (subst (λ t. IsUpTo (2 ^ 40) (f (if t then with_limits b m d cpu else b))) this k)
    | inr other ↦ IsModest-written apps a (ground arith) ks
  ]
