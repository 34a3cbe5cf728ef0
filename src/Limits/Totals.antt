-- ===== src/Limits/Totals.antt =====
-- The sum of a limit over an owner's apps after an accepted change, against the pool.
use hostit.Common.{
  ◌≤◌, ◌*◌, ◌^◌, All, length, String, true, false, List, [], ◌∷◌, Option, some, ◌==◌, ◌≡◌, refl,
  sym, ap, ◌∙◌, subst, some_inj, inl, inr, arith, Bool-cases, str_eq, str_eq_self, str_eq→eq, ◌⊎◌,
}
use hostit.Common.Int.{
  ℤ, pos_part, neg_part, is_pos, IsUpTo, add64, add64_of_small, ◌+ℤ◌, ◌≤ℤ◌, +ℤ_parts,
}
use hostit.Store.{App, User, find_app}
use hostit.Auth.{Caller}
use hostit.Limits.{UserLimits, limits, effective_app_limits}
use hostit.Limits.Update.{
  Control, ok, Patch, reserved_of, memory_of, disk_of, within, overrides, with_limits,
  update_app_limits, updated, check_pool_fits, handle_app_limits_update,
}
use hostit.Limits.Sums.{
  total_of, rest_of, named_once, IsSameℤ, total_of-updated, reserved_of-exact, IsModest,
  IsModest-written,
}
use hostit.Limits.Pool.{Fits, check_pool_fits-ok, handle_app_limits_update-IsUpdate}

within-le :
    (pool used new total : ℤ)
    → within pool used new ≡ true
    → add64 used new ≡ used +ℤ new
    → is_pos pool ≡ true
    → IsSameℤ total (new +ℤ used)
    → total ≤ℤ pool
unfolding within
within-le pool used new total h exact p e =
    ground (arith, ap pos_part exact, ap neg_part exact, +ℤ_parts used new, +ℤ_parts new used)

-- A pool that has an end holds the sum of what the owner's live apps are given of it.
abbrev pub Holds : ℤ → ℤ → Type 0
Holds pool total = (is_pos pool ≡ false) ⊎ (total ≤ℤ pool)

pub record PoolsHold (l : UserLimits) (owner_id : String) (apps : List App) : Type 0 where
  pub memory : Holds l.memory_pool_mb (total_of (memory_of l) owner_id apps)
  pub disk : Holds l.disk_pool_mb (total_of (disk_of l) owner_id apps)

within-Holds :
    (pool used new total : ℤ)
    → within pool used new ≡ true
    → add64 used new ≡ used +ℤ new
    → IsSameℤ total (new +ℤ used)
    → Holds pool total
within-Holds pool used new total h exact e = elim (Bool-cases (is_pos pool)) [
  | inl p ↦ inr (within-le pool used new total h exact p e)
  | inr p ↦ inl p
]

-- The effective limits of these apps are neither negative nor above 2 ^ 40 MB.
abbrev pub AreModest : UserLimits → List App → Type 0
AreModest l apps =
    All (λ b. IsUpTo (2 ^ 40) (memory_of l b)) apps × All (λ b. IsUpTo (2 ^ 40) (disk_of l b)) apps

module _ (w : Control) (a : App) (m d cpu : ℤ) (l : UserLimits) where
  -- The sums stay far from 64 bits: at most 2 ^ 20 apps, each of at most 2 ^ 40 MB.
  held-updated :
      (f : App → ℤ) (pool : ℤ) (name : String)
      → f (with_limits a m d cpu) ≡ f (overrides m d)
      → named_once name w.apps ≡ true
      → find_app w.apps name ≡ some a
      → a.name ≡ name
      → (a.soft_deleted_at == 0) ≡ true
      → length w.apps ≤ 2 ^ 20
      → IsModest f a.owner_id name m d cpu (update_app_limits w.apps name m d cpu)
      → within pool (reserved_of f a.owner_id a.name w.apps) (f (overrides m d)) ≡ true
      → Holds pool (total_of f a.owner_id (update_app_limits w.apps name m d cpu))
  held-updated f pool name same once found named live few modest fits =
      let used = rest_of f a.owner_id name w.apps in
      let new = f (with_limits a m d cpu) in
      let (exact, small) = reserved_of-exact f a.owner_id name m d cpu w.apps few modest in
      let fits' : within pool used new ≡ true =
        subst (λ x. within pool x new ≡ true) exact
          (subst (λ x. within pool (reserved_of f a.owner_id x w.apps) new ≡ true) named
            (subst (λ x. within pool (reserved_of f a.owner_id a.name w.apps) x ≡ true) (sym same)
              fits)) in
      within-Holds pool used new _ fits'
        (add64_of_small (length w.apps * 2 ^ 40) (2 ^ 40) used new small
          (IsModest-written f a.owner_id name m d cpu w.apps a found modest) (omega arith))
        (total_of-updated f a.owner_id name m d cpu w.apps a once found (str_eq_self a.owner_id)
          live)

  PoolsHold-updated :
      (name : String)
      → named_once name w.apps ≡ true
      → find_app w.apps name ≡ some a
      → a.name ≡ name
      → (a.soft_deleted_at == 0) ≡ true
      → length w.apps ≤ 2 ^ 20
      → (fits : Fits w a m d) → fits.l ≡ l
      → AreModest l (update_app_limits w.apps name m d cpu)
      → PoolsHold l a.owner_id (update_app_limits w.apps name m d cpu)
  unfolding effective_app_limits
  PoolsHold-updated name once found named live few fits e modest =
      let (memory_modest, disk_modest) =
        subst (λ x. AreModest x (update_app_limits w.apps name m d cpu)) (sym e) modest in
      subst (λ x. PoolsHold x a.owner_id (update_app_limits w.apps name m d cpu)) e
        record {
          memory =
              held-updated (memory_of fits.l) fits.l.memory_pool_mb name refl once found named live
                few memory_modest fits.memory;
          disk =
              held-updated (disk_of fits.l) fits.l.disk_pool_mb name refl once found named live few
                disk_modest fits.disk;
        }

find_app-name :
    (apps : List App) (name : String) (a : App) → find_app apps name ≡ some a → a.name ≡ name
unfolding find_app
find_app-name [] name a h = cc
find_app-name (b ∷ apps) name a h = elim (Bool-cases (str_eq b.name name)) [
  | inl this ↦
      let e : b ≡ a = ground arith in sym (ap (λ (x : App). x.name) e) ∙ str_eq→eq b.name name this
  | inr other ↦ find_app-name apps name a (ground arith)
]

-- After an accepted change of the limits of an app that has an owner, the limits of all the owner's
-- live apps together, the changed ones included, are within the owner's memory pool and within the
-- disk pool, unless the pool is not positive and so has no end. The store holds one app of the name and
-- at most 2 ^ 20 apps, and no effective limit is negative or above 2 ^ 40 MB, so that the sums of
-- 64-bit numbers do not wrap around.
pub limits_update_fits :
    (w w' : Control) (c : Caller) (name : String) (body : Option Patch) (a : App) (owner : User)
    (l : UserLimits)
    → handle_app_limits_update w c name body ≡ ok w'
    → find_app w.apps name ≡ some a
    → str_eq a.owner_id "" ≡ false
    → w.user_by_id a.owner_id ≡ some owner
    → limits w.settings owner ≡ some l
    → named_once name w.apps ≡ true
    → length w.apps ≤ 2 ^ 20
    → AreModest l w'.apps
    → PoolsHold l a.owner_id w'.apps
unfolding updated
limits_update_fits w w' c name body a owner l h found owned known limited once few modest =
    let u = handle_app_limits_update-IsUpdate w c name body w' h in
    let same : u.app ≡ a = some_inj (sym u.found ∙ found) in
    let fits =
      check_pool_fits-ok w a u.m u.d owned
        (subst (λ x. check_pool_fits w x u.m u.d ≡ ok tt) same u.fits) in
    let named = find_app-name w.apps name a found in
    let live = ap (λ (x : App). x.soft_deleted_at == 0) (sym same) ∙ ap (λ n. n == 0) u.live in
    let person : fits.owner ≡ owner = some_inj (sym fits.known ∙ known) in
    let limit : fits.l ≡ l =
      some_inj (sym fits.limited ∙ ap (limits w.settings) person ∙ limited) in
    let row : w'.apps ≡ update_app_limits w.apps name u.m u.d u.cpu =
      ap (λ (x : Control). x.apps) u.result
      ∙ ap (λ x. update_app_limits w.apps x u.m u.d u.cpu)
          (ap (λ (x : App). x.name) same ∙ named) in
    subst (λ x. PoolsHold l a.owner_id x) (sym row)
      (PoolsHold-updated w a u.m u.d u.cpu l name once found named live few fits limit
        (subst (AreModest l) row modest))
