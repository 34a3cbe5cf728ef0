-- ===== src/Limits/Pool.antt =====
-- What a change of an app's limits keeps: the sum of the limits of an owner's apps within the pool.
use hostit.Common.{
  ℕ, ◌≤◌, String, Bool, true, false, Option, none, some, ◌||◌, ◌==◌, ltb, ◌≡◌, refl, sym, ap, ◌∙◌,
  ◌⊎◌, inl, inr, arith, Bool-cases, str_eq, str_eq→eq,
}
use hostit.Common.Int.{ℤ, pos, negsuc}
use hostit.Store.{App, User, find_app}
use hostit.Auth.{Caller, is_admin, user_id}
use hostit.Limits.{UserLimits, limits}
use hostit.Limits.Update.{
  Control, LimitsError, Result, failed, ok, ◌>>=◌, require, found_or, may_act, owned_app, owner_app,
  Patch, patch, patch_pos, max_app_limit_mb, reserved_of, memory_of, disk_of, pool_reserved, within,
  overrides, check_owner, check_pool_fits, updated, is_zero, handle_app_limits_update, app_token,
  bad_request, cpu_is_admins, store_failed, app_not_found, forbidden, no_user, no_limits,
  memory_pool_full, disk_pool_full,
}

bind-ok :
    {A B : Type 0} (o : Result A) (next : A → Result B) {b : B}
    → (o >>= next) ≡ ok b
    → (a : A) × (o ≡ ok a) × (next a ≡ ok b)
unfolding ◌>>=◌
bind-ok (failed e) next h = cc
bind-ok (ok a) next h = (a, refl, h)

require-ok : (b : Bool) (e : LimitsError) {u : Unit} → require b e ≡ ok u → b ≡ true
unfolding require
require-ok true e h = refl
require-ok false e h = cc

found_or-ok :
    {A : Type 0} (o : Option A) (e : LimitsError) {a : A} → found_or o e ≡ ok a → o ≡ some a
unfolding found_or
found_or-ok none e h = cc
found_or-ok (some b) e {a} h = ground arith

ok_inj : {A : Type 0} {a b : A} → ok a ≡ ok b → a ≡ b
ok_inj {A} {a} e = ap {B = A} (λ o. elim o [ failed _ ↦ a | ok x ↦ x ]) e

module _ (w : Control) (a : App) (m d : ℤ) where
  -- The check passed for an app that has an owner.
  pub record Fits : Type 0 where
    pub owner : User
    pub l : UserLimits
    pub known : w.user_by_id a.owner_id ≡ some owner
    pub limited : limits w.settings owner ≡ some l
    pub memory :
        within l.memory_pool_mb
          (reserved_of (memory_of l) a.owner_id a.name w.apps)
          (memory_of l (overrides m d))
        ≡ true
    pub disk :
        within l.disk_pool_mb
          (reserved_of (disk_of l) a.owner_id a.name w.apps)
          (disk_of l (overrides m d))
        ≡ true

  pool_reserved-ok :
      {owner : User} {l : UserLimits} {used : ℤ × ℤ}
      → w.user_by_id a.owner_id ≡ some owner
      → limits w.settings owner ≡ some l
      → pool_reserved w a.owner_id a.name ≡ ok used
      → used ≡ (
        reserved_of (memory_of l) a.owner_id a.name w.apps,
        reserved_of (disk_of l) a.owner_id a.name w.apps,
      )
  unfolding pool_reserved ◌>>=◌ found_or
  pool_reserved-ok {owner} {l} k e h = ok_inj (sym h ∙ rw k (rw e refl))

  check_owner-ok : check_owner w a m d ≡ ok tt → Fits
  unfolding check_owner
  check_owner-ok h =
      let (owner, h1, r1) = bind-ok (found_or (w.user_by_id a.owner_id) no_user) _ h in
      let (l, h2, r2) = bind-ok (found_or (limits w.settings owner) no_limits) _ r1 in
      let (used, h3, r3) = bind-ok (pool_reserved w a.owner_id a.name) _ r2 in
      let (u, h4, r4) =
        bind-ok
          (require (within l.memory_pool_mb used.0 (memory_of l (overrides m d))) memory_pool_full)
          _ r3 in
      let known = found_or-ok (w.user_by_id a.owner_id) no_user h1 in
      let limited = found_or-ok (limits w.settings owner) no_limits h2 in
      let same = pool_reserved-ok known limited h3 in
      record {
        owner = owner;
        l = l;
        known = known;
        limited = limited;
        memory =
            ap (λ (p : ℤ × ℤ). within l.memory_pool_mb p.0 (memory_of l (overrides m d))) (sym same)
            ∙ require-ok _ memory_pool_full h4;
        disk =
            ap (λ (p : ℤ × ℤ). within l.disk_pool_mb p.1 (disk_of l (overrides m d))) (sym same)
            ∙ require-ok _ disk_pool_full r4;
      }

  pub check_pool_fits-ok : str_eq a.owner_id "" ≡ false → check_pool_fits w a m d ≡ ok tt → Fits
  unfolding check_pool_fits
  check_pool_fits-ok owned h = check_owner-ok (ground arith)

-- What a limit of `cur` may become: itself, none, or a number from the floor to the ceiling.
abbrev pub InBounds : ℕ → ℤ → ℤ → Type 0
InBounds floor cur v =
    (v ≡ cur) ⊎ ((v ≡ pos 0) ⊎ ((n : ℕ) × (v ≡ pos n) × (floor ≤ n) × (n ≤ max_app_limit_mb)))

patch_pos-ok : (cur : ℤ) (n floor : ℕ) (v : ℤ) → patch_pos cur n floor ≡ ok v → InBounds floor cur v
unfolding patch_pos
patch_pos-ok cur n floor v h = elim (Bool-cases (n == 0)) [
  | inl zero ↦ inl (ground arith)
  | inr set ↦ elim (Bool-cases (ltb n floor)) [
    | inl small ↦ absurd (ground arith)
    | inr enough ↦ elim (Bool-cases (ltb max_app_limit_mb n)) [
      | inl large ↦ absurd (ground arith)
      | inr fine ↦ inr (inr (n, ground arith, ground arith, ground arith))
    ]
  ]
]

patch-ok : (cur req : ℤ) (floor : ℕ) (v : ℤ) → patch cur req floor ≡ ok v → InBounds floor cur v
unfolding patch
patch-ok cur (pos n) floor v h = patch_pos-ok cur n floor v h
patch-ok cur (negsuc n) floor v h = inr (inl (ground arith))

-- An accepted request: who made it, what it set, and that it fits.
pub record IsUpdate (w : Control) (c : Caller) (name : String) (body : Option Patch) (w' : Control)
    : Type 0 where
  pub app : App
  pub req : Patch
  pub m : ℤ
  pub d : ℤ
  pub cpu : ℤ
  pub no_app_token : c.app_scope ≡ ""
  pub found : find_app w.apps name ≡ some app
  pub live : app.soft_deleted_at ≡ 0
  pub by_owner : (is_admin c ≡ true) ⊎ (app.owner_id ≡ user_id c)
  pub decoded : body ≡ some req
  pub memory : InBounds 64 app.memory_limit_mb m
  pub disk : InBounds 256 app.disk_limit_mb d
  pub cpu_cap : InBounds 100 app.cpu_milli cpu
  pub cpu_by_admin : (is_zero req.cpu_milli || is_admin c) ≡ true
  pub fits : check_pool_fits w app m d ≡ ok tt
  pub result : w' ≡ updated w app.name m d cpu

owner_app-ok :
    (w : Control) (c : Caller) (name : String) (a : App)
    → owner_app w c name ≡ ok a
    → (find_app w.apps name ≡ some a)
      × ((a.soft_deleted_at == 0) ≡ true)
      × ((is_admin c || str_eq a.owner_id (user_id c)) ≡ true)
unfolding owner_app owned_app
owner_app-ok w c name a h =
    let (b, owned, r) = bind-ok (owned_app w c name) _ h in
    let (u, may, r') =
      bind-ok (require (is_admin c || str_eq b.owner_id (user_id c)) forbidden) _ r in
    let (b', found, q) = bind-ok (found_or (find_app w.apps name) app_not_found) _ owned in
    let (v, live, q') = bind-ok (require (b'.soft_deleted_at == 0) app_not_found) _ q in
    let (_, _, last) = bind-ok (require (may_act w c b') app_not_found) _ q' in
    let same = ok_inj last ∙ ok_inj r' in
    (
      found_or-ok (find_app w.apps name) app_not_found found ∙ ap some same,
      ap (λ (x : App). x.soft_deleted_at == 0) (sym same)
          ∙ require-ok (b'.soft_deleted_at == 0) app_not_found live,
      ap (λ (x : App). is_admin c || str_eq x.owner_id (user_id c)) (sym (ok_inj r'))
          ∙ require-ok (is_admin c || str_eq b.owner_id (user_id c)) forbidden may,
    )

admin_or_owner : (b : Bool) (o u : String) → (b || str_eq o u) ≡ true → (b ≡ true) ⊎ (o ≡ u)
admin_or_owner true o u h = inl refl
admin_or_owner false o u h = inr (str_eq→eq o u h)

-- An accepted change of limits is not made with an app token; it is made by the owner of the app or an
-- admin, by an admin if it touches the CPU; the app is there and not deleted; each of its limits stays
-- as it was, is cleared, or is set between its floor and the ceiling; the new ones passed the pool
-- check, and what changes is the app's row and what is recorded for it.
pub handle_app_limits_update-IsUpdate :
    (w : Control) (c : Caller) (name : String) (body : Option Patch) (w' : Control)
    → handle_app_limits_update w c name body ≡ ok w'
    → IsUpdate w c name body w'
unfolding handle_app_limits_update
handle_app_limits_update-IsUpdate w c name body w' h =
    let (u1, scope, r1) = bind-ok (require (str_eq c.app_scope "") app_token) _ h in
    let (a, owned, r2) = bind-ok (owner_app w c name) _ r1 in
    let (req, decoded, r3) = bind-ok (found_or body bad_request) _ r2 in
    let (m, memory, r4) = bind-ok (patch a.memory_limit_mb req.memory_mb 64) _ r3 in
    let (d, disk, r5) = bind-ok (patch a.disk_limit_mb req.disk_mb 256) _ r4 in
    let (cpu, cpu_cap, r6) = bind-ok (patch a.cpu_milli req.cpu_milli 100) _ r5 in
    let (u7, by_admin, r7) =
      bind-ok (require (is_zero req.cpu_milli || is_admin c) cpu_is_admins) _ r6 in
    let (u8, fits, r8) = bind-ok (check_pool_fits w a m d) _ r7 in
    let (u9, written, r9) = bind-ok (require w.writable store_failed) _ r8 in
    let (found, live, by_owner) = owner_app-ok w c name a owned in
    record {
      app = a;
      req = req;
      m = m;
      d = d;
      cpu = cpu;
      no_app_token = str_eq→eq c.app_scope "" (require-ok (str_eq c.app_scope "") app_token scope);
      found = found;
      live = ground arith;
      by_owner = admin_or_owner (is_admin c) a.owner_id (user_id c) by_owner;
      decoded = found_or-ok body bad_request decoded;
      memory = patch-ok a.memory_limit_mb req.memory_mb 64 m memory;
      disk = patch-ok a.disk_limit_mb req.disk_mb 256 d disk;
      cpu_cap = patch-ok a.cpu_milli req.cpu_milli 100 cpu cpu_cap;
      cpu_by_admin = require-ok (is_zero req.cpu_milli || is_admin c) cpu_is_admins by_admin;
      fits = fits;
      result = sym (ok_inj r9);
    }
