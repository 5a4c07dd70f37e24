-- ===== src/Version/Order.antt =====
-- The order of versions and the upgrade rules.
use talos_mcp_server.Common.{
  ℕ, zero, suc, ◌+◌, ◌≤◌, ◌<◌, ◌≡◌, refl, ◌↔◌, ◌⊎◌, inl, inr, true, false, not, ◌&&◌, arith, ok,
}
use talos_mcp_server.Version.{TalosVersion, less, equal, in_supported_range, validate_upgrade_path}

-- Lexicographic order of the three fields, written out.
abbrev pub Before : TalosVersion → TalosVersion → Type 0
Before v w =
    (v.major < w.major)
    ⊎ ((v.major ≡ w.major) × (v.minor < w.minor))
    ⊎ ((v.major ≡ w.major) × (v.minor ≡ w.minor) × (v.patch < w.patch))

less-Before : (v w : TalosVersion) → (less v w ≡ true) ↔ Before v w
unfolding less
less-Before v w = ground arith

Before-trans : (u v w : TalosVersion) → Before u v → Before v w → Before u w
Before-trans u v w p q = omega arith

less_total : (u v : TalosVersion) → (less u v ≡ true) ⊎ (u ≡ v) ⊎ (less v u ≡ true)
unfolding less
less_total u v = ground arith

less_irrefl : (u : TalosVersion) → less u u ≡ false
unfolding less
less_irrefl u = ground arith

less_trans : (u v w : TalosVersion) → less u v ≡ true → less v w ≡ true → less u w ≡ true
less_trans u v w p q =
    let a = (less-Before u v).0 p in
    let b = (less-Before v w).0 q in (less-Before u w).1 (Before-trans u v w a b)

equal_iff : (u v : TalosVersion) → (equal u v ≡ true) ↔ (u ≡ v)
unfolding equal
equal_iff u v = ground arith

-- `less` is a strict total order on versions: any two are equal or one is less, none is less than
-- itself, a version less than one that is less than a third is less than the third; and `equal`
-- decides equality.
less_strict_order :
    (u v w : TalosVersion)
    → ((less u v ≡ true) ⊎ (u ≡ v) ⊎ (less v u ≡ true))
      × (less u u ≡ false)
      × ((less u v && less v w && not (less u w)) ≡ false)
      × ((equal u v ≡ true) ↔ (u ≡ v))
less_strict_order u v w =
    (less_total u v, less_irrefl u, ground (arith, less_trans u v w), equal_iff u v)

validate_sound :
    (c t : TalosVersion)
    → validate_upgrade_path c t ≡ ok tt
    → (t.major ≡ c.major) × Before c t × (t.minor ≤ c.minor + 1)
unfolding validate_upgrade_path
validate_sound c t h = ground arith

validate_complete :
    (c t : TalosVersion)
    → (t.major ≡ c.major) × Before c t × (t.minor ≤ c.minor + 1)
    → validate_upgrade_path c t ≡ ok tt
unfolding validate_upgrade_path
validate_complete c t h = ground arith

-- An upgrade is accepted exactly when the major stays, the target is newer, and its minor is the
-- current one or the next.
pub validate_upgrade_path_iff :
    (c t : TalosVersion)
    → (validate_upgrade_path c t ≡ ok tt)
      ↔ ((t.major ≡ c.major) × Before c t × (t.minor ≤ c.minor + 1))
validate_upgrade_path_iff c t = (validate_sound c t, validate_complete c t)

-- `Upgrades n v w`: n accepted upgrades in a row lead from v to w.
pub data Upgrades : ℕ → TalosVersion → TalosVersion → Type 0 where
  here : (v : TalosVersion) → Upgrades zero v v
  next :
      {n : ℕ} {u v w : TalosVersion}
      → Upgrades n u v
      → validate_upgrade_path v w ≡ ok tt
      → Upgrades (suc n) u w

-- A chain of accepted upgrades stays in its major series, raises the minor by at most one for each
-- step, and never returns to a version at or below its start.
Upgrades-bound :
    {n : ℕ} {v w : TalosVersion}
    → Upgrades n v w
    → (w.major ≡ v.major) × (w.minor ≤ v.minor + n) × (((n ≡ 0) × (v ≡ w)) ⊎ Before v w)
Upgrades-bound (here v) = (refl, omega arith, inl (refl, refl))
Upgrades-bound (next {n} {u} {v} {w} c h) =
    let (a, b, d) = Upgrades-bound c in
    let (e, f, g) = validate_sound v w h in (omega arith, omega arith, inr (later d f))
  where
    later : ((n ≡ 0) × (u ≡ v)) ⊎ Before u v → Before v w → Before u w
    later (inl (_, e)) f = rw e f
    later (inr p) f = Before-trans u v w p f

-- The supported range: from 1.9.0 on, up to any patch of 1.13 that is at most 255.
in_supported_range_iff :
    (v : TalosVersion)
    → (in_supported_range v ≡ true)
      ↔ ((v.major ≡ 1) × (9 ≤ v.minor) × (v.minor ≤ 13) × ((v.minor < 13) ⊎ (v.patch ≤ 255)))
unfolding in_supported_range
in_supported_range_iff v = (λ h. ground arith, λ h. ground arith)
