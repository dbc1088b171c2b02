-- ===== src/Fs/Choices.antt =====
-- Which options a pool of connections may have.
use fsspec_db.Prelude.{ℕ, ◌≤◌, ◌<◌, ◌≡◌, refl, ◌↔◌, Option, none, some, arith}
use fsspec_db.Error.{ok}
use fsspec_db.Fs.Database.{DbPoolOptions, validate, validate_bounds}

-- The bounds that a pool may have.
abbrev pub AreBounds : Option ℕ → Option ℕ → Type 0
AreBounds _ none = Unit
AreBounds none (some most) = 0 < most
AreBounds (some least) (some most) = (0 < most) × (least ≤ most)

-- The options of a pool are accepted exactly if the upper bound is not 0, and not below the lower
-- bound, where there is one.
pub validate_lem :
    (o : DbPoolOptions) → (validate o ≡ ok tt) ↔ AreBounds o.min_connections o.max_connections
unfolding validate validate_bounds
validate_lem o = go o.min_connections o.max_connections
  where
    go :
        (least most : Option ℕ)
        → (validate (record { min_connections = least; max_connections = most }) ≡ ok tt)
          ↔ AreBounds least most
    go none none = (λ h. tt, λ h. refl)
    go (some least) none = (λ h. tt, λ h. refl)
    go none (some most) = ground arith
    go (some least) (some most) = ground arith
