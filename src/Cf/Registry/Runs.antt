-- ===== src/Cf/Registry/Runs.antt =====
-- Runs of the registry, where an engine is the name it was opened with.
use scoria_db.Base.{◌≡◌, refl, Option, none, some, [], ◌∷◌, if◌then◌else◌, Result, ok}
use scoria_db.Base.Bytes.{Bytes}
use scoria_db.Base.Map.{bytes_key, bytes_equal, lookup, insert}
use scoria_db.Cf.Registry.{Registry, default_cf, auth_cf, meta_cf, new_registry}
use scoria_db.Cf.Registry.Lifetime.{drop_of, change, Outcome, change_cases}

abbrev open_any : Bytes → Result (Unit {0}) Bytes
open_any name = ok name

-- Close of the engine of the default family fails, and leaves it without a name.
abbrev close_any : Bytes → Option (Unit {0}) × Bytes
close_any eng = if bytes_equal eng default_cf then (some tt, []) else (none, eng)

abbrev two_families : Registry Bytes
two_families = record { cfs = (default_cf, default_cf) ∷ (auth_cf, auth_cf) ∷ [] }

change_cases_example :
    Outcome open_any close_any
      (drop_of default_cf)
      two_families
      (change open_any close_any (drop_of default_cf) two_families)
change_cases_example = change_cases open_any close_any (drop_of default_cf) two_families

-- The default family is created first, and the directories behind it are loaded.
loaded :
    new_registry open_any close_any (meta_cf ∷ default_cf ∷ [])
    ≡ ok (record { cfs = (default_cf, default_cf) ∷ (meta_cf, meta_cf) ∷ [] })
unfolding new_registry bytes_equal lookup insert
loaded = refl
