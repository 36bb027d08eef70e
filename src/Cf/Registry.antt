-- ===== src/Cf/Registry.antt =====
-- internal/cf/registry.go: the registry of column families. `E` is the state of an engine; opening
-- and closing one are arguments, and may fail; closing returns the state that it leaves, also where it
-- fails, since the engine of the map is the one that is closed.
pub mod Lifetime
mod Runs
use scoria_db.Base.{
  Bool, ◌||◌, Option, none, some, List, [], ◌∷◌, map, if◌then◌else◌, Result, ok, err,
}
use scoria_db.Base.Bytes.{Bytes}
use scoria_db.Base.Map.{Map, bytes_key, bytes_equal, lookup, insert}
use scoria_db.Base.Map as Map

-- "default", "__auth__", "__meta__" and "__keyspace__"
abbrev pub default_cf : Bytes
default_cf = 100 ∷ 101 ∷ 102 ∷ 97 ∷ 117 ∷ 108 ∷ 116 ∷ []

abbrev pub auth_cf : Bytes
auth_cf = 95 ∷ 95 ∷ 97 ∷ 117 ∷ 116 ∷ 104 ∷ 95 ∷ 95 ∷ []

abbrev pub meta_cf : Bytes
meta_cf = 95 ∷ 95 ∷ 109 ∷ 101 ∷ 116 ∷ 97 ∷ 95 ∷ 95 ∷ []

abbrev pub keyspace_cf : Bytes
keyspace_cf = 95 ∷ 95 ∷ 107 ∷ 101 ∷ 121 ∷ 115 ∷ 112 ∷ 97 ∷ 99 ∷ 101 ∷ 95 ∷ 95 ∷ []

unfoldable pub is_system_cf : Bytes → Bool
is_system_cf name =
    bytes_equal name auth_cf || (bytes_equal name meta_cf || bytes_equal name keyspace_cf)

-- What a registry refuses, and the wrapped errors of an engine.
pub data CfError (X : Type 0) : Type 0 where
  already_exists not_found is_system : Bytes → CfError X
  failed : Bytes → X → CfError X

-- After Close the map is nil, which is read as empty.
pub record Registry (E : Type 0) : Type 0 where
  pub cfs : Map Bytes E

module _ {E X : Type 0} (open_engine : Bytes → Result X E) (close_engine : E → Option X × E) where
  unfoldable pub create_cf : Bytes → Registry E → Option (CfError X) × Registry E
  create_cf name reg = elim (lookup name reg.cfs) [
    | some eng ↦ (some (already_exists name), reg)
    | none ↦ elim (open_engine name) [
      | err e ↦ (some (failed name e), reg)
      | ok eng ↦ (none, record { cfs = insert name eng reg.cfs })
    ]
  ]

  unfoldable pub get_cf : Bytes → Registry E → Result (CfError X) E
  get_cf name reg = elim (lookup name reg.cfs) [ some eng ↦ ok eng | none ↦ err (not_found name) ]

  unfoldable pub drop_cf : Bytes → Registry E → Option (CfError X) × Registry E
  unfolding is_system_cf
  drop_cf name reg =
      if is_system_cf name then (some (is_system name), reg) else elim (lookup name reg.cfs) [
        | none ↦ (some (not_found name), reg)
        | some eng ↦
            let (failure, eng') = close_engine eng in
            elim failure [
              | some e ↦ (some (failed name e), record { cfs = insert name eng' reg.cfs })
              | none ↦ (none, record { cfs = Map.delete name reg.cfs })
            ]
      ]

  unfoldable pub list_cfs : Registry E → List Bytes
  list_cfs reg = map (λ entry. entry.0) reg.cfs

  -- The loop over the directories: each is created unless it is there; a failure is only printed.
  unfoldable pub load_directories : List Bytes → Registry E → Registry E
  load_directories [] reg = reg
  load_directories (name ∷ names) reg = load_directories names (
      if bytes_equal name default_cf
      then reg
      else elim (lookup name reg.cfs) [ some eng ↦ reg | none ↦ (create_cf name reg).1 ])

  -- NewRegistryWithOptions, where `directories` are those that ReadDir finds.
  unfoldable pub new_registry : List Bytes → Result (CfError X) (Registry E)
  unfolding create_cf load_directories
  new_registry directories =
      let (failure, reg) = create_cf default_cf (record { cfs = [] }) in
      elim failure [ some e ↦ err e | none ↦ ok (load_directories directories reg) ]

  -- Close goes on after an error, and returns the first.
  unfoldable pub close_all : Map Bytes E → Option (CfError X) → Option (CfError X)
  close_all [] first_err = first_err
  close_all ((name, eng) ∷ cfs) first_err = close_all cfs (elim (close_engine eng).0 [
    | none ↦ first_err
    | some e ↦ elim first_err [ some f ↦ some f | none ↦ some (failed name e) ]
  ])

  unfoldable pub close : Registry E → Option (CfError X) × Registry E
  unfolding close_all
  close reg = (close_all reg.cfs none, record { cfs = [] })
