-- ===== src/Cf/Registry/Lifetime.antt =====
-- Which column families there are after creations and drops.
use scoria_db.Base.{
  ◌≡◌, ◌≢◌, ◌⊎◌, inl, inr, refl, sym, subst, ◌∙◌, arith, Bool-cases, Option-cases, Result-cases,
  false, Option, none, some, Result, ok,
}
use scoria_db.Base.Bytes.{Bytes}
use scoria_db.Base.Map.{
  Map, bytes_key, bytes_equal, bytes_equal_iff, bytes_equal_refl, lookup, insert, lookup-insert,
  lookup-delete,
}
use scoria_db.Base.Map as Map
use scoria_db.Cf.Registry.{
  already_exists, failed, is_system, not_found, Registry, CfError, create_cf, drop_cf, CfError,
  is_system_cf,
}

pub data Change : Type 0 where
  create drop_of : Bytes → Change

module _ {E X : Type 0} (open_engine : Bytes → Result X E) (close_engine : E → Option X × E) where
  abbrev pub change : Change → Registry E → Option (CfError X) × Registry E
  change (create name) reg = create_cf open_engine close_engine name reg
  change (drop_of name) reg = drop_cf open_engine close_engine name reg

  abbrev pub name_of : Change → Bytes
  name_of (create name) = name
  name_of (drop_of name) = name

  -- What a change that succeeds has done to the family it names.
  abbrev pub Done : Change → Registry E → Registry E → Type 0
  Done (create name) before after =
      (lookup name before.cfs ≡ none)
      × ((eng : E) × (open_engine name ≡ ok eng) × (lookup name after.cfs ≡ some eng))
  Done (drop_of name) before after =
      (is_system_cf name ≡ false)
      × ((eng : E) × (lookup name before.cfs ≡ some eng) × ((close_engine eng).0 ≡ none))
      × (lookup name after.cfs ≡ none)

  -- Every family but one is as it was.
  abbrev pub OthersKept : Bytes → Registry E → Registry E → Type 0
  OthersKept name before after =
      (other : Bytes) → other ≢ name → lookup other after.cfs ≡ lookup other before.cfs

  -- The engine of a family was closed in vain, and is there in the state that this left.
  abbrev pub ClosedInVain : Bytes → Registry E → Registry E → Type 0
  ClosedInVain name before after =
      (eng : E) × (lookup name before.cfs ≡ some eng)
      × ((close_engine eng).0 ≢ none)
      × (lookup name after.cfs ≡ some (close_engine eng).1)
      × OthersKept name before after

  -- What a change that fails has done.
  abbrev pub Failed : Change → Registry E → Registry E → Type 0
  Failed (create name) before after = after ≡ before
  Failed (drop_of name) before after = (after ≡ before) ⊎ ClosedInVain name before after

  abbrev pub Outcome : Change → Registry E → Option (CfError X) × Registry E → Type 0
  Outcome c reg (failure, after) =
      ((failure ≢ none) × Failed c reg after)
      ⊎ ((failure ≡ none) × Done c reg after × OthersKept (name_of c) reg after)

  refused : (c : Change) (reg : Registry E) (e : CfError X) → Outcome c reg (some e, reg)
  refused (create name) reg e = inl ((λ q. ground (arith, q)), refl)
  refused (drop_of name) reg e = inl ((λ q. ground (arith, q)), inl refl)

  inserted_here :
      (name : Bytes) (eng : E) (cfs : Map Bytes E) → lookup name (insert name eng cfs) ≡ some eng
  inserted_here name eng cfs = lookup-insert name name eng cfs ∙ rw (bytes_equal_refl name) refl

  inserted_elsewhere :
      (name other : Bytes) (eng : E) (cfs : Map Bytes E)
      → other ≢ name
      → lookup other (insert name eng cfs) ≡ lookup other cfs
  inserted_elsewhere name other eng cfs ne =
      lookup-insert name other eng cfs ∙ elim (Bool-cases (bytes_equal name other)) [
        | inl y ↦ absurd (ne (sym ((bytes_equal_iff name other).0 y)))
        | inr n ↦ rw n refl
      ]

  deleted_here : (name : Bytes) (cfs : Map Bytes E) → lookup name (Map.delete name cfs) ≡ none
  deleted_here name cfs = lookup-delete name name cfs ∙ rw (bytes_equal_refl name) refl

  deleted_elsewhere :
      (name other : Bytes) (cfs : Map Bytes E)
      → other ≢ name
      → lookup other (Map.delete name cfs) ≡ lookup other cfs
  deleted_elsewhere name other cfs ne =
      lookup-delete name other cfs ∙ elim (Bool-cases (bytes_equal name other)) [
        | inl y ↦ absurd (ne (sym ((bytes_equal_iff name other).0 y)))
        | inr n ↦ rw n refl
      ]

  created : (name : Bytes) (reg : Registry E) → Outcome (create name) reg (change (create name) reg)
  unfolding create_cf
  created name reg = elim (Option-cases (lookup name reg.cfs)) [
    | inr (eng, e) ↦
        let run : change (create name) reg ≡ (some (already_exists name), reg) =
          rw (e, create_cf) refl in
        subst (Outcome (create name) reg) (sym run)
          (refused (create name) reg (already_exists name))
    | inl n ↦ elim (Result-cases (open_engine name)) [
      | inr (x, e) ↦
          let run : change (create name) reg ≡ (some (failed name x), reg) =
            rw (n, create_cf, e) refl in
          subst (Outcome (create name) reg) (sym run) (refused (create name) reg (failed name x))
      | inl (eng, e) ↦
          let after : Registry E = record { cfs = insert name eng reg.cfs } in
          let run : change (create name) reg ≡ (none, after) = rw (n, create_cf, e) refl in
          subst (Outcome (create name) reg) (sym run) (
            inr (
              refl,
              (n, (eng, e, inserted_here name eng reg.cfs)),
              λ other ne. inserted_elsewhere name other eng reg.cfs ne,
            ))
    ]
  ]

  dropped :
      (name : Bytes) (reg : Registry E) → Outcome (drop_of name) reg (change (drop_of name) reg)
  unfolding drop_cf
  dropped name reg = elim (Bool-cases (is_system_cf name)) [
    | inl y ↦
        let run : change (drop_of name) reg ≡ (some (is_system name), reg) = rw (y, drop_cf) refl in
        subst (Outcome (drop_of name) reg) (sym run) (refused (drop_of name) reg (is_system name))
    | inr ns ↦ elim (Option-cases (lookup name reg.cfs)) [
      | inl n ↦
          let run : change (drop_of name) reg ≡ (some (not_found name), reg) =
            rw (ns, drop_cf, n) refl in
          subst (Outcome (drop_of name) reg) (sym run) (refused (drop_of name) reg (not_found name))
      | inr (eng, e) ↦
          let (failure, eng') = close_engine eng in
          elim (Option-cases failure) [
            | inr (x, f) ↦
                let after : Registry E = record { cfs = insert name eng' reg.cfs } in
                let run : change (drop_of name) reg ≡ (some (failed name x), after) =
                  rw (ns, drop_cf, e, f) refl in
                subst (Outcome (drop_of name) reg) (sym run) (
                  inl (
                    λ q. ground (arith, q),
                    inr (
                      eng,
                      e,
                      λ q. ground (arith, f, q),
                      inserted_here name eng' reg.cfs,
                      λ other ne. inserted_elsewhere name other eng' reg.cfs ne,
                    ),
                  ))
            | inl f ↦
                let after : Registry E = record { cfs = Map.delete name reg.cfs } in
                let run : change (drop_of name) reg ≡ (none, after) = rw (ns, drop_cf, e, f) refl in
                subst (Outcome (drop_of name) reg) (sym run) (
                  inr (
                    refl,
                    (ns, (eng, e, f), deleted_here name reg.cfs),
                    λ other ne. deleted_elsewhere name other reg.cfs ne,
                  ))
          ]
    ]
  ]

  -- A creation that fails leaves the registry as it was, and so does a drop that fails, but where the
  -- family's engine could not be closed: that one stays there as its Close left it, and every other
  -- family as it was. A change that succeeds opened a family that was not there, or closed and
  -- removed one that was there and is no system family, and left every other family as it was.
  pub change_cases :
      (c : Change) (reg : Registry E)
      → let (failure, after) = change c reg in
        ((failure ≢ none) × Failed c reg after)
        ⊎ ((failure ≡ none) × Done c reg after × OthersKept (name_of c) reg after)
  change_cases (create name) reg = created name reg
  change_cases (drop_of name) reg = dropped name reg
