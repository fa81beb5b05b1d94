-- ===== src/Driver/Manager/Registry/Locations.antt =====
-- What holds of the locations that the registry of be/runtime/jdbc_driver_manager.cpp gives.
use mathlib.Core.Path.{subst}
use mathlib.Core.Option.{some-injective}
use sr_scanner_demo.Base.{
  true, false, some, List, [], ◌∷◌, All, ◌≡◌, sym, ap, Bytes, bytes_eq, Bool-cases, Option-cases,
  inl, inr,
}
use sr_scanner_demo.Base.Int.{ℤ}
use sr_scanner_demo.Driver.FileName.{generate_driver_location}
use sr_scanner_demo.Driver.Manager.Registry.{Registry, register, locate, locate_all, Call}
use sr_scanner_demo.Driver.Manager.Registry.Reserving.{locate_new, locate_known}

module _ (P : Bytes → Type 0) (dir : Bytes) where
  -- It holds of every location that the registry has.
  abbrev pub Everywhere : Registry → Type 0
  Everywhere reg =
      (name checksum location : Bytes) → reg name ≡ some (checksum, location) → P location

  -- It holds of the location that a call would make.
  abbrev pub Generates : Call → Type 0
  Generates c = P (generate_driver_location dir c.name c.checksum c.now)

  register-Everywhere :
      (name checksum : Bytes) (now : ℤ) (reg : Registry)
      → P (generate_driver_location dir name checksum now)
      → Everywhere reg
      → P (register dir name checksum now reg).0 × Everywhere (register dir name checksum now reg).1
  register-Everywhere name checksum now reg new all = (
    new,
    λ n c l h. elim (Bool-cases (bytes_eq name n)) [
      | inl same ↦ subst P (ap (λ q. q.1) (some-injective _ (c, l) (rw same at h))) new
      | inr other ↦ all n c l (rw other at h)
    ],
  )

  abbrev Both : Bytes × Registry → Type 0
  Both p = P p.0 × Everywhere p.1

  locate-Everywhere :
      (c : Call) (reg : Registry)
      → Generates c
      → Everywhere reg
      → Both (locate dir c.name c.checksum c.now reg)
  locate-Everywhere c reg new all =
      let made = register-Everywhere c.name c.checksum c.now reg new all in
      elim (Option-cases (reg c.name)) [
        | inl unknown ↦ subst Both (sym (locate_new dir c.name c.checksum c.now reg unknown)) made
        | inr ((checksum, location), known) ↦ elim (Bool-cases (bytes_eq checksum c.checksum)) [
          | inl same ↦
              subst Both
                (sym
                  (locate_known dir c.name c.checksum c.now reg checksum location true known same))
                (all c.name checksum location known, all)
          | inr other ↦
              subst Both
                (sym (
                  locate_known dir c.name c.checksum c.now reg checksum location false known other))
                made
        ]
      ]

  pub locate_all-Everywhere :
      (cs : List Call) (reg : Registry)
      → All Generates cs
      → Everywhere reg
      → All P (locate_all dir cs reg).0
  locate_all-Everywhere [] reg new all = tt
  locate_all-Everywhere (c ∷ cs) reg (new, news) all =
      let (here, rest) = locate-Everywhere c reg new all in
      (here, locate_all-Everywhere cs (locate dir c.name c.checksum c.now reg).1 news rest)
