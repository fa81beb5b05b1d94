-- ===== src/Scan/Located.antt =====
-- `open` of JDBCDataSource in be/datasource/jdbc_connector.cpp on a driver manager that is valid.
use mathlib.Core.Path.{subst}
use sr_scanner_demo.Base.{
  Option, none, some, ◌≡◌, refl, sym, ap, ◌∙◌, Bytes, done, done-injective, inl, inr, Option-cases,
  if◌then◌else◌, >>=-eq-done,
}
use sr_scanner_demo.Base.Int.{pos}
use sr_scanner_demo.Base.Actions.{give, run->>=, ◌>>=◌}
use sr_scanner_demo.Status.{Status, ok_status, is_ok}
use sr_scanner_demo.Runtime.State.{RuntimeState}
use sr_scanner_demo.Table.Descriptors.{TupleDescriptor, DescriptorTbl, get_tuple_descriptor}
use sr_scanner_demo.Driver.Manager.{Manager}
use sr_scanner_demo.Driver.Manager.Invariant.{IsValid}
use sr_scanner_demo.Driver.Manager.Answer.{Answers, get_driver_location_total}
use sr_scanner_demo.Udf.Jni.{Jni}
use sr_scanner_demo.Scanner.{JdbcScanner, new_scanner}
use sr_scanner_demo.Scanner.Columns.{open_scanner}
use sr_scanner_demo.Scanner.Opened.{open_scanner-IsLike}
use sr_scanner_demo.Scan.DataSource.{
  Program, Environment, JdbcDataSource, driver_name, driver_url, driver_checksum, pointed, in_jvm,
  locate, start_scanner, create_scanner, open_source, desc_tbl,
}

-- The data source has a scanner for the tuple, with the driver that the manager has for its name.
abbrev pub HasScanner : TupleDescriptor → JdbcDataSource → Manager → Type 0
HasScanner t d m =
    (s : JdbcScanner) × (d.scanner ≡ some s)
    × (s.slot_descs ≡ t.slots)
    × Answers driver_name driver_checksum s.scan_ctx.driver_path m

module _ {J W : Type 0} (jni : Jni J) (download : Bytes → Bytes → Bytes → Bytes → W → Status × W)
    (env : Environment) where
  locate_lem :
      (p : Program J W)
      → IsValid p.manager
      → (location : Bytes) × (q : Program J W) × (locate jni download env p
          ≡ done ((ok_status, location), q))
        × IsValid q.manager
        × Answers driver_name driver_checksum location q.manager
  unfolding locate ◌>>=◌
  locate_lem p v =
      let (location, m, w, e, v', a) =
        get_driver_location_total download driver_name driver_url driver_checksum env.now p.manager
          p.world v in
      (location, record p { manager = m; world = w }, rw e refl, v', a)

  pointed-some :
      {A V : Type 0} (x : Option A) (v : V) (r : A × V)
      → pointed x v ≡ done r
      → (x ≡ some r.0) × (v ≡ r.1)
  pointed-some none v r h = absurd (cc h)
  pointed-some (some a) v r h =
      let e = done-injective (a, v) r h in (ap (λ x. some x.0) e, ap (λ x. x.1) e)

  -- What is left of a scan that has its driver.
  abbrev IsStarted : JdbcDataSource → (Status × JdbcDataSource) × Program J W → Type 0
  IsStarted d r =
      (t : TupleDescriptor) × (d.tuple_desc ≡ some t)
      × (r.0.0 ≡ ok_status)
      × IsValid r.1.manager
      × HasScanner t r.0.1 r.1.manager

  start_scanner_lem :
      (location : Bytes) (d : JdbcDataSource) (q : Program J W)
      (r : (Status × JdbcDataSource) × Program J W)
      → IsValid q.manager
      → Answers driver_name driver_checksum location q.manager
      → start_scanner jni download env location d q ≡ done r
      → IsStarted d r
  unfolding start_scanner new_scanner
  start_scanner_lem location d q r v a h =
      let ((t, q'), e, h') = run->>= (pointed d.tuple_desc) _ q h in
      let (there, same) = pointed-some d.tuple_desc q (t, q') e in
      let (x, e', last) = run->>= (in_jvm jni (open_scanner jni env.java_home _)) _ q' h' in
      let (y, opened, last') =
        >>=-eq-done (open_scanner jni env.java_home _ q'.jvm)
          (λ z. done (z.0, record q' { jvm = z.1 })) e' in
      let (_, (context, slots)) = open_scanner-IsLike jni env.java_home _ q'.jvm y opened in
      let kept =
        subst (λ u. IsValid u.manager × Answers driver_name driver_checksum location u.manager) same
          (v, a) in
      subst (IsStarted d) (done-injective _ r last) (
        subst (λ z. IsStarted d ((ok_status, record d { scanner = some z.0.1 }), z.1))
          (done-injective _ x last')
          (
            t,
            there,
            refl,
            kept.0,
            (
              y.0.1,
              refl,
              slots,
              subst (λ c. Answers driver_name driver_checksum c.driver_path q'.manager)
                  (sym context) kept.1,
            ),
          ))

  desc_tbl_some :
      {V : Type 0} (state : RuntimeState) (v : V) (r : DescriptorTbl × V)
      → desc_tbl state v ≡ done r
      → (state.desc_tbl ≡ some r.0) × (v ≡ r.1)
  unfolding desc_tbl
  desc_tbl_some state v r h = elim (Option-cases state.desc_tbl) [
    | inl e ↦ absurd (let q = rw (e, desc_tbl) at h in cc q)
    | inr (tbl, e) ↦
        let q = done-injective (tbl, v) r (rw (e, desc_tbl) at h) in
        (e ∙ ap (λ x. some x.0) q, ap (λ x. x.1) q)
  ]

  create_scanner_lem :
      (d : JdbcDataSource) (p : Program J W) (r : (Status × JdbcDataSource) × Program J W)
      → IsValid p.manager
      → create_scanner jni download env d p ≡ done r
      → IsStarted d r
  unfolding create_scanner is_ok
  create_scanner_lem d p r v h =
      let (location, q, e, v', a) = locate_lem p v in
      let (x, e₁, h₁) = run->>= (locate jni download env) _ p h in
      let same = done-injective ((ok_status, location), q) x (sym e ∙ e₁) in
      start_scanner_lem location d q r v' a (
        subst
          (λ z.
            (if is_ok z.0.0 then start_scanner jni download env z.0.1 d else give (z.0.0, d)) z.1
            ≡ done r)
          (sym same) h₁)

  -- Where the driver manager is valid, an `open` of the data source that returns is OK: the state of
  -- the query has descriptors and the tuple 123 among them, and the data source has a scanner with its
  -- slots, whose driver is the one that the manager, still valid, has for the driver's name.
  pub open_source_lem :
      (state : RuntimeState) (d : JdbcDataSource) (p : Program J W)
      (r : (Status × JdbcDataSource) × Program J W)
      → IsValid p.manager
      → open_source jni download env state d p ≡ done r
      → (tbl : DescriptorTbl) × (t : TupleDescriptor) × (state.desc_tbl ≡ some tbl)
        × (get_tuple_descriptor (pos 123) tbl ≡ some t)
        × (r.0.0 ≡ ok_status)
        × IsValid r.1.manager
        × HasScanner t r.0.1 r.1.manager
  unfolding open_source
  open_source_lem state d p r v h =
      let ((tbl, q), e, h') = run->>= (desc_tbl state) _ p h in
      let (has, same) = desc_tbl_some state p (tbl, q) e in
      let (x, e', last) = run->>= (create_scanner jni download env _) _ q h' in
      let (t, found, _, v', s) =
        create_scanner_lem _ q x (subst (λ u. IsValid u.manager) same v) e' in
      let out = done-injective _ r last in
      subst
        (λ z.
          (tbl : DescriptorTbl) × (t : TupleDescriptor) × (state.desc_tbl ≡ some tbl)
          × (get_tuple_descriptor (pos 123) tbl ≡ some t)
          × (z.0.0 ≡ ok_status)
          × IsValid z.1.manager
          × HasScanner t z.0.1 z.1.manager)
        out (tbl, t, has, found, refl, v', s)
