-- ===== src/Scan/Whole.antt =====
-- The whole program of be/main.cpp and be/operator/scan_operator.cpp: what a scan and a run come to.
use sr_scanner_demo.Base.{
  ℕ, true, none, [], ◌∷◌, ◌≡◌, refl, sym, ap, ◌∙◌, Bytes, done, fault, null_pointer, done-injective,
}
use sr_scanner_demo.Base.Actions.{give, run->>=, ◌>>=◌}
use sr_scanner_demo.Status.{Status, ok_status, is_ok}
use sr_scanner_demo.Runtime.State.{RuntimeState, new_state}
use sr_scanner_demo.Fs.{Fs}
use sr_scanner_demo.Driver.Manager
use sr_scanner_demo.Udf.Jni.{Jni}
use sr_scanner_demo.Scan.Batch.{read_batch, buffer_next_batch_chunks_blocking}
use sr_scanner_demo.Scan.ChunkSource.{read_chunk, ConnectorChunkSource, read_chunk-Never}
use sr_scanner_demo.Scan.DataSource.{
  Program, Environment, JdbcDataSource, get_next, open_source, create_scanner, desc_tbl,
}
use sr_scanner_demo.Scan.Scanned.{get_next_ends}
use sr_scanner_demo.Scan.Operators.{
  new_operator, read, init_manager, main, process, jdbc_drivers_dir,
}

ok_is_ok : is_ok ok_status ≡ true
unfolding is_ok
ok_is_ok = refl

module _ {J W : Type 0} (jni : Jni J) (download : Bytes → Bytes → Bytes → Bytes → W → Status × W)
    (env : Environment) (state : RuntimeState) where
  open_source_ok :
      (d : JdbcDataSource) (p : Program J W) (r : (Status × JdbcDataSource) × Program J W)
      → open_source jni download env state d p ≡ done r
      → is_ok r.0.0 ≡ true
  unfolding open_source
  open_source_ok d p r h =
      let (q, _, rest) = run->>= (desc_tbl state) _ p h in
      let (t, _, last) = run->>= (create_scanner jni download env _) _ q.1 rest in
      sym (ap (λ x. is_ok x.0.0) (done-injective _ r last)) ∙ ok_is_ok

  get_next_ok :
      (fuel : ℕ) (d : JdbcDataSource) (p : Program J W)
      (r : (Status × JdbcDataSource) × Program J W)
      → ◌>>=◌ (get_next jni fuel none d) (λ x. give (x.0, d)) p ≡ done r
      → is_ok r.0.0 ≡ true
  get_next_ok fuel d p r h =
      let (q, e, last) = run->>= (get_next jni fuel none d) _ p h in
      sym (ap (λ x. is_ok x.0.0) (done-injective _ r last))
      ∙ ap (λ x. is_ok x.0) (get_next_ends jni fuel none d p q e)
      ∙ ok_is_ok

  -- A read of a chunk source without an error over the JDBC data source never returns, whatever Java,
  -- the download and the rest of the program do, and with any fuel.
  pub read_never_returns :
      (fuel : ℕ) (s : ConnectorChunkSource JdbcDataSource) (p : Program J W)
      (r : (Status × ConnectorChunkSource JdbcDataSource) × Program J W)
      → is_ok s.status ≡ true
      → ¬ (read jni download env fuel state s p ≡ done r)
  unfolding read
  read_never_returns fuel s p r good =
      (read_chunk-Never _ _ open_source_ok (get_next_ok fuel) fuel s good).at p r

-- The scan of `main` reads its descriptors through a null pointer.
process_faults :
    {J W : Type 0} (jni : Jni J) (download : Bytes → Bytes → Bytes → Bytes → W → Status × W)
    (env : Environment) (fuel : ℕ) (p : Program J W)
    → process jni download env fuel new_state (new_operator ∷ []) p ≡ fault null_pointer
unfolding process buffer_next_batch_chunks_blocking read_batch read_chunk open_source is_ok ◌>>=◌
process_faults jni download env fuel p = refl

-- A run of the program whose `init` of the driver manager returns reads a null pointer: the runtime
-- state of `main` has no descriptors. So no chunk is ever asked for, whatever Java and the download do.
pub main_faults :
    {J : Type 0} (jni : Jni J) (download : Bytes → Bytes → Bytes → Bytes → Fs → Status × Fs)
    (env : Environment) (fuel : ℕ) (p : Program J Fs) (r : Manager.Manager × Fs)
    → Manager.init jdbc_drivers_dir p.manager p.world ≡ done r
    → main jni download env fuel p ≡ fault null_pointer
unfolding main init_manager ◌>>=◌
main_faults jni download env fuel p r h =
    rw (h, main)
      (rw (process_faults jni download env fuel (record p { manager = r.0; world = r.1 })) refl)
