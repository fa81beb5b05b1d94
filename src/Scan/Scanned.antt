-- ===== src/Scan/Scanned.antt =====
-- What a scan through the JDBCDataSource of be/datasource/jdbc_connector.cpp comes to.
use sr_scanner_demo.Base.{
  ℕ, zero, suc, Bool, true, false, Option, ◌≡◌, refl, sym, ap, ◌∙◌, done, done-injective,
  >>=-eq-done, >>=-ext,
}
use sr_scanner_demo.Base.Actions.{run->>=, ◌>>=◌}
use sr_scanner_demo.Status.{Status, ok_status}
use sr_scanner_demo.Udf.Jni.{Jni}
use sr_scanner_demo.Chunk.{Chunk}
use sr_scanner_demo.Scanner.{JdbcScanner}
use sr_scanner_demo.Scanner.Laws.{get_next_iff}
use sr_scanner_demo.Scanner.Reading
use sr_scanner_demo.Scan.DataSource.{Program, JdbcDataSource, pointed, in_jvm, read_rows, get_next}

module _ {J W : Type 0} (jni : Jni J) where
  -- A call of the scanner within the program that returns is at the end of the stream.
  scanner_ends :
      (chunk : Option Chunk) (eos : Bool) (s : JdbcScanner) (p : Program J W)
      (r : (Status × (Option Chunk × Bool)) × Program J W)
      → in_jvm jni (Reading.get_next jni chunk eos s) p ≡ done r
      → r.0 ≡ (ok_status, (chunk, true))
  scanner_ends chunk eos s p r h =
      let (q, e, rest) =
        >>=-eq-done (Reading.get_next jni chunk eos s p.jvm)
          (λ q. done (q.0, record p { jvm = q.1 })) h in
      let (status, _, same) = (get_next_iff jni chunk eos s p.jvm q).0 e in
      sym (ap (λ x. x.0) (done-injective _ r rest)) ∙ same

  -- The loop of `get_next` ends after its first round.
  read_rows_once :
      (n : ℕ) (chunk : Option Chunk) (eos : Bool) (s : JdbcScanner) (p : Program J W)
      → read_rows jni (suc n) chunk eos s p ≡ read_rows jni 1 chunk eos s p
  unfolding read_rows ◌>>=◌
  read_rows_once n chunk eos s p =
      >>=-ext (in_jvm jni (Reading.get_next jni chunk eos s) p) _ _
        λ r h. rw (ap (λ x. x.1.1) (scanner_ends chunk eos s p r h)) refl

  read_rows_ends :
      (fuel : ℕ) (chunk : Option Chunk) (eos : Bool) (s : JdbcScanner) (p : Program J W)
      (r : (Option Chunk × Bool) × Program J W)
      → read_rows jni fuel chunk eos s p ≡ done r
      → r.0 ≡ (chunk, true)
  unfolding read_rows
  read_rows_ends zero chunk eos s p r h = absurd (cc h)
  read_rows_ends (suc n) chunk eos s p r h =
      let (q, e, rest) = run->>= (in_jvm jni (Reading.get_next jni chunk eos s)) _ p h in
      let ends = scanner_ends chunk eos s p q e in
      sym (ap (λ x. x.0) (done-injective _ r (rw (ap (λ x. x.1.1) ends) at rest)))
      ∙ ap (λ x. (x.1.0, true)) ends

  get_next_fuel :
      (n : ℕ) (chunk : Option Chunk) (d : JdbcDataSource) (p : Program J W)
      → get_next jni (suc n) chunk d p ≡ get_next jni 1 chunk d p
  unfolding get_next ◌>>=◌
  get_next_fuel n chunk d p =
      >>=-ext (pointed d.scanner p) _ _ λ q h. rw (read_rows_once n chunk false q.0 q.1) refl

  pub get_next_ends :
      (fuel : ℕ) (chunk : Option Chunk) (d : JdbcDataSource) (p : Program J W)
      (r : (Status × Option Chunk) × Program J W)
      → get_next jni fuel chunk d p ≡ done r
      → r.0 ≡ (ok_status, chunk)
  unfolding get_next
  get_next_ends fuel chunk d p r h =
      let (s, _, rest) = run->>= (pointed d.scanner) _ p h in
      let (q, e, last) = run->>= (read_rows jni fuel chunk false s.0) _ s.1 rest in
      let ends = read_rows_ends fuel chunk false s.0 s.1 q e in
      sym (ap (λ x. x.0) (done-injective _ r (rw (ap (λ x. x.1) ends) at last)))
      ∙ ap (λ x. (ok_status, x.0)) ends

  -- One round of the loop in `get_next` of the data source is enough: with more fuel it comes to the
  -- same. Where it returns, it is OK and the chunk is as it was.
  pub get_next_once :
      (n : ℕ) (chunk : Option Chunk) (d : JdbcDataSource) (p : Program J W)
      → (get_next jni (suc n) chunk d p ≡ get_next jni 1 chunk d p)
        × ((r : (Status × Option Chunk) × Program J W)
            → get_next jni (suc n) chunk d p ≡ done r
            → r.0 ≡ (ok_status, chunk))
  get_next_once n chunk d p = (get_next_fuel n chunk d p, get_next_ends (suc n) chunk d p)
