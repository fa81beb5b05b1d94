-- ===== src/Scan/Tests.antt =====
-- A data source that fails after two chunks, and the theorem on reading it.
use sr_scanner_demo.Base.{ℕ, suc, true, done, ◌≡◌, ◌↔◌, refl, codes, ltb, if◌then◌else◌}
use sr_scanner_demo.Base.Actions.{Action, give, ◌>>=◌}
use sr_scanner_demo.Base.Decimal.{to_string}
use sr_scanner_demo.Scan.Operators.{new_operator, get_name}
use sr_scanner_demo.Status.{Status, ok_status, internal_error, is_ok}
use sr_scanner_demo.Scan.ChunkSource.{
  ConnectorChunkSource, read_loop, read_opened, read_chunk, ReadsTo, Fails, read_chunk_returns_iff,
}

-- Data source and program count the reads.
abbrev open_two : ℕ → Action ℕ (Status × ℕ)
open_two d = give (ok_status, d)

abbrev two_chunks : ℕ → Action ℕ (Status × ℕ)
two_chunks d w =
    done ((if ltb d 2 then ok_status else internal_error (codes "end of file"), suc d), suc w)

abbrev opened_source : ConnectorChunkSource ℕ
opened_source = record { opened = true; status = ok_status; source = 0 }

two_read :
    read_chunk open_two two_chunks 9 opened_source 0
    ≡ done (
      (
        ok_status,
        record { opened = true; status = internal_error (codes "end of file"); source = 3 },
      ),
      3,
    )
unfolding read_chunk read_opened read_loop is_ok internal_error ◌>>=◌
two_read = refl

ok_is_ok : is_ok ok_status ≡ true
unfolding is_ok
ok_is_ok = refl

read_chunk_returns_iff_example :
    (((fuel : ℕ) × (r : (Status × ConnectorChunkSource ℕ) × ℕ) × (read_chunk open_two two_chunks
            fuel opened_source 0
          ≡ done r))
      ↔ ((k : ℕ) × (v : ℕ × ℕ) × ReadsTo open_two two_chunks k (0, 0) v
          × Fails open_two two_chunks v))
    × ((fuel : ℕ) (r : (Status × ConnectorChunkSource ℕ) × ℕ)
        → read_chunk open_two two_chunks fuel opened_source 0 ≡ done r
        → r.0.0 ≡ ok_status)
read_chunk_returns_iff_example =
    read_chunk_returns_iff open_two two_chunks opened_source 0 refl ok_is_ok

-- Every scan operator has this name.
scan_operator_name : get_name new_operator ≡ codes "1_default"
unfolding get_name to_string
scan_operator_name = refl
