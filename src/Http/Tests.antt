-- ===== src/Http/Tests.antt =====
-- Runs of the client, and its theorems at concrete data.
use sr_scanner_demo.Base.{
  ℕ, ◌+◌, ◌<◌, Bool, true, false, some, [], ◌≡◌, ◌↔◌, refl, Bytes, codes, length, ltb,
  if◌then◌else◌,
}
use sr_scanner_demo.Base.Int.{pos}
use sr_scanner_demo.Status.{Status, ok_status, internal_error, is_ok}
use sr_scanner_demo.Http.Curl.Sample.{two_pieces}
use sr_scanner_demo.Http.Client.{HttpClient, init}
use sr_scanner_demo.Base.Dict
use sr_scanner_demo.Http.Client.Requests.{Saved}
use sr_scanner_demo.Http.Client.Setup.{TakesAll, client_options, init_iff}
use sr_scanner_demo.Http.Client.Retry.{execute_with_retry, execute_with_retry_iff, AllFail, attempt}

-- Collects pieces while fewer than `limit` bytes are there.
abbrev collect : ℕ → Bytes → Bytes → Bool × Bytes
collect limit d w = if ltb (length w) limit then (true, d) else (false, w)

abbrev client : HttpClient (two_pieces Bytes)
client = record { curl = some 0; error_buf = []; header_list = [] }

-- A request that succeeds from a time on; the world is the time.
abbrev ready_at : ℕ → ℕ → Status × ℕ
ready_at t w = (if ltb w t then internal_error (codes "not yet") else ok_status, w + 1)

abbrev nap : ℕ → ℕ
nap w = w + 10

execute_with_retry_iff_example :
    (is_ok (execute_with_retry (ready_at 20) nap (pos 3) 0).0 ≡ true) ↔ (
      (k : ℕ) × (k < 3)
      × AllFail (ready_at 20) nap k 0
      × (is_ok (attempt (ready_at 20) nap k 0).0 ≡ true))
execute_with_retry_iff_example = execute_with_retry_iff (ready_at 20) nap 2 0

abbrev saver : HttpClient (two_pieces Saved)
saver = record { curl = some 0; error_buf = []; header_list = [] }

anything : Bytes → Bytes → Bool
anything content d = true

init_iff_example :
    ((is_ok (init (two_pieces Bytes) (codes "u") client).0 ≡ true)
      ↔ TakesAll (two_pieces Bytes) (client_options (two_pieces Bytes) (codes "u")) 0)
    × (is_ok (init (two_pieces Bytes) (codes "u") client).0 ≡ true
        → (init (two_pieces Bytes) (codes "u") client).1 ≡ client)
init_iff_example = init_iff (two_pieces Bytes) (codes "u") client 0 refl
