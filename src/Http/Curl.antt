-- ===== src/Http/Curl.antt =====
-- libcurl as be/http/http_client.cpp uses it: a parameter, with its documented behaviour as laws.
pub mod Sample
use sr_scanner_demo.Base.{
  ℕ, ◌≤◌, All, Bool, true, false, Option, List, [], ◌∷◌, ◌≡◌, Bytes, length, ◌==◌, if◌then◌else◌,
}
use sr_scanner_demo.Base.Int.{ℤ}

-- The options that the client sets, with their values.
pub data CurlOption : Type 0 where
  error_buffer write_function write_data httpauth_basic : CurlOption
  nosignal fail_on_error max_redirs follow_location http_get upload post no_body : ℕ → CurlOption
  custom_request url username password copy_post_fields : Bytes → CurlOption
  post_field_size unrestricted_auth ssl_verify_peer ssl_verify_host : ℕ → CurlOption
  low_speed_limit low_speed_time : ℕ → CurlOption
  timeout_ms : ℤ → CurlOption
  http_header : List Bytes → CurlOption

abbrev pub curle_ok : ℕ
curle_ok = 0

abbrev pub curle_write_error : ℕ
curle_write_error = 23

abbrev pub curle_bad_function_argument : ℕ
curle_bad_function_argument = 43

-- How a transfer ended: the code, and the text that it left in the error buffer.
pub record Ended : Type 0 where
  pub code : ℕ
  pub error : Bytes

-- `W` is the world that the write callback reads and changes.
pub record Curl (W : Type 0) : Type 1 where
  pub Handle : Type 0
  -- `curl_easy_init`; `none` is a null pointer
  pub easy_init : Option Handle
  pub easy_reset : Handle → Handle
  pub easy_setopt : Handle → CurlOption → ℕ × Handle
  pub easy_strerror : ℕ → Bytes
  -- `curl_easy_getinfo`; `none` where it answers with an error and writes nothing. A content type may
  -- be a null pointer; of a content length this is the whole part of the double.
  pub getinfo_content_type : Handle → Option (Option Bytes)
  pub getinfo_content_length_download : Handle → Option ℤ
  pub getinfo_response_code : Handle → Option ℕ
  -- `curl_easy_perform`, with the write callback, which answers with the number of bytes it took
  pub easy_perform : Handle → (Bytes → W → ℕ × W) → W → Ended × W

-- The callback gets one piece after the other, until it takes fewer or more bytes than it was given.
unfoldable pub deliver {ℓ} : {W : Type ℓ} → (Bytes → W → ℕ × W) → List Bytes → W → Bool × W
deliver write [] w = (true, w)
deliver write (piece ∷ pieces) w =
    let (taken, w') = write piece w in
    let rest = deliver write pieces w' in if taken == length piece then rest else (false, w')

-- What the network answers at one time: the pieces and the code of a transfer then, which depend on the
-- handle. A transfer at another time has a libcurl with other laws. Where the callback refuses a piece, it ends there with CURLE_WRITE_ERROR. A piece has at most CURL_MAX_WRITE_SIZE bytes.
pub record IsLawful {W : Type 0} (c : Curl W) : Type 0 where
  pub pieces : Curl.Handle c → List Bytes
  pub code : Curl.Handle c → ℕ
  pub bounded : (h : Curl.Handle c) → All (λ piece. length piece ≤ 16384) (pieces h)
  pub perform_taken :
      (h : Curl.Handle c) (write : Bytes → W → ℕ × W) (w w' : W)
      → ◌≡◌ {A = Bool × W} (deliver write (pieces h) w) (true, w')
      → ((Curl.easy_perform c h write w).0.code ≡ code h) × ((Curl.easy_perform c h write w).1 ≡ w')
  pub perform_refused :
      (h : Curl.Handle c) (write : Bytes → W → ℕ × W) (w w' : W)
      → ◌≡◌ {A = Bool × W} (deliver write (pieces h) w) (false, w')
      → ((Curl.easy_perform c h write w).0.code ≡ curle_write_error)
        × ((Curl.easy_perform c h write w).1 ≡ w')
