-- ===== src/Http/Client.antt =====
-- be/http/http_client.{h,cpp}: the class HttpClient.
pub mod Retry
pub mod Transfer
pub mod Requests
pub mod Setup
pub mod Info
pub mod HeaderList
use sr_scanner_demo.Base.{
  ℕ, ◌+◌, ◌-◌, ◌^◌, Bool, Option, none, some, List, [], ◌∷◌, ◌++◌, Bytes, codes, length, ◌==◌,
  if◌then◌else◌,
}
use sr_scanner_demo.Base.Int.{ℤ}
use sr_scanner_demo.Status.{Status, ok_status, internal_error}
use sr_scanner_demo.Http.Curl.{
  CurlOption, error_buffer, write_function, write_data, httpauth_basic, nosignal, fail_on_error,
  max_redirs, http_get, upload, post, no_body, custom_request, url, username, password,
  copy_post_fields, post_field_size, unrestricted_auth, ssl_verify_peer, ssl_verify_host,
  timeout_ms, http_header, curle_ok, curle_bad_function_argument, Ended, Curl,
}
use sr_scanner_demo.Http.Method.{HttpMethod}
use sr_scanner_demo.Http.Method

-- `static long` values at the top of the file
abbrev pub download_low_speed_limit_kbps : ℕ
download_low_speed_limit_kbps = 50

abbrev pub max_download_speed_kbps : ℕ
max_download_speed_kbps = 50000

abbrev pub download_low_speed_time : ℕ
download_low_speed_time = 300

-- The options of `init` in their order, each with the error that a refusal is reported by.
abbrev pub init_options : Bytes → List (CurlOption × Bytes)
init_options u =
    (error_buffer, codes "fail to set error buffer")
    ∷ (nosignal 1, codes "fail to set CURLOPT_NOSIGNAL")
    ∷ (fail_on_error 1, codes "fail to set CURLOPT_FAILONERROR")
    ∷ (fail_on_error 1, codes "fail to set CURLOPT_FOLLOWLOCATION")
    ∷ (max_redirs 20, codes "fail to set CURLOPT_MAXREDIRS")
    ∷ (write_function, codes "fail to set CURLOPT_WRITEFUNCTION")
    ∷ (write_data, codes "fail to set CURLOPT_WRITEDATA")
    ∷ (url u, codes "fail to set CURLOPT_RUL")
    ∷ []

-- The option that `set_method` sets.
abbrev pub method_option : HttpMethod → Option CurlOption
method_option HttpMethod.get = some (http_get 1)
method_option HttpMethod.put = some (upload 1)
method_option HttpMethod.post = some (post 1)
method_option HttpMethod.delete = some (custom_request (codes "DELETE"))
method_option HttpMethod.head = some (no_body 1)
method_option HttpMethod.options = some (custom_request (codes "OPTIONS"))
method_option HttpMethod.unknown = none

module _ {W : Type 0} (c : Curl W) where
  -- HttpClient. `curl` is `_curl`, `none` for null; `error_buf` the text in `_error_buf`;
  -- `header_list` the strings of `_header_list`. `_callback` is not kept: each `execute` sets it before its
  -- transfer, and only the transfer reads it.
  pub record HttpClient : Type 0 where
    pub curl : Option (Curl.Handle c)
    pub error_buf : Bytes
    pub header_list : List Bytes

  -- `HttpClient()`. `_error_buf` is not initialised by it; the text is empty here. Where `curl_easy_init`
  -- fails, `init` leaves it so, and `execute` reads it.
  abbrev pub new_client : HttpClient
  new_client = record { curl = none; error_buf = []; header_list = [] }

  -- `curl_easy_setopt` with its code dropped. At a null handle libcurl only answers with a code.
  unfoldable pub setopt : CurlOption → HttpClient → HttpClient
  setopt o client = elim (client.curl) [
    | none ↦ client
    | some h ↦ record client { curl = some (Curl.easy_setopt c h o).1 }
  ]

  -- The checked calls of `init`: the first code that is not CURLE_OK ends it.
  unfoldable pub set_checked : List (CurlOption × Bytes) → Curl.Handle c → Status × Curl.Handle c
  set_checked [] h = (ok_status, h)
  set_checked ((o, msg) ∷ rest) h =
      let (code, h') = Curl.easy_setopt c h o in
      let later = set_checked rest h' in
      if code == curle_ok then later else (internal_error msg, h')

  -- `init`
  unfoldable pub init_handle : Bytes → Curl.Handle c → Status × HttpClient
  unfolding set_checked
  init_handle u h =
      let (status, h') = set_checked (init_options u) h in
      (status, record { curl = some h'; error_buf = []; header_list = [] })

  unfoldable pub init : Bytes → HttpClient → Status × HttpClient
  unfolding init_handle
  init u client = elim (client.curl) [
    | some h ↦ init_handle u (Curl.easy_reset c h)
    | none ↦ elim (Curl.easy_init c) [
      | none ↦ (internal_error (codes "fail to initialize curl"), client)
      | some h ↦ init_handle u h
    ]
  ]

  -- `set_method`
  unfoldable pub set_method : HttpMethod → HttpClient → HttpClient
  unfolding setopt
  set_method m client = elim (method_option m) [ none ↦ client | some o ↦ setopt o client ]

  -- `set_basic_auth`
  unfoldable pub set_basic_auth : Bytes → Bytes → HttpClient → HttpClient
  unfolding setopt
  set_basic_auth user passwd client =
      setopt (password passwd) (setopt (username user) (setopt httpauth_basic client))

  -- `set_content_type`
  unfoldable pub set_content_type : Bytes → HttpClient → HttpClient
  unfolding setopt
  set_content_type content_type client =
      let headers = client.header_list ++ (codes "Content-Type: " ++ content_type) ∷ [] in
      setopt (http_header headers) (record client { header_list = headers })

  -- `set_http_header`
  unfoldable pub set_http_header : List Bytes → HttpClient → HttpClient
  unfolding setopt
  set_http_header headers client =
      let all = client.header_list ++ headers in
      setopt (http_header all) (record client { header_list = all })

  -- `set_payload`
  unfoldable pub set_payload : Bytes → HttpClient → HttpClient
  unfolding setopt
  set_payload post_body client =
      setopt (copy_post_fields post_body) (setopt (post_field_size (length post_body)) client)

  -- `set_unrestricted_auth`
  unfoldable pub set_unrestricted_auth : ℕ → HttpClient → HttpClient
  unfolding setopt
  set_unrestricted_auth gohead client = setopt (unrestricted_auth gohead) client

  -- `set_timeout_ms`
  unfoldable pub set_timeout_ms : ℤ → HttpClient → HttpClient
  unfolding setopt
  set_timeout_ms t client = setopt (timeout_ms t) client

  -- `trust_all_ssl`
  unfoldable pub trust_all_ssl : HttpClient → HttpClient
  unfolding setopt
  trust_all_ssl client = setopt (ssl_verify_host 0) (setopt (ssl_verify_peer 0) client)

  -- `on_response_data`. An empty std::function takes everything; `return -1` is the largest size_t.
  unfoldable pub on_response_data : Option (Bytes → W → Bool × W) → Bytes → W → ℕ × W
  on_response_data none d w = (length d, w)
  on_response_data (some callback) d w =
      let (is_continue, w') = callback d w in
      if is_continue then (length d, w') else (2 ^ 64 - 1, w')

  -- `_to_errmsg`
  unfoldable pub to_errmsg : ℕ → HttpClient → Bytes
  to_errmsg code client = elim (client.error_buf) [ [] ↦ Curl.easy_strerror c code | d ∷ t ↦ d ∷ t ]

  -- `execute` with a callback. libcurl answers a null handle with CURLE_BAD_FUNCTION_ARGUMENT.
  abbrev pub perform : HttpClient → (Bytes → W → ℕ × W) → W → Ended × W
  perform client write w = elim (client.curl) [
    | none ↦ (record { code = curle_bad_function_argument; error = client.error_buf }, w)
    | some h ↦ Curl.easy_perform c h write w
  ]

  unfoldable pub execute : Option (Bytes → W → Bool × W) → HttpClient → W → Status × HttpClient × W
  unfolding to_errmsg
  execute callback client w =
      let (ended, w') = perform client (on_response_data callback) w in
      let client' = record client { error_buf = ended.error } in
      if ended.code == curle_ok
      then (ok_status, client', w')
      else (internal_error (to_errmsg ended.code client'), client', w')

  -- `head`
  unfoldable pub head : HttpClient → W → Status × HttpClient × W
  unfolding execute
  head client w = execute none (set_method HttpMethod.head client) w
