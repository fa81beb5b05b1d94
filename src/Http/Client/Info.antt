-- ===== src/Http/Client/Info.antt =====
-- be/http/http_client.{h,cpp}: what HttpClient tells of a transfer, and its destructor.
use sr_scanner_demo.Base.{ℕ, Option, none, some, [], Bytes, Outcome, done, fault, uninitialized}
use sr_scanner_demo.Base.Int.{ℤ, pos}
use sr_scanner_demo.Http.Curl.{Curl}
use sr_scanner_demo.Http.Client.{HttpClient}

module _ {W : Type 0} (c : Curl W) where
  -- `curl_easy_getinfo`, which answers a null handle with an error.
  abbrev info : {A : Type 0} → (Curl.Handle c → Option A) → HttpClient c → Option A
  info get client = elim (client.curl) [ none ↦ none | some h ↦ get h ]

  -- `get_response_content_type`
  unfoldable pub get_response_content_type : HttpClient c → Bytes
  get_response_content_type client = elim (info (Curl.getinfo_content_type c) client) [
    | none ↦ []
    | some ct ↦ elim ct [ none ↦ [] | some text ↦ text ]
  ]

  -- `get_content_length`
  unfoldable pub get_content_length : HttpClient c → ℤ
  get_content_length client = elim (info (Curl.getinfo_content_length_download c) client) [
    | none ↦ pos 0
    | some cl ↦ cl
  ]

  -- `get_http_status`. `code` has no value before libcurl writes it.
  unfoldable pub get_http_status : HttpClient c → Outcome ℕ
  get_http_status client = elim (info (Curl.getinfo_response_code c) client) [
    | none ↦ fault uninitialized
    | some code ↦ done code
  ]

  -- `~HttpClient()`: the handle and the header list are freed.
  abbrev pub destroy : HttpClient c → HttpClient c
  destroy client = record client { curl = none; header_list = [] }
