-- ===== src/Http/Client/Requests.antt =====
-- be/http/http_client.cpp: the requests that keep the response in a string or in a file,
-- `execute(std::string*)`, `execute_post_request`, `execute_delete_request` and `download`.
use sr_scanner_demo.Base.{
  ◌*◌, Bool, true, false, some, List, [], ◌∷◌, ◌++◌, append_assoc, append-nil, join_all, ◌≡◌, sym,
  ap, ◌∙◌, Bytes, codes, length, ◌==◌, if◌then◌else◌,
}
use sr_scanner_demo.Base.Dict
use sr_scanner_demo.Status.{Status, ok_status, internal_error, is_ok}
use sr_scanner_demo.Fs.{file, Fs, can_write, fwrite}
use sr_scanner_demo.Http.Method.{HttpMethod}
use sr_scanner_demo.Http.Method
use sr_scanner_demo.Http.Curl.{
  CurlOption, post, custom_request, copy_post_fields, post_field_size, low_speed_limit,
  low_speed_time, curle_ok, Curl, IsLawful,
}
use sr_scanner_demo.Http.Client.{
  download_low_speed_limit_kbps, max_download_speed_kbps, download_low_speed_time, HttpClient,
  setopt, execute, set_method, set_payload,
}
use sr_scanner_demo.Http.Client.Transfer.{feed, execute_taken}

-- The callback of `execute(std::string*)`; `response` is the world.
abbrev append_response : Bytes → Bytes → Bool × Bytes
append_response d response = (true, response ++ d)

module _ (c : Curl Bytes) where
  -- `execute(std::string*)`
  unfoldable pub execute_to_string : HttpClient c → Bytes → Status × HttpClient c × Bytes
  execute_to_string client response = execute c (some append_response) client response

  unfoldable pub execute_post_request : Bytes → HttpClient c → Bytes → Status × HttpClient c × Bytes
  unfolding execute_to_string
  execute_post_request payload client response =
      execute_to_string (set_payload c payload (set_method c HttpMethod.post client)) response

  unfoldable pub execute_delete_request :
      Bytes → HttpClient c → Bytes → Status × HttpClient c × Bytes
  unfolding execute_to_string
  execute_delete_request payload client response =
      execute_to_string (set_payload c payload (set_method c HttpMethod.delete client)) response

-- What the callback of `download` changes: `status`, and the bytes behind `fp`.
pub record Saved : Type 0 where
  pub status : Status
  pub content : Bytes

module _ (c : Curl Saved) (accepts : Bytes → Bytes → Bool) where
  unfoldable pub save : Bytes → Saved → Bool × Saved
  save d p =
      if fwrite accepts p.content d == 1
      then (true, record p { content = p.content ++ d })
      else (false, record p { status = internal_error (codes "fail to write data when download") })

  -- The options that `download` sets.
  abbrev pub limit_speed : HttpClient c → HttpClient c
  limit_speed client =
      let limited = setopt c (low_speed_limit (download_low_speed_limit_kbps * 1024)) client in
      let timed = setopt c (low_speed_time download_low_speed_time) limited in
      setopt c (low_speed_time (max_download_speed_kbps * 1024)) timed

  -- `download`. The file is made by `fopen`; what was written to it is in it in the end.
  unfoldable pub download : Bytes → HttpClient c → Fs → Status × HttpClient c × Fs
  unfolding save
  download local_path client fs =
      let prepared = limit_speed (set_method c HttpMethod.get client) in
      let (_, client', p) =
        execute c (some save) prepared (record { status = ok_status; content = [] }) in
      if can_write local_path fs
      then (p.status, client', Dict.insert local_path (file p.content) fs)
      else (internal_error (codes "open file failed"), prepared, fs)

feed-append_response :
    (pieces : List Bytes) (response : Bytes)
    → feed append_response pieces response ≡ (true, response ++ join_all pieces)
unfolding feed
feed-append_response [] response = ap (λ r. (true, r)) (sym (append-nil response))
feed-append_response (piece ∷ pieces) response =
    feed-append_response pieces (response ++ piece)
    ∙ ap (λ r. (true, r)) (append_assoc response piece (join_all pieces))

-- The handle after a list of options.
abbrev pub with_options :
    {W : Type 0} (c : Curl W) → List CurlOption → Curl.Handle c → Curl.Handle c
with_options c [] h = h
with_options c (o ∷ os) h = with_options c os (Curl.easy_setopt c h o).1

module _ (c : Curl Bytes) (laws : IsLawful c) (client : HttpClient c) (h : Curl.Handle c)
    (has : client.curl ≡ some h) (response : Bytes) where
  execute_to_string_lem :
      ((execute_to_string c client response).2 ≡ response ++ join_all (laws.pieces h))
      × (is_ok (execute_to_string c client response).0 ≡ (laws.code h == curle_ok))
  unfolding execute_to_string
  execute_to_string_lem =
      execute_taken c laws append_response client h has response _
        (feed-append_response (laws.pieces h) response)

module _ (c : Curl Bytes) (laws : IsLawful c) (client : HttpClient c) (h : Curl.Handle c)
    (has : client.curl ≡ some h) (payload response : Bytes) where
  -- For a client with a handle, and libcurl keeping its laws: a POST request appends to the response
  -- all pieces that libcurl has for a handle with CURLOPT_POST, the payload's size and the payload,
  -- set in this order, and is OK exactly if that transfer's code is CURLE_OK.
  pub execute_post_request_lem :
      let h' =
        with_options c
          (post 1 ∷ post_field_size (length payload) ∷ copy_post_fields payload ∷ [])
          h in
      ((execute_post_request c payload client response).2 ≡ response ++ join_all (laws.pieces h'))
      × (is_ok (execute_post_request c payload client response).0 ≡ (laws.code h' == curle_ok))
  unfolding execute_post_request set_payload set_method setopt
  execute_post_request_lem =
      execute_to_string_lem c laws (set_payload c payload (set_method c HttpMethod.post client)) _
        (rw (has, set_payload, set_method, setopt)) response

  -- Likewise a DELETE request, with CURLOPT_CUSTOMREQUEST set to the method's name in place of
  -- CURLOPT_POST.
  pub execute_delete_request_lem :
      let h' =
        with_options c
          (custom_request (Method.to_method_desc HttpMethod.delete)
            ∷ post_field_size (length payload)
            ∷ copy_post_fields payload
            ∷ [])
          h in
      ((execute_delete_request c payload client response).2 ≡ response ++ join_all (laws.pieces h'))
      × (is_ok (execute_delete_request c payload client response).0 ≡ (laws.code h' == curle_ok))
  unfolding execute_delete_request set_payload set_method setopt Method.to_method_desc
  execute_delete_request_lem =
      execute_to_string_lem c laws (set_payload c payload (set_method c HttpMethod.delete client)) _
        (rw (has, set_payload, set_method, setopt)) response

-- A piece that `fwrite` takes whatever the file has.
abbrev pub IsTaken : (Bytes → Bytes → Bool) → Bytes → Type 0
IsTaken accepts d = (content : Bytes) → fwrite accepts content d ≡ 1
