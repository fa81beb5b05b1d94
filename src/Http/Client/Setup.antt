-- ===== src/Http/Client/Setup.antt =====
-- `HttpClient::init` of be/http/http_client.cpp: when it succeeds, and what it makes of the handle.
use sr_scanner_demo.Base.{
  true, some, List, [], ◌∷◌, ◌≡◌, ◌↔◌, refl, Bytes, map, ◌==◌, ==_iff, Bool-cases, inl, inr,
}
use sr_scanner_demo.Status.{ok_status, internal_error, is_ok}
use sr_scanner_demo.Http.Curl.{
  CurlOption, error_buffer, nosignal, fail_on_error, max_redirs, write_function, write_data, url,
  curle_ok, Curl,
}
use sr_scanner_demo.Http.Client.{HttpClient, init_options, set_checked, init_handle, init}
use sr_scanner_demo.Http.Client.Requests.{with_options}

module _ {W : Type 0} (c : Curl W) where
  -- libcurl takes each of the options in turn.
  abbrev pub TakesAll : List CurlOption → Curl.Handle c → Type 0
  TakesAll [] h = Unit
  TakesAll (o ∷ rest) h =
      ((Curl.easy_setopt c h o).0 ≡ curle_ok) × TakesAll rest (Curl.easy_setopt c h o).1

  set_checked_ok :
      (options : List (CurlOption × Bytes)) (h : Curl.Handle c)
      → TakesAll (map (λ o. o.0) options) h
      → set_checked c options h ≡ (ok_status, with_options c (map (λ o. o.0) options) h)
  unfolding set_checked
  set_checked_ok [] h t = refl
  set_checked_ok ((o, msg) ∷ rest) h (taken, t) =
      rw (taken, set_checked) (set_checked_ok rest (Curl.easy_setopt c h o).1 t)

  set_checked-TakesAll :
      (options : List (CurlOption × Bytes)) (h : Curl.Handle c)
      → is_ok (set_checked c options h).0 ≡ true
      → TakesAll (map (λ o. o.0) options) h
  unfolding set_checked is_ok internal_error
  set_checked-TakesAll [] h e = tt
  set_checked-TakesAll ((o, msg) ∷ rest) h e =
      elim (Bool-cases ((Curl.easy_setopt c h o).0 == curle_ok)) [
        | inl taken ↦ (
          (==_iff _ _).0 taken,
          set_checked-TakesAll rest (Curl.easy_setopt c h o).1 (rw (taken, set_checked) at e),
        )
        | inr refused ↦ absurd (let q = rw (refused, set_checked) at e in cc q)
      ]

  -- What a client's handle is set to for an address.
  abbrev pub client_options : Bytes → List CurlOption
  client_options u =
      error_buffer
      ∷ nosignal 1
      ∷ fail_on_error 1
      ∷ fail_on_error 1
      ∷ max_redirs 20
      ∷ write_function
      ∷ write_data
      ∷ url u
      ∷ []

  -- `init` of a client with a handle is OK exactly if libcurl takes `client_options` in turn, on the handle
  -- that was reset; then the client has the handle with all of them set, an empty header list and an empty
  -- error text. CURLOPT_FAILONERROR is set twice, and CURLOPT_FOLLOWLOCATION is not.
  pub init_iff :
      (u : Bytes) (client : HttpClient c) (h : Curl.Handle c)
      → client.curl ≡ some h
      → ((is_ok (init c u client).0 ≡ true) ↔ TakesAll (client_options u) (Curl.easy_reset c h))
        × (is_ok (init c u client).0 ≡ true
            → (init c u client).1 ≡ record {
              curl = some (with_options c (client_options u) (Curl.easy_reset c h));
              error_buf = [];
              header_list = [];
            })
  unfolding init init_handle is_ok
  init_iff u client h has =
      let h₀ = Curl.easy_reset c h in
      let forth : is_ok (init c u client).0 ≡ true → TakesAll (client_options u) h₀ =
        λ e. set_checked-TakesAll (init_options u) h₀ (rw (has, init) at e) in
      (
        (forth, λ t. rw (has, init) (rw (set_checked_ok (init_options u) h₀ t))),
        λ e. rw (has, init) (rw (set_checked_ok (init_options u) h₀ (forth e))),
      )
