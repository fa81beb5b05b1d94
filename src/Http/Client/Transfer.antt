-- ===== src/Http/Client/Transfer.antt =====
-- `HttpClient::execute` of be/http/http_client.cpp and the requests made with it, over a libcurl that
-- keeps its laws.
use mathlib.Core.Path.{subst}
use sr_scanner_demo.Base.{
  ℕ, ◌≤◌, All, Bool, true, false, Option, none, some, List, [], ◌∷◌, ◌≡◌, refl, sym, ap, ◌∙◌, arith,
  Bytes, length, ◌==◌, if◌then◌else◌, Bool-cases, Option-cases, inl, inr,
}
use sr_scanner_demo.Status.{internal_error, is_ok}
use sr_scanner_demo.Http.Curl.{
  Curl, Ended, IsLawful, deliver, curle_ok, curle_bad_function_argument,
}
use sr_scanner_demo.Http.Client.{HttpClient, on_response_data, perform, execute}

-- A callback that gets the pieces in turn, until it answers false.
unfoldable pub feed {ℓ} : {W : Type ℓ} → (Bytes → W → Bool × W) → List Bytes → W → Bool × W
feed callback [] w = (true, w)
feed callback (piece ∷ pieces) w =
    let (go, w') = callback piece w in
    let rest = feed callback pieces w' in if go then rest else (false, w')

-- `on_response_data` passes the callback's answers on to libcurl unchanged.
deliver-on_response_data :
    {W : Type 0} (c : Curl W) (callback : Bytes → W → Bool × W) (pieces : List Bytes) (w : W)
    → All (λ piece. length piece ≤ 16384) pieces
    → deliver (on_response_data c (some callback)) pieces w ≡ feed callback pieces w
unfolding deliver on_response_data feed
deliver-on_response_data c callback [] w h = refl
deliver-on_response_data c callback (piece ∷ pieces) w (hp, hs) =
    elim (Bool-cases (callback piece w).0) [
      | inl go ↦
          rw go (ground (arith, deliver-on_response_data c callback pieces (callback piece w).1 hs))
      | inr stop ↦ rw stop (ground arith)
    ]

module _ {W : Type 0} (c : Curl W) (callback : Option (Bytes → W → Bool × W))
    (client : HttpClient c) (w : W) where
  abbrev performed : Ended × W
  performed = perform c client (on_response_data c callback) w

  execute_world : (execute c callback client w).2 ≡ performed.1
  unfolding execute
  execute_world = elim (Bool-cases (performed.0.code == curle_ok)) [
    | inl e ↦ rw (e, execute)
    | inr e ↦ rw (e, execute)
  ]

  execute_ok : is_ok (execute c callback client w).0 ≡ (performed.0.code == curle_ok)
  unfolding execute is_ok internal_error
  execute_ok = elim (Bool-cases (performed.0.code == curle_ok)) [
    | inl e ↦ rw (e, execute)
    | inr e ↦ rw (e, execute)
  ]

module _ {W : Type 0} (c : Curl W) (laws : IsLawful c) (callback : Bytes → W → Bool × W)
    (client : HttpClient c) (h : Curl.Handle c) (has : client.curl ≡ some h) where
  fed_delivered :
      (w : W)
      → deliver (on_response_data c (some callback)) (laws.pieces h) w
        ≡ feed callback (laws.pieces h) w
  fed_delivered w = deliver-on_response_data c callback (laws.pieces h) w (laws.bounded h)

  performed_handle :
      (w : W)
      → performed c (some callback) client w
        ≡ Curl.easy_perform c h (on_response_data c (some callback)) w
  performed_handle w = rw (has, perform)

  -- For a client with a handle, and libcurl keeping its laws: where the callback takes every piece,
  -- the status is OK exactly if the transfer ends with CURLE_OK, and the world is what the callback
  -- made of it.
  pub execute_taken :
      (w w' : W)
      → ◌≡◌ {A = Bool × W} (feed callback (laws.pieces h) w) (true, w')
      → ((execute c (some callback) client w).2 ≡ w')
        × (is_ok (execute c (some callback) client w).0 ≡ (laws.code h == curle_ok))
  execute_taken w w' fed =
      let (code, world) =
        laws.perform_taken h (on_response_data c (some callback)) w w' (fed_delivered w ∙ fed) in
      let p = performed_handle w in
      (
        execute_world c (some callback) client w ∙ ap (λ r. r.1) p ∙ world,
        execute_ok c (some callback) client w
            ∙ ap (λ r. r.0.code == curle_ok) p
            ∙ ap (λ (n : ℕ). n == curle_ok) code,
      )

  -- For a client with a handle, and libcurl keeping its laws: where the callback refuses a piece, it
  -- gets no later one, and the status is an error.
  pub execute_refused :
      (w w' : W)
      → ◌≡◌ {A = Bool × W} (feed callback (laws.pieces h) w) (false, w')
      → ((execute c (some callback) client w).2 ≡ w')
        × (is_ok (execute c (some callback) client w).0 ≡ false)
  execute_refused w w' fed =
      let (code, world) =
        laws.perform_refused h (on_response_data c (some callback)) w w' (fed_delivered w ∙ fed) in
      let p = performed_handle w in
      (
        execute_world c (some callback) client w ∙ ap (λ r. r.1) p ∙ world,
        execute_ok c (some callback) client w
            ∙ ap (λ r. r.0.code == curle_ok) p
            ∙ ap (λ (n : ℕ). n == curle_ok) code,
      )

-- A client whose `_curl` is null makes no transfer: the status is an error.
pub execute_null :
    {W : Type 0} (c : Curl W) (callback : Option (Bytes → W → Bool × W)) (client : HttpClient c)
    (w : W)
    → client.curl ≡ none
    → (is_ok (execute c callback client w).0 ≡ false) × ((execute c callback client w).2 ≡ w)
execute_null c callback client w e =
    let p : performed c callback client w
        ≡ (record { code = curle_bad_function_argument; error = client.error_buf }, w) =
      rw (e, perform) in
    (
      execute_ok c callback client w ∙ ap (λ r. r.0.code == curle_ok) p,
      execute_world c callback client w ∙ ap (λ r. r.1) p,
    )

-- What the callback keeps on every piece, a transfer keeps, however it ends.
feed_keeps {ℓ} :
    {W : Type 0} (P : W → Type ℓ) (callback : Bytes → W → Bool × W) (pieces : List Bytes) (w : W)
    → ((d : Bytes) (v : W) → P v → P (callback d v).1)
    → P w
    → P (feed callback pieces w).1
unfolding feed
feed_keeps P callback [] w keep p = p
feed_keeps P callback (piece ∷ pieces) w keep p = elim (Bool-cases (callback piece w).0) [
  | inl go ↦ rw go (feed_keeps P callback pieces (callback piece w).1 keep (keep piece w p))
  | inr stop ↦ rw stop (keep piece w p)
]

pub execute_keeps {ℓ} :
    {W : Type 0} (c : Curl W) (laws : IsLawful c) (P : W → Type ℓ) (callback : Bytes → W → Bool × W)
    (client : HttpClient c) (w : W)
    → ((d : Bytes) (v : W) → P v → P (callback d v).1)
    → P w
    → P (execute c (some callback) client w).2
execute_keeps {W} c laws P callback client w keep p = elim (Option-cases client.curl) [
  | inl e ↦ subst P (sym (execute_null c (some callback) client w e).1) p
  | inr (h, e) ↦
      let fed = feed_keeps P callback (laws.pieces h) w keep p in
      elim (Bool-cases (feed callback (laws.pieces h) w).0) [
        | inl all ↦
            subst P
              (sym
                (execute_taken c laws callback client h e w _
                  (λ i. (all i, (feed callback (laws.pieces h) w).1))).0)
              fed
        | inr part ↦
            subst P
              (sym
                (execute_refused c laws callback client h e w _
                  (λ i. (part i, (feed callback (laws.pieces h) w).1))).0)
              fed
      ]
]
