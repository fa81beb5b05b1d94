-- ===== src/Http/Client/HeaderList.antt =====
-- be/http/http_client.{h,cpp}: the memory of `_header_list`, which HttpClient and its handle point to.
pub mod Ownership
pub mod Lifetime
use sr_scanner_demo.Base.{
  ℕ, Bool, true, false, Option, none, some, List, [], ◌∷◌, ◌++◌, ◌≡◌, ◌||◌, ◌==◌, ◌>>=◌, Bytes,
  codes, Outcome, done, fault, double_free, dangling, if◌then◌else◌,
}

-- The lists of libcurl, by address.
pub record Slists : Type 1 where
  pub Heap : Type 0
  -- whether a list stands at an address
  pub live : Heap → ℕ → Bool
  -- `curl_slist_append`, `none` for null
  pub slist_append : Heap → Option ℕ → Bytes → Option ℕ × Heap
  pub slist_free_all : Heap → ℕ → Heap

-- What is documented of the two calls: an append at null makes a list, one at a list gives that list, and
-- one that fails gives null and leaves all as it is.
pub record IsLawful (c : Slists) : Type 0 where
  pub made :
      (h h' : Slists.Heap c) (s : Bytes) (p : ℕ)
      → Slists.slist_append c h none s ≡ (some p, h')
      → (Slists.live c h p ≡ false) × ((q : ℕ) → Slists.live c h' q ≡ (p == q || Slists.live c h q))
  pub extended :
      (h h' : Slists.Heap c) (l : ℕ) (s : Bytes) (p : ℕ)
      → Slists.live c h l ≡ true
      → Slists.slist_append c h (some l) s ≡ (some p, h')
      → (p ≡ l) × ((q : ℕ) → Slists.live c h' q ≡ Slists.live c h q)
  pub failed :
      (h h' : Slists.Heap c) (l : Option ℕ) (s : Bytes)
      → Slists.slist_append c h l s ≡ (none, h')
      → (q : ℕ) → Slists.live c h' q ≡ Slists.live c h q
  pub freed :
      (h : Slists.Heap c) (p q : ℕ)
      → Slists.live c h p ≡ true
      → Slists.live c (Slists.slist_free_all c h p) q
        ≡ (if p == q then false else Slists.live c h q)

-- The calls of a client that concern the list. `init` is told whether `curl_easy_init` gives a handle,
-- the others whether libcurl takes CURLOPT_HTTPHEADER.
pub data Use : Type 0 where
  init : Bool → Use
  set_content_type : Bytes → Bool → Use
  set_http_header : List Bytes → Bool → Use
  execute : Use

module _ (c : Slists) where
  -- `handle` is `_curl`, `none` for null, with the list that its CURLOPT_HTTPHEADER points to.
  pub record HeaderMemory : Type 0 where
    pub handle : Option (Option ℕ)
    pub header_list : Option ℕ
    pub heap : Slists.Heap c

  -- `HttpClient()`
  abbrev pub new_memory : Slists.Heap c → HeaderMemory
  new_memory heap = record { handle = none; header_list = none; heap = heap }

  -- `if (_header_list != nullptr) { curl_slist_free_all(_header_list); _header_list = nullptr; }`
  unfoldable pub free_headers : HeaderMemory → Outcome HeaderMemory
  free_headers m = elim (m.header_list) [
    | none ↦ done m
    | some p ↦
        if Slists.live c m.heap p
        then done (record m { header_list = none; heap = Slists.slist_free_all c m.heap p })
        else fault double_free
  ]

  -- `_header_list = curl_slist_append(_header_list, header)`
  unfoldable pub append_header : Bytes → HeaderMemory → Outcome HeaderMemory
  append_header header m =
      let (l, heap') = Slists.slist_append c m.heap m.header_list header in
      let m' = record m { header_list = l; heap = heap' } in
      elim (m.header_list) [
        | none ↦ done m'
        | some p ↦ if Slists.live c m.heap p then done m' else fault dangling
      ]

  -- The loop of `set_http_header`
  unfoldable pub append_headers : List Bytes → HeaderMemory → Outcome HeaderMemory
  append_headers [] m = done m
  append_headers (header ∷ http_header) m = append_header header m >>= append_headers http_header

  -- `curl_easy_setopt(_curl, CURLOPT_HTTPHEADER, _header_list)`
  abbrev pub point_at_headers : Bool → HeaderMemory → HeaderMemory
  point_at_headers taken m = elim (m.handle) [
    | none ↦ m
    | some old ↦ record m { handle = some (if taken then m.header_list else old) }
  ]

  -- `execute`: a transfer reads the list.
  unfoldable pub read_headers : HeaderMemory → Outcome HeaderMemory
  read_headers m = elim (m.handle) [
    | none ↦ done m
    | some old ↦ elim old [
      | none ↦ done m
      | some p ↦ if Slists.live c m.heap p then done m else fault dangling
    ]
  ]

  -- The part of `init` before the options: a new handle, or `curl_easy_reset`, which forgets the list.
  unfoldable pub start_headers : Bool → HeaderMemory → Outcome HeaderMemory
  unfolding free_headers
  start_headers made m = elim (m.handle) [
    | some old ↦ free_headers (record m { handle = some none })
    | none ↦ if made then free_headers (record m { handle = some none }) else done m
  ]

  unfoldable pub run_use : Use → HeaderMemory → Outcome HeaderMemory
  unfolding start_headers append_header append_headers read_headers
  run_use (init made) m = start_headers made m
  run_use (set_content_type content_type taken) m =
      append_header (codes "Content-Type: " ++ content_type) m
      >>= (λ m'. done (point_at_headers taken m'))
  run_use (set_http_header http_header taken) m =
      append_headers http_header m >>= (λ m'. done (point_at_headers taken m'))
  run_use execute m = read_headers m

  unfoldable pub run_uses : List Use → HeaderMemory → Outcome HeaderMemory
  run_uses [] m = done m
  run_uses (u ∷ us) m = run_use u m >>= run_uses us

  -- `~HttpClient()`
  unfoldable pub destroy_headers : HeaderMemory → Outcome HeaderMemory
  unfolding free_headers
  destroy_headers m = free_headers (record m { handle = none })
