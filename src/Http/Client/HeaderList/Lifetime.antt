-- ===== src/Http/Client/HeaderList/Lifetime.antt =====
-- `_header_list` of be/http/http_client.{h,cpp} over the life of a client, from its constructor to its destructor.
use sr_scanner_demo.Base.{
  ℕ, Bool, true, none, some, List, ◌∷◌, ◌≡◌, inl, refl, arith, Bytes, done, ◌>>=◌, codes, ◌++◌,
  if◌then◌else◌, ◌∙◌, ap,
}
use sr_scanner_demo.Http.Client.HeaderList.{
  Slists, IsLawful, Use, HeaderMemory, new_memory, append_header, run_use, run_uses,
  destroy_headers, set_content_type,
}
use sr_scanner_demo.Http.Client.HeaderList.Ownership.{
  NeverFails, IsOwned, free_headers-IsOwned, handle-IsOwned, run_uses-IsOwned,
}

module _ (c : Slists) (laws : IsLawful c) (before : ℕ → Bool) where
  -- Calls of the client, and then its destructor.
  abbrev Ends : List Use → HeaderMemory c → Type 0
  Ends us m =
      (heap : Slists.Heap c) × ((run_uses c us m >>= destroy_headers c)
        ≡ done (record { handle = none; header_list = none; heap = heap }))
      × ((q : ℕ) → before q ≡ true → Slists.live c heap q ≡ true)
      × (NeverFails c → (q : ℕ) → Slists.live c heap q ≡ before q)

  run_uses-Ends : (us : List Use) (m : HeaderMemory c) → IsOwned c laws before m → Ends us m
  unfolding destroy_headers
  run_uses-Ends us m o =
      let (m', used, o') = run_uses-IsOwned c laws before us m o in
      let (heap, freed, kept) =
        free_headers-IsOwned c laws before (record m' { handle = none })
          (handle-IsOwned c laws before m' none o' (λ p h. cc)) (λ p h. cc) in
      (heap, rw used freed, kept.others, λ never q. grind (arith, kept.others q, kept.kept never q))

module _ (c : Slists) (laws : IsLawful c) where
  -- A client without a list owns nothing of what is there.
  unheld-IsOwned :
      (m : HeaderMemory c)
      → m.header_list ≡ none
      → ((p : ℕ) → m.handle ≡ some (some p) → Slists.live c m.heap p ≡ true)
      → IsOwned c laws (Slists.live c m.heap) m
  unheld-IsOwned m null seen = record {
    own = λ p h. cc (h, null);
    others = λ q h. h;
    seen = seen;
    kept = λ never q h. inl h;
  }

  -- Where libcurl keeps its laws: a new client, any sequence of its calls and its destructor use and free
  -- the header list only where it stands, and free no list that was there before; and if no append fails,
  -- the same lists stand behind the destructor as before the client.
  pub lifetime :
      (us : List Use) (heap : Slists.Heap c)
      → (heap' : Slists.Heap c) × ((run_uses c us (new_memory c heap) >>= destroy_headers c)
          ≡ done (record { handle = none; header_list = none; heap = heap' }))
        × ((q : ℕ) → Slists.live c heap q ≡ true → Slists.live c heap' q ≡ true)
        × (NeverFails c → (q : ℕ) → Slists.live c heap' q ≡ Slists.live c heap q)
  lifetime us heap =
      run_uses-Ends c laws (Slists.live c heap) us (new_memory c heap)
        (unheld-IsOwned (new_memory c heap) refl (λ p h. cc))

  -- Where libcurl keeps its laws, and the append of `set_content_type` to the list that the client and its
  -- handle have fails: the list stands for good, through any calls of the client and its destructor.
  pub set_content_type_leaks :
      (content_type : Bytes) (taken : Bool) (us : List Use) (m : HeaderMemory c) (p : ℕ)
      → m.header_list ≡ some p
      → m.handle ≡ some (some p)
      → Slists.live c m.heap p ≡ true
      → (Slists.slist_append c m.heap (some p) (codes "Content-Type: " ++ content_type)).0 ≡ none
      → (heap' : Slists.Heap c) × ((run_uses c (set_content_type content_type taken ∷ us) m
            >>= destroy_headers c)
          ≡ done (record { handle = none; header_list = none; heap = heap' }))
        × (Slists.live c heap' p ≡ true)
  unfolding append_header run_use run_uses
  set_content_type_leaks content_type taken us m p has seen standing fails =
      let header = codes "Content-Type: " ++ content_type in
      let heap = (Slists.slist_append c m.heap (some p) header).1 in
      let same = laws.failed m.heap heap (some p) header (ap (λ l. (l, heap)) fails) in
      let left : HeaderMemory c = record {
        handle = some (if taken then none else some p);
        header_list = none;
        heap = heap;
      } in
      let (heap', ends, kept, _) =
        run_uses-Ends c laws (Slists.live c heap) us left
          (unheld-IsOwned left refl (λ q h. grind (arith, same q, same p))) in
      (heap', rw has (rw seen (rw standing (rw fails ends))), kept p (same p ∙ standing))
