-- ===== src/Http/Client/HeaderList/Ownership.antt =====
-- The life of `_header_list` of be/http/http_client.{h,cpp}: that it is used and freed while it stands.
use mathlib.Core.Path.{subst}
use sr_scanner_demo.Base.{
  ℕ, Bool, true, false, Option, none, some, List, [], ◌∷◌, ◌≡◌, ◌≢◌, ◌⊎◌, inl, inr, refl, arith,
  Bytes, done, codes, ◌++◌, ◌==◌, ◌||◌, if◌then◌else◌, ◌∙◌, sym, ap, Bool-cases, Option-cases,
}
use sr_scanner_demo.Http.Client.HeaderList.{
  Slists, IsLawful, Use, HeaderMemory, free_headers, append_header, append_headers,
  point_at_headers, read_headers, start_headers, run_use, run_uses, init, set_content_type,
  set_http_header, execute,
}

module _ (c : Slists) where
  -- No append fails.
  abbrev pub NeverFails : Type 0
  NeverFails =
      (h : Slists.Heap c) (l : Option ℕ) (s : Bytes) → (Slists.slist_append c h l s).0 ≢ none

module _ (c : Slists) (laws : IsLawful c) (before : ℕ → Bool) where
  -- The client's list stands, no list of others is freed, and the handle points to no freed list. Where no
  -- append fails, the client's list is the only new one.
  pub record IsOwned (m : HeaderMemory c) : Type 0 where
    pub own :
        (p : ℕ) → m.header_list ≡ some p → (Slists.live c m.heap p ≡ true) × (before p ≡ false)
    pub others : (q : ℕ) → before q ≡ true → Slists.live c m.heap q ≡ true
    pub seen : (p : ℕ) → m.handle ≡ some (some p) → Slists.live c m.heap p ≡ true
    pub kept :
        NeverFails c
        → (q : ℕ) → Slists.live c m.heap q ≡ true
        → (before q ≡ true) ⊎ (m.header_list ≡ some q)

  pub free_headers-IsOwned :
      (m : HeaderMemory c)
      → IsOwned m
      → ((p : ℕ) → m.handle ≢ some (some p))
      → (heap : Slists.Heap c) × (free_headers c m
          ≡ done (record m { header_list = none; heap = heap }))
        × IsOwned (record m { header_list = none; heap = heap })
  unfolding free_headers
  free_headers-IsOwned m o apart = elim (Option-cases (m.header_list)) [
    | inl has ↦ (m.heap, rw has refl, rw (sym has) o)
    | inr (p, has) ↦
        let (standing, new) = o.own p has in
        (
          Slists.slist_free_all c m.heap p,
          rw has (rw standing refl),
          record {
            own = λ q h. cc;
            others = λ q h. grind (arith, laws.freed m.heap p q standing, o.others q h);
            seen = λ q h. absurd (apart q h);
            kept = λ never q h. grind (arith, laws.freed m.heap p q standing, o.kept never q);
          },
        )
  ]

  -- An append that fails changes no list; one at a list changes none either, as to where lists stand.
  same-IsOwned :
      (m : HeaderMemory c) (l : Option ℕ) (heap : Slists.Heap c)
      → IsOwned m
      → ((q : ℕ) → Slists.live c heap q ≡ Slists.live c m.heap q)
      → (l ≡ m.header_list) ⊎ ((l ≡ none) × (NeverFails c → ⊥))
      → IsOwned (record m { header_list = l; heap = heap })
  same-IsOwned m l heap o same (inl e) = record {
    own = λ p h. grind (arith, o.own p, same p);
    others = λ q h. grind (arith, o.others q h, same q);
    seen = λ q h. grind (arith, o.seen q h, same q);
    kept = λ never q h. grind (arith, o.kept never q, same q);
  }
  same-IsOwned m l heap o same (inr (e, fails)) = record {
    own = λ p h. absurd (cc (e, h));
    others = λ q h. grind (arith, o.others q h, same q);
    seen = λ q h. grind (arith, o.seen q h, same q);
    kept = λ never q h. absurd (fails never);
  }

  -- A new list stands where none did.
  made-IsOwned :
      (m : HeaderMemory c) (p : ℕ) (heap : Slists.Heap c)
      → IsOwned m
      → m.header_list ≡ none
      → Slists.live c m.heap p ≡ false
      → ((q : ℕ) → Slists.live c heap q ≡ (p == q || Slists.live c m.heap q))
      → IsOwned (record m { header_list = some p; heap = heap })
  made-IsOwned m p heap o has free more = record {
    own = λ q h. grind (arith, more q, o.others q);
    others = λ q h. grind (arith, o.others q h, more q);
    seen = λ q h. grind (arith, o.seen q h, more q);
    kept = λ never q h. grind (arith, o.kept never q, more q);
  }

  append_header-IsOwned :
      (header : Bytes) (m : HeaderMemory c)
      → IsOwned m
      → (m' : HeaderMemory c) × (append_header c header m ≡ done m') × IsOwned m'
  unfolding append_header
  append_header-IsOwned header m o =
      let r = Slists.slist_append c m.heap m.header_list header in
      let m' = record m { header_list = r.0; heap = r.1 } in
      elim (Option-cases (m.header_list)) [
        | inl has ↦ (
          m',
          rw has refl,
          elim (Option-cases r.0) [
            | inl e ↦
                same-IsOwned m r.0 r.1 o (laws.failed m.heap r.1 _ header (ap (λ l. (l, r.1)) e))
                  (inl (e ∙ sym has))
            | inr (p, e) ↦
                let (free, more) = laws.made m.heap r.1 header p (
                  ap (λ l. Slists.slist_append c m.heap l header) (sym has)
                  ∙ ap (λ l. (l, r.1)) e) in
                subst (λ l. IsOwned (record m { header_list = l; heap = r.1 })) (sym e)
                  (made-IsOwned m p r.1 o has free more)
          ],
        )
        | inr (p, has) ↦ (
          m',
          rw has (rw ((o.own p has).0) refl),
          elim (Option-cases r.0) [
            | inl e ↦
                same-IsOwned m r.0 r.1 o (laws.failed m.heap r.1 _ header (ap (λ l. (l, r.1)) e))
                  (inr (e, λ never. never m.heap m.header_list header e))
            | inr (q, e) ↦
                let (there, same) = laws.extended m.heap r.1 p header q ((o.own p has).0) (
                  ap (λ l. Slists.slist_append c m.heap l header) (sym has)
                  ∙ ap (λ l. (l, r.1)) e) in
                same-IsOwned m r.0 r.1 o same (inl (e ∙ ap some there ∙ sym has))
          ],
        )
      ]

  append_headers-IsOwned :
      (http_header : List Bytes) (m : HeaderMemory c)
      → IsOwned m
      → (m' : HeaderMemory c) × (append_headers c http_header m ≡ done m') × IsOwned m'
  unfolding append_headers
  append_headers-IsOwned [] m o = (m, refl, o)
  append_headers-IsOwned (header ∷ http_header) m o =
      let (m₁, first, o₁) = append_header-IsOwned header m o in
      let (m₂, rest, o₂) = append_headers-IsOwned http_header m₁ o₁ in (m₂, rw first rest, o₂)

  -- A handle that points to a list that stands, or to none.
  pub handle-IsOwned :
      (m : HeaderMemory c) (handle : Option (Option ℕ))
      → IsOwned m
      → ((p : ℕ) → handle ≡ some (some p) → Slists.live c m.heap p ≡ true)
      → IsOwned (record m { handle = handle })
  handle-IsOwned m handle o seen = record {
    own = o.own;
    others = o.others;
    seen = seen;
    kept = o.kept;
  }

  point_at_headers-IsOwned :
      (taken : Bool) (m : HeaderMemory c) → IsOwned m → IsOwned (point_at_headers c taken m)
  point_at_headers-IsOwned taken m o = elim (Option-cases (m.handle)) [
    | inl null ↦ rw null (handle-IsOwned m none o (λ p h. cc))
    | inr (old, has) ↦ rw has (
        handle-IsOwned m (some (if taken then m.header_list else old)) o
          (λ p h. grind (arith, o.own p, o.seen p)))
  ]

  read_headers_lem : (m : HeaderMemory c) → IsOwned m → read_headers c m ≡ done m
  unfolding read_headers
  read_headers_lem m o = elim (Option-cases (m.handle)) [
    | inl null ↦ rw null refl
    | inr (old, has) ↦ elim (Option-cases old) [
      | inl null ↦ rw (has ∙ ap some null) refl
      | inr (p, at) ↦ rw (has ∙ ap some at) (rw (o.seen p (has ∙ ap some at)) refl)
    ]
  ]

  start_headers-IsOwned :
      (made : Bool) (m : HeaderMemory c)
      → IsOwned m
      → (m' : HeaderMemory c) × (start_headers c made m ≡ done m') × IsOwned m'
  unfolding start_headers
  start_headers-IsOwned made m o =
      let (heap, freed, o') =
        free_headers-IsOwned (record m { handle = some none })
          (handle-IsOwned m (some none) o (λ p h. cc)) (λ p h. cc) in
      let m' : HeaderMemory c = record { handle = some none; header_list = none; heap = heap } in
      elim (Option-cases (m.handle)) [
        | inl null ↦ elim (Bool-cases made) [
          | inl new ↦ (m', rw null (rw new freed), o')
          | inr fails ↦ (m, rw null (rw fails refl), o)
        ]
        | inr (old, has) ↦ (m', rw has freed, o')
      ]

  run_use-IsOwned :
      (u : Use) (m : HeaderMemory c)
      → IsOwned m
      → (m' : HeaderMemory c) × (run_use c u m ≡ done m') × IsOwned m'
  unfolding run_use
  run_use-IsOwned (init made) m o = start_headers-IsOwned made m o
  run_use-IsOwned (set_content_type content_type taken) m o =
      let (m', appended, o') = append_header-IsOwned (codes "Content-Type: " ++ content_type) m o in
      (point_at_headers c taken m', rw appended refl, point_at_headers-IsOwned taken m' o')
  run_use-IsOwned (set_http_header http_header taken) m o =
      let (m', appended, o') = append_headers-IsOwned http_header m o in
      (point_at_headers c taken m', rw appended refl, point_at_headers-IsOwned taken m' o')
  run_use-IsOwned execute m o = (m, read_headers_lem m o, o)

  pub run_uses-IsOwned :
      (us : List Use) (m : HeaderMemory c)
      → IsOwned m
      → (m' : HeaderMemory c) × (run_uses c us m ≡ done m') × IsOwned m'
  unfolding run_uses
  run_uses-IsOwned [] m o = (m, refl, o)
  run_uses-IsOwned (u ∷ us) m o =
      let (m₁, first, o₁) = run_use-IsOwned u m o in
      let (m₂, rest, o₂) = run_uses-IsOwned us m₁ o₁ in (m₂, rw first rest, o₂)
