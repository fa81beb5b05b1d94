-- ===== src/Http/HeaderListTests.antt =====
-- Header lists of a client over lists that fail to take long strings.
use sr_scanner_demo.Base.{
  ℕ, ◌+◌, Bool, true, false, not, ◌&&◌, Option, none, some, List, [], ◌∷◌, ◌≡◌, refl, arith, Bytes,
  codes, length, ltb, ◌==◌, ◌>>=◌, done, Bool-cases, Option-cases, inl, inr, ◌⊎◌, sym, ap,
  if◌then◌else◌,
}
use sr_scanner_demo.Http.Client.HeaderList.{
  Slists, IsLawful, Use, HeaderMemory, new_memory, run_uses, destroy_headers, init,
  set_content_type, set_http_header, execute,
}
use sr_scanner_demo.Http.Client.HeaderList.Ownership.{NeverFails}
use sr_scanner_demo.Http.Client.HeaderList.Lifetime.{lifetime, set_content_type_leaks}

-- The lists that were made, and those of them that were freed.
record Made : Type 0 where
  count : ℕ
  gone : ℕ → Bool

abbrev append : Made → Option ℕ → Option ℕ × Made
append h (some l) = (some l, h)
append h none = (
  some h.count,
  record { count = h.count + 1; gone = λ q. if h.count == q then false else h.gone q },
)

abbrev lists : Slists
lists = record {
  Heap = Made;
  live = λ h q. ltb q h.count && not (h.gone q);
  slist_append = λ h l s. if ltb 16 (length s) then (none, h) else append h l;
  slist_free_all = λ h p. record h { gone = λ q. if p == q then true else h.gone q };
}

-- What an append that is no refusal, or is one, says of its result.
appended :
    (h h' : Made) (l r : Option ℕ) (s : Bytes)
    → Slists.slist_append lists h l s ≡ (r, h')
    → (q : ℕ)
    → ((r ≡ none) × (h'.count ≡ h.count) × (h'.gone q ≡ h.gone q))
      ⊎ ((r ≡ (append h l).0)
          × (h'.count ≡ (append h l).1.count)
          × (h'.gone q ≡ (append h l).1.gone q))
appended h h' l r s e q = elim (Bool-cases (ltb 16 (length s))) [
  | inl long ↦
      let w = sym (rw long at e) in
      inl (ap (λ x. x.0) w, ap (λ x. x.1.count) w, ap (λ x. x.1.gone q) w)
  | inr short ↦
      let w = sym (rw short at e) in
      inr (ap (λ x. x.0) w, ap (λ x. x.1.count) w, ap (λ x. x.1.gone q) w)
]

lists-IsLawful : IsLawful lists
lists-IsLawful = record {
  made = λ h h' s p e. (
    grind (arith, appended h h' none (some p) s e p),
    λ q. grind (arith, appended h h' none (some p) s e q),
  );
  extended = λ h h' l s p here e. (
    grind (arith, appended h h' (some l) (some p) s e p),
    λ q. grind (arith, appended h h' (some l) (some p) s e q),
  );
  failed = λ h h' l s e q. grind (arith, appended h h' l none s e q, Option-cases l);
  freed = λ h p q here. ground arith;
}

abbrev none_made : Made
none_made = record { count = 0; gone = λ q. false }

abbrev uses : List Use
uses =
    init true
    ∷ set_content_type (codes "ab") true
    ∷ execute
    ∷ set_http_header (codes "a string that is refused" ∷ codes "x: y" ∷ []) false
    ∷ init true
    ∷ set_content_type (codes "xml") true
    ∷ []

-- One list stands, and the client and its handle have it.
abbrev holding : HeaderMemory lists
holding = record {
  handle = some (some 0);
  header_list = some 0;
  heap = record { count = 1; gone = λ q. false };
}

lifetime_example :
    (heap' : Made) × ((run_uses lists uses (new_memory lists none_made) >>= destroy_headers lists)
      ≡ done (record { handle = none; header_list = none; heap = heap' }))
    × ((q : ℕ) → Slists.live lists none_made q ≡ true → Slists.live lists heap' q ≡ true)
    × (NeverFails lists → (q : ℕ) → Slists.live lists heap' q ≡ Slists.live lists none_made q)
lifetime_example = lifetime lists lists-IsLawful uses none_made

set_content_type_leaks_example :
    (heap' : Made) × ((run_uses lists
          (set_content_type (codes "text/xml") true ∷ execute ∷ init true ∷ [])
          holding
        >>= destroy_headers lists)
      ≡ done (record { handle = none; header_list = none; heap = heap' }))
    × (Slists.live lists heap' 0 ≡ true)
set_content_type_leaks_example =
    set_content_type_leaks lists lists-IsLawful (codes "text/xml") true (execute ∷ init true ∷ [])
      holding 0 refl refl refl refl
