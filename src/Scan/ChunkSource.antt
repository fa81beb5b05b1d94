-- ===== src/Scan/ChunkSource.antt =====
-- `ConnectorChunkSource` of be/operator/connector_scan_operator.{h,cpp} over any data source, whose `open`
-- and `get_next` are parameters as they are virtual functions: `D` is the state of a data source and
-- `W` that of the rest of the program. The loop of `_read_chunk` runs on fuel.
use sr_scanner_demo.Base.{
  ℕ, zero, suc, Bool, true, false, ◌≡◌, ◌↔◌, refl, sym, ap, ◌∙◌, codes, if◌then◌else◌, Bool-cases,
  inl, inr, done, unfinished, done-injective,
}
use sr_scanner_demo.Base.Actions.{Action, give, ◌>>=◌, run->>=, Never, Never-first}
use sr_scanner_demo.Status.{Status, ok_status, internal_error, is_ok}

-- ConnectorChunkSource. `status` is its own `_status`, which hides that of ChunkSource.
pub record ConnectorChunkSource (D : Type 0) : Type 0 where
  pub opened : Bool
  pub status : Status
  pub source : D

-- Its constructor, with the data source that it makes.
abbrev pub new_source : {D : Type 0} → D → ConnectorChunkSource D
new_source source = record { opened = false; status = ok_status; source = source }

-- `prepare`
abbrev pub prepare_source : {D : Type 0} → ConnectorChunkSource D → Status
prepare_source s = ok_status

module _ {D W : Type 0} (open_source get_next : D → Action W (Status × D)) where
  abbrev out_of_fuel : Action W (Status × D)
  out_of_fuel w = unfinished

  -- The `while` loop.
  unfoldable pub read_loop : ℕ → Status → D → Action W (Status × D)
  read_loop zero status d = if is_ok status then out_of_fuel else give (status, d)
  read_loop (suc n) status d =
      if is_ok status
      then (do (status', d') ← get_next d; read_loop n status' d')
      else give (status, d)

  -- `_read_chunk` of an open source.
  unfoldable pub read_opened : ℕ → Status → D → Action W (Status × ConnectorChunkSource D)
  unfolding read_loop
  read_opened fuel status d = do
    (status', d') ← read_loop fuel status d
    give (ok_status, record { opened = true; status = status'; source = d' })

  -- `_read_chunk`. The chunk of its caller is not touched.
  unfoldable pub read_chunk :
      ℕ → ConnectorChunkSource D → Action W (Status × ConnectorChunkSource D)
  unfolding read_opened
  read_chunk fuel s = if s.opened then read_opened fuel s.status s.source else (do
    (status, d) ← open_source s.source
    if is_ok status
        then read_opened fuel s.status d
        else give (internal_error (codes "open data source error"), record s { source = d }))

  -- A read of `k` chunks leads from one state of the data source and the program to another.
  abbrev pub ReadsTo : ℕ → D × W → D × W → Type 0
  ReadsTo zero v v' = v ≡ v'
  ReadsTo (suc k) v v' =
      (r : (Status × D) × W) × (get_next v.0 v.1 ≡ done r)
      × (is_ok r.0.0 ≡ true)
      × ReadsTo k (r.0.1, r.1) v'

  -- The next read returns an error.
  abbrev pub Fails : D × W → Type 0
  Fails v = (r : (Status × D) × W) × (get_next v.0 v.1 ≡ done r) × (is_ok r.0.0 ≡ false)

  loop_fails :
      (n : ℕ) (status : Status) (d : D) (w : W)
      → is_ok status ≡ false
      → read_loop n status d w ≡ done ((status, d), w)
  unfolding read_loop
  loop_fails zero status d w bad = rw bad refl
  loop_fails (suc n) status d w bad = rw bad refl

  loop_ends :
      (k : ℕ) (status : Status) (v v' : D × W)
      → is_ok status ≡ true
      → ReadsTo k v v'
      → Fails v'
      → (r : (Status × D) × W) × (read_loop (suc k) status v.0 v.1 ≡ done r)
  unfolding read_loop ◌>>=◌
  loop_ends zero status v v' good same (r, e, bad) =
      let e' = ap (λ x. get_next x.0 x.1) same ∙ e in
      (r, rw good (rw (e', read_loop, ◌>>=◌) (loop_fails zero r.0.0 r.0.1 r.1 bad)))
  loop_ends (suc k) status v v' good (r, e, first, more) fails =
      let (q, e') = loop_ends k r.0.0 (r.0.1, r.1) v' first more fails in
      (q, rw good (rw (e, read_loop, ◌>>=◌) e'))

  loop_search :
      (n : ℕ) (status : Status) (d : D) (w : W) {r : (Status × D) × W}
      → is_ok status ≡ true
      → read_loop n status d w ≡ done r
      → (k : ℕ) × (v : D × W) × ReadsTo k (d, w) v × Fails v
  unfolding read_loop
  loop_search zero status d w good h = absurd (let q = rw good at h in cc q)
  loop_search (suc n) status d w good h =
      let (p, e, rest) = run->>= (get_next d) _ w (rw good at h) in
      elim (Bool-cases (is_ok p.0.0)) [
        | inr bad ↦ (0, (d, w), refl, (p, e, bad))
        | inl first ↦
            let (k, v, more, fails) = loop_search n p.0.0 p.0.1 p.1 first rest in
            (suc k, v, (p, e, first, more), fails)
      ]

  -- What an open source returns comes from the loop, with the status OK.
  opened_returns :
      (s : ConnectorChunkSource D) (fuel : ℕ) (w : W) (r : (Status × ConnectorChunkSource D) × W)
      → s.opened ≡ true
      → read_chunk fuel s w ≡ done r
      → (p : (Status × D) × W) × (read_loop fuel s.status s.source w ≡ done p) × (r.0.0 ≡ ok_status)
  unfolding read_chunk read_opened
  opened_returns s fuel w r is_open h =
      let (p, e, rest) = run->>= (read_loop fuel s.status s.source) _ w (rw is_open at h) in
      (p, e, sym (ap (λ x. x.0.0) (done-injective _ r rest)))

  read_chunk_returns :
      (s : ConnectorChunkSource D) (w : W) (v : D × W) (k : ℕ)
      → s.opened ≡ true
      → is_ok s.status ≡ true
      → ReadsTo k (s.source, w) v
      → Fails v
      → (fuel : ℕ) × (r : (Status × ConnectorChunkSource D) × W) × (read_chunk fuel s w ≡ done r)
  unfolding read_chunk read_opened ◌>>=◌
  read_chunk_returns s w v k is_open good more fails =
      let (q, e) = loop_ends k s.status (s.source, w) v good more fails in
      (
        suc k,
        ((ok_status, record { opened = true; status = q.0.0; source = q.0.1 }), q.1),
        rw is_open (rw (e, read_opened, ◌>>=◌) refl),
      )

  -- A read of an open source without an error returns, for some fuel, exactly if the data source fails
  -- at last; and the status that it returns is OK even so.
  pub read_chunk_returns_iff :
      (s : ConnectorChunkSource D) (w : W)
      → s.opened ≡ true
      → is_ok s.status ≡ true
      → (((fuel : ℕ) × (r : (Status × ConnectorChunkSource D) × W) × (read_chunk fuel s w ≡ done r))
          ↔ ((k : ℕ) × (v : D × W) × ReadsTo k (s.source, w) v × Fails v))
        × ((fuel : ℕ) (r : (Status × ConnectorChunkSource D) × W)
            → read_chunk fuel s w ≡ done r
            → r.0.0 ≡ ok_status)
  read_chunk_returns_iff s w is_open good = (
    (
      λ (fuel, r, h).
          let (p, e, _) = opened_returns s fuel w r is_open h in
          loop_search fuel s.status s.source w good e,
      λ (k, v, more, fails). read_chunk_returns s w v k is_open good more fails,
    ),
    λ fuel r h. (opened_returns s fuel w r is_open h).2,
  )

  -- Of a data source whose every call that returns is OK.
  module _
      (opens : (d : D) (w : W) (r : (Status × D) × W)
        → open_source d w ≡ done r
        → is_ok r.0.0 ≡ true)
      (reads : (d : D) (w : W) (r : (Status × D) × W)
        → get_next d w ≡ done r
        → is_ok r.0.0 ≡ true) where
    read_opened-Never :
        (n : ℕ) (status : Status) (d : D) → is_ok status ≡ true → Never (read_opened n status d)
    unfolding read_opened
    read_opened-Never n status d good = Never-first (read_loop n status d) _ (record {
      at = λ w r h.
          let (k, v, _, (q, e, bad)) = loop_search n status d w good h in
          absurd (cc (reads v.0 v.1 q e, bad));
    })

    -- A read without an error never returns, with any fuel.
    pub read_chunk-Never :
        (fuel : ℕ) (s : ConnectorChunkSource D) → is_ok s.status ≡ true → Never (read_chunk fuel s)
    unfolding read_chunk
    read_chunk-Never fuel s good = record {
      at = λ w r h. elim (Bool-cases s.opened) [
        | inl e ↦ (read_opened-Never fuel s.status s.source good).at w r (rw (e, read_chunk) at h)
        | inr e ↦
            let (q, e', rest) = run->>= (open_source s.source) _ w (rw (e, read_chunk) at h) in
            (read_opened-Never fuel s.status q.0.1 good).at q.1 r
              (rw (opens s.source w q e') at rest)
      ];
    }
