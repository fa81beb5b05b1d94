-- ===== src/Driver/Manager/Answer.antt =====
-- `get_driver_location` of be/runtime/jdbc_driver_manager.cpp as a whole.
use mathlib.Core.Path.{subst}
use sr_scanner_demo.Base.{
  done-injective, ℕ, true, ◌≡◌, refl, sym, ◌∙◌, Bytes, done, Bool-cases, inl, inr, ==_iff,
}
use sr_scanner_demo.Base.Int.{ℤ}
use sr_scanner_demo.Status.{Status, ok_status}
use sr_scanner_demo.Driver.Manager.{
  Entry, Manager, set_entry, find_or_create, reserve, Reserved, ready, pending, mark_downloaded,
  tmp_file_of, download_driver, finish, get_driver_location,
}
use sr_scanner_demo.Driver.Manager.Invariant.{IsValid, set_entry-IsValid, get_elem?-set}
use sr_scanner_demo.Driver.Manager.Location.{
  IsCurrent, Reserves, check_available, entry_at_here, reserve_lem,
}

-- The entry that a call served: of the name and checksum asked for, available, at the location.
abbrev pub Answers : Bytes → Bytes → Bytes → Manager → Type 0
Answers name checksum location m =
    (id : ℕ) × (e : Entry) × IsCurrent name checksum id e m
    × (e.is_available ≡ true)
    × (location ≡ e.location)

pub rewrite-IsCurrent :
    (name checksum : Bytes) (id : ℕ) (e : Entry) (m : Manager)
    → IsCurrent name checksum id e m
    → IsCurrent name checksum id (mark_downloaded e) (set_entry id (mark_downloaded e) m)
rewrite-IsCurrent name checksum id e m c = record {
  found = c.found;
  here = get_elem?-set m.heap id id (mark_downloaded e) e c.here ∙ rw ((==_iff id id).1 refl);
  named = c.named;
  checked = c.checked;
}

module _ {W : Type 0} (download : Bytes → Bytes → Bytes → Bytes → W → Status × W) where
  -- `_download_driver` at a current entry leaves it downloaded and available.
  pub download_driver_lem :
      (name checksum url : Bytes) (id : ℕ) (e : Entry) (m : Manager) (w : W)
      → IsValid m
      → IsCurrent name checksum id e m
      → (m' : Manager) × (e' : Entry) × (w' : W) × (download_driver download url id m w
          ≡ done (m', w'))
        × IsValid m'
        × IsCurrent name checksum id e' m'
        × (e'.is_available ≡ true)
  unfolding download_driver
  download_driver_lem name checksum url id e m w v c = elim (Bool-cases e.is_downloaded) [
    | inl d ↦ (
      m,
      e,
      w,
      rw (entry_at_here id e m c.here, download_driver) (rw d),
      v,
      c,
      v.downloaded id e c.here ∙ d,
    )
    | inr d ↦
        let w' = (download url (tmp_file_of m e) e.location e.checksum w).1 in
        (
          set_entry id (mark_downloaded e) m,
          mark_downloaded e,
          w',
          rw (entry_at_here id e m c.here, download_driver) (rw d),
          set_entry-IsValid id e (mark_downloaded e) m v c.here refl refl,
          rewrite-IsCurrent name checksum id e m c,
          refl,
        )
  ]

  finish_lem :
      (name checksum url : Bytes) (r : Reserved) (m : Manager) (w : W)
      → Reserves name checksum r m
      → (location : Bytes) × (m' : Manager) × (w' : W) × (finish download url r m w
          ≡ done (ok_status, location, m', w'))
        × IsValid m'
        × Answers name checksum location m'
  unfolding finish
  finish_lem name checksum url (ready location) m w (v, a) = (location, m, w, refl, v, a)
  finish_lem name checksum url (pending id) m w (v, (e, c)) =
      let (m', e', w', p, v', c', a) = download_driver_lem name checksum url id e m w v c in
      (
        e'.location,
        m',
        w',
        rw (p, finish) (rw (entry_at_here id e' m' c'.here)),
        v',
        (id, e', c', a, refl),
      )

  -- On a valid manager `get_driver_location` always returns the status OK, whatever the download
  -- does: the location is that of the manager's entry for the name, which has the checksum asked
  -- for and is marked available. The manager stays valid.
  pub get_driver_location_total :
      (name url checksum : Bytes) (now : ℤ) (m : Manager) (w : W)
      → IsValid m
      → (location : Bytes) × (m' : Manager) × (w' : W) × (get_driver_location download name url
            checksum now m w
          ≡ done (ok_status, location, m', w'))
        × IsValid m'
        × Answers name checksum location m'
  unfolding get_driver_location
  get_driver_location_total name url checksum now m w v =
      let (m₁, r, reserved, kept) = reserve_lem name checksum now m v in
      let (location, m₂, w', p, v', a) = finish_lem name checksum url r m₁ w kept in
      (location, m₂, w', rw (reserved, get_driver_location) p, v', a)

  -- An available entry is served as it is: nothing is downloaded and nothing changes.
  serve_available :
      (name url checksum : Bytes) (now : ℤ) (location : Bytes) (m : Manager) (w : W)
      → Answers name checksum location m
      → get_driver_location download name url checksum now m w ≡ done (ok_status, location, m, w)
  unfolding get_driver_location reserve find_or_create
  serve_available name url checksum now location m w (id, e, c, a, l) =
      let c' : IsCurrent name e.checksum id e m = record {
        found = c.found;
        here = c.here;
        named = c.named;
        checked = refl;
      } in
      let reserved : reserve name checksum now m ≡ done (m, ready e.location) =
        rw (c.found, reserve, find_or_create)
          (check_available name checksum now id e m c' c.checked a) in
      rw (reserved, get_driver_location) (rw l)

  -- After a call on a valid manager that returned OK, a second call for the same driver gives the same
  -- location, downloads nothing and leaves manager and world as they are, whatever its url and the
  -- time.
  pub get_driver_location_twice :
      (name url url' checksum : Bytes) (now now' : ℤ) (m : Manager) (w : W) {location : Bytes}
      {m' : Manager} {w' : W}
      → IsValid m
      → get_driver_location download name url checksum now m w ≡ done (ok_status, location, m', w')
      → get_driver_location download name url' checksum now' m' w'
        ≡ done (ok_status, location, m', w')
  get_driver_location_twice name url url' checksum now now' m w {location} {m'} {w'} v h =
      let (l, n, u, p, v', a) = get_driver_location_total name url checksum now m w v in
      let same = done-injective _ _ (sym p ∙ h) in
      let again = serve_available name url' checksum now' l n u a in
      subst (λ q. get_driver_location download name url' checksum now' q.2 q.3 ≡ done q) same again
