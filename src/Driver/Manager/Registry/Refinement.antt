-- ===== src/Driver/Manager/Registry/Refinement.antt =====
-- `get_driver_location` of be/runtime/jdbc_driver_manager.cpp refines the registry of drivers.
use mathlib.Core.Path.{subst}
use sr_scanner_demo.Base.{
  ℕ, some, List, [], ◌∷◌, ◌≡◌, refl, sym, ap, ◌∙◌, Bytes, Outcome, done, done-injective, get_elem?,
  Bool-cases, inl, inr, ==_iff, ◌>>=◌,
}
use sr_scanner_demo.Status.{Status, ok_status}
use sr_scanner_demo.Driver.Manager.{
  Entry, Manager, set_entry, Reserved, ready, pending, mark_downloaded, tmp_file_of,
  download_driver, finish, get_driver_location,
}
use sr_scanner_demo.Driver.Manager.Invariant.{IsValid, get_elem?-set}
use sr_scanner_demo.Driver.Manager.Location.{entry_at_here}
use sr_scanner_demo.Driver.Manager.Answer.{get_driver_location_total}
use sr_scanner_demo.Driver.Manager.Registry.{
  Registry, locate, locate_all, Call, view, Matches, set_entry-view,
}
use sr_scanner_demo.Driver.Manager.Registry.Reserving.{reserve-Refines}

module _ {W : Type 0} (download : Bytes → Bytes → Bytes → Bytes → W → Status × W) where
  download_driver_at :
      (url : Bytes) (id : ℕ) (e : Entry) (m : Manager) (w : W)
      → get_elem? m.heap id ≡ some e
      → (n : Manager) × (w' : W) × (e' : Entry) × (download_driver download url id m w
          ≡ done (n, w'))
        × (get_elem? n.heap id ≡ some e')
        × (e'.location ≡ e.location)
        × (view n ≡ view m)
        × (n.driver_dir ≡ m.driver_dir)
  unfolding download_driver
  download_driver_at url id e m w here = elim (Bool-cases e.is_downloaded) [
    | inl d ↦ (
      m,
      w,
      e,
      rw (entry_at_here id e m here, download_driver) (rw d refl),
      here,
      refl,
      refl,
      refl,
    )
    | inr d ↦ (
      set_entry id (mark_downloaded e) m,
      (download url (tmp_file_of m e) e.location e.checksum w).1,
      mark_downloaded e,
      rw (entry_at_here id e m here, download_driver) (rw d refl),
      get_elem?-set m.heap id id (mark_downloaded e) e here ∙ rw ((==_iff id id).1 refl),
      refl,
      set_entry-view id e (mark_downloaded e) m here refl refl,
      refl,
    )
  ]

  finish-Matches :
      (url : Bytes) (r : Reserved) (m m' : Manager) (w : W) (p : Bytes × Registry)
      → Matches m r m' p
      → (n : Manager) × (w' : W) × (finish download url r m' w ≡ done (ok_status, p.0, n, w'))
        × (view n ≡ p.1)
        × (n.driver_dir ≡ m.driver_dir)
  unfolding finish
  finish-Matches url (ready l) m m' w p (at, same, dir) =
      (m', w, ap (λ x. done (ok_status, x, m', w)) at, same, dir)
  finish-Matches url (pending id) m m' w p ((e, here, at), same, dir) =
      let (n, w', e', downloaded, here', l, same', dir') = download_driver_at url id e m' w here in
      (
        n,
        w',
        rw (downloaded, finish)
            (rw (entry_at_here id e' n here') (ap (λ x. done (ok_status, x, n, w')) (l ∙ at))),
        same' ∙ same,
        dir' ∙ dir,
      )

  get_driver_location-view :
      (c : Call) (m : Manager) (w : W)
      → IsValid m
      → let p = locate m.driver_dir c.name c.checksum c.now (view m) in
        (n : Manager) × (w' : W) × (get_driver_location download c.name c.url c.checksum c.now m w
          ≡ done (ok_status, p.0, n, w'))
        × IsValid n
        × (view n ≡ p.1)
        × (n.driver_dir ≡ m.driver_dir)
  unfolding get_driver_location
  get_driver_location-view c m w v =
      let (m', r, reserved, matches) = reserve-Refines c.name c.checksum c.now m v in
      let (n, w', e, same, dir) = finish-Matches c.url r m m' w _ matches in
      let whole : get_driver_location download c.name c.url c.checksum c.now m w
          ≡ done (ok_status, (locate m.driver_dir c.name c.checksum c.now (view m)).0, n, w') =
        rw (reserved, get_driver_location) e in
      let (l, n', u, e', v', _) =
        get_driver_location_total download c.name c.url c.checksum c.now m w v in
      (n, w', whole, subst (λ x. IsValid x.2) (done-injective _ _ (sym e' ∙ whole)) v', same, dir)

  -- The calls one after the other, with the locations that they give.
  abbrev pub get_all : List Call → Manager → W → Outcome (List Bytes × Manager × W)
  get_all [] m w = done ([], m, w)
  get_all (c ∷ cs) m w = do
    (status, location, m', w') ← get_driver_location download c.name c.url c.checksum c.now m w
    (locations, m'', w'') ← get_all cs m' w'
    done (location ∷ locations, m'', w'')

  -- From a valid manager, every sequence of calls returns the locations that the registry gives, and
  -- leaves a manager that stands for the registry which these leave, whatever the downloads do.
  pub get_all_refines :
      (cs : List Call) (m : Manager) (w : W)
      → IsValid m
      → let p = locate_all m.driver_dir cs (view m) in
        (n : Manager) × (w' : W) × (get_all cs m w ≡ done (p.0, n, w')) × IsValid n × (view n ≡ p.1)
  get_all_refines [] m w v = (m, w, refl, v, refl)
  get_all_refines (c ∷ cs) m w v =
      let (n, w', e, v', same, dir) = get_driver_location-view c m w v in
      let (n', w'', rest, v'', same') = get_all_refines cs n w' v' in
      let here =
        ap (λ d. locate_all d cs (view n)) dir ∙ ap (λ g. locate_all m.driver_dir cs g) same in
      (
        n',
        w'',
        rw (e, get_all)
            (rw rest (
              ap
                (λ x.
                  done ((locate m.driver_dir c.name c.checksum c.now (view m)).0 ∷ x.0, n', w''))
                here)),
        v'',
        same' ∙ ap (λ x. x.1) here,
      )
