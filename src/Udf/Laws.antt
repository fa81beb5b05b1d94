-- ===== src/Udf/Laws.antt =====
-- The virtual machine of be/udf/java_udf.cpp is started once.
use sr_scanner_demo.Base.{
  true, some, ◌≡◌, refl, ap, sym, ◌∙◌, done, Bool-cases, Option-cases, inl, inr, >>=-eq-done,
  done-injective,
}
use sr_scanner_demo.Base.Int.{ℤ, pos, ltb_ℤ}
use sr_scanner_demo.Udf.Jni.{Jni}
use sr_scanner_demo.Base.Actions.{Action, run->>=, ◌>>=◌}
use sr_scanner_demo.Udf.Start.{
  JvmFunctionHelper, Jvm, launched, attach, the_helper, in_java, init_helper, class_path,
  get_jni_env, get_instance,
}

-- A thread with an environment has it from a virtual machine.
abbrev pub IsAttached : {J : Type 0} → Jvm J → Type 0
IsAttached w = w.has_env ≡ true → w.created ≡ true

module _ {J : Type 0} (jni : Jni J) where
  in_java-statics :
      {A : Type 0} (m : Action J A) (w : Jvm J) (r : A × Jvm J)
      → in_java m w ≡ done r
      → (r.1.has_env ≡ w.has_env) × (r.1.created ≡ w.created)
  in_java-statics m w r h =
      let (p, e, rest) = >>=-eq-done (m w.java) (λ q. done (q.0, record w { java = q.1 })) h in
      let q = done-injective _ r rest in
      (sym (ap (λ x. x.1.has_env) q), sym (ap (λ x. x.1.created) q))

  launched_creates :
      (ret : ℤ) (w : Jvm J) (r : Unit × Jvm J) → launched jni ret w ≡ done r → r.1.created ≡ true
  unfolding launched
  launched_creates ret w r h = elim (Bool-cases (ltb_ℤ ret (pos 0))) [
    | inl e ↦ absurd (let q = rw (e, launched) at h in cc q)
    | inr e ↦ sym (ap (λ p. p.1.created) (done-injective _ r (rw (e, launched) at h)))
  ]

  get_jni_env_creates :
      (w : Jvm J) (r : Unit × Jvm J) → get_jni_env jni w ≡ done r → r.1.created ≡ true
  unfolding get_jni_env
  get_jni_env_creates w r h = elim (Bool-cases w.created) [
    | inl c ↦ sym (ap (λ p. p.1.created) (done-injective _ r (rw (c, get_jni_env) at h)))
    | inr c ↦
        let (p, e, rest) =
          run->>= (in_java (jni.create_java_vm (class_path jni))) (launched jni) _
            (rw (c, get_jni_env) at h) in
        launched_creates p.0 p.1 r rest
  ]

  attach_attaches :
      (w : Jvm J) (r : Unit × Jvm J)
      → IsAttached w
      → attach jni w ≡ done r
      → (r.1.has_env ≡ true) × (r.1.created ≡ true)
  unfolding attach
  attach_attaches w r a h = elim (Bool-cases w.has_env) [
    | inl c ↦
        let e = done-injective _ r (rw (c, attach) at h) in
        (sym (ap (λ p. p.1.has_env) e), sym (ap (λ p. p.1.created) e) ∙ a c)
    | inr c ↦
        let (p, e, rest) =
          run->>= (get_jni_env jni) (λ u v. done (tt, record v { has_env = true })) _
            (rw (c, attach) at h) in
        let q = done-injective _ r rest in
        (sym (ap (λ x. x.1.has_env) q), sym (ap (λ x. x.1.created) q) ∙ get_jni_env_creates _ p e)
  ]

  helper_there :
      (w : Jvm J) (r : JvmFunctionHelper × Jvm J)
      → the_helper jni w.helper w ≡ done r
      → (r.1.helper ≡ some r.0) × (r.1.has_env ≡ w.has_env) × (r.1.created ≡ w.created)
  unfolding the_helper
  helper_there w r h = elim (Option-cases w.helper) [
    | inl e ↦
        let (p, e', rest) =
          run->>= (in_java (init_helper jni)) (λ h' w'. done (h', record w' { helper = some h' })) _
            (rw (e, the_helper) at h) in
        let q = done-injective _ r rest in
        let (has, created) = in_java-statics (init_helper jni) _ p e' in
        (
          sym (ap (λ x. x.1.helper) q) ∙ ap (λ x. some x.0) q,
          sym (ap (λ x. x.1.has_env) q) ∙ has,
          sym (ap (λ x. x.1.created) q) ∙ created,
        )
    | inr (k, e) ↦
        let q = done-injective _ r (rw (e, the_helper) at h) in
        (
          sym (ap (λ x. x.1.helper) q) ∙ ap (λ x. some x.0) q,
          sym (ap (λ x. x.1.has_env) q),
          sym (ap (λ x. x.1.created) q),
        )
  ]

  -- Once `getInstance` has returned, the virtual machine is created, and whatever Java does from there
  -- on, a later `getInstance` gives the same helper and a later `getJNIEnv` the environment, and neither
  -- changes anything.
  pub get_instance_again :
      (w : Jvm J) (r : JvmFunctionHelper × Jvm J)
      → IsAttached w
      → get_instance jni w ≡ done r
      → (r.1.created ≡ true)
        × ((j : J)
            → (get_instance jni (record r.1 { java = j }) ≡ done (r.0, record r.1 { java = j }))
              × (get_jni_env jni (record r.1 { java = j }) ≡ done (tt, record r.1 { java = j })))
  unfolding get_instance ◌>>=◌
  get_instance_again w r a h =
      let (p, e, rest) = run->>= (attach jni) (λ u v. the_helper jni v.helper v) w h in
      let (has, created) = attach_attaches w p a e in
      let (there, has', created') = helper_there p.1 r rest in
      let here = created' ∙ created in (here, λ j. (rw (has' ∙ has, there) refl, rw here refl))
