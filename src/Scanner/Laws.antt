-- ===== src/Scanner/Laws.antt =====
-- What the calls of JDBCScanner in be/scanner/jdbc_scanner.cpp leave where they return.
use mathlib.Core.Path.{subst}
use sr_scanner_demo.Base.{
  ℕ, ◌⊎◌, refl, no_return, Bool, true, false, not, Option, none, some, ◌≡◌, ◌↔◌, sym, ap, ◌∙◌,
  Bytes, done, ◌==◌, Bool-cases, inl, inr, done-injective, >>=-eq-done,
}
use sr_scanner_demo.Base.Actions.{
  Action, give, Ensures, Ensures-give, Ensures-bind, Ensures-skip, Ensures-if, Ensures-assume,
  run->>=, Never, Never-fails, Never-first, Never-after, ◌>>=◌,
}
use sr_scanner_demo.Status.{Status, ok_status, internal_error}
use sr_scanner_demo.Udf.Jni.{Ref, null, Jni, IsLawful}
use sr_scanner_demo.Udf.Start.{Jvm, in_java}
use sr_scanner_demo.Chunk.{Chunk}
use sr_scanner_demo.Scanner.{JdbcScanner, drop_exception, check_java_exception, checked, or_return}
use sr_scanner_demo.Scanner.Reading.{file_chunk, read_next_chunk, has_next, get_next}

module _ {J : Type 0} (jni : Jni J) where
  or_return-Ensures :
      {A : Type 0} {P : Jvm J → Type 0} {Q : Status × A → Jvm J → Type 0} (a : A)
      (rest : Action (Jvm J) (Status × A))
      → ((status : Status) → Ensures P (give (status, a)) Q)
      → Ensures P rest Q
      → (r : Option Status) → Ensures P (or_return jni a rest r) Q
  or_return-Ensures a rest k k' none = k'
  or_return-Ensures a rest k k' (some status) = k status

  pub checked-Ensures :
      {A : Type 0} {P : Jvm J → Type 0} {Q : Status × A → Jvm J → Type 0} (msg : Bytes) (a : A)
      (rest : Action (Jvm J) (Status × A))
      → ((status : Status) → Ensures (λ w. Unit) (give (status, a)) Q)
      → Ensures (λ w. Unit) rest Q
      → Ensures P (checked jni msg a rest) Q
  checked-Ensures msg a rest k k' = Ensures-skip _ _ (or_return-Ensures a rest k k')

  -- The macro gives no status, or the error with its message.
  check_java_exception-Ensures :
      (msg : Bytes)
      → Ensures
          (λ w. Unit)
          (check_java_exception jni msg)
          (λ r w. (r ≡ none) ⊎ (r ≡ some (internal_error msg)))
  unfolding check_java_exception
  check_java_exception-Ensures msg = Ensures-skip _ _ λ thr.
      Ensures-if (thr == null) _ _ (λ _. Ensures-give none (λ w _. inl refl))
        (λ _. Ensures-skip _ _ λ err. Ensures-give _ (λ w _. inr refl))

  pub checked_error-Ensures :
      {A : Type 0} {Q : Status × A → Jvm J → Type 0} (msg : Bytes) (a : A)
      (rest : Action (Jvm J) (Status × A))
      → Ensures (λ w. Unit) (give (internal_error msg, a)) Q
      → Ensures (λ w. Unit) rest Q
      → Ensures (λ w. Unit) (checked jni msg a rest) Q
  checked_error-Ensures {Q} msg a rest k k' =
      Ensures-bind _ _ (check_java_exception-Ensures msg)
        λ r. Ensures-assume λ came. returned r came
    where
      returned :
          (r : Option Status)
          → (r ≡ none) ⊎ (r ≡ some (internal_error msg))
          → Ensures (λ w. Unit) (or_return jni a rest r) Q
      returned r (inl e) = subst (λ x. Ensures (λ w. Unit) (or_return jni a rest x) Q) (sym e) k'
      returned r (inr e) = subst (λ x. Ensures (λ w. Unit) (or_return jni a rest x) Q) (sym e) k

  file_chunk-Never :
      (jchunk : Ref) (n : ℕ) (chunk : Option Chunk) (s : JdbcScanner)
      → Never (file_chunk jni jchunk n chunk s)
  unfolding file_chunk
  file_chunk-Never jchunk n chunk s =
      Never-after _ _ λ h. Never-after _ _ λ u. Never-fails no_return

  read_next_chunk-Never :
      (chunk : Option Chunk) (eos : Bool) (s : JdbcScanner)
      → Never (read_next_chunk jni chunk eos s)
  unfolding read_next_chunk
  read_next_chunk-Never chunk eos s =
      Never-after _ _
        λ (status, (jchunk, rows)). Never-first _ _ (file_chunk-Never jchunk rows chunk s)

  get_next_ends :
      (chunk : Option Chunk) (eos : Bool) (s : JdbcScanner) (w : Jvm J)
      (r : (Status × (Option Chunk × Bool)) × Jvm J)
      → get_next jni chunk eos s w ≡ done r
      → (status : Status) × (has_next jni false s w ≡ done ((status, false), r.1))
        × (r.0 ≡ (ok_status, (chunk, true)))
  unfolding get_next
  get_next_ends chunk eos s w r h =
      let (p, e, rest) = run->>= (has_next jni false s) _ w h in
      elim (Bool-cases p.0.1) [
        | inl there ↦ absurd ((read_next_chunk-Never chunk eos s).at p.1 r (rw there at rest))
        | inr no_more ↦
            let q = done-injective _ r (rw no_more at rest) in
            (
              p.0.0,
              e ∙ ap (λ b. done ((p.0.0, b), p.1)) no_more ∙ ap (λ x. done ((p.0.0, false), x.1)) q,
              sym (ap (λ x. x.0) q),
            )
      ]

  -- A `get_next` that returns is one whose `_has_next` gives false, whether by Java's answer or
  -- because of an exception; then it is OK, at the end of the stream, and the chunk is as it was.
  pub get_next_iff :
      (chunk : Option Chunk) (eos : Bool) (s : JdbcScanner) (w : Jvm J)
      (r : (Status × (Option Chunk × Bool)) × Jvm J)
      → (get_next jni chunk eos s w ≡ done r) ↔ (
          (status : Status) × (has_next jni false s w ≡ done ((status, false), r.1))
          × (r.0 ≡ (ok_status, (chunk, true))))
  unfolding get_next ◌>>=◌
  get_next_iff chunk eos s w r = (
    get_next_ends chunk eos s w r,
    λ (status, e, same). rw (e, get_next) (ap (λ x. done (x, r.1)) (sym same)),
  )

  in_java-Ensures :
      {A : Type 0} (P : J → Type 0) (Q : A → J → Type 0) (m : Action J A)
      → ((j : J) (r : A × J) → P j → m j ≡ done r → Q r.0 r.1)
      → Ensures (λ w. P w.java) (in_java m) (λ a w. Q a w.java)
  in_java-Ensures P Q m h = record {
    at = λ w r p e.
        let (q, e', rest) = >>=-eq-done (m w.java) (λ q. done (q.0, record w { java = q.1 })) e in
        subst (λ x. Q x.0 x.1.java) (done-injective _ r rest) (h w.java q p e');
  }

  module _ (lawful : IsLawful jni) where
    abbrev pub IsClear : Jvm J → Type 0
    IsClear w = lawful.pending w.java ≡ false

    -- The macro, where it does not return from the function around it and where it does, leaves no
    -- exception pending.
    drop_exception-IsClear :
        {P : Jvm J → Type 0} (thr : Ref) → Ensures P (drop_exception jni thr) (λ a. IsClear)
    unfolding drop_exception
    drop_exception-IsClear thr = Ensures-skip _ _ λ h. Ensures-skip _ _ λ err.
        Ensures-bind _ _
          (in_java-Ensures (λ j. Unit) (λ a j. lawful.pending j ≡ false) jni.exception_clear
            (λ j r _ e. lawful.cleared j r e))
          λ u.
            Ensures-bind _ _
              (in_java-Ensures (λ j. lawful.pending j ≡ false) (λ a j. lawful.pending j ≡ false)
                (jni.delete_local_ref thr) (λ j r c e. lawful.deleted thr j r e ∙ c))
              λ v. Ensures-give err (λ w c. c)

    not_pending :
        (j : J) (r : Ref × J)
        → Unit {0}
        → jni.exception_occurred j ≡ done r
        → (r.0 == null) ≡ true
        → lawful.pending r.1 ≡ false
    not_pending j r _ e is_null =
        let (kept, null_iff) = lawful.occurred j r e in
        elim (Bool-cases (lawful.pending j)) [
          | inl p ↦ absurd (cc (sym is_null ∙ null_iff ∙ ap not p))
          | inr p ↦ kept ∙ p
        ]

    check_java_exception-IsClear :
        (msg : Bytes) → Ensures (λ w. Unit) (check_java_exception jni msg) (λ a. IsClear)
    unfolding check_java_exception
    check_java_exception-IsClear msg =
        Ensures-bind _ _
          (in_java-Ensures (λ j. Unit) (λ thr j. (thr == null) ≡ true → lawful.pending j ≡ false)
            jni.exception_occurred (not_pending))
          λ thr.
            Ensures-if (thr == null) _ _ (λ is_null. Ensures-give none (λ w c. c is_null))
              (λ _. Ensures-bind _ _ (drop_exception-IsClear thr) λ err. Ensures-give _ (λ w c. c))

    checked-IsClear :
        {A : Type 0} (msg : Bytes) (a : A) (rest : Action (Jvm J) (Status × A))
        → Ensures IsClear rest (λ r. IsClear)
        → Ensures (λ w. Unit) (checked jni msg a rest) (λ r. IsClear)
    checked-IsClear msg a rest k =
        Ensures-bind _ _ (check_java_exception-IsClear msg)
          (or_return-Ensures a rest (λ status. Ensures-give (status, a) (λ w c. c)) k)

    has_next-IsClear :
        (result : Bool) (s : JdbcScanner)
        → Ensures (λ w. Unit) (has_next jni result s) (λ r. IsClear)
    unfolding has_next
    has_next-IsClear result s = Ensures-skip _ _ λ h.
        Ensures-skip _ _
          λ method. Ensures-skip _ _ λ ret. checked-IsClear _ result _ (Ensures-give _ (λ w c. c))

    -- Where the Java Native Interface keeps its laws, a `get_next` that returns leaves no exception
    -- pending, and its status is OK, whatever the status of `_has_next` was.
    pub get_next-IsClear :
        (chunk : Option Chunk) (eos : Bool) (s : JdbcScanner) (w : Jvm J)
        (r : (Status × (Option Chunk × Bool)) × Jvm J)
        → get_next jni chunk eos s w ≡ done r
        → IsClear r.1 × (r.0.0 ≡ ok_status)
    get_next-IsClear chunk eos s w r h =
        let (status, e, same) = get_next_ends chunk eos s w r h in
        ((has_next-IsClear false s).at w ((status, false), r.1) tt e, ap (λ x. x.0) same)
