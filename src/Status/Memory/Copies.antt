-- ===== src/Status/Memory/Copies.antt =====
-- The copies of a Status that be/common/statusor.h, be/source/chunk_source.cpp and
-- be/operator/scan_operator.h make, as operations on the char arrays of be/common/status.h.
use sr_scanner_demo.Base.{
  ℕ, suc, zero, ◌+◌, none, some, List, [], ◌∷◌, ◌++◌, ◌≡◌, ◌≢◌, ◌⊎◌, inl, inr, Option-cases, ◌↔◌,
  refl, sym, ◌∙◌, arith, Bytes, codes, Outcome, done, throws, fault, double_free, dangling, ◌>>=◌,
  ==_iff,
}
use sr_scanner_demo.Status.{c_str}
use sr_scanner_demo.Status.Memory.Ownership.{IsOwned, run-IsOwned}
use sr_scanner_demo.Status.Memory.{
  Memory, update, delete_array, Op, construct_error, copy_construct, destroy, run, message_at,
}

unfoldable pub run_ops : List Op → Memory → Outcome Memory
run_ops [] m = done m
run_ops (op ∷ ops) m = run op m >>= run_ops ops

-- `return Status::InternalError(msg);` where a StatusOr is returned: its constructor copies the temporary,
-- which is destroyed at the end of the statement. `status` is `status_` of the StatusOr.
abbrev pub status_or_of_error : ℕ → ℕ → Bytes → List Op
status_or_of_error status temporary msg =
    construct_error temporary msg ∷ copy_construct status temporary ∷ destroy temporary ∷ []

-- The status of `ValueOrDie`, which throws its message if it is an error.
unfoldable pub die_at : ℕ → Memory → Outcome Memory
unfolding message_at
die_at status m = elim (m.slot status) [
  | none ↦ done m
  | some p ↦ do
    message ← message_at status m
    throws (
        codes "Attempted to access the value of a StatusOr object that is not OK. Error: "
        ++ message)
]

-- `GetStatus`, `_get_scan_status` and the early return of `buffer_next_batch_chunks_blocking`, of a caller that
-- drops what it gets.
abbrev pub get_status : ℕ → ℕ → List Op
get_status result status = copy_construct result status ∷ destroy result ∷ []

-- Such calls, and then the destructor of the object with the status.
unfoldable pub get_and_destroy : ℕ → ℕ → ℕ → List Op
get_and_destroy result status zero = destroy status ∷ []
get_and_destroy result status (suc n) = get_status result status ++ get_and_destroy result status n

-- A StatusOr that is made of an error has a freed message: `ValueOrDie` reads it, and the destructor
-- deletes it once more, whatever the memory was before.
pub status_or_of_error_dangles :
    (status temporary : ℕ) (msg : Bytes) (m : Memory)
    → status ≢ temporary
    → (m' : Memory) × (run_ops (status_or_of_error status temporary msg) m ≡ done m')
      × (die_at status m' ≡ fault dangling)
      × (run (destroy status) m' ≡ fault double_free)
unfolding run_ops run die_at delete_array message_at
status_or_of_error_dangles status temporary msg m differ =
    let made = update m.slot temporary (some m.next) in
    (
      record {
        next = m.next + 1;
        block = update (update m.block m.next (some (c_str msg))) m.next none;
        slot = update (update made status (made temporary)) temporary none;
      },
      ground arith,
      ground arith,
      ground arith,
    )

get_and_destroy_faults :
    (result status p : ℕ) (n : ℕ) (m : Memory)
    → result ≢ status
    → m.slot status ≡ some p
    → m.block p ≡ none
    → run_ops (get_and_destroy result status n) m ≡ fault double_free
unfolding run_ops run get_and_destroy delete_array
get_and_destroy_faults result status p zero m differ held gone = ground arith
get_and_destroy_faults result status p (suc n) m differ held gone = ground arith

get_and_destroy_ok :
    (result status n : ℕ) (m : Memory)
    → result ≢ status
    → m.slot status ≡ none
    → (m' : Memory) × (run_ops (get_and_destroy result status n) m ≡ done m')
unfolding run_ops run get_and_destroy delete_array
get_and_destroy_ok result status zero m differ null =
    (record m { slot = update m.slot status none }, ground arith)
get_and_destroy_ok result status (suc n) m differ null =
    let copied = update m.slot result none in
    let m₁ : Memory = record m { slot = update copied result none } in
    let (m', rest) = get_and_destroy_ok result status n m₁ differ (ground arith) in
    (m', rw ((==_iff result result).1 refl, run) (rw (null, delete_array) rest))

get_and_destroy_error :
    (result status p n : ℕ) (text : Bytes) (m : Memory)
    → result ≢ status
    → m.slot status ≡ some p
    → m.block p ≡ some text
    → run_ops (get_and_destroy result status (suc n)) m ≡ fault double_free
unfolding run_ops run get_and_destroy delete_array
get_and_destroy_error result status p n text m differ held there =
    let copied = update m.slot result (some p) in
    let m₁ : Memory = record m {
      block = update m.block p none;
      slot = update copied result none;
    } in
    let rest = get_and_destroy_faults result status p n m₁ differ (ground arith) (ground arith) in
    rw ((==_iff result result).1 refl, run) (rw (held, delete_array) (rw there rest))

get_and_destroy_held :
    (result status p n : ℕ) (m : Memory)
    → IsOwned m
    → result ≢ status
    → m.slot status ≡ some p
    → ((m' : Memory) × (run_ops (get_and_destroy result status n) m ≡ done m')) ↔ (n ≡ 0)
unfolding run_ops get_and_destroy
get_and_destroy_held result status p zero m own differ held =
    let (m', e, _) = run-IsOwned (destroy status) m own tt in (λ _. refl, λ _. (m', rw e refl))
get_and_destroy_held result status p (suc n) m own differ held = (
  λ (m', ran). elim (Option-cases (m.block p)) [
    | inl gone ↦ absurd (own.live status p held gone)
    | inr (text, there) ↦
        absurd (cc (sym (get_and_destroy_error result status p n text m differ held there) ∙ ran))
  ],
  λ none_got. absurd (omega (arith, none_got)),
)

-- Where every array that is pointed to is allocated and has one owner: callers that get a status in turn and
-- drop it, and the destructor of its object at the end, run without a fault exactly if the status is OK or
-- there is no such caller.
pub get_and_destroy_iff :
    (result status n : ℕ) (m : Memory)
    → IsOwned m
    → result ≢ status
    → ((m' : Memory) × (run_ops (get_and_destroy result status n) m ≡ done m'))
      ↔ ((m.slot status ≡ none) ⊎ (n ≡ 0))
get_and_destroy_iff result status n m own differ = elim (Option-cases (m.slot status)) [
  | inl null ↦ (λ _. inl null, λ _. get_and_destroy_ok result status n m differ null)
  | inr (p, held) ↦
      let (forth, back) = get_and_destroy_held result status p n m own differ held in
      (λ ran. inr (forth ran), λ c. elim c [ inl null ↦ cc (null, held) | inr never ↦ back never ])
]
