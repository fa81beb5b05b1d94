-- ===== src/Status/Tests.antt =====
-- Runs of Status and StatusOr, and their theorems at concrete data.
use sr_scanner_demo.Base.{
  ◌↔◌, ◌⊎◌, ℕ, none, some, ◌≡◌, inr, refl, arith, codes, done, fault, dangling, double_free,
}
use sr_scanner_demo.Status.{internal_error, is_ok, StatusOr, status_or_of_status}
use sr_scanner_demo.Status.Laws.{IsFull}
use sr_scanner_demo.Status.Memory.{Memory, update, move_assign, destroy, run}
use sr_scanner_demo.Status.Memory.Copies.{
  run_ops, status_or_of_error, die_at, status_or_of_error_dangles, get_and_destroy,
  get_and_destroy_iff,
}
use sr_scanner_demo.Status.Memory.Ownership.{IsOwned, run-IsOwned}

abbrev failed : StatusOr ℕ
failed = record { value = none; status = internal_error (codes "no file") }

failed_made : status_or_of_status (internal_error (codes "no file")) ≡ done failed
unfolding status_or_of_status internal_error
failed_made = refl

failed-IsFull : IsFull failed
unfolding is_ok internal_error
failed-IsFull = inr (refl, refl)

-- Two variables: number 0 is OK, number 1 holds an error.
abbrev two_variables : Memory
two_variables = record {
  next = 1;
  block = update (λ p. none) 0 (some (codes "no file"));
  slot = update (λ x. none) 1 (some 0);
}

two_variables-IsOwned : IsOwned two_variables
two_variables-IsOwned = record {
  live = λ x p e. grind arith;
  unique = λ x y p e e'. grind arith;
  fresh = λ p h. grind arith;
}

run-IsOwned_example : (m' : Memory) × (run (move_assign 0 1) two_variables ≡ done m') × IsOwned m'
run-IsOwned_example = run-IsOwned (move_assign 0 1) two_variables two_variables-IsOwned tt

status_or_of_error_dangles_example :
    (m' : Memory) × (run_ops (status_or_of_error 2 3 (codes "no class")) two_variables ≡ done m')
    × (die_at 2 m' ≡ fault dangling)
    × (run (destroy 2) m' ≡ fault double_free)
status_or_of_error_dangles_example =
    status_or_of_error_dangles 2 3 (codes "no class") two_variables (λ e. omega arith)

get_and_destroy_iff_example :
    ((m' : Memory) × (run_ops (get_and_destroy 2 1 1) two_variables ≡ done m'))
    ↔ ((two_variables.slot 1 ≡ none) ⊎ ◌≡◌ {A = ℕ} 1 0)
get_and_destroy_iff_example =
    get_and_destroy_iff 2 1 1 two_variables two_variables-IsOwned (λ e. omega arith)
