-- ===== src/Base/Find.antt =====
-- The searches of std::string and std::string_view that the program makes.
use Prim.Native.Nat.{ℕ, suc, ◌+◌, ◌-◌}
use mathlib.Core.Path.{◌≡◌, refl, ap}
use mathlib.Core.Logic.{inl, inr}
use mathlib.Core.Option.{Option, none, some}
use mathlib.Core.List.{[], ◌∷◌, ◌++◌}
use native.Mathlib.Omega.{arith}
use package.sr_scanner_demo.Base.Tests.{◌==◌, ==_iff, if◌then◌else◌, Bool-cases, Option-cases}
use package.sr_scanner_demo.Base.Lists.{length, take, drop, length-append, take-append_length}
use package.sr_scanner_demo.Base.Text.{Bytes, Lacks}

-- `find_last_of(c)`; `none` is npos.
unfoldable pub find_last_of : ℕ → Bytes → Option ℕ
find_last_of c [] = none
find_last_of c (x ∷ s) = elim (find_last_of c s) [
  | some i ↦ some (suc i)
  | none ↦ if x == c then some 0 else none
]

-- `remove_suffix(n)`, for n at most the length.
unfoldable pub remove_suffix : ℕ → Bytes → Bytes
remove_suffix n s = take (length s - n) s

pub find_last_of-none : (c : ℕ) (s : Bytes) → Lacks c s → find_last_of c s ≡ none
unfolding find_last_of
find_last_of-none c [] h = refl
find_last_of-none c (x ∷ s) (hx, hs) = ground (arith, find_last_of-none c s hs)

pub find_last_of-Lacks : (c : ℕ) (s : Bytes) → find_last_of c s ≡ none → Lacks c s
unfolding find_last_of
find_last_of-Lacks c [] h = tt
find_last_of-Lacks c (x ∷ s) h = elim (Option-cases (find_last_of c s)) [
  | inl e ↦ (ground (arith, e), find_last_of-Lacks c s e)
  | inr (i, e) ↦ absurd (ground (arith, e))
]

-- The last `c` stands in front of what has none.
pub find_last_of-append :
    (c : ℕ) (xs ys : Bytes) → Lacks c ys → find_last_of c (xs ++ c ∷ ys) ≡ some (length xs)
unfolding find_last_of
find_last_of-append c [] ys h = ground (arith, find_last_of-none c ys h)
find_last_of-append c (x ∷ xs) ys h = rw (find_last_of-append c xs ys h)

pub find_last_of_split :
    (c : ℕ) (s : Bytes) {i : ℕ}
    → find_last_of c s ≡ some i
    → (xs : Bytes) × (ys : Bytes) × (s ≡ xs ++ c ∷ ys) × Lacks c ys × (i ≡ length xs)
unfolding find_last_of
find_last_of_split c [] h = cc
find_last_of_split c (x ∷ s) {i} h = elim (Option-cases (find_last_of c s)) [
  | inr (j, e) ↦
      let (xs, ys, p, lacks, q) = find_last_of_split c s e in
      (x ∷ xs, ys, ap (λ r. x ∷ r) p, lacks, ground (arith, e, q))
  | inl e ↦ elim (Bool-cases (x == c)) [
    | inl same ↦ (
      [],
      s,
      ap (λ r. r ∷ s) ((==_iff x c).0 same),
      find_last_of-Lacks c s e,
      ground (arith, e, same),
    )
    | inr other ↦ absurd (ground (arith, e, other))
  ]
]

pub drop-append_suc : (c : ℕ) (xs ys : Bytes) → drop (length xs + 1) (xs ++ c ∷ ys) ≡ ys
drop-append_suc c xs ys = rw (length_suc xs) (go xs)
  where
    length_suc : (zs : Bytes) → length zs + 1 ≡ suc (length zs)
    length_suc zs = omega arith

    go : (zs : Bytes) → drop (suc (length zs)) (zs ++ c ∷ ys) ≡ ys
    go [] = refl
    go (z ∷ zs) = go zs

pub remove_suffix-append : (xs ys : Bytes) → remove_suffix (length ys) (xs ++ ys) ≡ xs
unfolding remove_suffix
remove_suffix-append xs ys =
    let e : length (xs ++ ys) - length ys ≡ length xs = omega (arith, length-append xs ys) in
    rw e (take-append_length xs ys)

pub remove_suffix-append_suc :
    (c : ℕ) (xs ys : Bytes) → remove_suffix (length ys + 1) (xs ++ c ∷ ys) ≡ xs
unfolding remove_suffix
remove_suffix-append_suc c xs ys =
    let e : length (xs ++ c ∷ ys) - (length ys + 1) ≡ length xs =
      omega (arith, length-append xs (c ∷ ys)) in
    rw e (take-append_length xs (c ∷ ys))
