-- ===== src/Scan/Names.antt =====
-- `Operator::get_name` of be/operator/source_operator.h.
use mathlib.Core.Option.{some-injective}
use sr_scanner_demo.Base.{[], ◌∷◌, ◌++◌, append_assoc, ◌≡◌, refl, sym, ap, ◌∙◌, Bytes, codes, Lacks}
use sr_scanner_demo.Base.Int.{InInt64}
use sr_scanner_demo.Base.Decimal.{to_string, stol, stol-to_string, to_string-Lacks}
use sr_scanner_demo.Scan.Operators.{ScanOperator, get_name}

-- A text is cut in one way at its first underscore.
cut_at_first :
    (a b x y : Bytes)
    → Lacks b'_' a
    → Lacks b'_' b
    → a ++ b'_' ∷ x ≡ b ++ b'_' ∷ y
    → (a ≡ b) × (x ≡ y)
cut_at_first [] [] x y la lb e = (refl, cc e)
cut_at_first [] (d ∷ b) x y la (l, lb) e = absurd (l (cc e))
cut_at_first (c ∷ a) [] x y (l, la) lb e = absurd (l (cc e))
cut_at_first (c ∷ a) (d ∷ b) x y (l, la) (l', lb) e =
    let rest : a ++ b'_' ∷ x ≡ b ++ b'_' ∷ y = cc e in
    let (same, same') = cut_at_first a b x y la lb rest in
    let head : c ≡ d = cc e in (cc (head, same), same')

get_name_cut : (op : ScanOperator) → get_name op ≡ to_string op.id ++ b'_' ∷ op.name
unfolding get_name
get_name_cut op = append_assoc (to_string op.id) (codes "_") op.name

-- Operators with the same text of `get_name` have the same id and the same name, also where the name has
-- underscores or digits, for ids that are int64_t (theirs are int32_t).
pub get_name-injective :
    (op op' : ScanOperator)
    → InInt64 op.id
    → InInt64 op'.id
    → get_name op ≡ get_name op'
    → (op.id ≡ op'.id) × (op.name ≡ op'.name)
get_name-injective op op' r r' e =
    let (same, names) =
      cut_at_first (to_string op.id) (to_string op'.id) op.name op'.name (to_string-Lacks op.id)
        (to_string-Lacks op'.id) (sym (get_name_cut op) ∙ e ∙ get_name_cut op') in
    (
      some-injective op.id op'.id
          (sym (stol-to_string op.id r) ∙ ap stol same ∙ stol-to_string op'.id r'),
      names,
    )
