-- ===== src/Table/Lookup.antt =====
-- What the lookups of DescriptorTbl in be/table/descriptors.cpp find, and which debug texts return.
use sr_scanner_demo.Base.{
  List, [], ◌∷◌, All, ◌++◌, codes, ◌≡◌, ◌⊎◌, ◌↔◌, inl, inr, refl, Bytes, done, >>=-eq-done,
}
use sr_scanner_demo.Base.Decimal.{to_string}
use sr_scanner_demo.Runtime.Types
use sr_scanner_demo.Table.Descriptors.{
  slot_debug_string, TupleDescriptor, tuple_debug_string, IdMap, DescriptorTbl, tuples_debug_string,
  tbl_debug_string,
}

pub List-cases {ℓ} :
    {A : Type ℓ} (l : List A) → (l ≡ []) ⊎ ((a : A) × (as' : List A) × (l ≡ a ∷ as'))
List-cases [] = inl refl
List-cases (a ∷ as') = inr (a, as', refl)

-- A slot's text never returns, so a tuple's does only if it has no slot.
tuple_debug_string-slots :
    (t : TupleDescriptor) {s : Bytes} → tuple_debug_string t ≡ done s → t.slots ≡ []
unfolding tuple_debug_string slot_debug_string Types.debug_string
tuple_debug_string-slots t h = elim (List-cases t.slots) [
  | inl e ↦ e
  | inr (x, xs, e) ↦ absurd (let q = rw (e, tuple_debug_string) at h in cc q)
]

tuples_debug_string_slots :
    (m : IdMap TupleDescriptor) {s : Bytes}
    → tuples_debug_string m ≡ done s
    → All (λ entry. entry.1.slots ≡ []) m
unfolding tuples_debug_string
tuples_debug_string_slots [] h = tt
tuples_debug_string_slots ((id, t) ∷ m) h =
    let (this, e, rest) = >>=-eq-done (tuple_debug_string t) _ h in
    let (later, e', _) = >>=-eq-done (tuples_debug_string m) _ rest in
    (tuple_debug_string-slots t e, tuples_debug_string_slots m e')

no_slots-tuple_debug_string :
    (t : TupleDescriptor) → t.slots ≡ [] → (s : Bytes) × (tuple_debug_string t ≡ done s)
unfolding tuple_debug_string
no_slots-tuple_debug_string t e = (
  codes "Tuple(id="
      ++ to_string t.id
      ++ codes " size="
      ++ to_string t.byte_size
      ++ codes " slots=["
      ++ []
      ++ codes "])",
  rw (e, tuple_debug_string),
)

no_slots-tuples_debug_string :
    (m : IdMap TupleDescriptor)
    → All (λ entry. entry.1.slots ≡ []) m
    → (s : Bytes) × (tuples_debug_string m ≡ done s)
unfolding tuples_debug_string
no_slots-tuples_debug_string [] h = ([], refl)
no_slots-tuples_debug_string ((id, t) ∷ m) (e, es) =
    let (this, p) = no_slots-tuple_debug_string t e in
    let (rest, q) = no_slots-tuples_debug_string m es in (this ++ codes "\n" ++ rest, rw (p, q))

-- The text of a table of descriptors returns exactly if no tuple in it has a slot: the text of a slot
-- asks for that of its type, which never returns.
pub tbl_debug_string_iff :
    (tbl : DescriptorTbl)
    → ((s : Bytes) × (tbl_debug_string tbl ≡ done s))
      ↔ All (λ entry. entry.1.slots ≡ []) tbl.tuple_desc_map
unfolding tbl_debug_string
tbl_debug_string_iff tbl = (
  λ (s, h).
      let (_, e, _) = >>=-eq-done (tuples_debug_string tbl.tuple_desc_map) _ h in
      tuples_debug_string_slots tbl.tuple_desc_map e,
  λ h.
      let (s, e) = no_slots-tuples_debug_string tbl.tuple_desc_map h in
      (codes "tuples:\n" ++ s, rw e),
)
