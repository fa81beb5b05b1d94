-- ===== src/Runtime/State.antt =====
-- be/runtime/runtime_state.h: the descriptors and the process status of a RuntimeState. Its lock makes
-- each call one step.
use sr_scanner_demo.Base.{
  true, false, Option, none, some, List, [], ◌∷◌, ◌≡◌, refl, ap, ◌∙◌, Bytes, if◌then◌else◌,
  Bool-cases, inl, inr,
}
use sr_scanner_demo.Table.Descriptors.{DescriptorTbl}
use sr_scanner_demo.Status.{Status, ok_status, internal_error, is_ok}

-- RuntimeState. `desc_tbl` is `none` where the pointer is null.
pub record RuntimeState : Type 0 where
  pub desc_tbl : Option DescriptorTbl
  pub process_status : Status

abbrev pub new_state : RuntimeState
new_state = record { desc_tbl = none; process_status = ok_status }

-- `set_desc_tbl`
abbrev pub set_desc_tbl : DescriptorTbl → RuntimeState → RuntimeState
set_desc_tbl desc_tbl s = record s { desc_tbl = some desc_tbl }

-- `set_process_status(const std::string&)`
unfoldable pub set_process_message : Bytes → RuntimeState → RuntimeState
set_process_message err_msg s =
    if is_ok s.process_status then record s { process_status = internal_error err_msg } else s

-- `set_process_status(const Status&)`
unfoldable pub set_process_status : Status → RuntimeState → RuntimeState
set_process_status status s =
    if is_ok status
    then s
    else if is_ok s.process_status
    then record s { process_status = status }
    else s

-- A report of one of the two kinds.
pub data Report : Type 0 where
  text_report : Bytes → Report
  status_report : Status → Report

abbrev pub reported : Report → Status
reported (text_report m) = internal_error m
reported (status_report s) = s

unfoldable pub report : Report → RuntimeState → RuntimeState
unfolding set_process_message set_process_status
report (text_report m) s = set_process_message m s
report (status_report status) s = set_process_status status s

abbrev pub report_all : List Report → RuntimeState → RuntimeState
report_all [] s = s
report_all (r ∷ rs) s = report_all rs (report r s)

-- The first of the reports that is an error.
unfoldable pub first_error : List Report → Status
first_error [] = ok_status
first_error (r ∷ rs) = let rest = first_error rs in if is_ok (reported r) then rest else reported r

report_after_error :
    (rs : List Report) (s : RuntimeState) → is_ok s.process_status ≡ false → report_all rs s ≡ s
unfolding report set_process_message set_process_status
report_after_error [] s bad = refl
report_after_error (text_report m ∷ rs) s bad = rw bad (report_after_error rs s bad)
report_after_error (status_report t ∷ rs) s bad = elim (Bool-cases (is_ok t)) [
  | inl e ↦ rw e (report_after_error rs s bad)
  | inr e ↦ rw (e, bad) (report_after_error rs s bad)
]

ok_is_ok : is_ok ok_status ≡ true
unfolding is_ok
ok_is_ok = refl

-- A report to a state without an error.
report_ok :
    (r : Report) (s : RuntimeState)
    → is_ok s.process_status ≡ true
    → is_ok (reported r) ≡ true
    → report r s ≡ s
unfolding report set_process_message set_process_status is_ok internal_error
report_ok (text_report m) s e ok = cc ok
report_ok (status_report t) s e ok = unfold set_process_status in rw (ok, set_process_status)

report_error :
    (r : Report) (s : RuntimeState)
    → is_ok s.process_status ≡ true
    → is_ok (reported r) ≡ false
    → report r s ≡ record s { process_status = reported r }
unfolding report set_process_message set_process_status
report_error (text_report m) s e bad = rw e
report_error (status_report t) s e bad = rw (bad, e)

report_all_ok :
    (rs : List Report) (s : RuntimeState)
    → s.process_status ≡ ok_status
    → (report_all rs s).process_status ≡ first_error rs
unfolding first_error
report_all_ok [] s e = e
report_all_ok (r ∷ rs) s e =
    let fine = ap is_ok e ∙ ok_is_ok in
    elim (Bool-cases (is_ok (reported r))) [
      | inl ok ↦ rw (report_all, report_ok r s fine ok, ok, first_error) (report_all_ok rs s e)
      | inr bad ↦
          rw (report_all, report_error r s fine bad, bad, first_error)
            (ap (λ u. u.process_status)
              (report_after_error rs (record s { process_status = reported r }) bad))
    ]

-- After any sequence of reports to a new state, its process status is the first of them that is an
-- error, and OK if none is.
pub report_all-first_error :
    (rs : List Report) → (report_all rs new_state).process_status ≡ first_error rs
report_all-first_error rs = report_all_ok rs new_state refl
