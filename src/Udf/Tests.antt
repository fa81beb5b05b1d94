-- ===== src/Udf/Tests.antt =====
-- The start of the virtual machine at concrete data.
use sr_scanner_demo.Base.{false, ◌≡◌, refl, done}
use sr_scanner_demo.Base.Actions.{◌>>=◌}
use sr_scanner_demo.Base.{[], ◌∷◌, All}
use sr_scanner_demo.Udf.Refs.{Refs, run_all, class_move_assign}
use sr_scanner_demo.Udf.Ownership.{IsNoCopy, owners, run_all-owners}
use sr_scanner_demo.Udf.Start.{get_instance}
use sr_scanner_demo.Udf.Sample.{sample_java, sample_helper, unstarted, started}

first_instance : get_instance (sample_java false) unstarted ≡ done (sample_helper, started)
unfolding get_instance ◌>>=◌
first_instance = refl

-- Two variables with the references 7 and 8.
abbrev two_refs : Refs
two_refs = record { handles = 7 ∷ 8 ∷ []; dropped = []; deleted = [] }

-- A JVMClass that is move-assigned gets the reference, and its own is dropped with the temporary.
class_assigned :
    run_all (class_move_assign 0 1 2) two_refs
    ≡ record { handles = 8 ∷ 0 ∷ 0 ∷ 0 ∷ []; dropped = 7 ∷ 0 ∷ 0 ∷ 0 ∷ 0 ∷ []; deleted = [] }
unfolding run_all
class_assigned = refl

class-IsNoCopy : All IsNoCopy (class_move_assign 0 1 2)
class-IsNoCopy = (tt, (tt, (tt, (tt, (tt, (tt, (tt, tt)))))))

run_all-owners_example :
    (owners 7 (run_all (class_move_assign 0 1 2) two_refs) ≡ 1)
    × ((run_all (class_move_assign 0 1 2) two_refs).deleted ≡ [])
run_all-owners_example = run_all-owners 7 refl (class_move_assign 0 1 2) two_refs class-IsNoCopy
