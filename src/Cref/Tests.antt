-- ===== src/Cref/Tests.antt =====
-- A table of three entries, one of them with two references to controller 7 under the name 1.
use xnvme.Common.{ℕ, refl, inl, inr, [], ◌∷◌, Ret, value, arith}
use xnvme.Cref.{Table, blank}
use xnvme.Cref.Counts.{IsValid}
use xnvme.Cref.Traces.{get, insert, put, run_ops, run_ops-IsValid}

abbrev table : Table
table =
    blank ∷ record { ctrlr = 7; destructor = 3; be_name = 2; refcount = 2; uri = 1 } ∷ blank ∷ []

table-IsValid : IsValid table
unfolding IsValid
table-IsValid = (inl refl, (inr (omega arith, omega arith), (inl refl, omega arith)))

abbrev seven : ℕ
seven = 7

-- A destructor that succeeds.
abbrev destroy : ℕ → ℕ → Ret
destroy f c = value 0

run_ops-IsValid_example :
    IsValid (run_ops destroy (insert 4 2 9 3 ∷ get 4 ∷ put 7 ∷ put 7 ∷ put 9 ∷ []) table)
run_ops-IsValid_example =
    run_ops-IsValid destroy (insert 4 2 9 3 ∷ get 4 ∷ put 7 ∷ put 7 ∷ put 9 ∷ []) table
      table-IsValid
