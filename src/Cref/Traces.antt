-- ===== src/Cref/Traces.antt =====
-- Sequences of operations on the table of lib/xnvme_be_cref.c, and what is found in it.
use xnvme.Common.{
  ℕ, ◌+◌, ◌<◌, ◌≡◌, ◌≢◌, sym, ap, ◌∙◌, ◌⊎◌, inl, inr, true, false, ◌==◌, if◌then◌else◌, List, [],
  ◌∷◌, none, some, Ret, value, fail, einval, arith, ℕ_discrete, ==_iff, ==_ne,
}
use xnvme.Cref.{Entry, Table, cref_get, insert_loop, cref_insert, cref_put}
use xnvme.Cref.Counts.{
  IsValid, refs, cref_get-IsValid, cref_insert-IsValid, put_loop-IsValid, put_loop-refs,
  put_loop-refuses,
}

module _ (destroy : ℕ → ℕ → Ret) where
  pub cref_put-IsValid : (ctrlr : ℕ) (t : Table) → IsValid t → IsValid (cref_put destroy ctrlr t).1
  unfolding cref_put
  cref_put-IsValid ctrlr t h = elim (ℕ_discrete ctrlr 0) [
    | yes none_ ↦ let test : (ctrlr == 0) ≡ true = (==_iff _ 0).1 none_ in rw test h
    | no some_ ↦
        let test : (ctrlr == 0) ≡ false = ==_ne _ 0 some_ in
        rw test (put_loop-IsValid destroy ctrlr t h)
  ]

  -- In a valid table xnvme_be_cref_put() of a controller that is referred to drops one of its
  -- references, whatever its destructor returns, and keeps those of all others; of any other
  -- controller it fails with EINVAL and changes nothing.
  pub cref_put-refs :
      (c ctrlr : ℕ) (t : Table)
      → IsValid t
      → let t' = (cref_put destroy ctrlr t).1 in
        ((0 < ctrlr) × (0 < refs ctrlr t) × (refs c t' + (if ctrlr == c then 1 else 0) ≡ refs c t))
        ⊎ (((ctrlr ≡ 0) ⊎ (refs ctrlr t ≡ 0)) × (cref_put destroy ctrlr t ≡ (fail einval, t)))
  unfolding cref_put
  cref_put-refs c ctrlr t h = elim (ℕ_discrete ctrlr 0) [
    | yes none_ ↦ let test : (ctrlr == 0) ≡ true = (==_iff _ 0).1 none_ in inr (inl none_, rw test)
    | no some_ ↦
        let test : (ctrlr == 0) ≡ false = ==_ne _ 0 some_ in
        elim (ℕ_discrete (refs ctrlr t) 0) [
          | yes free ↦
              inr (inr free, rw test (put_loop-refuses destroy c ctrlr t h (omega arith) free))
          | no held ↦ inl (
            omega arith,
            omega arith,
            rw test (put_loop-refs destroy c ctrlr t h (omega arith) (omega arith)),
          )
        ]
  ]

  -- An operation of a backend on the table.
  pub data Op : Type 0 where
    get : ℕ → Op
    insert : ℕ → ℕ → ℕ → ℕ → Op
    put : ℕ → Op

  unfoldable pub run_op : Op → Table → Table
  unfolding cref_get cref_insert cref_put
  run_op (get uri) t = (cref_get uri t).1
  run_op (insert uri be_name ctrlr destructor) t = (cref_insert uri be_name ctrlr destructor t).1
  run_op (put ctrlr) t = (cref_put destroy ctrlr t).1

  unfoldable pub run_ops : List Op → Table → Table
  unfolding run_op
  run_ops [] t = t
  run_ops (o ∷ os) t = run_ops os (run_op o t)

  -- Whatever sequence of xnvme_be_cref_get(), _insert() and _put() is called on a valid table,
  -- every entry stays either blank or with a controller and a reference, so that a reference
  -- count is never found corrupted.
  pub run_ops-IsValid : (os : List Op) (t : Table) → IsValid t → IsValid (run_ops os t)
  unfolding run_ops run_op
  run_ops-IsValid [] t h = h
  run_ops-IsValid (get uri ∷ os) t h = run_ops-IsValid os _ (cref_get-IsValid uri t h)
  run_ops-IsValid (insert uri be_name ctrlr destructor ∷ os) t h =
      run_ops-IsValid os _ (cref_insert-IsValid uri be_name ctrlr destructor t h)
  run_ops-IsValid (put ctrlr ∷ os) t h = run_ops-IsValid os _ (cref_put-IsValid ctrlr t h)

insert_loop-get :
    (new : Entry) (t : Table)
    → IsValid t
    → 0 < new.ctrlr
    → 0 < new.refcount
    → (insert_loop new t).0 ≡ value 0
    → (cref_get new.uri t).0 ≡ none
    → (cref_get new.uri (insert_loop new t).1).0 ≡ some (record new { refcount = new.refcount + 1 })
unfolding IsValid insert_loop cref_get
insert_loop-get new [] h some_ counted ok miss = absurd (cc ok)
insert_loop-get new (e ∷ t) (h, hs) some_ counted ok miss =
    ground (arith, insert_loop-get new t hs some_ counted)

abbrev new_entry : ℕ → ℕ → ℕ → ℕ → Entry
new_entry uri be_name ctrlr destructor = record {
  ctrlr = ctrlr;
  destructor = destructor;
  be_name = be_name;
  refcount = 1;
  uri = uri;
}

cref_insert-loop :
    (uri be_name ctrlr destructor : ℕ) (t : Table)
    → ctrlr ≢ 0
    → cref_insert uri be_name ctrlr destructor t
      ≡ insert_loop (new_entry uri be_name ctrlr destructor) t
unfolding cref_insert
cref_insert-loop uri be_name ctrlr destructor t some_ =
    let test : (ctrlr == 0) ≡ false = ==_ne _ 0 some_ in rw test

-- A controller that was inserted under a name that a valid table did not hold is found under
-- this name, with two references then.
pub cref_get-cref_insert :
    (uri be_name ctrlr destructor : ℕ) (t : Table)
    → IsValid t
    → ctrlr ≢ 0
    → (cref_get uri t).0 ≡ none
    → (cref_insert uri be_name ctrlr destructor t).0 ≡ value 0
    → (cref_get uri (cref_insert uri be_name ctrlr destructor t).1).0
      ≡ some (record {
        ctrlr = ctrlr;
        destructor = destructor;
        be_name = be_name;
        refcount = 2;
        uri = uri;
      })
cref_get-cref_insert uri be_name ctrlr destructor t h some_ miss ok =
    let new : Entry = new_entry uri be_name ctrlr destructor in
    let same : cref_insert uri be_name ctrlr destructor t ≡ insert_loop new t =
      cref_insert-loop uri be_name ctrlr destructor t some_ in
    rw same (
      insert_loop-get new t h (omega arith) (omega arith)
        (ap (λ (r : Ret × Table). r.0) (sym same) ∙ ok) miss)
