-- ===== src/Cref/Counts.antt =====
-- How the operations of lib/xnvme_be_cref.c change the references to the controllers.
use xnvme.Common.{
  ℕ, ◌+◌, ◌≤◌, ◌<◌, ◌≡◌, refl, ◌⊎◌, inl, inr, true, false, ◌==◌, if◌then◌else◌, [], ◌∷◌, Option,
  none, some, Ret, fail, einval, arith, is_err, Bool-cases, ℕ_discrete, ==_iff, ==_ne,
}
use xnvme.Cref.{Entry, Table, blank, cref_get, insert_loop, cref_insert, put_loop}

-- Every entry is either blank or has a controller and a reference.
unfoldable pub IsValid : Table → Type 0
IsValid [] = 0 ≤ 0
IsValid (e ∷ t) = ((e ≡ blank) ⊎ ((0 < e.ctrlr) × (0 < e.refcount))) × IsValid t

-- The number of references to a controller, over all entries.
unfoldable pub refs : ℕ → Table → ℕ
refs c [] = 0
refs c (e ∷ t) = (if e.ctrlr == c then e.refcount else 0) + refs c t

pub cref_get-IsValid : (uri : ℕ) (t : Table) → IsValid t → IsValid (cref_get uri t).1
unfolding IsValid cref_get
cref_get-IsValid uri [] h = h
cref_get-IsValid uri (e ∷ t) (h, hs) = ground (arith, cref_get-IsValid uri t hs)

insert_loop-IsValid :
    (new : Entry) (t : Table)
    → 0 < new.ctrlr
    → 0 < new.refcount
    → IsValid t
    → IsValid (insert_loop new t).1
unfolding IsValid insert_loop
insert_loop-IsValid new [] a b h = h
insert_loop-IsValid new (e ∷ t) a b (h, hs) = ground (arith, insert_loop-IsValid new t a b hs)

pub cref_insert-IsValid :
    (uri be_name ctrlr destructor : ℕ) (t : Table)
    → IsValid t
    → IsValid (cref_insert uri be_name ctrlr destructor t).1
unfolding cref_insert
cref_insert-IsValid uri be_name ctrlr destructor t h = elim (ℕ_discrete ctrlr 0) [
  | yes none_ ↦ let test : (ctrlr == 0) ≡ true = (==_iff _ 0).1 none_ in rw test h
  | no some_ ↦
      let test : (ctrlr == 0) ≡ false = ==_ne _ 0 some_ in
      rw test (insert_loop-IsValid _ t (omega arith) (omega arith) h)
]

module _ (destroy : ℕ → ℕ → Ret) (ctrlr : ℕ) where
  pub put_loop-IsValid : (t : Table) → IsValid t → IsValid (put_loop destroy ctrlr t).1
  unfolding IsValid put_loop
  put_loop-IsValid [] h = h
  put_loop-IsValid (e ∷ t) (h, hs) = ground (arith, put_loop-IsValid t hs)

-- The references that a result of xnvme_be_cref_get() adds for the controller `c`.
unfoldable pub gained : ℕ → Option Entry → ℕ
gained c none = 0
gained c (some e) = if e.ctrlr == c then 1 else 0

-- A hit adds one reference to the controller it returns, and a miss none.
pub cref_get-refs :
    (c uri : ℕ) (t : Table) → refs c (cref_get uri t).1 ≡ refs c t + gained c (cref_get uri t).0
unfolding refs cref_get gained
cref_get-refs c uri [] = refl
cref_get-refs c uri (e ∷ t) = ground (arith, cref_get-refs c uri t)

insert_loop-refs :
    (c : ℕ) (new : Entry) (t : Table)
    → refs c (insert_loop new t).1
      ≡ refs c t
        + (if is_err (insert_loop new t).0 then 0 else if new.ctrlr == c then new.refcount else 0)
unfolding refs insert_loop
insert_loop-refs c new [] = refl
insert_loop-refs c new (e ∷ t) = ground (arith, insert_loop-refs c new t)

-- An insertion that succeeds adds one reference to its controller, and one that fails none.
pub cref_insert-refs :
    (c uri be_name ctrlr destructor : ℕ) (t : Table)
    → let (r, t') = cref_insert uri be_name ctrlr destructor t in
      refs c t' ≡ refs c t + (if is_err r then 0 else if ctrlr == c then 1 else 0)
unfolding cref_insert
cref_insert-refs c uri be_name ctrlr destructor t = elim (Bool-cases (ctrlr == 0)) [
  | inl x ↦ rw x (omega arith)
  | inr x ↦ rw x (insert_loop-refs c _ t)
]

module _ (destroy : ℕ → ℕ → Ret) (c ctrlr : ℕ) where
  pub put_loop-refs :
      (t : Table)
      → IsValid t
      → 0 < ctrlr
      → 0 < refs ctrlr t
      → refs c (put_loop destroy ctrlr t).1 + (if ctrlr == c then 1 else 0) ≡ refs c t
  unfolding IsValid refs put_loop
  put_loop-refs [] h some_ held = absurd (omega arith)
  put_loop-refs (e ∷ t) (h, hs) some_ held = ground (arith, put_loop-refs t hs some_)

  pub put_loop-refuses :
      (t : Table)
      → IsValid t
      → 0 < ctrlr
      → refs ctrlr t ≡ 0
      → put_loop destroy ctrlr t ≡ (fail einval, t)
  unfolding IsValid refs put_loop
  put_loop-refuses [] h some_ free = refl
  put_loop-refuses (e ∷ t) (h, hs) some_ free = ground (arith, put_loop-refuses t hs some_)
