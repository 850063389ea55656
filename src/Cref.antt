-- ===== src/Cref.antt =====
-- lib/xnvme_be_cref.c: the table of references to shared controllers.
pub mod Counts
pub mod Traces
mod Tests
use xnvme.Common.{
  ℕ, zero, suc, ◌+◌, ◌-◌, Bool, true, false, not, ◌==◌, ltb, if◌then◌else◌, List, [], ◌∷◌, Option,
  none, some, Ret, value, fail, einval, enomem,
}

-- `struct xnvme_be_cref_entry`: `ctrlr` 0 is NULL, and `uri` stands for the string, cut to the
-- length of the field. `destructor` 0 is NULL. `refcount` is an int, of fewer than 2^31 references.
pub record Entry : Type 0 where
  pub ctrlr : ℕ
  pub destructor : ℕ
  pub be_name : ℕ
  pub refcount : ℕ
  pub uri : ℕ

-- `memset` of an entry
abbrev pub blank : Entry
blank = record { ctrlr = 0; destructor = 0; be_name = 0; refcount = 0; uri = 0 }

-- `g_cref_table`
abbrev pub Table : Type 0
Table = List Entry

-- xnvme_be_cref_get(): the loop over the rest of the table. None is NULL.
unfoldable pub cref_get : ℕ → Table → Option Entry × Table
cref_get uri [] = (none, [])
cref_get uri (e ∷ t) =
    let (r, t') = cref_get uri t in
    if e.ctrlr == 0
    then (r, e ∷ t')
    else if not (e.uri == uri)
    then (r, e ∷ t')
    else if ltb e.refcount 1
    then (none, e ∷ t)
    else (let e' : Entry = record e { refcount = e.refcount + 1 } in (some e', e' ∷ t))

-- The loop of xnvme_be_cref_insert()
unfoldable pub insert_loop : Entry → Table → Ret × Table
insert_loop new [] = (fail enomem, [])
insert_loop new (e ∷ t) =
    let (r, t') = insert_loop new t in
    if not (e.refcount == 0) then (r, e ∷ t') else (value 0, new ∷ t)

-- xnvme_be_cref_insert()
unfoldable pub cref_insert : ℕ → ℕ → ℕ → ℕ → Table → Ret × Table
unfolding insert_loop
cref_insert uri be_name ctrlr destructor t =
    if ctrlr == 0
    then (fail einval, t)
    else insert_loop
        (record {
          ctrlr = ctrlr;
          destructor = destructor;
          be_name = be_name;
          refcount = 1;
          uri = uri;
        })
        t

-- The last reference is dropped: `destroy` is what a destructor returns for a controller.
unfoldable pub detach : (ℕ → ℕ → Ret) → Entry → Ret
detach destroy e = if e.destructor == 0 then value 0 else destroy e.destructor e.ctrlr

-- The loop of xnvme_be_cref_put()
unfoldable pub put_loop : (ℕ → ℕ → Ret) → ℕ → Table → Ret × Table
unfolding detach
put_loop destroy ctrlr [] = (fail einval, [])
put_loop destroy ctrlr (e ∷ t) =
    let (r, t') = put_loop destroy ctrlr t in
    if not (e.ctrlr == ctrlr)
    then (r, e ∷ t')
    else if ltb e.refcount 1
    then (fail einval, e ∷ t)
    else if e.refcount - 1 == 0
    then (detach destroy e, blank ∷ t)
    else (value 0, record e { refcount = e.refcount - 1 } ∷ t)

-- xnvme_be_cref_put()
unfoldable pub cref_put : (ℕ → ℕ → Ret) → ℕ → Table → Ret × Table
unfolding put_loop
cref_put destroy ctrlr t = if ctrlr == 0 then (fail einval, t) else put_loop destroy ctrlr t
