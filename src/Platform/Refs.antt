-- ===== src/Platform/Refs.antt =====
-- The references to controllers across opening and closing devices.
use xnvme.Common.{
  ℕ, ◌+◌, ◌<◌, ◌≡◌, refl, ◌∙◌, inl, inr, Bool, true, false, not, ◌&&◌, ◌||◌, ◌⊎◌, ◌==◌,
  if◌then◌else◌, Option, List, none, some, [], ◌∷◌, Ret, value, is_err, arith, Bool-cases,
  ℕ_discrete, ==_ne, Option-cases,
}
use xnvme.Cref.{Entry, Table, cref_get, cref_insert, cref_put}
use xnvme.Cref.Counts.{
  IsValid, refs, gained, cref_get-IsValid, cref_get-refs, cref_insert-IsValid, cref_insert-refs,
}
use xnvme.Cref.Traces.{cref_put-IsValid, cref_put-refs}
use xnvme.Platform.{
  Config, Opts, Host, has_mproc, ctrlr_ready, init_ctrlr, init_cref, resolve_mem, skips, is_eperm,
  try_config, open_loop, platform_dev_open, dev_open, dev_close, ident_from_uri, options, uri_cap,
}

-- A found entry has a controller.
pub cref_get-found : (uri : ℕ) (t : Table) (e : Entry) → (cref_get uri t).0 ≡ some e → 0 < e.ctrlr
unfolding cref_get
cref_get-found uri [] e h = absurd (cc h)
cref_get-found uri (d ∷ t) e h = ground (arith, cref_get-found uri t e)

-- The references to `c` that a result of opening holds.
abbrev pub held : {W : Type 0} → ℕ → Ret × Host W → ℕ
held c (err, h) =
    if is_err err then 0 else if h.ctrlr == 0 then 0 else if h.ctrlr == c then 1 else 0

-- Beside `n` references to `c` the table has those that the result holds.
pub record IsBalanced {W : Type 0} (n c : ℕ) (res : Ret × Host W) : Type 0 where
  pub valid : IsValid res.1.table
  pub counted : refs c res.1.table ≡ n + held c res
  pub closes : (is_err res.0 ≡ true) ⊎ ((res.1.ctrlr ≡ 0) ⊎ (0 < res.1.ctrlr_term))

module _ (destroy : ℕ → ℕ → Ret) (c : ℕ) where
  pub put-counted :
      (k n : ℕ) (t : Table)
      → IsValid t
      → 0 < k
      → 0 < refs k t
      → refs c t ≡ n + (if k == c then 1 else 0)
      → refs c (cref_put destroy k t).1 ≡ n
  put-counted k n t v some_ some_refs sum = elim (cref_put-refs destroy c k t v) [
    | inl (a, b, eq) ↦ omega (arith, eq, sum)
    | inr (inl none_, eq) ↦ absurd (omega arith)
    | inr (inr none_, eq) ↦ absurd (omega arith)
  ]

-- A backend that initializes controllers also terminates them.
abbrev pub AllTermed : {W : Type 0} → List (Config W) → Type 0
AllTermed [] = Unit {0}
AllTermed (cfg ∷ cfgs) = (cfg.has_ctrlr_init ≡ true → 0 < cfg.ctrlr_term) × AllTermed cfgs

module _ {W : Type 0} (destroy : ℕ → ℕ → Ret) (has_upcie : ℕ → Bool) (c : ℕ) where
  ctrlr_ready-IsBalanced :
      (n k : ℕ) (cfg : Config W) (h : Host W)
      → IsValid h.table
      → 0 < k
      → 0 < refs k h.table
      → refs c h.table ≡ n + (if k == c then 1 else 0)
      → 0 < h.ctrlr_term
      → IsBalanced n c (ctrlr_ready destroy has_upcie cfg k h)
  unfolding ctrlr_ready
  ctrlr_ready-IsBalanced n k cfg h v some_ some_refs sum term =
      elim (Bool-cases (is_err (cfg.dev_open h.world).0)) [
        | inl bad ↦ rw bad (record {
          valid = cref_put-IsValid destroy k h.table v;
          counted = rw bad (put-counted destroy c k n h.table v some_ some_refs sum ∙ omega arith);
          closes = inl bad;
        })
        | inr ok ↦
            rw ok (record { valid = v; counted = rw ok (ground arith); closes = inr (inr term) })
      ]

  -- A failure that leaves the references as they are, and a table that stays valid.
  failed-IsBalanced :
      (n : ℕ) (err : Ret) (h : Host W)
      → IsValid h.table
      → is_err err ≡ true
      → refs c h.table ≡ n
      → IsBalanced n c (err, h)
  failed-IsBalanced n err h v bad same = record {
    valid = v;
    counted = rw bad (omega (arith, same));
    closes = inl bad;
  }

  init_ctrlr-IsBalanced :
      (n uri : ℕ) (cfg : Config W) (h : Host W)
      → IsValid h.table
      → refs c h.table ≡ n
      → 0 < h.ctrlr_term
      → IsBalanced n c (init_ctrlr destroy has_upcie uri cfg h)
  unfolding init_ctrlr
  init_ctrlr-IsBalanced n uri cfg h v same term =
      let k : ℕ = (cfg.ctrlr_init h.world).0 in
      let new : Ret × Table = cref_insert uri cfg.name k cfg.ctrlr_term h.table in
      let vt : IsValid new.1 = cref_insert-IsValid uri cfg.name k cfg.ctrlr_term h.table v in
      let sum = cref_insert-refs c uri cfg.name k cfg.ctrlr_term h.table in
      let own = cref_insert-refs k uri cfg.name k cfg.ctrlr_term h.table in
      elim (Bool-cases (h.opts.shared && not (has_mproc cfg.caps))) [
        | inl no_sharing ↦ rw no_sharing (failed-IsBalanced n _ h v refl same)
        | inr sharing ↦ elim (Bool-cases (k == 0)) [
          | inl null ↦ rw (sharing, null) (failed-IsBalanced n _ _ v (ground arith) same)
          | inr some_ ↦ elim (Bool-cases (is_err new.0)) [
            | inl full ↦
                rw (sharing, some_, full) (failed-IsBalanced n _ _ vt full (ground (arith, sum)))
            | inr ok ↦
                rw (sharing, some_, ok)
                  (ctrlr_ready-IsBalanced n k cfg
                    (record h { world = (cfg.ctrlr_init h.world).2; table = new.1 }) vt
                    (ground arith) (ground (arith, own)) (ground (arith, sum)) term)
          ]
        ]
      ]

  init_cref-IsBalanced :
      (n uri : ℕ) (cfg : Config W) (h : Host W)
      → IsValid h.table
      → refs c h.table ≡ n
      → h.ctrlr ≡ 0
      → (cfg.has_ctrlr_init ≡ true → 0 < h.ctrlr_term)
      → IsBalanced n c (init_cref destroy has_upcie uri cfg h)
  unfolding init_cref gained
  init_cref-IsBalanced n uri cfg h v same none_yet term =
      let vt = cref_get-IsValid uri h.table v in
      let sum = cref_get-refs c uri h.table in
      elim (Bool-cases cfg.has_ctrlr_init) [
        | inr plain ↦
            rw plain (record { valid = v; counted = ground arith; closes = inr (inl none_yet) })
        | inl managed ↦ elim (Option-cases (cref_get uri h.table).0) [
          | inl miss ↦
              rw (managed, miss)
                (init_ctrlr-IsBalanced n uri cfg _ vt (omega (arith, (rw miss at sum), same))
                  (term managed))
          | inr (e, hit) ↦
              let some_ = cref_get-found uri h.table e hit in
              let own = cref_get-refs e.ctrlr uri h.table in
              let found : Host W = record h { table = (cref_get uri h.table).1 } in
              elim (Bool-cases
                (not (e.be_name == cfg.name) && not (has_upcie e.be_name && has_upcie cfg.name))) [
                  | inl busy ↦
                      rw (managed, hit, busy)
                        (failed-IsBalanced n _ _ (cref_put-IsValid destroy e.ctrlr _ vt) refl (
                          put-counted destroy c e.ctrlr n _ vt some_
                            (ground (arith, (rw hit at own)))
                            (omega (arith, (rw hit at sum), same))))
                  | inr ours ↦
                      rw (managed, hit, ours)
                        (ctrlr_ready-IsBalanced n e.ctrlr cfg found vt some_
                          (ground (arith, (rw hit at own))) (omega (arith, (rw hit at sum), same))
                          (term managed))
                ]
        ]
      ]

  try_config-IsBalanced :
      (n uri : ℕ) (cfg : Config W) (opts : Opts) (h : Host W)
      → IsValid h.table
      → refs c h.table ≡ n
      → (cfg.has_ctrlr_init ≡ true → 0 < cfg.ctrlr_term)
      → IsBalanced n c (try_config destroy has_upcie uri cfg opts h)
  unfolding try_config
  try_config-IsBalanced n uri cfg opts h v same term =
      elim (Option-cases (resolve_mem cfg opts.mem)) [
        | inl no_mem ↦ rw (no_mem, try_config) (failed-IsBalanced n _ h v refl same)
        | inr (mem, eq) ↦
            let start : Host W = record h { opts = opts; ctrlr = 0; ctrlr_term = cfg.ctrlr_term } in
            let b = init_cref-IsBalanced n uri cfg start v same refl term in
            elim (Bool-cases (is_err (init_cref destroy has_upcie uri cfg start).0)) [
              | inl bad ↦ rw (eq, try_config, bad) b
              | inr ok ↦
                  rw (eq, try_config, ok)
                    (record {
                      valid = b.valid;
                      counted = ground (arith, b.counted);
                      closes = ground (arith, b.closes);
                    })
            ]
      ]

  open_loop-IsBalanced :
      (n platform ucap uri : ℕ) (opts : Opts) (cfgs : List (Config W)) (err : Ret) (h : Host W)
      → IsValid h.table
      → refs c h.table ≡ n
      → AllTermed cfgs
      → IsBalanced n c (open_loop destroy has_upcie platform ucap uri opts cfgs err h)
  unfolding open_loop
  open_loop-IsBalanced n platform ucap uri opts [] err h v same terms =
      failed-IsBalanced n _ h v (ground arith) same
  open_loop-IsBalanced n platform ucap uri opts (cfg ∷ cfgs) err h v same (term, terms) =
      let next : Ret × Host W = try_config destroy has_upcie uri cfg opts h in
      let b : IsBalanced n c next = try_config-IsBalanced n uri cfg opts h v same term in
      elim (Bool-cases (skips platform ucap opts cfg)) [
        | inl skip ↦
            rw (skip, open_loop)
              (open_loop-IsBalanced n platform ucap uri opts cfgs err h v same terms)
        | inr try_ ↦ elim (Bool-cases (is_err next.0)) [
          | inr ok ↦
              rw (try_, open_loop, ok)
                (record {
                  valid = b.valid;
                  counted = ground (arith, b.counted);
                  closes = ground (arith, b.closes);
                })
          | inl bad ↦
              let same' : refs c next.1.table ≡ n = ground (arith, b.counted) in
              elim (Bool-cases (is_eperm next.0 || (not (ucap == 0) && not (cfg.caps == 0)))) [
                | inl stop ↦
                    rw (try_, open_loop, bad, stop) (failed-IsBalanced n _ _ b.valid bad same')
                | inr go ↦
                    rw (try_, open_loop, bad, go)
                      (open_loop-IsBalanced n platform ucap uri opts cfgs next.0 next.1 b.valid
                        same' terms)
              ]
        ]
      ]

  pub dev_open-IsBalanced :
      (platform : ℕ) (classify : ℕ → ℕ) (cfgs : List (Config W)) (uri : Option (ℕ × ℕ))
      (opts : Option Opts) (alloc : Ret) (h : Host W)
      → IsValid h.table
      → AllTermed cfgs
      → IsBalanced
          (refs c h.table)
          c
          (dev_open destroy has_upcie platform classify cfgs uri opts alloc h)
  unfolding dev_open platform_dev_open
  dev_open-IsBalanced platform classify cfgs none opts alloc h v terms =
      failed-IsBalanced (refs c h.table) _ h v refl refl
  dev_open-IsBalanced platform classify cfgs (some (uri, nchars)) opts alloc h v terms =
      elim (Bool-cases (is_err alloc)) [
        | inl no_mem ↦ rw no_mem (failed-IsBalanced _ alloc h v no_mem refl)
        | inr mem ↦ elim (Bool-cases (is_err (ident_from_uri nchars))) [
          | inl long ↦ rw (mem, long) (failed-IsBalanced _ _ h v long refl)
          | inr short ↦
              rw (mem, short)
                (open_loop-IsBalanced (refs c h.table) platform
                  (uri_cap classify uri (options opts)) uri (options opts) cfgs (value 0) h v refl
                  terms)
        ]
      ]

module _ {W : Type 0} (destroy : ℕ → ℕ → Ret) (has_upcie : ℕ → Bool) where
  -- Where every backend that initializes controllers also terminates them, whatever the
  -- configurations, the options and the calls of the backends do: opening a device with a valid
  -- table of controllers leaves it valid; a failed xnvme_dev_open() leaves as many references
  -- to each controller as before, and so does a successful one followed by xnvme_dev_close().
  pub dev_open-dev_close :
      (c platform : ℕ) (classify : ℕ → ℕ) (cfgs : List (Config W)) (uri : Option (ℕ × ℕ))
      (opts : Option Opts) (alloc : Ret) (close : W → W) (h : Host W)
      → IsValid h.table
      → AllTermed cfgs
      → let (err, h') = dev_open destroy has_upcie platform classify cfgs uri opts alloc h in
        IsValid h'.table
        × (refs c (if is_err err then h' else dev_close destroy has_upcie close h').table
            ≡ refs c h.table)
  unfolding dev_close
  dev_open-dev_close c platform classify cfgs uri opts alloc close h v terms =
      let res : Ret × Host W = dev_open destroy has_upcie platform classify cfgs uri opts alloc h in
      let b =
        dev_open-IsBalanced destroy has_upcie c platform classify cfgs uri opts alloc h v terms in
      let own =
        dev_open-IsBalanced destroy has_upcie res.1.ctrlr platform classify cfgs uri opts alloc h v
          terms in
      (
        b.valid,
        elim (Bool-cases (is_err res.0)) [
          | inl bad ↦ rw bad (omega (arith, (rw bad at b.counted)))
          | inr ok ↦ elim (ℕ_discrete res.1.ctrlr 0) [
            | yes none_ ↦ rw ok (ground (arith, b.counted))
            | no some_ ↦
                let gone : (res.1.ctrlr == 0) ≡ false = ==_ne _ 0 some_ in
                let termed : (res.1.ctrlr_term == 0) ≡ false = ground (arith, b.closes) in
                rw (ok, dev_close, gone, termed)
                  (put-counted destroy c res.1.ctrlr (refs c h.table) res.1.table b.valid
                    (omega arith) (ground (arith, own.counted)) (ground (arith, b.counted)))
          ]
        ],
      )
