-- ===== src/Platform/Choice.antt =====
-- What an opened device of lib/xnvme_platform.c has to do with the options of the user.
use xnvme.Common.{
  ℕ, ◌≡◌, refl, ◌⊎◌, inl, inr, Bool, false, not, ◌&&◌, ◌||◌, ◌==◌, Option, List, none, some, [],
  ◌∷◌, Ret, value, is_err, arith, Bool-cases, Option-cases,
}
use xnvme.Platform.{
  Config, Opts, Host, differs, resolve_mem, skips, is_eperm, try_config, init_cref,
  platform_dev_open, uri_cap, open_loop,
}

-- An interface that is asked for is the one chosen.
abbrev pub Honours : Option ℕ → Option ℕ → Type 0
Honours none chosen = Unit {0}
Honours (some s) chosen = chosen ≡ some s

pub record AreHonoured (platform : ℕ) (opts chosen : Opts) : Type 0 where
  pub be : (opts.be ≡ some platform) ⊎ Honours opts.be chosen.be
  pub async : Honours opts.async chosen.async
  pub sync : Honours opts.sync chosen.sync
  pub admin : Honours opts.admin chosen.admin
  pub mem : Honours opts.mem chosen.mem

differs-Honours : (o : Option ℕ) (id : ℕ) → differs o id ≡ false → Honours o (some id)
unfolding differs
differs-Honours none id h = tt
differs-Honours (some s) id h = ground arith

be-Honours :
    (o : Option ℕ) (platform name : ℕ)
    → (differs o name && differs o platform) ≡ false
    → (o ≡ some platform) ⊎ Honours o (some name)
unfolding differs
be-Honours none platform name h = inr tt
be-Honours (some s) platform name h = ground arith

module _ {W : Type 0} where
  resolve_mem-Honours :
      (cfg : Config W) (o : Option ℕ) (mem : ℕ)
      → resolve_mem cfg o ≡ some mem
      → Honours o (some mem)
  unfolding resolve_mem
  resolve_mem-Honours cfg none mem h = tt
  resolve_mem-Honours cfg (some s) mem h = ground arith

module _ {W : Type 0} (destroy : ℕ → ℕ → Ret) (has_upcie : ℕ → Bool) where
  -- A configuration that is opened puts its names into the options.
  try_config-names :
      (uri : ℕ) (cfg : Config W) (opts : Opts) (h : Host W)
      → let (err, h') = try_config destroy has_upcie uri cfg opts h in
        is_err err ≡ false
        → (h'.opts.be ≡ some cfg.name)
          × (h'.opts.async ≡ some cfg.async)
          × (h'.opts.sync ≡ some cfg.sync)
          × (h'.opts.admin ≡ some cfg.admin)
          × Honours opts.mem h'.opts.mem
  unfolding try_config
  try_config-names uri cfg opts h ok = elim (Option-cases (resolve_mem cfg opts.mem)) [
    | inl no_mem ↦ absurd (cc (rw (no_mem, try_config) at ok))
    | inr (mem, eq) ↦
        let start : Host W = record h { opts = opts; ctrlr = 0; ctrlr_term = cfg.ctrlr_term } in
        elim (Bool-cases (is_err (init_cref destroy has_upcie uri cfg start).0)) [
          | inl bad ↦ absurd (cc (rw (eq, try_config, bad) at ok))
          | inr good ↦
              rw (eq, try_config, good)
                (refl, refl, refl, refl, resolve_mem-Honours cfg opts.mem mem eq)
        ]
  ]

  skips-Honours :
      (platform ucap : ℕ) (opts chosen : Opts) (cfg : Config W)
      → skips platform ucap opts cfg ≡ false
      → chosen.be ≡ some cfg.name
      → chosen.async ≡ some cfg.async
      → chosen.sync ≡ some cfg.sync
      → chosen.admin ≡ some cfg.admin
      → Honours opts.mem chosen.mem
      → AreHonoured platform opts chosen
  unfolding skips
  skips-Honours platform ucap opts chosen cfg no_skip b a s d m =
      let be_ok : (differs opts.be cfg.name && differs opts.be platform) ≡ false = ground arith in
      let async_ok : differs opts.async cfg.async ≡ false = ground arith in
      let sync_ok : differs opts.sync cfg.sync ≡ false = ground arith in
      let admin_ok : differs opts.admin cfg.admin ≡ false = ground arith in
      record {
        be = rw b (be-Honours opts.be platform cfg.name be_ok);
        async = rw a (differs-Honours opts.async cfg.async async_ok);
        sync = rw s (differs-Honours opts.sync cfg.sync sync_ok);
        admin = rw d (differs-Honours opts.admin cfg.admin admin_ok);
        mem = m;
      }

  open_loop-Honours :
      (platform ucap uri : ℕ) (opts : Opts) (cfgs : List (Config W)) (err : Ret) (h : Host W)
      → let (r, h') = open_loop destroy has_upcie platform ucap uri opts cfgs err h in
        is_err r ≡ false → AreHonoured platform opts h'.opts
  unfolding open_loop
  open_loop-Honours platform ucap uri opts [] err h ok = absurd (ground arith)
  open_loop-Honours platform ucap uri opts (cfg ∷ cfgs) err h ok =
      let next : Ret × Host W = try_config destroy has_upcie uri cfg opts h in
      elim (Bool-cases (skips platform ucap opts cfg)) [
        | inl skip ↦
            rw (skip, open_loop)
              (open_loop-Honours platform ucap uri opts cfgs err h (rw (skip, open_loop) at ok))
        | inr try_ ↦ elim (Bool-cases (is_err next.0)) [
          | inr good ↦
              let (b, a, s, d, m) = try_config-names uri cfg opts h good in
              rw (try_, open_loop, good)
                (skips-Honours platform ucap opts next.1.opts cfg try_ b a s d m)
          | inl bad ↦
              elim (Bool-cases (is_eperm next.0 || (not (ucap == 0) && not (cfg.caps == 0)))) [
                | inl stop ↦ absurd (cc (bad, (rw (try_, open_loop, bad, stop) at ok)))
                | inr go ↦
                    rw (try_, open_loop, bad, go)
                      (open_loop-Honours platform ucap uri opts cfgs next.0 next.1
                        (rw (try_, open_loop, bad, go) at ok))
              ]
        ]
      ]

  -- A device that xnvme_platform_dev_open() opens has the asynchronous, synchronous, admin and
  -- memory interfaces that the options ask for, where they ask for one, and the backend asked
  -- for unless that is the name of the platform.
  pub platform_dev_open-AreHonoured :
      (platform : ℕ) (classify : ℕ → ℕ) (cfgs : List (Config W)) (uri : ℕ) (opts : Opts)
      (h : Host W)
      → is_err (platform_dev_open destroy has_upcie platform classify cfgs uri opts h).0 ≡ false
      → AreHonoured platform opts
          (platform_dev_open destroy has_upcie platform classify cfgs uri opts h).1.opts
  unfolding platform_dev_open
  platform_dev_open-AreHonoured platform classify cfgs uri opts h ok =
      open_loop-Honours platform (uri_cap classify uri opts) uri opts cfgs (value 0) h ok
