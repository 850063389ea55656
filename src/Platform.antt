-- ===== src/Platform.antt =====
-- lib/xnvme_platform.c: choosing a backend configuration for a device, and lib/xnvme_dev.c:
-- opening and closing devices.
pub mod Refs
pub mod Choice
pub mod Scan
mod Tests
use xnvme.Common.{
  ℕ, ◌+◌, ◌/◌, ◌%◌, Bool, true, false, not, ◌&&◌, ◌||◌, List, [], ◌∷◌, Option, none, some, ◌==◌,
  ltb, if◌then◌else◌, bit_and, bit_or, Ret, value, fail, einval, eio, ebusy, enotsup, enxio,
  errno_of, errno_nr, is_err, get_bits,
}
use xnvme.Cref.{Entry, Table, cref_get, cref_insert, cref_put}

-- A configuration of `struct xnvme_be_config` with its functions. Strings are numbers, equal just
-- where the strings are; `ctrlr_term` 0 is NULL. `ctrlr_init` gives a handle, 0 for NULL, and the
-- `errno` it leaves.
pub record Config (W : Type 0) : Type 0 where
  pub name : ℕ
  pub caps : ℕ
  pub async : ℕ
  pub sync : ℕ
  pub admin : ℕ
  pub mem : ℕ
  pub mem_overrides : List ℕ
  pub has_ctrlr_init : Bool
  pub ctrlr_init : W → ℕ × ℕ × W
  pub ctrlr_term : ℕ
  pub dev_open : W → Ret × W

-- The fields of `struct xnvme_opts` that choose the backend and the namespace; none is NULL. `shared` tells whether
-- `shm_id` or `homi_id` is not 0.
pub record Opts : Type 0 where
  pub be : Option ℕ
  pub async : Option ℕ
  pub sync : Option ℕ
  pub admin : Option ℕ
  pub mem : Option ℕ
  pub shared : Bool
  pub nsid : ℕ
  pub rdonly : ℕ
  pub wronly : ℕ
  pub rdwr : ℕ
  pub create : ℕ
  pub create_mode : ℕ

-- A device being opened: `dev->opts`, the handle in `dev->be.state[0]` and
-- `dev->be.dev.ctrlr_term`, with the table of controllers and what the backends work on.
pub record Host (W : Type 0) : Type 0 where
  pub opts : Opts
  pub ctrlr : ℕ
  pub ctrlr_term : ℕ
  pub table : Table
  pub world : W

-- `XNVME_BE_CAP_MPROC`
abbrev pub has_mproc : ℕ → Bool
has_mproc caps = get_bits caps 8 1 == 1

-- `opt && strcmp(opt, id)`
unfoldable pub differs : Option ℕ → ℕ → Bool
differs none id = false
differs (some s) id = not (s == id)

-- Whether one of the ids is that string.
unfoldable pub lists : List ℕ → ℕ → Bool
lists [] s = false
lists (id ∷ ids) s = id == s || lists ids s

-- `err == -EPERM || err == EPERM`
unfoldable pub is_eperm : Ret → Bool
is_eperm (value n) = n == 1
is_eperm (fail e) = errno_nr e == 1

abbrev is_given : Option ℕ → Bool
is_given none = false
is_given (some s) = true

-- `uri_cap` of xnvme_platform_dev_open(): `classify` is 0 where the platform has no such function.
abbrev pub uri_cap : (ℕ → ℕ) → ℕ → Opts → ℕ
uri_cap classify uri opts =
    if is_given opts.async || (is_given opts.sync || is_given opts.admin) then 0 else classify uri

module _ {W : Type 0} where
  -- _dev_open_resolve_mem() for `opts->mem`: the id of `be->mem` then, none where it returns -1.
  unfoldable pub resolve_mem : Config W → Option ℕ → Option ℕ
  unfolding lists
  resolve_mem cfg none = some cfg.mem
  resolve_mem cfg (some s) =
      if s == cfg.mem then some cfg.mem else if lists cfg.mem_overrides s then some s else none

  -- The tests of xnvme_platform_dev_open() that skip a configuration; `platform` is the name of
  -- the platform.
  unfoldable pub skips : ℕ → ℕ → Opts → Config W → Bool
  unfolding differs
  skips platform ucap opts cfg =
      (differs opts.be cfg.name && differs opts.be platform)
      || (differs opts.async cfg.async
          || (differs opts.sync cfg.sync
              || (differs opts.admin cfg.admin
                  || (not (ucap == 0) && (not (cfg.caps == 0) && bit_and cfg.caps ucap == 0)))))

-- `destroy` is what a destructor returns for a controller, and `has_upcie` whether strstr() finds
-- "upcie" in a name.
module _ {W : Type 0} (destroy : ℕ → ℕ → Ret) (has_upcie : ℕ → Bool) where
  -- _dev_open_init_cref() from the label on: the controller is referred to.
  unfoldable pub ctrlr_ready : Config W → ℕ → Host W → Ret × Host W
  ctrlr_ready cfg ctrlr h =
      let (err, w) = cfg.dev_open h.world in
      let h' : Host W = record h { ctrlr = ctrlr; world = w } in
      if is_err err
      then (err, record h' { table = (cref_put destroy ctrlr h.table).1 })
      else (err, h')

  -- The part of _dev_open_init_cref() for a controller that is not in the table.
  unfoldable pub init_ctrlr : ℕ → Config W → Host W → Ret × Host W
  unfolding ctrlr_ready
  init_ctrlr uri cfg h =
      let (ctrlr, errno, w) = cfg.ctrlr_init h.world in
      let h' : Host W = record h { world = w } in
      let (err, t) = cref_insert uri cfg.name ctrlr cfg.ctrlr_term h.table in
      if h.opts.shared && not (has_mproc cfg.caps)
      then (fail enotsup, h)
      else if ctrlr == 0
      then ((if errno == 0 then fail eio else fail (errno_of errno)), h')
      else if is_err err
      then (err, record h' { table = t })
      else ctrlr_ready cfg ctrlr (record h' { table = t })

  -- _dev_open_init_cref()
  unfoldable pub init_cref : ℕ → Config W → Host W → Ret × Host W
  unfolding init_ctrlr ctrlr_ready
  init_cref uri cfg h =
      let (found, t) = cref_get uri h.table in
      let h' : Host W = record h { table = t } in
      if not cfg.has_ctrlr_init
      then (let (err, w) = cfg.dev_open h.world in (err, record h { world = w }))
      else elim found [
        | none ↦ init_ctrlr uri cfg h'
        | some e ↦
            if not (e.be_name == cfg.name) && not (has_upcie e.be_name && has_upcie cfg.name)
            then (fail ebusy, record h' { table = (cref_put destroy e.ctrlr t).1 })
            else ctrlr_ready cfg e.ctrlr h'
      ]

  -- `dev->opts` with the names of what was chosen.
  abbrev pub backfill : Config W → ℕ → Opts → Opts
  backfill cfg mem opts = record opts {
    be = some cfg.name;
    admin = some cfg.admin;
    sync = some cfg.sync;
    async = some cfg.async;
    mem = some mem;
  }

  -- _dev_open_try_config(), with `opts` as the user gives them.
  unfoldable pub try_config : ℕ → Config W → Opts → Host W → Ret × Host W
  unfolding resolve_mem init_cref
  try_config uri cfg opts h = elim (resolve_mem cfg opts.mem) [
    | none ↦ (fail einval, h)
    | some mem ↦
        let (err, h') =
          init_cref uri cfg (record h { opts = opts; ctrlr = 0; ctrlr_term = cfg.ctrlr_term }) in
        if is_err err then (err, h') else (value 0, record h' { opts = backfill cfg mem h'.opts })
  ]

  -- The loop of xnvme_platform_dev_open(), with `err` the last error.
  unfoldable pub open_loop : ℕ → ℕ → ℕ → Opts → List (Config W) → Ret → Host W → Ret × Host W
  unfolding skips try_config is_eperm
  open_loop platform ucap uri opts [] err h = ((if is_err err then err else fail enxio), h)
  open_loop platform ucap uri opts (cfg ∷ cfgs) err h =
      let (err', h') = try_config uri cfg opts h in
      elim (skips platform ucap opts cfg) [
        | true ↦ open_loop platform ucap uri opts cfgs err h
        | false ↦ elim (is_err err') [
          | false ↦ (value 0, h')
          | true ↦ elim (is_eperm err' || (not (ucap == 0) && not (cfg.caps == 0))) [
            | true ↦ (err', h')
            | false ↦ open_loop platform ucap uri opts cfgs err' h'
          ]
        ]
      ]

  -- xnvme_platform_dev_open()
  unfoldable pub platform_dev_open :
      ℕ → (ℕ → ℕ) → List (Config W) → ℕ → Opts → Host W → Ret × Host W
  unfolding open_loop
  platform_dev_open platform classify cfgs uri opts h =
      open_loop platform (uri_cap classify uri opts) uri opts cfgs (value 0) h

-- The defaults that xnvme_dev_open() sets from xnvme_opts_default(): an open mode of reading and
-- writing, and `S_IRUSR | S_IWUSR`.
unfoldable pub default_modes : Opts → Opts
default_modes opts =
    let no_mode : Bool = opts.rdonly == 0 && (opts.wronly == 0 && opts.rdwr == 0) in
    record opts {
      rdwr = if no_mode then 1 else opts.rdwr;
      create_mode =
          if not (opts.create == 0) && opts.create_mode == 0 then 384 else opts.create_mode;
    }

-- xnvme_opts_default()
abbrev pub opts_default : Opts
opts_default = record {
  be = none;
  async = none;
  sync = none;
  admin = none;
  mem = none;
  shared = false;
  nsid = 1;
  rdonly = 0;
  wronly = 0;
  rdwr = 1;
  create = 0;
  create_mode = 384;
}

-- The options that xnvme_dev_open() goes on with; none is NULL.
unfoldable pub options : Option Opts → Opts
unfolding default_modes
options none = default_modes opts_default
options (some o) = default_modes o

-- xnvme_ident_from_uri() for a URI of so many characters
unfoldable pub ident_from_uri : ℕ → Ret
ident_from_uri nchars = if ltb nchars 384 then value 0 else fail einval

module _ {W : Type 0} (destroy : ℕ → ℕ → Ret) (has_upcie : ℕ → Bool) where
  -- xnvme_dev_open() of a URI with `nchars` characters, none for NULL; `alloc` is the result of
  -- xnvme_dev_alloc(), and the result minus the `errno` that it leaves where it returns NULL.
  unfoldable pub dev_open :
      ℕ → (ℕ → ℕ) → List (Config W) → Option (ℕ × ℕ) → Option Opts → Ret → Host W → Ret × Host W
  unfolding platform_dev_open options ident_from_uri
  dev_open platform classify cfgs none opts alloc h = (fail einval, h)
  dev_open platform classify cfgs (some (uri, nchars)) opts alloc h =
      if is_err alloc
      then (alloc, h)
      else if is_err (ident_from_uri nchars)
      then (ident_from_uri nchars, h)
      else platform_dev_open destroy has_upcie platform classify cfgs uri (options opts) h

  -- xnvme_dev_close() of a device that is not NULL, with `close` the dev_close() of its backend.
  unfoldable pub dev_close : (W → W) → Host W → Host W
  dev_close close h =
      let h' : Host W = record h { world = close h.world } in
      if not (h.ctrlr_term == 0) && not (h.ctrlr == 0)
      then record h' { table = (cref_put destroy h.ctrlr h.table).1 }
      else h'
