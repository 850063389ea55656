-- ===== src/Platform/Tests.antt =====
-- Opening a device with two configurations: the first one has another asynchronous interface than
-- the one asked for, and the second one initializes controller 9.
use xnvme.Common.{
  ◌==◌, none, ℕ, ◌+◌, ◌≡◌, refl, inl, inr, false, true, Bool, if◌then◌else◌, List, [], ◌∷◌, some,
  arith, Ret, value, is_err,
}
use xnvme.Cref.{Table, blank, cref_get, cref_insert, insert_loop}
use xnvme.Cref.Counts.{IsValid, refs}
use xnvme.Platform.{
  Config, Opts, Host, opts_default, dev_open, dev_close, platform_dev_open, open_loop, skips,
  try_config, init_cref, init_ctrlr, ctrlr_ready, resolve_mem, differs, lists,
}
use xnvme.Platform.Refs.{AllTermed, dev_open-dev_close}
use xnvme.Platform.Scan.{Ident, Around, Enum, platform_enumerate}
use xnvme.Platform.Scan.Refs.{held_by, platform_enumerate-refs}
use xnvme.Platform.Choice.{AreHonoured, platform_dev_open-AreHonoured}

abbrev table : Table
table =
    blank ∷ record { ctrlr = 7; destructor = 3; be_name = 2; refcount = 2; uri = 1 } ∷ blank ∷ []

table-IsValid : IsValid table
unfolding IsValid
table-IsValid = (inl refl, (inr (omega arith, omega arith), (inl refl, omega arith)))

abbrev plain : Config ℕ
plain = record {
  name = 1;
  caps = 0;
  async = 11;
  sync = 12;
  admin = 13;
  mem = 14;
  mem_overrides = [];
  has_ctrlr_init = false;
  ctrlr_init = λ w. (0, 0, w);
  ctrlr_term = 0;
  dev_open = λ w. (value 0, w + 1);
}

abbrev shared : Config ℕ
shared = record {
  name = 2;
  caps = 0;
  async = 21;
  sync = 22;
  admin = 23;
  mem = 24;
  mem_overrides = 25 ∷ 26 ∷ [];
  has_ctrlr_init = true;
  ctrlr_init = λ w. (9, 0, w);
  ctrlr_term = 3;
  dev_open = λ w. (value 0, w + 10);
}

abbrev configs : List (Config ℕ)
configs = plain ∷ shared ∷ []

configs-AllTermed : AllTermed configs
configs-AllTermed = (λ h. absurd (cc h), (λ h. omega arith, tt))

abbrev asked : Opts
asked = record opts_default { async = some 21; mem = some 26 }

abbrev host : Host ℕ
host = record { opts = opts_default; ctrlr = 0; ctrlr_term = 0; table = table; world = 100 }

abbrev destroy : ℕ → ℕ → Ret
destroy f c = value 0

abbrev no_upcie : ℕ → Bool
no_upcie name = false

abbrev no_class : ℕ → ℕ
no_class uri = 0

abbrev opened : Ret × Host ℕ
opened = dev_open destroy no_upcie 50 no_class configs (some (4, 20)) (some asked) (value 0) host

dev_open-dev_close_example :
    IsValid opened.1.table
    × (refs 9 (
          (if is_err opened.0
            then opened.1
            else dev_close destroy no_upcie (λ w. w + 1) opened.1).table)
        ≡ refs 9 host.table)
dev_open-dev_close_example =
    dev_open-dev_close destroy no_upcie 9 50 no_class configs (some (4, 20)) (some asked) (value 0)
      (λ w. w + 1) host table-IsValid configs-AllTermed

abbrev chosen : Ret × Host ℕ
chosen = platform_dev_open destroy no_upcie 50 no_class configs 4 asked host

chosen-works : is_err chosen.0 ≡ false
unfolding platform_dev_open open_loop skips try_config init_cref init_ctrlr ctrlr_ready resolve_mem
    differs lists cref_get cref_insert insert_loop
chosen-works = refl

platform_dev_open-AreHonoured_example : AreHonoured 50 asked chosen.1.opts
platform_dev_open-AreHonoured_example =
    platform_dev_open-AreHonoured destroy no_upcie 50 no_class configs 4 asked host chosen-works

-- A controller with the namespaces 1 and 3, of which the callback has the second one closed.
abbrev around : Around ℕ
around = record {
  name = 50;
  classify = no_class;
  configs = λ uri nsid. shared ∷ plain ∷ [];
  dev_alloc = λ w. value 0;
  close = λ w. w + 1;
  buf_alloc = λ w. (true, w);
  clear = λ w. (value 0, w);
  idfy = λ w. (value 0, false, w);
  copy = λ w. (value 0, 1 ∷ 3 ∷ 0 ∷ [], w);
  buf_free = λ w. w;
  cb = λ d w. (d.opts.nsid == 3, w);
}

abbrev found : List Ident
found =
    record { is_controller = true; is_kernel_nvme = false; uri = (4, 20); nsid = 0 }
    ∷ record { is_controller = true; is_kernel_nvme = true; uri = (5, 20); nsid = 0 }
    ∷ record { is_controller = false; is_kernel_nvme = true; uri = (6, 20); nsid = 2 }
    ∷ []

abbrev before : Enum ℕ
before = record { anchor = 0; kept = []; table = table; world = 100 }

platform_enumerate-refs_example :
    let s' =
      (platform_enumerate destroy no_upcie around opts_default none (value 0) found before).1 in
    IsValid s'.table × ((c : ℕ) → refs c s'.table ≡ refs c before.table + held_by c s'.kept)
platform_enumerate-refs_example =
    platform_enumerate-refs destroy no_upcie around opts_default none (value 0) found before
      (λ uri nsid. ((λ h. omega arith), ((λ h. absurd (cc h)), tt))) table-IsValid refl refl
