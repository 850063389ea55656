-- ===== src/Platform/Scan.antt =====
-- lib/xnvme_platform.c: the enumeration of devices.
pub mod Refs
use xnvme.Common.{
  ℕ, Bool, true, false, not, ◌||◌, ◌==◌, ◌⊎◌, inl, inr, List, [], ◌∷◌, Option, none, some,
  if◌then◌else◌, Ret, value, fail, is_err, enomem, eio,
}
use xnvme.Cref.{Table, cref_get, cref_put}
use xnvme.Platform.{Config, Opts, Host, opts_default, dev_open, dev_close}

-- What an open device keeps for its closing.
pub record Dev : Type 0 where
  pub opts : Opts
  pub ctrlr : ℕ
  pub ctrlr_term : ℕ

-- `struct xnvme_ident` of a scan: whether it is a controller, whether its driver is that of the
-- kernel for NVMe, the URI with its number of characters, and the namespace.
pub record Ident : Type 0 where
  pub is_controller : Bool
  pub is_kernel_nvme : Bool
  pub uri : ℕ × ℕ
  pub nsid : ℕ

-- The parts of the library and of the platform around the enumeration. `configs` are the
-- configurations for a URI and a namespace. `clear`, `idfy` and `copy` are xnvme_buf_clear(),
-- xnvme_adm_idfy() with the test of its status, and xnvme_buf_memcpy() with the list that it
-- copies. `cb` is the callback, and whether the device is to be closed; it keeps off the table of
-- controllers.
pub record Around (W : Type 0) : Type 0 where
  pub name : ℕ
  pub classify : ℕ → ℕ
  pub configs : ℕ → ℕ → List (Config W)
  pub dev_alloc : W → Ret
  pub close : W → W
  pub buf_alloc : W → Bool × W
  pub clear : W → Ret × W
  pub idfy : W → Ret × Bool × W
  pub copy : W → Ret × List ℕ × W
  pub buf_free : W → W
  pub cb : Dev → W → Bool × W

-- `anchor` of `struct enumerate_scan_ctx`, 0 for NULL, and the devices that the callback keeps.
pub record Enum (W : Type 0) : Type 0 where
  pub anchor : ℕ
  pub kept : List Dev
  pub table : Table
  pub world : W

abbrev pub host_of : {W : Type 0} → Dev → Enum W → Host W
host_of d s = record {
  opts = d.opts;
  ctrlr = d.ctrlr;
  ctrlr_term = d.ctrlr_term;
  table = s.table;
  world = s.world;
}

abbrev pub dev_of : {W : Type 0} → Host W → Dev
dev_of h = record { opts = h.opts; ctrlr = h.ctrlr; ctrlr_term = h.ctrlr_term }

abbrev pub back : {W : Type 0} → Enum W → Host W → Enum W
back s h = record s { table = h.table; world = h.world }

-- `opts` are those of the user, or the defaults where they are NULL.
module _ {W : Type 0} (destroy : ℕ → ℕ → Ret) (has_upcie : ℕ → Bool) (around : Around W)
    (opts : Opts) where
  -- xnvme_dev_open() of a URI in the course of the enumeration.
  unfoldable pub open_uri : ℕ × ℕ → ℕ → Enum W → Ret × Host W
  open_uri uri nsid s =
      let blank : Host W = record {
        opts = opts_default;
        ctrlr = 0;
        ctrlr_term = 0;
        table = s.table;
        world = s.world;
      } in
      dev_open destroy has_upcie around.name around.classify (around.configs uri.0 nsid) (some uri)
        (some (record opts { nsid = nsid })) (around.dev_alloc s.world) blank

  -- The callback for a device that is open.
  unfoldable pub offer : Host W → Enum W → Enum W
  offer h s =
      let (closes, w) = around.cb (dev_of h) h.world in
      let h' : Host W = record h { world = w } in
      if closes
      then back s (dev_close destroy has_upcie around.close h')
      else record (back s h') { kept = dev_of h ∷ s.kept }

  unfoldable pub open_offer : ℕ × ℕ → ℕ → Enum W → Enum W
  open_offer uri nsid s =
      let (err, h) = open_uri uri nsid s in if is_err err then back s h else offer h s

  -- The loop of enumerate_controller() over the list of namespaces.
  unfoldable pub open_namespaces : ℕ × ℕ → List ℕ → Enum W → Enum W
  open_namespaces uri [] s = s
  open_namespaces uri (nsid ∷ nsids) s =
      let rest = open_namespaces uri nsids (open_offer uri nsid s) in if nsid == 0 then s else rest

  -- The buffer and the Identify command of enumerate_controller(): an error, or the list of
  -- namespaces, with the buffer still allocated, which is empty where copying it fails.
  unfoldable pub identify : W → (Ret ⊎ List ℕ) × W
  identify w0 =
      let (has_buf, w1) = around.buf_alloc w0 in
      let (err, w2) = around.clear w1 in
      let (err', is_failed, w3) = around.idfy w2 in
      let (err'', nsids, w4) = around.copy w3 in
      if not has_buf
      then (inl (fail enomem), w1)
      else if is_err err
      then (inl err, around.buf_free w2)
      else if is_err err' || is_failed
      then (inl (if is_err err' then err' else fail eio), around.buf_free w3)
      else if is_err err''
      then (inr [], w4)
      else (inr nsids, w4)

  -- The anchor of enumerate_controller()
  unfoldable pub pin : ℕ → Enum W → Enum W
  pin uri s =
      let (found, t) = cref_get uri s.table in
      if not (s.anchor == 0) then s else elim found [
        | none ↦ record s { table = t }
        | some e ↦ record s { anchor = e.ctrlr; table = t }
      ]

  abbrev pub close_dev : Dev → Enum W → Enum W
  close_dev d s = back s (dev_close destroy has_upcie around.close (host_of d s))

  -- enumerate_controller(), without the name of the driver that it notes.
  unfoldable pub enumerate_controller : ℕ × ℕ → Enum W → Ret × Enum W
  enumerate_controller uri s =
      let (err, h) = open_uri uri 0 s in
      let (found, w) = identify h.world in
      let s1 : Enum W = record (back s h) { world = w } in
      if is_err err then (err, back s h) else elim found [
        | inl err' ↦ (err', close_dev (dev_of h) s1)
        | inr nsids ↦
            let s2 : Enum W = open_namespaces uri nsids s1 in
            let s3 : Enum W = record s2 { world = around.buf_free s2.world } in
            (value 0, close_dev (dev_of h) (pin uri.0 s3))
      ]

  -- enumerate_scan_cb(), which always returns 0.
  unfoldable pub enumerate_scan_cb : Ident → Enum W → Enum W
  enumerate_scan_cb ident s =
      if ident.is_controller
      then (if ident.is_kernel_nvme then s else (enumerate_controller ident.uri s).1)
      else open_offer ident.uri
          (if not (opts.nsid == 0) then opts.nsid else if ident.nsid == 0 then 1 else ident.nsid) s

  -- The scan of the platform, which reports these identifiers one after the other.
  unfoldable pub scan_all : List Ident → Enum W → Enum W
  scan_all [] s = s
  scan_all (ident ∷ idents) s = scan_all idents (enumerate_scan_cb ident s)

  -- The end of xnvme_platform_enumerate()
  unfoldable pub unpin : Enum W → Enum W
  unpin s =
      if s.anchor == 0
      then s
      else record s { anchor = 0; table = (cref_put destroy s.anchor s.table).1 }

  -- xnvme_platform_enumerate(), from no anchor on, for the result of the scan and what it reports.
  unfoldable pub platform_enumerate : Option (ℕ × ℕ) → Ret → List Ident → Enum W → Ret × Enum W
  platform_enumerate none scanned idents s = (scanned, unpin (scan_all idents s))
  platform_enumerate (some uri) scanned idents s =
      let (err, s') = enumerate_controller uri s in (err, unpin s')
