-- ===== src/Platform/Scan/Refs.antt =====
-- The references to controllers across the enumeration of devices.
use xnvme.Common.{
  ℕ, ◌+◌, ◌<◌, ◌≡◌, inl, inr, Bool, true, false, ◌⊎◌, ◌==◌, if◌then◌else◌, Option, List, none, some,
  [], ◌∷◌, Ret, is_err, arith, Bool-cases, ℕ_discrete, ==_ne, ==_iff, Option-cases, sum-cases,
}
use xnvme.Cref.{cref_get}
use xnvme.Cref.Counts.{IsValid, refs, gained, cref_get-IsValid, cref_get-refs}
use xnvme.Cref.Traces.{cref_put-IsValid}
use xnvme.Platform.{Opts, Host, opts_default, dev_close}
use xnvme.Platform.Refs.{AllTermed, put-counted, cref_get-found, dev_open-IsBalanced}
use xnvme.Platform.Scan.{
  Dev, Ident, Around, Enum, host_of, dev_of, back, open_uri, offer, open_offer, open_namespaces,
  identify, pin, enumerate_controller, enumerate_scan_cb, scan_all, unpin, platform_enumerate,
}

-- The reference to `c` that holding the controller `k` takes, where 0 is none.
abbrev pub one : ℕ → ℕ → ℕ
one c k = if k == 0 then 0 else if k == c then 1 else 0

-- The references to `c` that these open devices hold.
unfoldable pub held_by : ℕ → List Dev → ℕ
held_by c [] = 0
held_by c (d ∷ ds) = one c d.ctrlr + held_by c ds

-- Beside those of `base` the table has the references of the devices kept and of the anchor.
pub record IsCounted {W : Type 0} (base : ℕ → ℕ) (s : Enum W) : Type 0 where
  pub valid : IsValid s.table
  pub counted : (c : ℕ) → refs c s.table ≡ base c + (one c s.anchor + held_by c s.kept)

-- The device of `h` is open, in the state `s` of the enumeration before.
record IsOpen {W : Type 0} (base : ℕ → ℕ) (s : Enum W) (h : Host W) : Type 0 where
  valid : IsValid h.table
  counted : (c : ℕ) → refs c h.table ≡ base c + (one c s.anchor + held_by c s.kept) + one c h.ctrlr
  closes : (h.ctrlr ≡ 0) ⊎ (0 < h.ctrlr_term)

module _ {W : Type 0} (destroy : ℕ → ℕ → Ret) (has_upcie : ℕ → Bool) (around : Around W)
    (opts : Opts) (terms : (uri nsid : ℕ) → AllTermed (around.configs uri nsid))
    (base : ℕ → ℕ) where
  open_uri-cases :
      (uri : ℕ × ℕ) (nsid : ℕ) (s : Enum W)
      → IsCounted base s
      → let (err, h) = open_uri destroy has_upcie around opts uri nsid s in
        ((is_err err ≡ true) × IsCounted base (back s h)) ⊎ ((is_err err ≡ false) × IsOpen base s h)
  unfolding open_uri
  open_uri-cases uri nsid s i =
      let h0 : Host W = record {
        opts = opts_default;
        ctrlr = 0;
        ctrlr_term = 0;
        table = s.table;
        world = s.world;
      } in
      let b = λ (c : ℕ).
        dev_open-IsBalanced destroy has_upcie c around.name around.classify
          (around.configs uri.0 nsid) (some uri) (some (record opts { nsid = nsid }))
          (around.dev_alloc s.world) h0 i.valid (terms uri.0 nsid) in
      let res : Ret × Host W = open_uri destroy has_upcie around opts uri nsid s in
      elim (Bool-cases (is_err res.0)) [
        | inl bad ↦ inl (
          bad,
          record {
            valid = (b 0).valid;
            counted = λ c. ground (arith, bad, (b c).counted, i.counted c);
          },
        )
        | inr ok ↦ inr (
          ok,
          record {
            valid = (b 0).valid;
            counted = λ c. ground (arith, ok, (b c).counted, i.counted c);
            closes = ground (arith, ok, (b 0).closes);
          },
        )
      ]

  dev_close-IsCounted :
      (s : Enum W) (h : Host W)
      → IsOpen base s h
      → IsCounted base (back s (dev_close destroy has_upcie around.close h))
  unfolding dev_close
  dev_close-IsCounted s h o = elim (ℕ_discrete h.ctrlr 0) [
    | yes none_ ↦ record {
      valid = ground (arith, o.valid);
      counted = λ c. ground (arith, o.counted c);
    }
    | no some_ ↦
        let gone : (h.ctrlr == 0) ≡ false = ==_ne _ 0 some_ in
        let termed : (h.ctrlr_term == 0) ≡ false = ground (arith, o.closes) in
        rw (dev_close, gone, termed)
          (record {
            valid = cref_put-IsValid destroy h.ctrlr h.table o.valid;
            counted = λ c.
                put-counted destroy c h.ctrlr (base c + (one c s.anchor + held_by c s.kept)) h.table
                  o.valid (omega arith) (ground (arith, o.counted h.ctrlr))
                  (ground (arith, o.counted c));
          })
  ]

  offer-IsCounted :
      (h : Host W) (s : Enum W)
      → IsOpen base s h
      → IsCounted base (offer destroy has_upcie around opts h s)
  unfolding offer held_by
  offer-IsCounted h s o =
      let called : Bool × W = around.cb (dev_of h) h.world in
      let h' : Host W = record h { world = called.1 } in
      elim (Bool-cases called.0) [
        | inl closes ↦ rw closes (
            dev_close-IsCounted s h'
              (record { valid = o.valid; counted = o.counted; closes = o.closes }))
        | inr keeps ↦
            rw keeps (record { valid = o.valid; counted = λ c. omega (arith, o.counted c) })
      ]

  open_offer-IsCounted :
      (uri : ℕ × ℕ) (nsid : ℕ) (s : Enum W)
      → IsCounted base s
      → IsCounted base (open_offer destroy has_upcie around opts uri nsid s)
  unfolding open_offer
  open_offer-IsCounted uri nsid s i = elim (open_uri-cases uri nsid s i) [
    | inl (bad, i') ↦ rw bad i'
    | inr (ok, o) ↦ rw ok (offer-IsCounted _ s o)
  ]

  open_namespaces-IsCounted :
      (uri : ℕ × ℕ) (nsids : List ℕ) (s : Enum W)
      → IsCounted base s
      → IsCounted base (open_namespaces destroy has_upcie around opts uri nsids s)
  unfolding open_namespaces
  open_namespaces-IsCounted uri [] s i = i
  open_namespaces-IsCounted uri (nsid ∷ nsids) s i = elim (Bool-cases (nsid == 0)) [
    | inl end_ ↦ rw end_ i
    | inr some_ ↦
        rw some_ (open_namespaces-IsCounted uri nsids _ (open_offer-IsCounted uri nsid s i))
  ]

  pin-IsCounted :
      (uri : ℕ) (s : Enum W)
      → IsCounted base s
      → IsCounted base (pin destroy has_upcie around opts uri s)
  unfolding pin gained
  pin-IsCounted uri s i = elim (Bool-cases (s.anchor == 0)) [
    | inr pinned ↦ rw pinned i
    | inl free ↦
        let v = cref_get-IsValid uri s.table i.valid in
        let sum = λ (c : ℕ). cref_get-refs c uri s.table in
        elim (Option-cases (cref_get uri s.table).0) [
          | inl miss ↦
              rw (free, pin, miss)
                (record {
                  valid = v;
                  counted = λ c. omega (arith, (rw miss at sum c), i.counted c);
                })
          | inr (e, hit) ↦
              let some_ = cref_get-found uri s.table e hit in
              rw (free, pin, hit)
                (record {
                  valid = v;
                  counted = λ c. ground (arith, (rw hit at sum c), i.counted c, free);
                })
        ]
  ]

module _ {W : Type 0} (destroy : ℕ → ℕ → Ret) (has_upcie : ℕ → Bool) (around : Around W)
    (opts : Opts) (terms : (uri nsid : ℕ) → AllTermed (around.configs uri nsid))
    (base : ℕ → ℕ) where
  enumerate_controller-IsCounted :
      (uri : ℕ × ℕ) (s : Enum W)
      → IsCounted base s
      → IsCounted base (enumerate_controller destroy has_upcie around opts uri s).1
  unfolding enumerate_controller
  enumerate_controller-IsCounted uri s i =
      let (err, h) = open_uri destroy has_upcie around opts uri 0 s in
      let (found, w) = identify destroy has_upcie around opts h.world in
      let s1 : Enum W = record (back s h) { world = w } in
      elim (open_uri-cases destroy has_upcie around opts terms base uri 0 s i) [
        | inl (bad, i') ↦ rw bad i'
        | inr (ok, o) ↦ elim (sum-cases found) [
          | inl (err', eq) ↦
              rw (ok, enumerate_controller, eq)
                (dev_close-IsCounted destroy has_upcie around opts terms base s1
                  (host_of (dev_of h) s1)
                  (record { valid = o.valid; counted = o.counted; closes = o.closes }))
          | inr (nsids, eq) ↦
              let with_ctrlr : ℕ → ℕ = λ c. base c + one c h.ctrlr in
              let s2 : Enum W = open_namespaces destroy has_upcie around opts uri nsids s1 in
              let s3 : Enum W = record s2 { world = around.buf_free s2.world } in
              let s4 : Enum W = pin destroy has_upcie around opts uri.0 s3 in
              let i1 : IsCounted with_ctrlr s1 = record {
                valid = o.valid;
                counted = λ c. omega (arith, o.counted c);
              } in
              let i2 =
                open_namespaces-IsCounted destroy has_upcie around opts terms with_ctrlr uri nsids
                  s1 i1 in
              let i3 : IsCounted with_ctrlr s3 = record {
                valid = i2.valid;
                counted = i2.counted;
              } in
              let i4 = pin-IsCounted destroy has_upcie around opts terms with_ctrlr uri.0 s3 i3 in
              rw (ok, enumerate_controller, eq)
                (dev_close-IsCounted destroy has_upcie around opts terms base s4
                  (host_of (dev_of h) s4)
                  (record {
                    valid = i4.valid;
                    counted = λ c. omega (arith, i4.counted c);
                    closes = o.closes;
                  }))
        ]
      ]

  enumerate_scan_cb-IsCounted :
      (ident : Ident) (s : Enum W)
      → IsCounted base s
      → IsCounted base (enumerate_scan_cb destroy has_upcie around opts ident s)
  unfolding enumerate_scan_cb
  enumerate_scan_cb-IsCounted ident s i = elim (Bool-cases ident.is_controller) [
    | inr namespace ↦
        rw namespace (open_offer-IsCounted destroy has_upcie around opts terms base ident.uri _ s i)
    | inl controller ↦ elim (Bool-cases ident.is_kernel_nvme) [
      | inl skip ↦ rw (controller, skip) i
      | inr open_ ↦ rw (controller, open_) (enumerate_controller-IsCounted ident.uri s i)
    ]
  ]

  scan_all-IsCounted :
      (idents : List Ident) (s : Enum W)
      → IsCounted base s
      → IsCounted base (scan_all destroy has_upcie around opts idents s)
  unfolding scan_all
  scan_all-IsCounted [] s i = i
  scan_all-IsCounted (ident ∷ idents) s i =
      scan_all-IsCounted idents _ (enumerate_scan_cb-IsCounted ident s i)

  unpin-IsCounted :
      (s : Enum W)
      → IsCounted base s
      → let s' = unpin destroy has_upcie around opts s in
        IsValid s'.table × ((c : ℕ) → refs c s'.table ≡ base c + held_by c s'.kept)
  unfolding unpin
  unpin-IsCounted s i = elim (ℕ_discrete s.anchor 0) [
    | yes none_ ↦
        let test : (s.anchor == 0) ≡ true = (==_iff _ 0).1 none_ in
        rw test (i.valid, λ c. ground (arith, i.counted c, none_))
    | no some_ ↦ rw (==_ne _ 0 some_) (
      cref_put-IsValid destroy s.anchor s.table i.valid,
      λ c.
          put-counted destroy c s.anchor (base c + held_by c s.kept) s.table i.valid (omega arith)
            (ground (arith, i.counted s.anchor, some_)) (ground (arith, i.counted c, some_)),
    )
  ]

start-IsCounted :
    {W : Type 0} (s : Enum W)
    → IsValid s.table
    → s.anchor ≡ 0
    → s.kept ≡ []
    → IsCounted (λ c. refs c s.table) s
unfolding held_by
start-IsCounted s v no_anchor none_kept = record {
  valid = v;
  counted = λ c. rw (no_anchor, none_kept) (omega arith);
}

module _ {W : Type 0} (destroy : ℕ → ℕ → Ret) (has_upcie : ℕ → Bool) (around : Around W)
    (opts : Opts) where
  -- xnvme_platform_enumerate(), of a URI or of whatever a scan reports, with a valid table of
  -- controllers, leaves it valid, and with as many references to each controller more as the
  -- devices that the callback keeps hold: those of the controllers that are opened to identify
  -- their namespaces, of the devices that cannot be opened or are closed again, and of the
  -- anchor are given back. Every backend that initializes controllers also terminates them
  -- here, and the callback keeps off the table.
  pub platform_enumerate-refs :
      (uri : Option (ℕ × ℕ)) (scanned : Ret) (idents : List Ident) (s : Enum W)
      → ((uri nsid : ℕ) → AllTermed (around.configs uri nsid))
      → IsValid s.table
      → s.anchor ≡ 0
      → s.kept ≡ []
      → let s' = (platform_enumerate destroy has_upcie around opts uri scanned idents s).1 in
        IsValid s'.table × ((c : ℕ) → refs c s'.table ≡ refs c s.table + held_by c s'.kept)
  unfolding platform_enumerate held_by
  platform_enumerate-refs none scanned idents s terms v no_anchor none_kept =
      let base : ℕ → ℕ = λ c. refs c s.table in
      unpin-IsCounted destroy has_upcie around opts terms base _ (
        scan_all-IsCounted destroy has_upcie around opts terms base idents s
          (start-IsCounted s v no_anchor none_kept))
  platform_enumerate-refs (some uri) scanned idents s terms v no_anchor none_kept =
      let base : ℕ → ℕ = λ c. refs c s.table in
      unpin-IsCounted destroy has_upcie around opts terms base _ (
        enumerate_controller-IsCounted destroy has_upcie around opts terms base uri s
          (start-IsCounted s v no_anchor none_kept))
