-- ===== src/Znd/Whole.antt =====
-- xnvme_znd_report_from_dev() from its arguments to the report.
use xnvme.Common.{
  ℕ, ◌+◌, ◌-◌, ◌*◌, ◌^◌, ◌≤◌, ◌<◌, ◌≡◌, ◌≢◌, refl, ap, Bool, true, false, ◌&&◌, ◌==◌, some, sub32,
  value, arith, le→ltb, ==_ne, Bool-cases, inl, inr,
}
use native.Mathlib.Nat.{mul-le-mul_right}
use xnvme.Cmd.{Ctx}
use xnvme.Mem.{Mem}
use xnvme.Mem.Copy.{Apart}
use xnvme.Queue.Pass.{SyncOps}
use xnvme.Geo.{Geo, geo_zoned}
use xnvme.Znd.{Report, report_of, report_init, entries_of, entry_nbytes, is_zoned}
use xnvme.Znd.Fetch.{dbuf_nentries, dbuf_nbytes, report_from_dev}
use xnvme.Znd.Chunks.{dbuf_nentries-IsLargest}
use xnvme.Znd.Complete.{IsReporting, IsSized, IsFilled, fetch_complete}

-- The device and the arguments of a call that asks for `entries_of geo limit` zones from `slba` on,
-- with the entries of the report at `at` and the buffer for transfers at `dbuf`.
pub record IsCall (geo : Geo) (zdes at dbuf slba limit : ℕ) (extended : Bool) : Type 0 where
  pub zoned : geo.type_ ≡ geo_zoned
  pub sector : 0 < geo.nsect
  pub extensions : extended ≡ true → zdes ≢ 0
  pub some_ : 0 < entries_of geo limit
  pub existing : entries_of geo limit ≤ geo.nzone
  pub nzone_small : geo.nzone < 2 ^ 32
  pub small : slba + entries_of geo limit * geo.nsect < 2 ^ 64
  pub mdts_small : geo.mdts_nbytes < 2 ^ 32
  pub transfer : dbuf_nbytes (entry_nbytes zdes extended) 1 ≤ geo.mdts_nbytes
  pub apart :
      let zrent = entry_nbytes zdes extended in
      Apart at
        (entries_of geo limit * zrent)
        dbuf
        (dbuf_nbytes zrent (dbuf_nentries geo.mdts_nbytes zrent))

module _ (geo : Geo) (zdes at dbuf slba limit : ℕ) (extended : Bool)
    (h : IsCall geo zdes at dbuf slba limit extended) where
  report_init-some :
      report_init geo zdes (some at) slba limit extended
      ≡ (value 0, some (report_of geo zdes at slba limit extended))
  unfolding report_init
  report_init-some =
      let ext : (extended && (zdes * 64 == 0)) ≡ false = elim (Bool-cases extended) [
        | inr plain ↦ rw plain
        | inl asked ↦ rw asked (==_ne (zdes * 64) 0 (λ e. h.extensions asked (omega (arith, e))))
      ] in
      let zoned : is_zoned geo.type_ ≡ true = ap is_zoned h.zoned in
      rw (report_init, zoned, ext, le→ltb geo.nzone (entries_of geo limit) h.existing)

  entry-pos : 0 < entry_nbytes zdes extended
  entry-pos = elim (Bool-cases extended) [
    | inl asked ↦ rw asked (omega arith)
    | inr plain ↦ rw plain (omega arith)
  ]

  max-ne_zero : dbuf_nentries geo.mdts_nbytes (entry_nbytes zdes extended) ≢ 0
  max-ne_zero e =
      let (_, over) =
        dbuf_nentries-IsLargest geo.mdts_nbytes (entry_nbytes zdes extended) entry-pos in
      let one : dbuf_nentries geo.mdts_nbytes (entry_nbytes zdes extended) + 1 ≡ 1 =
        omega (arith, e) in
      omega (arith, h.transfer, over, ap (λ n. entry_nbytes zdes extended * n) one)

  module _ (sync : SyncOps Mem) (nsid : ℕ) (descr : ℕ → ℕ → ℕ) where
    abbrev pub r : Report
    r = report_of geo zdes at slba limit extended

    abbrev pub max : ℕ
    max = dbuf_nentries geo.mdts_nbytes (entry_nbytes zdes extended)

    r-IsSized : IsSized sync r nsid geo.nsect dbuf max descr
    unfolding report_of
    r-IsSized =
        let n : ℕ = entries_of geo limit in
        let le : (n - 1) * geo.nsect ≤ n * geo.nsect = mul-le-mul_right geo.nsect (omega arith) in
        let one : sub32 n 1 ≡ n - 1 = omega (arith, h.some_, h.existing, h.nzone_small) in
        let (fits, _) =
          dbuf_nentries-IsLargest geo.mdts_nbytes (entry_nbytes zdes extended) entry-pos in
        record {
          some_ = h.some_;
          sector = h.sector;
          entry_ = entry-pos;
          room = omega (arith, max-ne_zero);
          last = rw one (omega (arith, h.small, le));
          small = h.small;
          fits = omega (arith, fits max-ne_zero, h.mdts_small);
          apart = h.apart;
        }

    -- For a zoned device below 2^64 blocks whose zones have blocks and whose transfers, below
    -- 2^32 bytes, hold an entry of the report, that answers each request for the zones from one
    -- on with their number and their entries as far as the buffer goes, and for a number of
    -- zones that is not 0 and not above that of the device: xnvme_znd_report_from_dev(), with
    -- memory apart from each other for the report and for the buffer, returns a report, on fuel
    -- of one round more than there are zones, and every byte of every entry in it is that of
    -- its zone.
    pub report_from_dev_complete :
        (fuel : ℕ) (c : Ctx) (m : Mem)
        → entries_of geo limit < fuel
        → IsReporting sync r nsid geo.nsect dbuf max descr
        → (m' : Mem) × (report_from_dev sync geo zdes nsid
              (some at)
              (some dbuf)
              fuel
              c
              slba
              limit
              extended
              m
            ≡ some (value 0, some r, m'))
          × IsFilled sync r nsid geo.nsect dbuf max descr (entries_of geo limit) m'
    unfolding report_from_dev report_of
    report_from_dev_complete fuel c m enough dev =
        let (m', ran, full) =
          fetch_complete sync r nsid geo.nsect dbuf max descr dev r-IsSized fuel c m enough in
        let zoned : is_zoned geo.type_ ≡ true = ap is_zoned h.zoned in
        (m', rw (report_from_dev, zoned, report_init-some, ==_ne max 0 max-ne_zero, ran) refl, full)
