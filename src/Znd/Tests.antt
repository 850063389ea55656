-- ===== src/Znd/Tests.antt =====
-- Reports of zones on a device with two zones of 16 blocks, that transfers an entry at a time.
use xnvme.Common.{
  ℕ, suc, ◌+◌, ◌-◌, ◌*◌, ◌/◌, ◌≤◌, ◌<◌, ◌≡◌, ◌⊎◌, inl, refl, ap, ◌∙◌, true, false, some, none,
  if◌then◌else◌, ◌==◌, ltb, arith, value, fail, enxio,
}
use xnvme.Cmd.{slba, cpl_status}
use xnvme.Mem.{Mem}
use xnvme.Queue.{fresh_ctx}
use xnvme.Queue.Pass.{SyncOps}
use xnvme.Geo.{Geo, geo_zoned}
use xnvme.Znd.{Report, report_of}
use xnvme.Znd.Fetch.{report_from_dev, dbuf_nentries, load_le, shrink}
use xnvme.Znd.Complete.{IsReporting, IsFilled}
use xnvme.Znd.Whole.{IsCall, report_from_dev_complete}
use xnvme.Znd.Find.{Descr, matches, entry, find_arbitrary, find_arbitrary-decides}

abbrev geo : Geo
geo = record {
  type_ = geo_zoned;
  npugrp = 1;
  npunit = 1;
  nzone = 2;
  nsect = 16;
  nbytes = 512;
  nbytes_oob = 0;
  tbytes = 16384;
  ssw = 9;
  mdts_nbytes = 128;
  lba_nbytes = 512;
  lba_extended = false;
  pi_type = 0;
  pi_loc = 0;
  pi_format = 0;
}

-- The bytes of the entry of a zone.
abbrev descr : ℕ → ℕ → ℕ
descr z b = z + b

-- The device: it counts two zones from any on, and the buffer is at 4096.
abbrev answer : ℕ → Mem → Mem
answer z m a =
    if ltb a 4096
    then m a
    else if ltb a 4097
    then 2
    else if ltb a 4160
    then 0
    else if ltb a 4224
    then descr z (a - 4160)
    else m a

abbrev device : SyncOps Mem
device = record {
  cmd_io = λ c pl m. (value 0, fresh_ctx 0, answer (slba c.cmd) m);
  cmd_iov = λ c pl m. (value 0, fresh_ctx 0, m);
}

abbrev report : Report
report = report_of geo 0 0 0 0 false

dbuf_nentries-one : dbuf_nentries 128 64 ≡ 1
unfolding dbuf_nentries shrink
dbuf_nentries-one = refl

-- The answer inside the buffer, and outside.
answer-nzones : (z : ℕ) (m : Mem) → answer z m 4096 ≡ 2
answer-nzones z m = refl

answer-entry : (z b : ℕ) (m : Mem) → b < 64 → answer z m (4160 + b) ≡ z + b
answer-entry z b m lt = ground arith

answer-else : (z a : ℕ) (m : Mem) → (a < 4096) ⊎ (4224 ≤ a) → answer z m a ≡ m a
answer-else z a m out = ground arith

load_le-ge : (k a : ℕ) (m : Mem) → m a ≤ load_le (suc k) a m
unfolding load_le
load_le-ge k a m = omega arith

device-IsReporting : IsReporting device report 1 16 4096 1 descr
unfolding load_le cpl_status report_of
device-IsReporting = record {
  answers = λ k c pl m lt fields same. record {
    ok = refl;
    status = refl;
    nzones = omega (arith, load_le-ge 7 4096 (answer (slba c.cmd) m));
    entry = λ i b i_lt in_ b_lt.
        let one : i ≡ 0 = omega (arith, i_lt) in
        let at : 4096 + 64 + (i * 64 + b) ≡ 4160 + b = omega (arith, one) in
        let start : slba c.cmd + b ≡ 0 + (k + i) * 16 + b = omega (arith, one, fields.start) in
        ap (answer (slba c.cmd) m) at ∙ answer-entry (slba c.cmd) b m b_lt ∙ start;
    else_ = λ a out. answer-else (slba c.cmd) a m out;
  };
}

call : IsCall geo 0 0 4096 0 0 false
unfolding dbuf_nentries shrink
call = record {
  zoned = refl;
  sector = omega arith;
  extensions = λ e. absurd (ground (arith, e));
  some_ = omega arith;
  existing = omega arith;
  nzone_small = omega arith;
  small = omega arith;
  mdts_small = omega arith;
  transfer = omega arith;
  apart = inl (omega arith);
}

report_from_dev_complete_example :
    (m' : Mem) × (report_from_dev device geo 0 1
        (some 0)
        (some 4096)
        3
        (fresh_ctx 0)
        0
        0
        false
        (λ a. 0)
      ≡ some (value 0, some report, m'))
    × IsFilled device report 1 16 4096 1 descr 2 m'
report_from_dev_complete_example =
    report_from_dev_complete geo 0 0 4096 0 0 false call device 1 descr 3 (fresh_ctx 0) (λ a. 0)
      (omega arith) (rw dbuf_nentries-one device-IsReporting)

-- The second of the two zones is empty, sequential and has capacity.
abbrev zones : ℕ → Descr
zones a = record { zt = 2; zs = if a == 64 then 1 else 14; zcap = 16; zslba = a / 4 }

find_arbitrary-decides_example :
    ((i : ℕ) × (i < 2)
      × (matches report zones 1 (entry report zones 1 i) ≡ true)
      × (find_arbitrary report zones 1 7 ≡ (value 0, some (entry report zones 1 i).zslba)))
    ⊎ ((find_arbitrary report zones 1 7 ≡ (fail enxio, none))
        × ((i : ℕ) → i < 2 → matches report zones 1 (entry report zones 1 i) ≡ false))
unfolding report_of
find_arbitrary-decides_example = find_arbitrary-decides report zones 1 7 (omega arith) (omega arith)
