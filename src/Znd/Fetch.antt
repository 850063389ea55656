-- ===== src/Znd/Fetch.antt =====
-- lib/xnvme_znd.c: xnvme_znd_report_from_dev(), which fetches a report in chunks that fit a transfer.
use xnvme.Common.{
  ℕ, zero, suc, ◌+◌, ◌-◌, ◌*◌, ◌/◌, ◌%◌, ◌^◌, Bool, true, false, not, ◌&&◌, ◌||◌, ◌==◌, ltb, min,
  Option, none, some, if◌then◌else◌, add64, mul64, Ret, value, fail, is_err, einval, enomem, eio,
}
use xnvme.Cmd.{Ctx, cpl_status}
use xnvme.Mem.{Mem, memcpy}
use xnvme.Queue.Pass.{SyncOps}
use xnvme.Geo.{Geo}
use xnvme.Nvm.{with_cmd, data_payload}
use xnvme.Znd.{Report, is_zoned, report_init, prep_mgmt_recv}

-- The `k` bytes from `a` on as a number, the lowest first: `hdr->nzones` for 8 bytes.
unfoldable pub load_le : ℕ → ℕ → Mem → ℕ
load_le zero a m = 0
load_le (suc k) a m = m a + 256 * load_le k (a + 1) m

-- The loop that sizes the buffer, from `n` entries on: `n` is lowered before its test.
unfoldable pub shrink : ℕ → ℕ → ℕ → ℕ
shrink mdts zrent zero = zero
shrink mdts zrent (suc n) =
    let rest = shrink mdts zrent n in if ltb mdts (zrent * n + 64) && not (n == 0) then rest else n

-- `dbuf_nentries_max`
unfoldable pub dbuf_nentries : ℕ → ℕ → ℕ
unfolding shrink
dbuf_nentries mdts zrent = shrink mdts zrent (mdts / zrent + 2)

-- `dbuf_nbytes` for that number of entries
abbrev pub dbuf_nbytes : ℕ → ℕ → ℕ
dbuf_nbytes zrent max = zrent * max + 64

-- The report, the buffer with its number of entries, and the parts of the device that the loop uses.
-- The context is of synchronous mode, and its command goes to the synchronous interface.
module _ (sync : SyncOps Mem) (r : Report) (nsid nsect dbuf max : ℕ) where
  -- xnvme_znd_mgmt_recv() as the loop calls it.
  abbrev pub recv : ℕ → Ctx → Mem → Ret × Ctx × Mem
  recv zslba c m =
      let nbytes : ℕ = dbuf_nbytes r.zrent_nbytes max in
      let action : ℕ = if r.extended then 1 else 0 in
      sync.cmd_io (with_cmd (prep_mgmt_recv nsid zslba action 0 0 (nbytes % 2 ^ 32)) c)
        (data_payload dbuf (nbytes % 2 ^ 32)) m

  -- The number of entries of the next chunk.
  abbrev pub chunk : ℕ → ℕ
  chunk zslba = min max ((r.zelba - zslba) / nsect + 1)

  -- The copy of a chunk behind the entries of the report.
  abbrev pub store : ℕ → ℕ → Mem → Mem
  store zslba n m =
      memcpy (r.storage + ((zslba - r.zslba) / nsect) * r.zrent_nbytes) (dbuf + 64)
        (r.zrent_nbytes * n) m

  -- The loop over the chunks, on fuel. The result is an error that is left in errno where NULL is
  -- returned; a chunk that comes short ends the loop without an error. None: the fuel ran out.
  unfoldable pub fetch : ℕ → ℕ → Ctx → Mem → Option (Ret × Mem)
  unfolding load_le prep_mgmt_recv
  fetch zero zslba c m = none
  fetch (suc fuel) zslba c m = elim (ltb r.zelba zslba) [
    | true ↦ some (value 0, m)
    | false ↦
        let n : ℕ = chunk zslba in
        let (err, c1, m1) = recv zslba c m in
        elim ((n == 0) || ltb max n) [
          | true ↦ some (value 0, m)
          | false ↦ elim (is_err err || cpl_status c1) [
            | true ↦ some (if is_err err then err else fail eio, m1)
            | false ↦ elim (ltb (load_le 8 dbuf m1) n) [
              | true ↦ some (value 0, m1)
              | false ↦ fetch fuel (add64 zslba (mul64 n nsect)) c1 (store zslba n m1)
            ]
          ]
        ]
  ]

-- xnvme_znd_report_from_dev(): `alloc` and `buf` are the addresses that the two allocations give,
-- none where they fail. The report is none where NULL is returned; where the device cannot
-- transfer an entry, errno is not set, and the error is the value 0.
unfoldable pub report_from_dev :
    SyncOps Mem
    → Geo
    → ℕ
    → ℕ
    → Option ℕ
    → Option ℕ
    → ℕ
    → Ctx
    → ℕ
    → ℕ
    → Bool
    → Mem
    → Option (Ret × Option Report × Mem)
unfolding fetch dbuf_nentries
report_from_dev sync geo zdes nsid alloc buf fuel c slba limit extended m =
    if not (is_zoned geo.type_)
    then some (fail einval, none, m)
    else made (report_init geo zdes alloc slba limit extended)
  where
    fetched : Report → Option (Ret × Mem) → Option (Ret × Option Report × Mem)
    fetched r none = none
    fetched r (some (err, m')) =
        some (if is_err err then (err, none, m') else (value 0, some r, m'))

    with_buf : Report → ℕ → Option ℕ → Option (Ret × Option Report × Mem)
    with_buf r max none = some (fail enomem, none, m)
    with_buf r max (some dbuf) = fetched r (fetch sync r nsid geo.nsect dbuf max fuel r.zslba c m)

    made : Ret × Option Report → Option (Ret × Option Report × Mem)
    made (err, none) = some (err, none, m)
    made (err, some r) =
        let max : ℕ = dbuf_nentries geo.mdts_nbytes r.zrent_nbytes in
        if max == 0 then some (value 0, none, m) else with_buf r max buf
