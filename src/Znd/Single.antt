-- ===== src/Znd/Single.antt =====
-- lib/xnvme_znd.c: the descriptor of a single zone, and the number of zones in a state.
use xnvme.Common.{
  ℕ, ◌+◌, ◌==◌, if◌then◌else◌, Option, none, some, Ret, value, fail, einval, eio, enomem, is_err,
}
use xnvme.Cmd.{Ctx, cpl_status}
use xnvme.Mem.{Mem, memcpy, memset}
use xnvme.Queue.Pass.{SyncOps}
use xnvme.Nvm.{with_cmd, data_payload}
use xnvme.Znd.{prep_mgmt_recv}
use xnvme.Znd.Fetch.{load_le}

-- `enum xnvme_spec_znd_state` as its action-specific field, none for a state that is not supported.
unfoldable pub sfield_of : ℕ → Option ℕ
sfield_of state =
    if state == 0x1
    then some 0x1
    else if state == 0x2
    then some 0x2
    else if state == 0x3
    then some 0x3
    else if state == 0x4
    then some 0x4
    else if state == 0xE
    then some 0x5
    else if state == 0xD
    then some 0x6
    else if state == 0xF
    then some 0x7
    else none

module _ (sync : SyncOps Mem) (nsid : ℕ) where
  -- A report of `nbytes` bytes for the zones from `slba` on, into a buffer that is cleared, through a
  -- context of the device. An error of the command, or of its completion, is the result.
  unfoldable pub request : ℕ → ℕ → ℕ → ℕ → ℕ → Ctx → Mem → Ret × Mem
  unfolding prep_mgmt_recv cpl_status
  request slba sfield partial dbuf nbytes c m =
      let (err, c', m') =
        sync.cmd_io (with_cmd (prep_mgmt_recv nsid slba 0 sfield partial nbytes) c)
          (data_payload dbuf nbytes) (memset dbuf 0 nbytes m) in
      if is_err err then (err, m') else if cpl_status c' then (fail eio, m') else (value 0, m')

  -- The rest of the two functions: a report of no zone is an error, and the descriptor of the first is
  -- copied to `zdescr`.
  unfoldable pub take_descr : ℕ → ℕ → Ret × Mem → Ret × Mem
  unfolding load_le
  take_descr dbuf zdescr (err, m) =
      if is_err err
      then (err, m)
      else if load_le 8 dbuf m == 0
      then (fail eio, m)
      else (value 0, memcpy zdescr (dbuf + 64) 64 m)

  -- xnvme_znd_descr_from_dev() and xnvme_znd_descr_from_dev_in_state(): `buf` is what the allocation
  -- gives, none where it fails.
  unfoldable pub descr_from_dev : Option ℕ → Ctx → ℕ → ℕ → Mem → Ret × Mem
  unfolding request take_descr
  descr_from_dev none c slba zdescr m = (fail enomem, m)
  descr_from_dev (some dbuf) c slba zdescr m =
      take_descr dbuf zdescr (request slba 0 0 dbuf 128 c m)

  unfoldable pub descr_from_dev_in_state : Option ℕ → Ctx → ℕ → ℕ → Mem → Ret × Mem
  unfolding sfield_of request take_descr
  descr_from_dev_in_state buf c state zdescr m = elim (sfield_of state) [
    | none ↦ (fail einval, m)
    | some sfield ↦ elim buf [
      | none ↦ (fail enomem, m)
      | some dbuf ↦ take_descr dbuf zdescr (request 0 sfield 1 dbuf 128 c m)
    ]
  ]

  -- xnvme_znd_stat(): the number of zones, none where it returns an error.
  unfoldable pub znd_stat : Option ℕ → Ctx → ℕ → Mem → Ret × Option ℕ × Mem
  unfolding request load_le
  znd_stat none c sfield m = (fail enomem, none, m)
  znd_stat (some hdr) c sfield m =
      let (err, m') = request 0 sfield 0 hdr 64 c m in
      (err, if is_err err then none else some (load_le 8 hdr m'), m')
