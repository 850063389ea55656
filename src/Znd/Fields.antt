-- ===== src/Znd/Fields.antt =====
-- The fields of the zone management receive command and one round of the loop that sends it.
use xnvme.Common.{
  ℕ, suc, ◌+◌, ◌/◌, ◌%◌, ◌^◌, ◌≤◌, ◌<◌, ◌≡◌, ◌≢◌, refl, false, add64, mul64, get_bits, value,
  is_err, ltb, arith, le→ltb, ==_ne,
}
use xnvme.Cmd.{Cmd, Ctx, slba, cpl_status}
use xnvme.Mem.{Mem}
use xnvme.Queue.Pass.{SyncOps}
use xnvme.Znd.{Report, prep_mgmt_recv}
use xnvme.Znd.Fetch.{load_le, recv, chunk, store, fetch}

-- The fields of zone management receive, read back by their places.
pub record HasFields (z zra zrasf partial dwords : ℕ) (c : Cmd) : Type 0 where
  pub opcode : c.opcode ≡ 0x7A
  pub start : slba c ≡ z
  pub action : get_bits c.cdw13 0 8 ≡ zra
  pub states : get_bits c.cdw13 8 8 ≡ zrasf
  pub part : get_bits c.cdw13 16 1 ≡ partial
  pub size : c.cdw12 + 1 ≡ dwords

pub prep_mgmt_recv-HasFields :
    (nsid z zra zrasf partial nbytes : ℕ) (c : Cmd)
    → z < 2 ^ 64
    → zra < 256
    → zrasf < 256
    → partial < 2
    → 4 ≤ nbytes
    → nbytes < 2 ^ 32
    → HasFields z zra zrasf partial
        (nbytes / 4)
        (prep_mgmt_recv nsid z zra zrasf partial (nbytes % 2 ^ 32) c)
unfolding prep_mgmt_recv
prep_mgmt_recv-HasFields nsid z zra zrasf partial nbytes c h1 h2 h3 h4 h5 h6 = record {
  opcode = refl;
  start = omega arith;
  action = omega arith;
  states = omega arith;
  part = omega arith;
  size = omega arith;
}

module _ (sync : SyncOps Mem) (r : Report) (nsid nsect dbuf max : ℕ) where
  -- One round of the loop at a zone that is not behind the last.
  pub fetch-next :
      (fuel z : ℕ) (c : Ctx) (m : Mem)
      → z ≤ r.zelba
      → let n = chunk sync r nsid nsect dbuf max z in
        let res = recv sync r nsid nsect dbuf max z c m in
        n ≢ 0
        → res.0 ≡ value 0
        → cpl_status res.1 ≡ false
        → n ≤ load_le 8 dbuf res.2
        → fetch sync r nsid nsect dbuf max (suc fuel) z c m
          ≡ fetch sync r nsid nsect dbuf max fuel
              (add64 z (mul64 n nsect))
              res.1
              (store sync r nsid nsect dbuf max z n res.2)
  unfolding fetch
  fetch-next fuel z c m before some_n ok status left =
      let n : ℕ = chunk sync r nsid nsect dbuf max z in
      let few : ltb max n ≡ false = le→ltb max n (omega arith) in
      rw (
        fetch,
        le→ltb r.zelba z before,
        ==_ne n 0 some_n,
        few,
        ok,
        is_err,
        status,
        le→ltb (load_le 8 dbuf (recv sync r nsid nsect dbuf max z c m).2) n left,
      )
