-- ===== src/Znd/Complete.antt =====
-- The loop of xnvme_znd_report_from_dev() on a device that reports its zones.
use xnvme.Common.{
  ℕ, zero, suc, ◌+◌, ◌-◌, ◌*◌, ◌/◌, ◌^◌, ◌≤◌, ◌<◌, ◌≡◌, ◌≢◌, ap, ◌∙◌, false, min, some,
  if◌then◌else◌, add64, mul64, Ret, value, inl, ◌⊎◌, arith, lt→ltb, dec_lt,
}
use native.Mathlib.Nat.{div-eq_of_eq-mul_left, suc-mul, add-mul, mul-le-mul_right, mul_comm}
use xnvme.Cmd.{Ctx, Payload, cpl_status}
use xnvme.Mem.{Mem}
use xnvme.Mem.Copy.{Apart, memcpy-at, memcpy-else}
use xnvme.Queue.Pass.{SyncOps}
use xnvme.Nvm.{data_payload}
use xnvme.Znd.{Report}
use xnvme.Znd.Fields.{HasFields, prep_mgmt_recv-HasFields, fetch-next}
use xnvme.Znd.Fetch.{load_le, dbuf_nbytes, recv, chunk, store, fetch}

module _ (sync : SyncOps Mem) (r : Report) (nsid nsect dbuf max : ℕ) (descr : ℕ → ℕ → ℕ) where
  -- The start of the zone of an entry.
  abbrev pub zone_start : ℕ → ℕ
  zone_start k = r.zslba + k * nsect

  abbrev pub size : ℕ
  size = dbuf_nbytes r.zrent_nbytes max

  -- `XNVME_SPEC_ZND_CMD_MGMT_RECV_ACTION_REPORT`, and that with extensions
  abbrev pub action : ℕ
  action = if r.extended then 1 else 0

  -- What the device answers to a request for all zones from that of the entry `k` on: `descr z b` is the byte
  -- `b` of the entry of the zone that starts at `z`. It counts the zones from `z` on, fills the
  -- buffer with their entries as far as it goes, and writes nothing else.
  pub record IsAnswer (k : ℕ) (m : Mem) (res : Ret × Ctx × Mem) : Type 0 where
    pub ok : res.0 ≡ value 0
    pub status : cpl_status res.1 ≡ false
    pub nzones : r.nentries - k ≤ load_le 8 dbuf res.2
    pub entry :
        (i b : ℕ)
        → i < max
        → k + i < r.nentries
        → b < r.zrent_nbytes
        → res.2 (dbuf + 64 + (i * r.zrent_nbytes + b)) ≡ descr (zone_start (k + i)) b
    pub else_ : (a : ℕ) → (a < dbuf) ⊎ (dbuf + size ≤ a) → res.2 a ≡ m a

  pub record IsReporting : Type 0 where
    pub answers :
        (k : ℕ) (c : Ctx) (pl : Payload) (m : Mem)
        → k < r.nentries
        → HasFields (zone_start k) action 0 0 (size / 4) c.cmd
        → pl ≡ data_payload dbuf size
        → IsAnswer k m (sync.cmd_io c pl m)

  -- The entries below `k` are in the report.
  abbrev pub IsFilled : ℕ → Mem → Type 0
  IsFilled k m =
      (i b : ℕ)
      → i < k
      → b < r.zrent_nbytes
      → m (r.storage + (i * r.zrent_nbytes + b)) ≡ descr (zone_start i) b

  -- The report as znd_report_init() makes it, with a buffer that holds an entry or more.
  pub record IsSized : Type 0 where
    pub some_ : 0 < r.nentries
    pub sector : 0 < nsect
    pub entry_ : 0 < r.zrent_nbytes
    pub room : 0 < max
    pub last : r.zelba ≡ r.zslba + (r.nentries - 1) * nsect
    pub small : r.zslba + r.nentries * nsect < 2 ^ 64
    pub fits : size < 2 ^ 32
    pub apart : Apart r.storage (r.nentries * r.zrent_nbytes) dbuf size

  module _ (dev : IsReporting) (h : IsSized) where
    le_of_lt : (k : ℕ) → k < r.nentries → k ≤ r.nentries
    le_of_lt k lt = omega arith

    start-lt : (k : ℕ) → k < r.nentries → zone_start k < 2 ^ 64
    start-lt k lt = omega (arith, h.small, mul-le-mul_right nsect (le_of_lt k lt))

    recv-answers :
        (k : ℕ) (c : Ctx) (m : Mem)
        → k < r.nentries
        → IsAnswer k m (recv sync r nsid nsect dbuf max (zone_start k) c m)
    recv-answers k c m lt =
        dev.answers k _ _ m lt
          (prep_mgmt_recv-HasFields nsid (zone_start k) action 0 0 size c.cmd (start-lt k lt)
            (ground arith) (omega arith) (omega arith) (omega arith) h.fits)
          (ap (data_payload dbuf) (omega (arith, h.fits)))

    -- The zones from that of the entry `k` on to the last.
    chunk-eq :
        (k : ℕ)
        → k < r.nentries
        → chunk sync r nsid nsect dbuf max (zone_start k) ≡ min max (r.nentries - k)
    chunk-eq k lt =
        let d : ℕ = r.nentries - 1 - k in
        let split : (r.nentries - 1) * nsect ≡ d * nsect + k * nsect =
          ap (λ x. x * nsect) (omega arith) ∙ add-mul d k nsect in
        let span : r.zelba - zone_start k ≡ d * nsect = omega (arith, h.last, split) in
        let many : (r.zelba - zone_start k) / nsect ≡ d = div-eq_of_eq-mul_left h.sector span in
        let count : d + 1 ≡ r.nentries - k = omega arith in rw (many, count)

    index-eq : (k : ℕ) → (zone_start k - r.zslba) / nsect ≡ k
    index-eq k = div-eq_of_eq-mul_left h.sector (omega arith)

    next-eq :
        (k n : ℕ) → k + n ≤ r.nentries → add64 (zone_start k) (mul64 n nsect) ≡ zone_start (k + n)
    next-eq k n le =
        let all : (k + n) * nsect ≤ r.nentries * nsect = mul-le-mul_right nsect le in
        omega (arith, h.small, all, add-mul k n nsect)

    last-lt : r.zelba < zone_start r.nentries
    last-lt =
        let split : (r.nentries - 1 + 1) * nsect ≡ (r.nentries - 1) * nsect + 1 * nsect =
          add-mul (r.nentries - 1) 1 nsect in
        let all : r.nentries - 1 + 1 ≡ r.nentries = omega (arith, h.some_) in
        omega (arith, h.last, h.sector, split, ap (λ x. x * nsect) all)

    not_last : (k : ℕ) → k < r.nentries → zone_start k ≤ r.zelba
    not_last k lt =
        let le : k * nsect ≤ (r.nentries - 1) * nsect = mul-le-mul_right nsect (omega arith) in
        omega (arith, h.last, le)

    -- An address within the report, by entry and byte.
    byte-lt : (i n b : ℕ) → i < n → b < r.zrent_nbytes → i * r.zrent_nbytes + b < n * r.zrent_nbytes
    byte-lt i n b lt b_lt =
        let le : suc i * r.zrent_nbytes ≤ n * r.zrent_nbytes =
          mul-le-mul_right r.zrent_nbytes (omega arith) in
        omega (arith, le, suc-mul i r.zrent_nbytes)

    outside :
        (x : ℕ)
        → x < r.nentries * r.zrent_nbytes
        → (r.storage + x < dbuf) ⊎ (dbuf + size ≤ r.storage + x)
    outside x lt = ground (arith, h.apart)

    store-IsFilled :
        (k n : ℕ) (m : Mem) (res : Ret × Ctx × Mem)
        → n ≤ max
        → k + n ≤ r.nentries
        → IsAnswer k m res
        → IsFilled k m
        → IsFilled (k + n) (store sync r nsid nsect dbuf max (zone_start k) n res.2)
    store-IsFilled k n m res few le ans filled i b lt b_lt = elim (dec_lt i k) [
      | yes old ↦
          let at : r.storage + (i * r.zrent_nbytes + b)
              < r.storage + ((zone_start k - r.zslba) / nsect) * r.zrent_nbytes =
            rw (index-eq k) (omega (arith, byte-lt i k b old b_lt)) in
          let inside = byte-lt i r.nentries b (omega arith) b_lt in
          memcpy-else _ _ _ _ _ (inl at) ∙ ans.else_ _ (outside _ inside) ∙ filled i b old b_lt
      | no new ↦
          let j : ℕ = i - k in
          let i_eq : k + j ≡ i = omega arith in
          let place : r.storage + (i * r.zrent_nbytes + b)
              ≡ r.storage
                + ((zone_start k - r.zslba) / nsect) * r.zrent_nbytes
                + (j * r.zrent_nbytes + b) =
            rw (index-eq k)
              (omega (arith, add-mul k j r.zrent_nbytes, ap (λ x. x * r.zrent_nbytes) i_eq)) in
          let short : j * r.zrent_nbytes + b < r.zrent_nbytes * n =
            omega (arith, byte-lt j n b (omega arith) b_lt, mul_comm r.zrent_nbytes n) in
          ap (store sync r nsid nsect dbuf max (zone_start k) n res.2) place
          ∙ memcpy-at _ _ _ _ _ short
          ∙ ans.entry j b (omega arith) (omega arith) b_lt
          ∙ ap (λ x. descr (zone_start x) b) i_eq
    ]

    -- Behind the last zone.
    fetch-done :
        (fuel k : ℕ) (c : Ctx) (m : Mem)
        → k ≡ r.nentries
        → fetch sync r nsid nsect dbuf max (suc fuel) (zone_start k) c m ≡ some (value 0, m)
    unfolding fetch
    fetch-done fuel k c m eq =
        let behind : r.zelba < zone_start k = rw eq last-lt in
        rw (fetch, lt→ltb r.zelba (zone_start k) behind)

    -- With `d` entries left to fetch, so many rounds and one more are fuel enough.
    fetch-IsFilled :
        (fuel k d : ℕ) (c : Ctx) (m : Mem)
        → k + d ≡ r.nentries
        → d < fuel
        → IsFilled k m
        → (m' : Mem) × (fetch sync r nsid nsect dbuf max fuel (zone_start k) c m
            ≡ some (value 0, m'))
          × IsFilled r.nentries m'
    fetch-IsFilled zero k d c m sum enough filled = absurd (omega arith)
    fetch-IsFilled (suc fuel) k zero c m sum enough filled =
        let all : k ≡ r.nentries = omega arith in (m, fetch-done fuel k c m all, rw (← all) filled)
    fetch-IsFilled (suc fuel) k (suc d) c m sum enough filled =
        let lt : k < r.nentries = omega arith in
        let z : ℕ = zone_start k in
        let n : ℕ = chunk sync r nsid nsect dbuf max z in
        let many : n ≡ min max (r.nentries - k) = chunk-eq k lt in
        let res : Ret × Ctx × Mem = recv sync r nsid nsect dbuf max z c m in
        let ans = recv-answers k c m lt in
        let some_n : n ≢ 0 = λ e. omega (arith, e, many, h.room) in
        let few : n ≤ max = omega arith in
        let left : n ≤ r.nentries - k = omega (arith, many) in
        let (m', ran, full) =
          fetch-IsFilled fuel (k + n) (suc d - n) res.1 (store sync r nsid nsect dbuf max z n res.2)
            (omega (arith, left)) (omega (arith, some_n, left))
            (store-IsFilled k n m res few (omega (arith, left)) ans filled) in
        (
          m',
          fetch-next sync r nsid nsect dbuf max fuel z c m (not_last k lt) some_n ans.ok ans.status
                (omega (arith, left, ans.nzones))
              ∙ ap
                  (λ x.
                    fetch sync r nsid nsect dbuf max fuel x res.1
                      (store sync r nsid nsect dbuf max z n res.2))
                  (next-eq k n (omega (arith, left)))
              ∙ ran,
          full,
        )

    -- From the first entry on.
    pub fetch_complete :
        (fuel : ℕ) (c : Ctx) (m : Mem)
        → r.nentries < fuel
        → (m' : Mem) × (fetch sync r nsid nsect dbuf max fuel r.zslba c m ≡ some (value 0, m'))
          × IsFilled r.nentries m'
    fetch_complete fuel c m enough =
        let first : r.zslba ≡ zone_start 0 = omega arith in
        let (m', ran, full) =
          fetch-IsFilled fuel 0 r.nentries c m (omega arith) enough
            (λ i b lt. absurd (omega (arith, lt))) in
        (m', ap (λ z. fetch sync r nsid nsect dbuf max fuel z c m) first ∙ ran, full)
