-- ===== src/Block/Report.antt =====
-- What a report of zones on a block device says.
use xnvme.Common.{
  ℕ, zero, suc, ◌+◌, ◌-◌, ◌*◌, ◌/◌, ◌%◌, ◌^◌, ◌≤◌, ◌<◌, ◌≡◌, refl, sym, ap, ◌∙◌, Bool, true, false,
  ◌&&◌, ◌==◌, ltb, ==_iff, List, [], ◌++◌, length, take, drop, Option, some, arith, value,
  append_assoc, take_all, take-add, drop-drop, append-nil, subst, min, shl64, add64, mul64,
}
use xnvme.Cmd.{Cmd, slba}
use xnvme.Geo.{Geo}
use xnvme.Block.{
  BlkZone, Zoned, Filled, is_zoned, zra, zrasf, partial, zrasf_to_state, scan_zones, scan_chunks,
  zone_mgmt_recv,
}
use xnvme.Block.Scan.{
  matching, describe, IsReport, matching-append, empty-IsReport, scan_zones-IsReport,
  scan_zones-partial,
}

-- A zoned device whose zones from the one of the command on are `rest`, and are reported as such:
-- `has` is the number of its zones. The call of calloc() succeeds.
pub record IsAnswering {W : Type 0} (zoned : Zoned W) (geo : Geo) (c : Cmd) (hc : Bool) (has : ℕ)
    (rest : List BlkZone) : Type 0 where
  pub nr_zones : (w : W) → (zoned.get_nr_zones w).0 ≡ some has
  pub memory : (w : W) → (zoned.report_alloc w).0 ≡ true
  pub few : length rest ≤ has
  pub reports :
      (k : ℕ) (w : W)
      → k ≤ has
      → (zoned.report_zone (shl64 (add64 (slba c) (mul64 k geo.nsect)) (geo.ssw - 9)) 64 w).0
        ≡ some (record { has_capacity = hc; zones = take 64 (drop k rest) })

-- A command that asks for a report, with a buffer that has room for the header.
pub record IsRequest (geo : Geo) (c : Cmd) (dbuf_nbytes : ℕ) : Type 0 where
  pub zoned_ : is_zoned geo.type_ ≡ true
  pub header : ltb dbuf_nbytes 64 ≡ false
  pub plain : zra c ≡ 0

-- The descriptors that fit into a buffer behind its header.
abbrev pub room_of : ℕ → ℕ
room_of dbuf_nbytes = (dbuf_nbytes - 64) / 64 % 2 ^ 32

module _ {W : Type 0} (zoned : Zoned W) (geo : Geo) (c : Cmd) (hc : Bool) (has : ℕ)
    (rest : List BlkZone) (is : IsAnswering zoned geo c hc has rest) (room : ℕ) where
  scan_chunks-IsReport :
      (n zidx : ℕ) (seen : List BlkZone) (f : Filled) (w : W)
      → partial c ≡ false
      → zidx + n * 64 ≤ has + 64
      → IsReport room (geo.ssw - 9) hc seen f
      → let (err, f', w') = scan_chunks zoned n zidx geo c room f w in
        (err ≡ value 0)
        × IsReport room
            (geo.ssw - 9)
            hc
            (seen ++ matching (zrasf_to_state (zrasf c)) (take (n * 64) (drop zidx rest)))
            f'
  unfolding scan_chunks matching
  scan_chunks-IsReport zero zidx seen f w whole ends r = (refl, rw (append-nil seen) r)
  scan_chunks-IsReport (suc n) zidx seen f w whole ends r =
      let state : Option ℕ = zrasf_to_state (zrasf c) in
      let xs : List BlkZone = drop zidx rest in
      let shift : ℕ = geo.ssw - 9 in
      let f' : Filled = scan_zones false room shift state hc (take 64 xs) f in
      let w' : W =
        (zoned.report_zone (shl64 (add64 (slba c) (mul64 zidx geo.nsect)) (geo.ssw - 9)) 64 w).1 in
      let next : List BlkZone = take (n * 64) (drop (zidx + 64) rest) in
      let split : take (suc n * 64) xs ≡ take 64 xs ++ next =
        ap (λ k. take k xs) (omega arith)
        ∙ take-add 64 (n * 64) xs
        ∙ ap (λ l. take 64 xs ++ take (n * 64) l) (drop-drop 64 zidx rest) in
      let all : seen ++ matching state (take (suc n * 64) xs)
          ≡ (seen ++ matching state (take 64 xs)) ++ matching state next =
        ap (λ l. seen ++ matching state l) split
        ∙ ap (λ l. seen ++ l) (matching-append state (take 64 xs) next)
        ∙ sym (append_assoc seen _ _) in
      let (ok, r') =
        scan_chunks-IsReport n (zidx + 64) (seen ++ matching state (take 64 xs)) f' w' whole
          (omega (arith, ends)) (scan_zones-IsReport room shift hc state (take 64 xs) seen f r) in
      rw (all, scan_chunks, is.reports zidx w (omega (arith, ends)), whole) (ok, r')

module _ {W : Type 0} (zoned : Zoned W) (geo : Geo) (c : Cmd) (hc : Bool) (has : ℕ)
    (rest : List BlkZone) (is : IsAnswering zoned geo c hc has rest) where
  -- For a device that reports its zones from the one of the command on, _lzbd_zone_mgmt_recv()
  -- without the partial bit, and with a buffer that has room for a descriptor or a filter,
  -- returns 0; the header then has the number of those zones that are in the state asked for,
  -- and the buffer their descriptors, in order, as far as they fit.
  pub zone_mgmt_recv-whole :
      (dbuf_nbytes : ℕ) (w : W)
      → IsRequest geo c dbuf_nbytes
      → partial c ≡ false
      → (zrasf c == 0 && room_of dbuf_nbytes == 0) ≡ false
      → let zs = matching (zrasf_to_state (zrasf c)) rest in
        let (err, filled, w') = zone_mgmt_recv zoned geo c dbuf_nbytes w in
        (err ≡ value 0)
        × (filled
            ≡ some (record {
              nzones = length zs;
              descrs = take (room_of dbuf_nbytes) (describe (geo.ssw - 9) hc zs);
            }))
  unfolding zone_mgmt_recv
  zone_mgmt_recv-whole dbuf_nbytes w req whole filtered =
      let state : Option ℕ = zrasf_to_state (zrasf c) in
      let room : ℕ = room_of dbuf_nbytes in
      let n : ℕ = (has + 63) / 64 in
      let w2 : W = (zoned.report_alloc (zoned.get_nr_zones w).1).1 in
      let cleared : Filled = record { nzones = 0; descrs = [] } in
      let f : Filled = (scan_chunks zoned n 0 geo c room cleared w2).1 in
      let plain : (zra c == 0) ≡ true = (==_iff _ 0).1 req.plain in
      let start : IsReport room (geo.ssw - 9) hc [] cleared =
        empty-IsReport room (geo.ssw - 9) hc in
      let (ok, r) =
        scan_chunks-IsReport zoned geo c hc has rest is room n 0 [] cleared w2 whole (omega arith)
          start in
      let every : take (n * 64) rest ≡ rest = take_all (n * 64) rest (omega (arith, is.few)) in
      let r' : IsReport room (geo.ssw - 9) hc (matching state rest) f =
        subst (λ l. IsReport room (geo.ssw - 9) hc (matching state l) f) every r in
      rw
        (
          req.zoned_,
          zone_mgmt_recv,
          req.header,
          plain,
          is.nr_zones w,
          filtered,
          is.memory (zoned.get_nr_zones w).1,
        )
        (ok, λ i. some (record { nzones = r'.counted i; descrs = r'.written i }))

  -- With the partial bit, on a device of 64 zones or fewer, and not none, that reports its
  -- zones from the one of the command on, the buffer has the descriptors of the zones in the
  -- state asked for, in order, as far as they fit, but the header counts one zone more than the
  -- buffer has where they do not fit.
  pub zone_mgmt_recv-overcounts :
      (dbuf_nbytes : ℕ) (w : W)
      → IsRequest geo c dbuf_nbytes
      → partial c ≡ true
      → (zrasf c == 0 && room_of dbuf_nbytes == 0) ≡ false
      → 0 < has
      → has ≤ 64
      → let m = length (matching (zrasf_to_state (zrasf c)) rest) in
        let (err, filled, w') = zone_mgmt_recv zoned geo c dbuf_nbytes w in
        (f : Filled) × (err ≡ value 0)
        × (filled ≡ some f)
        × (f.nzones ≡ min m (room_of dbuf_nbytes + 1))
        × (length f.descrs ≡ min m (room_of dbuf_nbytes))
        × (f.descrs
            ≡ take
                (room_of dbuf_nbytes)
                (describe (geo.ssw - 9) hc (matching (zrasf_to_state (zrasf c)) rest)))
  unfolding zone_mgmt_recv scan_chunks
  zone_mgmt_recv-overcounts dbuf_nbytes w req part filtered some_ one_chunk =
      let state : Option ℕ = zrasf_to_state (zrasf c) in
      let room : ℕ = room_of dbuf_nbytes in
      let w2 : W = (zoned.report_alloc (zoned.get_nr_zones w).1).1 in
      let plain : (zra c == 0) ≡ true = (==_iff _ 0).1 req.plain in
      let chunks : (has + 63) / 64 ≡ 1 = omega (arith, some_, one_chunk) in
      let every : take 64 rest ≡ rest = take_all 64 rest (omega (arith, is.few, one_chunk)) in
      let (nr, len, descrs) =
        scan_zones-partial room (geo.ssw - 9) hc state (take 64 rest)
          (record { nzones = 0; descrs = [] }) refl (omega arith) in
      let same : 0 + length (matching state (take 64 rest)) ≡ length (matching state rest) =
        omega (arith, ap (λ l. length (matching state l)) every) in
      rw
        (
          req.zoned_,
          zone_mgmt_recv,
          req.header,
          plain,
          is.nr_zones w,
          filtered,
          is.memory (zoned.get_nr_zones w).1,
          chunks,
          scan_chunks,
          is.reports 0 w2 (omega arith),
          part,
        )
        (
          _,
          refl,
          refl,
          nr ∙ ap (λ k. min k (room + 1)) same,
          len ∙ ap (λ k. min k room) same,
          descrs ∙ ap (λ l. take room (describe (geo.ssw - 9) hc (matching state l))) every,
        )
