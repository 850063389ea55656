-- ===== src/Nvm/Fields.antt =====
-- The fields of the commands that format and sanitize, read back by their places in the dwords.
use xnvme.Common.{ℕ, ◌/◌, ◌^◌, ◌<◌, ◌≡◌, refl, arith, get_bits}
use xnvme.Cmd.{Cmd}
use xnvme.Nvm.{prep_format}

-- Arguments that fit their fields.
pub prep_format-fields :
    (nsid lbafl lbafu mset ses pi pil : ℕ) (c : Cmd)
    → lbafl < 16
    → lbafu < 4
    → mset < 2
    → ses < 8
    → pi < 8
    → pil < 2
    → let c' = prep_format nsid lbafl lbafu mset ses pi pil c in
      (c'.opcode ≡ 0x80)
      × (c'.nsid ≡ nsid)
      × (get_bits c'.cdw10 0 4 ≡ lbafl)
      × (get_bits c'.cdw10 12 2 ≡ lbafu)
      × (get_bits c'.cdw10 4 1 ≡ mset)
      × (get_bits c'.cdw10 9 3 ≡ ses)
      × (get_bits c'.cdw10 5 3 ≡ pi)
      × (get_bits c'.cdw10 8 1 ≡ pil)
      × (c'.cdw10 / 2 ^ 14 ≡ c.cdw10 / 2 ^ 14)
unfolding prep_format
prep_format-fields nsid lbafl lbafu mset ses pi pil c h1 h2 h3 h4 h5 h6 = (
  refl,
  refl,
  omega arith,
  omega arith,
  omega arith,
  omega arith,
  omega arith,
  omega arith,
  omega arith,
)
