-- ===== src/Znd/Find.antt =====
-- lib/xnvme_znd.c: xnvme_znd_report_find_arbitrary().
use xnvme.Common.{
  ℕ, zero, suc, ◌+◌, ◌-◌, ◌*◌, ◌/◌, ◌%◌, ◌^◌, ◌<◌, ◌≡◌, refl, sym, ap, ◌∙◌, Bool, true, false, not,
  ◌&&◌, ◌==◌, some, if◌then◌else◌, Option, none, Ret, value, fail, enxio, is_err, add64, arith,
  Bool-cases, inl, inr, ◌⊎◌, lt→ltb, dec_lt,
}
use native.Mathlib.Nat.{div-add-mod, mod-lt, mod-eq_of_lt, add-mul-mod_self_left, add_comm, mul-suc}
use xnvme.Znd.{Report, get_descr}

-- The fields of a zone descriptor that are read.
pub record Descr : Type 0 where
  pub zt : ℕ
  pub zs : ℕ
  pub zcap : ℕ
  pub zslba : ℕ

-- `descr_at` reads the descriptor at an address.
module _ (r : Report) (descr_at : ℕ → Descr) (state : ℕ) where
  -- A zone in the state, of type `XNVME_SPEC_ZND_TYPE_SEQWR` and with capacity.
  abbrev pub matches : Descr → Bool
  matches d = d.zs == state && (d.zt == 2 && not (d.zcap == 0))

  -- The body of the loop, for what xnvme_znd_report_get_descr() gives, with the other rounds `rest`.
  abbrev visit : Ret × Option ℕ × Option ℕ → Ret × Option ℕ → Ret × Option ℕ
  visit (err, none, ext) rest = (err, none)
  visit (err, some a, ext) rest =
      if is_err err
      then (err, none)
      else if matches (descr_at a)
      then (value 0, some (descr_at a).zslba)
      else rest

  -- The loop, with `n` rounds left and `arb` the next number: an error, or the start of a zone.
  unfoldable pub find_from : ℕ → ℕ → Ret × Option ℕ
  unfolding get_descr
  find_from zero arb = (fail enxio, none)
  find_from (suc n) arb =
      let rest = find_from n (add64 arb 1) in visit (get_descr r (arb % r.nentries) true false) rest

  -- xnvme_znd_report_find_arbitrary(), with `random` what rand() returns.
  unfoldable pub find_arbitrary : ℕ → Ret × Option ℕ
  unfolding find_from
  find_arbitrary random = find_from r.nentries (random % (2 ^ 32 - 1))

  -- The descriptor of an entry.
  abbrev pub entry : ℕ → Descr
  entry i = descr_at (r.storage + i * r.zrent_nbytes)

  get_descr-in :
      (i : ℕ)
      → i < r.nentries
      → get_descr r i true false ≡ (value 0, some (r.storage + i * r.zrent_nbytes), none)
  unfolding get_descr
  get_descr-in i lt = rw (get_descr, lt→ltb i r.nentries lt) refl

  find_from-round :
      (n arb : ℕ)
      → 0 < r.nentries
      → arb + 1 < 2 ^ 64
      → find_from (suc n) arb ≡ (
          if matches (entry (arb % r.nentries))
          then (value 0, some (entry (arb % r.nentries)).zslba)
          else find_from n (arb + 1))
  unfolding find_from
  find_from-round n arb pos small =
      let wrap : add64 arb 1 ≡ arb + 1 = omega arith in
      ap (λ g. visit g (find_from n (add64 arb 1)))
        (get_descr-in (arb % r.nentries) (mod-lt arb pos))
      ∙ ap
          (λ x.
            if matches (entry (arb % r.nentries))
            then (value 0, some (entry (arb % r.nentries)).zslba)
            else find_from n x)
          wrap

  later :
      (n arb : ℕ)
      → matches (entry (arb % r.nentries)) ≡ false
      → ((j : ℕ) → j < n → matches (entry ((arb + 1 + j) % r.nentries)) ≡ false)
      → (j : ℕ) → j < suc n
      → matches (entry ((arb + j) % r.nentries)) ≡ false
  later n arb miss none_ zero lt = let here : arb + 0 ≡ arb = omega arith in rw here miss
  later n arb miss none_ (suc j) lt =
      let there : arb + suc j ≡ arb + 1 + j = omega arith in rw there (none_ j (omega arith))

  -- A search finds an entry that it meets, or meets none.
  find_from-cases :
      (n arb : ℕ)
      → 0 < r.nentries
      → arb + n < 2 ^ 64
      → ((i : ℕ) × (i < r.nentries)
          × (matches (entry i) ≡ true)
          × (find_from n arb ≡ (value 0, some (entry i).zslba)))
        ⊎ ((find_from n arb ≡ (fail enxio, none))
            × ((j : ℕ) → j < n → matches (entry ((arb + j) % r.nentries)) ≡ false))
  unfolding find_from
  find_from-cases zero arb pos small = inr (refl, λ j lt. absurd (omega (arith, lt)))
  find_from-cases (suc n) arb pos small =
      let i : ℕ = arb % r.nentries in
      let round = find_from-round n arb pos (omega arith) in
      elim (Bool-cases (matches (entry i))) [
        | inl hit ↦ inl (i, mod-lt arb pos, hit, round ∙ rw hit)
        | inr miss ↦
            let on : find_from (suc n) arb ≡ find_from n (arb + 1) = round ∙ rw miss in
            elim (find_from-cases n (arb + 1) pos (omega arith)) [
              | inl (k, lt, hit, found) ↦ inl (k, lt, hit, on ∙ found)
              | inr (lost, none_) ↦ inr (on ∙ lost, later n arb miss none_)
            ]
      ]

  mul-add-mod : (q i : ℕ) → i < r.nentries → (r.nentries * q + i) % r.nentries ≡ i
  mul-add-mod q i lt =
      ap (λ x. x % r.nentries) (add_comm (r.nentries * q) i)
      ∙ add-mul-mod_self_left i r.nentries q
      ∙ mod-eq_of_lt lt

  -- From any number on, every entry is met within as many rounds as there are entries.
  met-within :
      (arb i : ℕ) → i < r.nentries → (j : ℕ) × (j < r.nentries) × ((arb + j) % r.nentries ≡ i)
  met-within arb i lt =
      let a : ℕ = arb % r.nentries in
      let q : ℕ = arb / r.nentries in
      let split : r.nentries * q + a ≡ arb = div-add-mod arb r.nentries in
      let below : a < r.nentries = mod-lt arb (omega arith) in
      elim (dec_lt i a) [
        | yes before ↦
            let j : ℕ = i + r.nentries - a in
            (
              j,
              omega arith,
              ap (λ x. x % r.nentries) (omega (arith, split, mul-suc r.nentries q))
                  ∙ mul-add-mod (suc q) i lt,
            )
        | no behind ↦
            let j : ℕ = i - a in
            (j, omega arith, ap (λ x. x % r.nentries) (omega (arith, split)) ∙ mul-add-mod q i lt)
      ]

  -- In a report of fewer than 2^32 entries, and not none, whatever rand() returns:
  -- xnvme_znd_report_find_arbitrary() either returns 0 with the start of an entry of the report
  -- that is in the state, of the type of sequential writes, and has capacity, or fails with
  -- ENXIO, and then no entry of the report is such.
  pub find_arbitrary-decides :
      (random : ℕ)
      → 0 < r.nentries
      → r.nentries < 2 ^ 32
      → ((i : ℕ) × (i < r.nentries)
          × (matches (entry i) ≡ true)
          × (find_arbitrary random ≡ (value 0, some (entry i).zslba)))
        ⊎ ((find_arbitrary random ≡ (fail enxio, none))
            × ((i : ℕ) → i < r.nentries → matches (entry i) ≡ false))
  unfolding find_arbitrary
  find_arbitrary-decides random pos small =
      let arb : ℕ = random % (2 ^ 32 - 1) in
      elim (find_from-cases r.nentries arb pos (omega arith)) [
        | inl found ↦ inl found
        | inr (lost, none_) ↦ inr (
          lost,
          λ i lt.
              let (j, in_, at) = met-within arb i lt in
              ap (λ x. matches (entry x)) (sym at) ∙ none_ j in_,
        )
      ]
