-- ===== src/Block/Scan.antt =====
-- Scanning an answer of the kernel for a report of zones.
use xnvme.Common.{
  ℕ, suc, ◌+◌, ◌≤◌, ◌<◌, ◌≡◌, refl, sym, ap, ◌∙◌, Bool, true, false, leb, if◌then◌else◌, List, [],
  ◌∷◌, ◌++◌, length, take, length-append, Option, arith, Bool-cases, inl, inr, append_assoc,
  take_all, take-append, take-nil, append-nil, min,
}
use xnvme.Block.{BlkZone, ZoneDescr, Filled, zblk_to_descr, keeps, scan_zones}

-- The zones that a report is about, and their descriptors.
unfoldable pub matching : Option ℕ → List BlkZone → List BlkZone
matching state [] = []
matching state (z ∷ zs) = if keeps state z then z ∷ matching state zs else matching state zs

unfoldable pub describe : ℕ → Bool → List BlkZone → List ZoneDescr
describe shift has_capacity [] = []
describe shift has_capacity (z ∷ zs) =
    zblk_to_descr shift has_capacity z ∷ describe shift has_capacity zs

pub matching-append :
    (state : Option ℕ) (xs ys : List BlkZone)
    → matching state (xs ++ ys) ≡ matching state xs ++ matching state ys
unfolding matching
matching-append state [] ys = refl
matching-append state (x ∷ xs) ys = elim (Bool-cases (keeps state x)) [
  | inl yes_ ↦ rw yes_ (ap (λ l. x ∷ l) (matching-append state xs ys))
  | inr no_ ↦ rw no_ (matching-append state xs ys)
]

describe-append :
    (shift : ℕ) (hc : Bool) (xs ys : List BlkZone)
    → describe shift hc (xs ++ ys) ≡ describe shift hc xs ++ describe shift hc ys
unfolding describe
describe-append shift hc [] ys = refl
describe-append shift hc (x ∷ xs) ys =
    ap (λ l. zblk_to_descr shift hc x ∷ l) (describe-append shift hc xs ys)

length-describe :
    (shift : ℕ) (hc : Bool) (xs : List BlkZone) → length (describe shift hc xs) ≡ length xs
unfolding describe
length-describe shift hc [] = refl
length-describe shift hc (x ∷ xs) = ap suc (length-describe shift hc xs)

-- The buffer holds a report of these zones, as far as there is room.
pub record IsReport (room shift : ℕ) (hc : Bool) (zs : List BlkZone) (f : Filled) : Type 0 where
  pub counted : f.nzones ≡ length zs
  pub written : f.descrs ≡ take room (describe shift hc zs)

pub empty-IsReport :
    (room shift : ℕ) (hc : Bool) → IsReport room shift hc [] (record { nzones = 0; descrs = [] })
unfolding describe
empty-IsReport room shift hc = record { counted = refl; written = sym (take-nil room) }

module _ (room shift : ℕ) (hc : Bool) (state : Option ℕ) where
  -- A zone more, without room for its descriptor and with.
  add_full :
      (z : BlkZone) (seen : List BlkZone) (f : Filled)
      → leb room f.nzones ≡ true
      → IsReport room shift hc seen f
      → IsReport room shift hc (seen ++ z ∷ []) (record f { nzones = f.nzones + 1 })
  add_full z seen f full r =
      let le : room ≤ length seen = ground (arith, full, r.counted) in
      record {
        counted = omega (arith, r.counted, length-append seen (z ∷ []));
        written =
            r.written
            ∙ sym (
                ap (take room) (describe-append shift hc seen (z ∷ []))
                ∙ take-append room _ _ (omega (arith, le, length-describe shift hc seen)));
      }

  add_free :
      (z : BlkZone) (seen : List BlkZone) (f : Filled)
      → leb room f.nzones ≡ false
      → IsReport room shift hc seen f
      → IsReport room shift hc
          (seen ++ z ∷ [])
          (record { nzones = f.nzones + 1; descrs = f.descrs ++ zblk_to_descr shift hc z ∷ [] })
  unfolding describe
  add_free z seen f free r =
      let lt : length seen < room = ground (arith, free, r.counted) in
      let len : length (seen ++ z ∷ []) ≡ length seen + 1 = length-append seen (z ∷ []) in
      let all : f.descrs ≡ describe shift hc seen =
        r.written ∙ take_all room _ (omega (arith, lt, length-describe shift hc seen)) in
      record {
        counted = omega (arith, r.counted, len);
        written =
            ap (λ l. l ++ zblk_to_descr shift hc z ∷ []) all
            ∙ sym (describe-append shift hc seen (z ∷ []))
            ∙ sym (
                take_all room _
                  (omega (arith, lt, len, length-describe shift hc (seen ++ z ∷ []))));
      }

  pub scan_zones-IsReport :
      (zs seen : List BlkZone) (f : Filled)
      → IsReport room shift hc seen f
      → IsReport room shift hc
          (seen ++ matching state zs)
          (scan_zones false room shift state hc zs f)
  unfolding scan_zones matching
  scan_zones-IsReport [] seen f r = rw (append-nil seen) r
  scan_zones-IsReport (z ∷ zs) seen f r = elim (Bool-cases (keeps state z)) [
    | inr skip ↦ rw (skip, scan_zones) (scan_zones-IsReport zs seen f r)
    | inl keep ↦ elim (Bool-cases (leb room f.nzones)) [
      | inl full ↦
          rw (keep, scan_zones, full, ← append_assoc seen (z ∷ []) (matching state zs))
            (scan_zones-IsReport zs (seen ++ z ∷ []) _ (add_full z seen f full r))
      | inr free ↦
          rw (keep, scan_zones, free, ← append_assoc seen (z ∷ []) (matching state zs))
            (scan_zones-IsReport zs (seen ++ z ∷ []) _ (add_free z seen f free r))
    ]
  ]

-- What the partial bit makes of one answer.
pub scan_zones-partial :
    (room shift : ℕ) (hc : Bool) (state : Option ℕ) (zs : List BlkZone) (f : Filled)
    → f.nzones ≡ length f.descrs
    → f.nzones ≤ room
    → let f' = scan_zones true room shift state hc zs f in
      let m = f.nzones + length (matching state zs) in
      (f'.nzones ≡ min m (room + 1))
      × (length f'.descrs ≡ min m room)
      × (f'.descrs ≡ take room (f.descrs ++ describe shift hc (matching state zs)))
unfolding scan_zones matching describe
scan_zones-partial room shift hc state [] f eq le = (
  omega arith,
  omega (arith, eq),
  sym (ap (take room) (append-nil f.descrs) ∙ take_all room f.descrs (omega (arith, eq, le))),
)
scan_zones-partial room shift hc state (z ∷ zs) f eq le = elim (Bool-cases (keeps state z)) [
  | inr skip ↦ rw (skip, scan_zones) (scan_zones-partial room shift hc state zs f eq le)
  | inl keep ↦ elim (Bool-cases (leb room f.nzones)) [
    | inl full ↦
        let ge : room ≤ f.nzones = ground arith in
        rw (keep, scan_zones, full)
          (
            omega (arith, ge, le),
            omega (arith, ge, le, eq),
            sym (
                take-append room f.descrs _ (omega (arith, ge, eq))
                ∙ take_all room f.descrs (omega (arith, eq, le))),
          )
    | inr free ↦
        let lt : f.nzones < room = ground arith in
        let written : Filled = record {
          nzones = f.nzones + 1;
          descrs = f.descrs ++ zblk_to_descr shift hc z ∷ [];
        } in
        let (nr, len, descrs) =
          scan_zones-partial room shift hc state zs written
            (omega (arith, eq, length-append f.descrs (zblk_to_descr shift hc z ∷ [])))
            (omega (arith, lt)) in
        rw (keep, scan_zones, free)
          (
            omega (arith, nr),
            omega (arith, len),
            descrs ∙ ap (take room) (append_assoc f.descrs (zblk_to_descr shift hc z ∷ []) _),
          )
  ]
]
