-- ===== src/Mem/Gather.antt =====
-- Segments of memory copied one after the other to consecutive addresses.
use xnvme.Common.{ℕ, ◌+◌, ◌≤◌, ◌≡◌, refl, ◌∙◌, inl, inr, List, [], ◌∷◌, ◌++◌, arith}
use xnvme.Mem.{Mem, memcpy, bytes}
use xnvme.Mem.Copy.{Apart, bytes-memcpy, bytes-memcpy-Apart, bytes-append}

-- The address and the size of each segment.
abbrev pub Segments : Type 0
Segments = List (ℕ × ℕ)

unfoldable pub total : Segments → ℕ
total [] = 0
total ((a, n) ∷ segs) = n + total segs

unfoldable pub copy_segments : ℕ → Segments → Mem → Mem
copy_segments dst [] m = m
copy_segments dst ((a, n) ∷ segs) m = copy_segments (dst + n) segs (memcpy dst a n m)

-- The bytes of the segments, in order.
unfoldable pub gather : Mem → Segments → List ℕ
gather m [] = []
gather m ((a, n) ∷ segs) = bytes m a n ++ gather m segs

-- No segment touches the `k` addresses from `dst` on.
unfoldable pub AllApart : Segments → ℕ → ℕ → Type 0
AllApart [] dst k = 0 ≤ 0
AllApart ((a, n) ∷ segs) dst k = Apart a n dst k × AllApart segs dst k

AllApart-sub :
    (segs : Segments) (dst k dst' k' : ℕ)
    → dst ≤ dst'
    → dst' + k' ≤ dst + k
    → AllApart segs dst k
    → AllApart segs dst' k'
unfolding AllApart
AllApart-sub [] dst k dst' k' lo hi h = h
AllApart-sub ((a, n) ∷ segs) dst k dst' k' lo hi (h, hs) = (
  elim h [ inl x ↦ inl (omega arith) | inr y ↦ inr (omega arith) ],
  AllApart-sub segs dst k dst' k' lo hi hs,
)

gather-memcpy :
    (segs : Segments) (dst src n : ℕ) (m : Mem)
    → AllApart segs dst n
    → gather (memcpy dst src n m) segs ≡ gather m segs
unfolding gather AllApart
gather-memcpy [] dst src n m h = refl
gather-memcpy ((a, k) ∷ segs) dst src n m (h, hs) =
    rw (bytes-memcpy-Apart dst src n a k m h, gather-memcpy segs dst src n m hs)

-- Addresses outside the destination keep their bytes.
pub copy_segments-else :
    (segs : Segments) (dst a k : ℕ) (m : Mem)
    → Apart a k dst (total segs)
    → bytes (copy_segments dst segs m) a k ≡ bytes m a k
unfolding copy_segments total
copy_segments-else [] dst a k m h = refl
copy_segments-else ((b, n) ∷ segs) dst a k m h =
    copy_segments-else segs (dst + n) a k (memcpy dst b n m)
      (elim h [ inl x ↦ inl (omega arith) | inr y ↦ inr (omega arith) ])
    ∙ bytes-memcpy-Apart dst b n a k m
        (elim h [ inl x ↦ inl (omega arith) | inr y ↦ inr (omega arith) ])

-- The destination holds the bytes of the segments in order, where no segment touches it.
pub copy_segments-gather :
    (segs : Segments) (dst : ℕ) (m : Mem)
    → AllApart segs dst (total segs)
    → bytes (copy_segments dst segs m) dst (total segs) ≡ gather m segs
unfolding copy_segments total gather AllApart bytes
copy_segments-gather [] dst m h = refl
copy_segments-gather ((a, n) ∷ segs) dst m (h, hs) =
    let m1 : Mem = memcpy dst a n m in
    let front : bytes (copy_segments (dst + n) segs m1) dst n ≡ bytes m a n =
      copy_segments-else segs (dst + n) dst n m1 (inl (omega arith)) ∙ bytes-memcpy dst a n m in
    let back : bytes (copy_segments (dst + n) segs m1) (dst + n) (total segs) ≡ gather m segs =
      copy_segments-gather segs (dst + n) m1 (
        AllApart-sub segs dst (n + total segs) (dst + n) (total segs) (omega arith) (omega arith)
          hs)
      ∙ gather-memcpy segs dst a n m
          (AllApart-sub segs dst (n + total segs) dst n (omega arith) (omega arith) hs) in
    bytes-append (copy_segments (dst + n) segs m1) dst n (total segs) ∙ rw (front, back)
