-- ===== src/Kvs/Tests.antt =====
-- A key of 10 bytes in a command that held another key.
use xnvme.Common.{ℕ, ◌<◌, ◌≤◌, ◌≡◌, ltb, if◌then◌else◌}
use xnvme.Kvs.{KvCmd, kvs_cmd_set_key, key_byte, kvs_cmd_set_key-bytes}

abbrev old : KvCmd
old = record { opcode = 0; nsid = 1; key = λ i. 1; cdw10 = 0; kl = 16; ro = 0; key_hi = λ i. 2 }

abbrev name : ℕ → ℕ
name i = i

kvs_cmd_set_key-bytes_example :
    let c' = kvs_cmd_set_key name 10 old in
    (c'.kl ≡ 10)
    × ((i : ℕ) → i < 16 → key_byte c' i ≡ (if ltb i 10 then name i else key_byte old i))
    × ((i : ℕ) → 8 ≤ i → (c'.key i ≡ old.key i) × (c'.key_hi i ≡ old.key_hi i))
kvs_cmd_set_key-bytes_example = kvs_cmd_set_key-bytes name 10 old
