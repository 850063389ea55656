-- ===== src/Kvs.antt =====
-- lib/xnvme_kvs.c: the commands of the key-value command set.
mod Tests
use xnvme.Common.{
  ℕ, ◌+◌, ◌-◌, ◌%◌, ◌<◌, ◌≤◌, ◌≡◌, refl, ap, ◌==◌, ltb, min, if◌then◌else◌, get_bits, bit_or, Ret,
  Bool, true, false, Bool-cases, inl, inr, arith, ltb→lt, ltb→le, lt→ltb, le→ltb, dec_lt,
}
use xnvme.Cmd.{Payload}
use xnvme.Nvm.{data_payload}

-- `struct xnvme_spec_kvs_cmd`: the bytes of `key` and `key_hi` by index, and the bytes of dword 11.
pub record KvCmd : Type 0 where
  pub opcode : ℕ
  pub nsid : ℕ
  pub key : ℕ → ℕ
  pub cdw10 : ℕ
  pub kl : ℕ
  pub ro : ℕ
  pub key_hi : ℕ → ℕ

-- A field of bytes with the first `n` of them written.
abbrev pub write_bytes : (ℕ → ℕ) → (ℕ → ℕ) → ℕ → ℕ → ℕ
write_bytes dst src n i = if ltb i n then src i else dst i

-- kvs_cmd_set_key()
unfoldable pub kvs_cmd_set_key : (ℕ → ℕ) → ℕ → KvCmd → KvCmd
kvs_cmd_set_key key key_len c =
    let c' = record c { kl = key_len; key = write_bytes c.key key (min key_len 8) } in
    if ltb 8 key_len
    then record c' { key_hi = write_bytes c.key_hi (λ i. key (8 + i)) (min (key_len - 8) 8) }
    else c'

abbrev pub begin : ℕ → ℕ → KvCmd → KvCmd
begin opcode nsid c = record c { opcode = opcode; nsid = nsid }

-- `pass` is xnvme_cmd_pass() of a context with the command.
module _ {S : Type 0} (pass : KvCmd → Payload → S → Ret × S) where
  -- xnvme_kvs_retrieve(), with `opt` of 8 bits.
  unfoldable pub kvs_retrieve : ℕ → (ℕ → ℕ) → ℕ → ℕ → ℕ → ℕ → KvCmd → S → Ret × S
  unfolding kvs_cmd_set_key
  kvs_retrieve nsid key key_len dbuf dbuf_nbytes opt c =
      let c' = kvs_cmd_set_key key key_len (record (begin 0x02 nsid c) { cdw10 = dbuf_nbytes }) in
      pass (if get_bits opt 0 1 == 1 then record c' { ro = opt } else c')
        (data_payload dbuf dbuf_nbytes)

  -- xnvme_kvs_store(): the option bits are those of not storing where the key does not exist, of
  -- not storing where it does, and of compression.
  unfoldable pub kvs_store : ℕ → (ℕ → ℕ) → ℕ → ℕ → ℕ → ℕ → KvCmd → S → Ret × S
  unfolding kvs_cmd_set_key
  kvs_store nsid key key_len dbuf dbuf_nbytes opt c =
      let c1 = record (begin 0x01 nsid c) { cdw10 = dbuf_nbytes } in
      let c2 = if get_bits opt 0 1 == 1 then record c1 { ro = opt } else c1 in
      let c3 = if get_bits opt 1 1 == 1 then record c2 { ro = opt } else c2 in
      let c4 = if get_bits opt 2 1 == 1 then record c3 { ro = bit_or c3.ro 4 } else c3 in
      pass (kvs_cmd_set_key key key_len c4) (data_payload dbuf dbuf_nbytes)

  -- xnvme_kvs_delete(), xnvme_kvs_exist() and xnvme_kvs_list()
  unfoldable pub kvs_delete : ℕ → (ℕ → ℕ) → ℕ → KvCmd → S → Ret × S
  unfolding kvs_cmd_set_key
  kvs_delete nsid key key_len c =
      pass (kvs_cmd_set_key key key_len (begin 0x10 nsid c)) (data_payload 0 0)

  unfoldable pub kvs_exist : ℕ → (ℕ → ℕ) → ℕ → KvCmd → S → Ret × S
  unfolding kvs_cmd_set_key
  kvs_exist nsid key key_len c =
      pass (kvs_cmd_set_key key key_len (begin 0x14 nsid c)) (data_payload 0 0)

  unfoldable pub kvs_list : ℕ → (ℕ → ℕ) → ℕ → ℕ → ℕ → KvCmd → S → Ret × S
  unfolding kvs_cmd_set_key
  kvs_list nsid key key_len dbuf dbuf_nbytes c =
      pass (kvs_cmd_set_key key key_len (record (begin 0x06 nsid c) { cdw10 = dbuf_nbytes }))
        (data_payload dbuf dbuf_nbytes)

-- The byte `i` of the key as the device reads it, of 16.
abbrev pub key_byte : KvCmd → ℕ → ℕ
key_byte c i = if ltb i 8 then c.key i else c.key_hi (i - 8)

-- The command by the length of the key.
module _ (key : ℕ → ℕ) (key_len : ℕ) (c : KvCmd) where
  set_key-short :
      key_len ≤ 8
      → kvs_cmd_set_key key key_len c
        ≡ record c { kl = key_len; key = write_bytes c.key key (min key_len 8) }
  unfolding kvs_cmd_set_key
  set_key-short short = rw (kvs_cmd_set_key, le→ltb 8 key_len short)

  set_key-long :
      8 < key_len
      → kvs_cmd_set_key key key_len c ≡ record c {
        kl = key_len;
        key = write_bytes c.key key (min key_len 8);
        key_hi = write_bytes c.key_hi (λ i. key (8 + i)) (min (key_len - 8) 8);
      }
  unfolding kvs_cmd_set_key
  set_key-long long = rw (kvs_cmd_set_key, lt→ltb 8 key_len long)

  -- kvs_cmd_set_key() writes the length of the key, and of the 16 bytes that the device reads
  -- the key from, those below this length are the bytes of the key and the others are what they
  -- were; nothing is written behind the 8 bytes of either field.
  pub kvs_cmd_set_key-bytes :
      let c' = kvs_cmd_set_key key key_len c in
      (c'.kl ≡ key_len)
      × ((i : ℕ) → i < 16 → key_byte c' i ≡ (if ltb i key_len then key i else key_byte c i))
      × ((i : ℕ) → 8 ≤ i → (c'.key i ≡ c.key i) × (c'.key_hi i ≡ c.key_hi i))
  kvs_cmd_set_key-bytes = elim (dec_lt 8 key_len) [
    | no short ↦
        rw (set_key-short (omega arith))
          (refl, (λ i lt. ground arith), λ i ge. (ground arith, refl))
    | yes long ↦ rw (set_key-long long) (
      refl,
      (λ i lt. elim (dec_lt i 8) [
        | yes low ↦ ground arith
        | no high ↦ let at : 8 + (i - 8) ≡ i = omega arith in ground (arith, ap key at)
      ]),
      λ i ge. (ground arith, ground arith),
    )
  ]
