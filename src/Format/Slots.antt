-- ===== src/Format/Slots.antt =====
-- src/format.rs: what a superblock slot says.
use beetree.Prelude.{
  ℕ, Bool-cases, Option-cases, inl, inr, ◌+◌, ◌-◌, ◌≤◌, ◌≡◌, ◌≢◌, refl, ap, sym, ◌∙◌, true, ◌==◌,
  some, List, [], ◌∷◌, ◌++◌, length, take, drop, replicate, leb, if◌then◌else◌, arith,
  take-append_exact, drop-append_exact, length-append, length-replicate, bind_some, if_some,
  some_inj, ==_iff, leb→le,
}
use mathlib.Core.Path.{subst}
use beetree.Bytes.{le_bytes, from_le_bytes, from_le_bytes-le_bytes, length-le_bytes}
use beetree.Format.{
  Superblock, valid, wrong_version, invalid, Codec, IsCodec, encode_slot, decode_slot, authenticate,
  judge, bytes_eq, magic_bytes, data_start, record_header_size, current_version, crc_at,
  superblock_slot_size, geometry_ok, params_ok,
}

-- A superblock that this build may write and open.
pub record IsSane (sb : Superblock) : Type 0 where
  pub magic : sb.magic ≡ magic_bytes
  pub version : sb.format_version ≡ current_version
  pub root_start : data_start ≤ sb.root_offset
  pub root_end : sb.root_offset + record_header_size ≤ sb.watermark
  pub fanout : 2 ≤ sb.params.fanout
  pub buffer_capacity : 1 ≤ sb.params.buffer_capacity
  pub leaf_capacity : 1 ≤ sb.params.leaf_capacity

bytes_eq-eq : (xs ys : List ℕ) → bytes_eq xs ys ≡ true → xs ≡ ys
unfolding bytes_eq
bytes_eq-eq [] [] h = refl
bytes_eq-eq [] (y ∷ ys) h = cc
bytes_eq-eq (x ∷ xs) [] h = cc
bytes_eq-eq (x ∷ xs) (y ∷ ys) h = ground (arith, bytes_eq-eq xs ys)

bytes_eq_refl : (xs : List ℕ) → bytes_eq xs xs ≡ true
unfolding bytes_eq
bytes_eq_refl [] = refl
bytes_eq_refl (x ∷ xs) = ground (arith, bytes_eq_refl xs)

judge-IsSane : (sb sb' : Superblock) → judge sb ≡ valid sb' → (sb ≡ sb') × IsSane sb
unfolding judge geometry_ok params_ok
judge-IsSane sb sb' h = ground (arith, bytes_eq-eq sb.magic magic_bytes)

judge-valid : (sb : Superblock) → IsSane sb → judge sb ≡ valid sb
unfolding judge geometry_ok params_ok
judge-valid sb s = rw s.magic (ground (arith, bytes_eq_refl magic_bytes))

invalid_absurd {ℓ} : {A : Type ℓ} (sb : Superblock) → invalid ≡ valid sb → A
invalid_absurd sb h = cc

module _ (c : Codec) where
  -- What an encoding consists of.
  encode_slot_parts :
      (sb : Superblock) (slot : List ℕ)
      → encode_slot c sb ≡ some slot
      → (bytes : List ℕ) × (payload : List ℕ) × (c.put_superblock sb ≡ some bytes)
        × (payload ≡ bytes ++ replicate (crc_at - length bytes) 0)
        × (length payload ≡ crc_at)
        × (slot ≡ payload ++ le_bytes 4 (c.crc payload))
  unfolding encode_slot
  encode_slot_parts sb slot h =
      let (bytes, e, h') = bind_some (c.put_superblock sb) h in
      let payload = bytes ++ replicate (crc_at - length bytes) 0 in
      let (fits, e') = if_some (leb (length bytes) crc_at) h' in
      (
        bytes,
        payload,
        e,
        refl,
        omega (
          arith,
          leb→le (length bytes) crc_at fits,
          length-append bytes (replicate (crc_at - length bytes) 0),
          length-replicate {A = ℕ} (crc_at - length bytes) 0,
        ),
        sym (some_inj e'),
      )

  authenticate-judge :
      (payload crc : List ℕ) (sb : Superblock) (read : ℕ)
      → c.crc payload ≡ from_le_bytes crc
      → c.take_superblock payload ≡ some (sb, read)
      → authenticate c payload crc ≡ judge sb
  unfolding authenticate
  authenticate-judge payload crc sb read stored round = ground (arith, stored, round)

  authenticate-IsSane :
      (payload crc : List ℕ) (sb : Superblock) → authenticate c payload crc ≡ valid sb → IsSane sb
  unfolding authenticate
  authenticate-IsSane payload crc sb h = elim (Bool-cases (c.crc payload == from_le_bytes crc)) [
    | inl same ↦ elim (Option-cases (c.take_superblock payload)) [
      | inl e ↦ invalid_absurd sb (rw (same, e) at h)
      | inr (r, e) ↦
          let (eq, sane) = judge-IsSane r.0 sb (rw (same, e) at h) in subst IsSane eq sane
    ]
    | inr differ ↦ invalid_absurd sb (rw differ at h)
  ]

  -- A slot that was encoded is as long as a slot, and decodes to the verdict on the superblock.
  pub decode_slot-judge :
      (sb : Superblock) (slot : List ℕ)
      → IsCodec c
      → encode_slot c sb ≡ some slot
      → (length slot ≡ superblock_slot_size) × (decode_slot c slot ≡ judge sb)
  unfolding decode_slot
  decode_slot-judge sb slot laws h =
      let (bytes, payload, e, ep, len, es) = encode_slot_parts sb slot h in
      let crc = le_bytes 4 (c.crc payload) in
      let front : take crc_at slot ≡ payload =
        ap (take crc_at) es ∙ take-append_exact crc_at payload crc len in
      let back : drop crc_at slot ≡ crc =
        ap (drop crc_at) es ∙ drop-append_exact crc_at payload crc len in
      let long : length slot ≡ superblock_slot_size =
        omega (arith, ap length es, length-append payload crc, length-le_bytes (c.crc payload)) in
      let round : c.take_superblock payload ≡ some (sb, length bytes) =
        ap c.take_superblock ep ∙ laws.superblock_round sb bytes _ e in
      let stored : from_le_bytes crc ≡ c.crc payload =
        from_le_bytes-le_bytes (c.crc payload) (laws.crc_lt payload) in
      (
        long,
        ap (λ b. if b then authenticate c (take crc_at slot) (drop crc_at slot) else invalid)
              ((==_iff (length slot) superblock_slot_size).1 long)
            ∙ ap (λ p. authenticate c p (drop crc_at slot)) front
            ∙ ap (authenticate c payload) back
            ∙ authenticate-judge payload crc sb (length bytes) (sym stored) round,
      )

-- With a codec that keeps what it encodes: a slot that holds a sane superblock of this version has
-- the slot's size and decodes to that superblock.
pub decode_slot-encode_slot :
    (c : Codec) (sb : Superblock) (slot : List ℕ)
    → IsCodec c
    → IsSane sb
    → encode_slot c sb ≡ some slot
    → (length slot ≡ superblock_slot_size) × (decode_slot c slot ≡ valid sb)
decode_slot-encode_slot c sb slot laws sane h =
    let (long, e) = decode_slot-judge c sb slot laws h in (long, e ∙ judge-valid sb sane)

-- Whatever the bytes of a slot are, a superblock that decodes from them as valid is sane: the right
-- magic and version, a root record whose header lies in the data region, and legal parameters.
pub decode_slot-IsSane :
    (c : Codec) (slot : List ℕ) (sb : Superblock) → decode_slot c slot ≡ valid sb → IsSane sb
unfolding decode_slot
decode_slot-IsSane c slot sb h = elim (Bool-cases (length slot == superblock_slot_size)) [
  | inl long ↦ authenticate-IsSane c (take crc_at slot) (drop crc_at slot) sb (
      sym
        (ap (λ b. if b then authenticate c (take crc_at slot) (drop crc_at slot) else invalid) long)
      ∙ h)
  | inr short ↦ invalid_absurd sb (
      sym (
        ap (λ b. if b then authenticate c (take crc_at slot) (drop crc_at slot) else invalid) short)
      ∙ h)
]

-- With such a codec, a slot of another version that carries the magic is reported as that version.
pub decode_slot-wrong_version :
    (c : Codec) (sb : Superblock) (slot : List ℕ)
    → IsCodec c
    → sb.magic ≡ magic_bytes
    → sb.format_version ≢ current_version
    → encode_slot c sb ≡ some slot
    → decode_slot c slot ≡ wrong_version sb.format_version
unfolding judge
decode_slot-wrong_version c sb slot laws m v h =
    (decode_slot-judge c sb slot laws h).1 ∙ rw m (ground (arith, bytes_eq_refl magic_bytes, v))
