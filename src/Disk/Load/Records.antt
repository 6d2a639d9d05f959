-- ===== src/Disk/Load/Records.antt =====
-- src/disk.rs, `read_record`: what it makes of the bytes of a file.
use beetree.Prelude.{
  ℕ, ◌+◌, ◌-◌, ◌≤◌, ◌<◌, ◌≡◌, ◌⊎◌, inl, inr, refl, ap, ◌∙◌, ◌==◌, ◌||◌, Option, some, List, length,
  take, drop, ltb, if◌then◌else◌, arith, Bool-cases, Option-cases, length-take, length-drop,
}
use beetree.Bytes.{u64_mod, from_le_bytes}
use beetree.Vfs.{FaultyState}
use beetree.Vfs.Counting.{faulty}
use beetree.Format.{Codec, DiskNode, decode_node, data_start, record_header_size}
use beetree.Disk.{DiskEngine, DiskResult, corrupt_node}
use beetree.Disk.Load.{and_then, from_io, decoded, read_payload, read_record}
use beetree.Disk.Recovery.{read_exact_at_lem}

-- The bytes of a file from `off`, `count` of them.
abbrev pub bytes_at : ℕ → ℕ → List ℕ → List ℕ
bytes_at off count file = take count (drop off file)

-- What a record that was read is: it lies in the data region below the watermark, its payload has the
-- checksum that its header stores, and decodes to the node.
pub record IsRecord (c : Codec) (file : List ℕ) (watermark offset : ℕ) (node : DiskNode) (len : ℕ)
    : Type 0 where
  pub start : data_start ≤ offset
  pub end : offset + record_header_size + len ≤ watermark
  pub stored_len : from_le_bytes (take 4 (bytes_at offset record_header_size file)) ≡ len
  pub stored_crc :
      from_le_bytes (drop 4 (bytes_at offset record_header_size file))
      ≡ c.crc (bytes_at (offset + record_header_size) len file)
  pub decodes : decode_node c (bytes_at (offset + record_header_size) len file) ≡ some node

module _ {P : Type 0} (c : Codec) (s : DiskEngine FaultyState P)
    (whole : s.watermark ≤ length s.vfs.view) (small : length s.vfs.view < u64_mod)
    (offset : ℕ) where
  abbrev header : List ℕ
  header = bytes_at offset record_header_size s.vfs.view

  pub read_exact_at-faulty :
      (off count : ℕ)
      → off + count ≤ s.watermark
      → from_io (faulty.read_exact_at off count s.vfs)
        ≡ some (DiskResult.ok (bytes_at off count s.vfs.view))
  unfolding faulty
  read_exact_at-faulty off count h =
      ap from_io (read_exact_at_lem off count s.vfs (omega arith) small)

  length-bytes_at :
      (off count : ℕ) → off + count ≤ s.watermark → length (bytes_at off count s.vfs.view) ≡ count
  length-bytes_at off count h =
      omega (arith, length-take count (drop off s.vfs.view), length-drop off s.vfs.view, whole)

  -- What follows the reading of a payload.
  payload_cases :
      (payload : List ℕ)
      → (and_then (some (DiskResult.ok payload)) (λ bytes.
            if c.crc bytes == from_le_bytes (drop 4 header)
            then decoded offset (length bytes) (decode_node c bytes)
            else some (DiskResult.err (corrupt_node offset)))
          ≡ some (DiskResult.err (corrupt_node offset)))
        ⊎ ((node : DiskNode) × (and_then (some (DiskResult.ok payload)) (λ bytes.
                if c.crc bytes == from_le_bytes (drop 4 header)
                then decoded offset (length bytes) (decode_node c bytes)
                else some (DiskResult.err (corrupt_node offset)))
              ≡ some (DiskResult.ok (node, length payload)))
            × (from_le_bytes (drop 4 header) ≡ c.crc payload)
            × (decode_node c payload ≡ some node))
  payload_cases payload = elim (Bool-cases (c.crc payload == from_le_bytes (drop 4 header))) [
    | inr differ ↦ inl (rw differ refl)
    | inl same ↦ elim (Option-cases (decode_node c payload)) [
      | inl e ↦ inl (rw (same, e) refl)
      | inr (node, e) ↦ inr (node, rw (same, e) refl, ground (arith, same), e)
    ]
  ]

  -- A record is refused as corrupt, or it was read.
  abbrev ReadOutcome : Option (DiskResult (DiskNode × ℕ)) → Type 0
  ReadOutcome o =
      (o ≡ some (DiskResult.err (corrupt_node offset)))
      ⊎ ((node : DiskNode) × (len : ℕ) × (o ≡ some (DiskResult.ok (node, len)))
          × IsRecord c s.vfs.view s.watermark offset node len)

  read_payload-ReadOutcome :
      data_start ≤ offset
      → offset + record_header_size ≤ s.watermark
      → ReadOutcome (
          read_payload faulty c offset
            (from_le_bytes (take 4 header))
            (from_le_bytes (drop 4 header))
            s)
  unfolding read_payload
  read_payload-ReadOutcome start fits =
      let len = from_le_bytes (take 4 header) in
      elim (Bool-cases (ltb (s.watermark - (offset + record_header_size)) len)) [
        | inl long ↦ inl (rw long refl)
        | inr short ↦
            let inside : offset + record_header_size + len ≤ s.watermark = ground (arith, short) in
            let read = read_exact_at-faulty (offset + record_header_size) len inside in
            let same = length-bytes_at (offset + record_header_size) len inside in
            elim (payload_cases (bytes_at (offset + record_header_size) len s.vfs.view)) [
              | inl corrupt ↦ inl (rw (short, read) corrupt)
              | inr (node, answer, crc, decodes) ↦ inr (
                node,
                len,
                rw (short, read) (answer ∙ ap (λ n. some (DiskResult.ok (node, n))) same),
                record {
                  start = start;
                  end = inside;
                  stored_len = refl;
                  stored_crc = crc;
                  decodes = decodes;
                },
              )
            ]
      ]

  -- For a file as long as the watermark at least, and shorter than 2 ^ 64: reading a record, at any
  -- offset and whatever the bytes are, ends without a panic or an error of the device. It answers that
  -- the record is corrupt, or with a node and a length, and then the record lies in the data region
  -- below the watermark, its header stores the length and the checksum of its payload, and the
  -- payload decodes to the node.
  pub read_record-IsRecord :
      (read_record faulty c offset s ≡ some (DiskResult.err (corrupt_node offset)))
      ⊎ ((node : DiskNode) × (len : ℕ) × (read_record faulty c offset s
            ≡ some (DiskResult.ok (node, len)))
          × IsRecord c s.vfs.view s.watermark offset node len)
  unfolding read_record
  read_record-IsRecord =
      elim (Bool-cases (ltb offset data_start || ltb (s.watermark - record_header_size) offset)) [
        | inl outside ↦ inl (rw outside refl)
        | inr inside ↦
            let start : data_start ≤ offset = ground (arith, inside) in
            let fits : offset + record_header_size ≤ s.watermark = ground (arith, inside) in
            elim (read_payload-ReadOutcome start fits) [
              | inl corrupt ↦
                  inl (rw (inside, read_exact_at-faulty offset record_header_size fits) corrupt)
              | inr (node, len, answer, is) ↦ inr (
                node,
                len,
                rw (inside, read_exact_at-faulty offset record_header_size fits) answer,
                is,
              )
            ]
      ]
