-- ===== src/Disk/Load/RoundTrip.antt =====
-- src/disk.rs: a record that a commit writes is read back.
use beetree.Prelude.{
  ℕ, ◌+◌, ◌-◌, ◌^◌, ◌≤◌, ◌<◌, ◌≡◌, sym, ap, ◌∙◌, ◌==◌, Option, some, List, ◌++◌, length, take, drop,
  ltb-false, if◌then◌else◌, arith, take-append_exact, drop-append_exact, take-take, take-drop,
  drop-drop,
}
use beetree.Bytes.{u64_mod, le_bytes, from_le_bytes, from_le_bytes-le_bytes, length-le_bytes}
use beetree.Vfs.{FaultyState}
use beetree.Vfs.Counting.{faulty}
use beetree.Format.{
  Codec, IsCodec, DiskNode, encode_node, decode_node, data_start, record_header_size,
}
use beetree.Disk.{DiskEngine, DiskResult, corrupt_node}
use beetree.Disk.Load.{decoded, read_payload, read_record}
use beetree.Disk.Load.Records.{bytes_at, read_exact_at-faulty}
use beetree.Disk.Commit.{record_bytes}

decode_node-encode_node :
    (c : Codec) (node : DiskNode) (payload : List ℕ)
    → IsCodec c
    → encode_node c node ≡ some payload
    → decode_node c payload ≡ some node
unfolding encode_node decode_node
decode_node-encode_node c node payload laws h = rw (laws.node_round node payload h) (ground arith)

-- Two words, one after the other.
from_le_bytes-words :
    (a b : ℕ) (bytes : List ℕ)
    → a < 2 ^ 32
    → b < 2 ^ 32
    → bytes ≡ le_bytes 4 a ++ le_bytes 4 b
    → (from_le_bytes (take 4 bytes) ≡ a) × (from_le_bytes (drop 4 bytes) ≡ b)
from_le_bytes-words a b bytes ha hb e = (
  ap (λ h. from_le_bytes (take 4 h)) e
      ∙ ap from_le_bytes (take-append_exact 4 (le_bytes 4 a) (le_bytes 4 b) (length-le_bytes a))
      ∙ from_le_bytes-le_bytes a ha,
  ap (λ h. from_le_bytes (drop 4 h)) e
      ∙ ap from_le_bytes (drop-append_exact 4 (le_bytes 4 a) (le_bytes 4 b) (length-le_bytes a))
      ∙ from_le_bytes-le_bytes b hb,
)

module _ {P : Type 0} (c : Codec) (s : DiskEngine FaultyState P) (offset : ℕ) (payload : List ℕ)
    (laws : IsCodec c)
    (stored : bytes_at offset (record_header_size + length payload) s.vfs.view
      ≡ record_bytes c payload) where
  stored_header :
      bytes_at offset record_header_size s.vfs.view
      ≡ le_bytes 4 (length payload) ++ le_bytes 4 (c.crc payload)
  unfolding le_bytes
  stored_header =
      sym (
        take-take record_header_size (record_header_size + length payload) (drop offset s.vfs.view)
          (omega arith))
      ∙ ap (take record_header_size) stored

  stored_payload : bytes_at (offset + record_header_size) (length payload) s.vfs.view ≡ payload
  unfolding le_bytes
  stored_payload =
      ap (take (length payload)) (drop-drop offset record_header_size s.vfs.view)
      ∙ take-drop record_header_size (length payload) (drop offset s.vfs.view)
      ∙ ap (drop record_header_size) stored

  module _ (node : DiskNode) (encoded : encode_node c node ≡ some payload)
      (whole : s.watermark ≤ length s.vfs.view) (small : length s.vfs.view < u64_mod)
      (end : offset + record_header_size + length payload ≤ s.watermark) where
    payload_read :
        read_payload faulty c offset (length payload) (c.crc payload) s
        ≡ some (DiskResult.ok (node, length payload))
    unfolding read_payload
    payload_read =
        let answer : List ℕ → Option (DiskResult (DiskNode × ℕ)) = λ bytes.
          if c.crc bytes == c.crc payload
          then decoded offset (length bytes) (decode_node c bytes)
          else some (DiskResult.err (corrupt_node offset)) in
        let read =
          read_exact_at-faulty c s whole small offset (offset + record_header_size) (length payload)
            end in
        rw
          (
            ltb-false (s.watermark - (offset + record_header_size)) (length payload)
                (omega (arith, end)),
            read,
          )
          (ap answer stored_payload
            ∙ rw (decode_node-encode_node c node payload laws encoded) (ground arith))

    read_record-stored :
        length payload < 2 ^ 32
        → data_start ≤ offset
        → read_record faulty c offset s ≡ some (DiskResult.ok (node, length payload))
    unfolding read_record
    read_record-stored short start =
        let word =
          from_le_bytes-words (length payload) (c.crc payload)
            (bytes_at offset record_header_size s.vfs.view) short (laws.crc_lt payload)
            stored_header in
        rw
          (
            ltb-false offset data_start (omega (arith, start)),
            ltb-false (s.watermark - record_header_size) offset (omega (arith, end)),
            read_exact_at-faulty c s whole small offset offset record_header_size
                (omega (arith, end)),
          )
          (ap
              (λ len.
                read_payload faulty c offset len
                  (from_le_bytes (drop 4 (bytes_at offset record_header_size s.vfs.view))) s)
              word.0
            ∙ ap (λ crc. read_payload faulty c offset (length payload) crc s) word.1
            ∙ payload_read)

-- The record of a node, as a commit writes it, where the file holds it at an offset of the data
-- region, below the watermark: with a codec that keeps what it encodes, and for a payload below
-- 2 ^ 32 bytes in a file below 2 ^ 64, it is read back as that node and the length of its payload.
pub read_record-record_bytes :
    {P : Type 0} (c : Codec) (s : DiskEngine FaultyState P) (offset : ℕ) (node : DiskNode)
    (payload : List ℕ)
    → IsCodec c
    → encode_node c node ≡ some payload
    → length payload < 2 ^ 32
    → bytes_at offset (record_header_size + length payload) s.vfs.view ≡ record_bytes c payload
    → data_start ≤ offset
    → offset + record_header_size + length payload ≤ s.watermark
    → s.watermark ≤ length s.vfs.view
    → length s.vfs.view < u64_mod
    → read_record faulty c offset s ≡ some (DiskResult.ok (node, length payload))
read_record-record_bytes c s offset node payload laws encoded short stored start end whole small =
    read_record-stored c s offset payload laws stored node encoded whole small end short start
