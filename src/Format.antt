-- ===== src/Format.antt =====
-- src/format.rs: superblock slots and node records. bincode and crc32fast are parameters: a `Codec`
-- holds their calls, and `IsCodec` what the format relies on.
pub mod Slots
use beetree.Prelude.{
  ℕ, ◌+◌, ◌-◌, ◌^◌, ◌≤◌, ◌<◌, ◌≡◌, Bool, true, false, ◌&&◌, ◌==◌, Option, none, some, List, [], ◌∷◌,
  ◌++◌, length, take, drop, replicate, leb, if◌then◌else◌, ◌>>=◌,
}
use beetree.Bytes.{u64_mod, le_bytes, from_le_bytes}
use beetree.Key.{Key}
use beetree.BTreeMap.{BTreeMap}
use beetree.Message.{Message}
use beetree.Node.{LeafEntry}
use beetree.Engine.{Params}

abbrev pub superblock_slot_size : ℕ
superblock_slot_size = 4096

abbrev pub superblock_slots : List ℕ
superblock_slots = 0 ∷ superblock_slot_size ∷ []

abbrev pub data_start : ℕ
data_start = 8192

abbrev pub record_header_size : ℕ
record_header_size = 8

-- "BEET".
abbrev pub magic_bytes : List ℕ
magic_bytes = 66 ∷ 69 ∷ 69 ∷ 84 ∷ []

abbrev pub current_version : ℕ
current_version = 2

pub record Superblock : Type 0 where
  pub magic : List ℕ
  pub format_version : ℕ
  pub params : Params
  pub last_seq : ℕ
  pub generation : ℕ
  pub root_offset : ℕ
  pub watermark : ℕ

pub data SlotStatus : Type 0 where
  valid : Superblock → SlotStatus
  wrong_version : ℕ → SlotStatus
  invalid : SlotStatus

-- A node as it lies in a record: its children are file offsets.
pub data DiskNode : Type 0 where
  internal : List Key → List ℕ → BTreeMap Message → DiskNode
  leaf : BTreeMap LeafEntry → DiskNode

-- The calls of bincode, with `none` for an error, and of crc32fast. A decoding gives the value and
-- how many bytes it read.
pub record Codec : Type 0 where
  pub crc : List ℕ → ℕ
  pub put_superblock : Superblock → Option (List ℕ)
  pub take_superblock : List ℕ → Option (Superblock × ℕ)
  pub put_node : DiskNode → Option (List ℕ)
  pub take_node : List ℕ → Option (DiskNode × ℕ)

-- A checksum has 32 bits, and a decoding gives back what was encoded, whatever bytes follow it.
pub record IsCodec (c : Codec) : Type 0 where
  pub crc_lt : (bytes : List ℕ) → c.crc bytes < 2 ^ 32
  pub superblock_round :
      (sb : Superblock) (bytes rest : List ℕ)
      → c.put_superblock sb ≡ some bytes
      → c.take_superblock (bytes ++ rest) ≡ some (sb, length bytes)
  pub node_round :
      (node : DiskNode) (bytes : List ℕ)
      → c.put_node node ≡ some bytes
      → c.take_node bytes ≡ some (node, length bytes)

-- Where the checksum of a slot stands.
abbrev pub crc_at : ℕ
crc_at = superblock_slot_size - 4

unfoldable pub bytes_eq : List ℕ → List ℕ → Bool
bytes_eq [] [] = true
bytes_eq [] (b ∷ bs) = false
bytes_eq (a ∷ xs) [] = false
bytes_eq (a ∷ xs) (b ∷ bs) = let rest = bytes_eq xs bs in if a == b then rest else false

-- The conditions on a decoded superblock, in the order of the code.
unfoldable pub geometry_ok : Superblock → Bool
geometry_ok sb =
    leb data_start sb.watermark
    && leb data_start sb.root_offset
    && leb sb.root_offset (sb.watermark - record_header_size)

unfoldable pub params_ok : Params → Bool
params_ok p = leb 2 p.fanout && leb 1 p.buffer_capacity && leb 1 p.leaf_capacity

unfoldable pub judge : Superblock → SlotStatus
unfolding geometry_ok params_ok
judge sb =
    if bytes_eq sb.magic magic_bytes
    then if sb.format_version == current_version
      then if geometry_ok sb && params_ok sb.params then valid sb else invalid
      else wrong_version sb.format_version
    else invalid

module _ (c : Codec) where
  -- The payload, padded with zeros, and its checksum; `none` is an error of the encoding, such as a
  -- payload that does not fit.
  unfoldable pub encode_slot : Superblock → Option (List ℕ)
  encode_slot sb = do
    bytes ← c.put_superblock sb
    let payload = bytes ++ replicate (crc_at - length bytes) 0
    if leb (length bytes) crc_at then some (payload ++ le_bytes 4 (c.crc payload)) else none

  -- The payload of a slot against the checksum that follows it.
  unfoldable pub authenticate : List ℕ → List ℕ → SlotStatus
  unfolding judge
  authenticate payload stored =
      if c.crc payload == from_le_bytes stored
      then elim (c.take_superblock payload) [ none ↦ invalid | some (sb, read) ↦ judge sb ]
      else invalid

  unfoldable pub decode_slot : List ℕ → SlotStatus
  unfolding authenticate
  decode_slot slot =
      if length slot == superblock_slot_size
      then authenticate (take crc_at slot) (drop crc_at slot)
      else invalid

  unfoldable pub encode_node : DiskNode → Option (List ℕ)
  encode_node node = c.put_node node

  -- `none` stands for the reason of a corruption, which is a text.
  unfoldable pub decode_node : List ℕ → Option DiskNode
  decode_node payload = do
    (node, read) ← c.take_node payload
    if read == length payload then some node else none
