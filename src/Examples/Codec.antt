-- ===== src/Examples/Codec.antt =====
-- A concrete codec: eight bytes for a number, and a sum as the checksum.
use beetree.Prelude.{
  ℕ, zero, suc, ◌+◌, ◌%◌, ◌^◌, ◌≡◌, ◌==◌, refl, ap, ◌∙◌, Option, none, some, List, [], ◌∷◌, ◌++◌,
  length, take, drop, ltb, ltb→lt, if◌then◌else◌, ◌>>=◌, arith, bind_some, some_inj, if_some,
  take-append_exact, drop-append_exact, length-append,
}
use mathlib.Core.Path.{subst}
use mathlib.Core.List.{append-nil}
use beetree.Bytes.{u64_mod, le_bytes, to_le_bytes, from_le_bytes, from_le_bytes-to_le_bytes}
use beetree.Format.{Codec, IsCodec, Superblock, DiskNode}

unfoldable pub put_numbers : List ℕ → Option (List ℕ)
put_numbers [] = some []
put_numbers (n ∷ ns) = do
  rest ← put_numbers ns
  if ltb n u64_mod then some (to_le_bytes n ++ rest) else none

unfoldable pub take_numbers : ℕ → List ℕ → Option (List ℕ × ℕ)
take_numbers zero bytes = some ([], 0)
take_numbers (suc k) bytes = do
  (ns, read) ← take_numbers k (drop 8 bytes)
  some (from_le_bytes (take 8 bytes) ∷ ns, 8 + read)

-- The numbers of a superblock after its magic.
unfoldable pub superblock_numbers : Superblock → List ℕ
superblock_numbers sb =
    sb.format_version ∷ sb.params.fanout ∷ sb.params.buffer_capacity ∷ sb.params.leaf_capacity
    ∷ sb.last_seq ∷ sb.generation ∷ sb.root_offset ∷ sb.watermark ∷ []

unfoldable pub number_at : List ℕ → ℕ → ℕ
number_at [] i = 0
number_at (n ∷ ns) zero = n
number_at (n ∷ ns) (suc i) = number_at ns i

unfoldable pub superblock_from : List ℕ → List ℕ → Superblock
unfolding number_at
superblock_from magic ns = record {
  magic = magic;
  format_version = number_at ns 0;
  params = record {
    fanout = number_at ns 1;
    buffer_capacity = number_at ns 2;
    leaf_capacity = number_at ns 3;
  };
  last_seq = number_at ns 4;
  generation = number_at ns 5;
  root_offset = number_at ns 6;
  watermark = number_at ns 7;
}

unfoldable pub put_superblock : Superblock → Option (List ℕ)
unfolding put_numbers superblock_numbers
put_superblock sb =
    if length sb.magic == 4 then put_numbers (sb.magic ++ superblock_numbers sb) else none

unfoldable pub take_superblock : List ℕ → Option (Superblock × ℕ)
unfolding take_numbers superblock_from
take_superblock bytes = do
  (ns, read) ← take_numbers 12 bytes
  some (superblock_from (take 4 ns) (drop 4 ns), read)

unfoldable pub sum : List ℕ → ℕ
sum [] = 1
sum (b ∷ bytes) = b + sum bytes

-- Of the nodes, it encodes an empty leaf, and an internal node with one child and an empty buffer.
unfoldable pub put_node : DiskNode → Option (List ℕ)
unfolding put_numbers
put_node (DiskNode.leaf []) = some (1 ∷ [])
put_node (DiskNode.leaf (e ∷ entries)) = none
put_node (DiskNode.internal [] (child ∷ []) []) = do
  bytes ← put_numbers (child ∷ [])
  some (2 ∷ bytes)
put_node (DiskNode.internal pivots children buffer) = none

unfoldable pub take_node : List ℕ → Option (DiskNode × ℕ)
unfolding take_numbers number_at
take_node [] = none
take_node (tag ∷ bytes) =
    if tag == 1
    then some (DiskNode.leaf [], 1)
    else if tag == 2
    then (do
      (ns, read) ← take_numbers 1 bytes
      some (DiskNode.internal [] (number_at ns 0 ∷ []) [], suc read))
    else none

abbrev pub numbers : Codec
numbers = record {
  crc = λ bytes. sum bytes % 2 ^ 32;
  put_superblock = put_superblock;
  take_superblock = take_superblock;
  put_node = put_node;
  take_node = take_node;
}

take_numbers-put_numbers :
    (ns bytes rest : List ℕ)
    → put_numbers ns ≡ some bytes
    → take_numbers (length ns) (bytes ++ rest) ≡ some (ns, length bytes)
unfolding put_numbers take_numbers to_le_bytes le_bytes
take_numbers-put_numbers [] bytes rest h =
    subst (λ bs. take_numbers zero (bs ++ rest) ≡ some ([], length bs)) (some_inj h) refl
take_numbers-put_numbers (n ∷ ns) bytes rest h =
    let (tail, e, h') = bind_some (put_numbers ns) h in
    let (small, e') = if_some (ltb n u64_mod) h' in
    subst (λ bs. take_numbers (suc (length ns)) (bs ++ rest) ≡ some (n ∷ ns, length bs))
      (some_inj e')
      (ap (λ o. o >>= λ r. some (from_le_bytes (to_le_bytes n) ∷ r.0, 8 + r.1))
          (take_numbers-put_numbers ns tail rest e)
        ∙ ap (λ m. some (m ∷ ns, 8 + length tail))
            (from_le_bytes-to_le_bytes n (ltb→lt n u64_mod small))
        ∙ ap (λ k. some (n ∷ ns, k)) (omega arith))

take_superblock-put_superblock :
    (sb : Superblock) (bytes rest : List ℕ)
    → put_superblock sb ≡ some bytes
    → take_superblock (bytes ++ rest) ≡ some (sb, length bytes)
unfolding put_superblock take_superblock superblock_from superblock_numbers
take_superblock-put_superblock sb bytes rest h =
    let (four, h') = if_some (length sb.magic == 4) h in
    let ns = superblock_numbers sb in
    let front : length sb.magic ≡ 4 = ground (arith, four) in
    let all : length (sb.magic ++ ns) ≡ 12 = omega (arith, length-append sb.magic ns) in
    let read : take_numbers 12 (bytes ++ rest) ≡ some (sb.magic ++ ns, length bytes) =
      subst (λ k. take_numbers k (bytes ++ rest) ≡ some (sb.magic ++ ns, length bytes)) all
        (take_numbers-put_numbers (sb.magic ++ ns) bytes rest h') in
    ap (λ o. o >>= λ r. some (superblock_from (take 4 r.0) (drop 4 r.0), r.1)) read
    ∙ ap (λ m. some (superblock_from m (drop 4 (sb.magic ++ ns)), length bytes))
        (take-append_exact 4 sb.magic ns front)
    ∙ ap (λ m. some (superblock_from sb.magic m, length bytes))
        (drop-append_exact 4 sb.magic ns front)

take_node-put_node :
    (node : DiskNode) (bytes : List ℕ)
    → put_node node ≡ some bytes
    → take_node bytes ≡ some (node, length bytes)
unfolding put_node take_node
take_node-put_node (DiskNode.leaf []) bytes h =
    subst (λ bs. take_node bs ≡ some (DiskNode.leaf [], length bs)) (some_inj h) refl
take_node-put_node (DiskNode.leaf (e ∷ entries)) bytes h = cc
take_node-put_node (DiskNode.internal [] (child ∷ []) []) bytes h =
    let (tail, e, h') = bind_some (put_numbers (child ∷ [])) h in
    subst (λ bs. take_node bs ≡ some (DiskNode.internal [] (child ∷ []) [], length bs))
      (some_inj h')
      (ap (λ o. o >>= λ r. some (DiskNode.internal [] (number_at r.0 0 ∷ []) [], suc r.1))
        (subst (λ bs. take_numbers 1 bs ≡ some (child ∷ [], length tail)) (append-nil tail)
          (take_numbers-put_numbers (child ∷ []) tail [] e)))
take_node-put_node (DiskNode.internal [] [] buffer) bytes h = cc
take_node-put_node (DiskNode.internal [] (child ∷ []) (x ∷ buffer)) bytes h = cc
take_node-put_node (DiskNode.internal [] (child ∷ next ∷ children) buffer) bytes h = cc
take_node-put_node (DiskNode.internal (pivot ∷ pivots) children buffer) bytes h = cc

pub numbers-IsCodec : IsCodec numbers
numbers-IsCodec = record {
  crc_lt = λ bytes. omega arith;
  superblock_round = take_superblock-put_superblock;
  node_round = take_node-put_node;
}
