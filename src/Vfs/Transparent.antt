-- ===== src/Vfs/Transparent.antt =====
-- src/vfs.rs: `CountingVfs` answers as the file system that it wraps, and its counters are the sums
-- over the requests.
use beetree.Prelude.{
  ℕ, ◌+◌, ◌%◌, ◌≡◌, refl, ap, ◌∙◌, Option, none, some, List, [], ◌∷◌, length, ◌>>=◌, arith,
}
use beetree.Bytes.{u64_mod, wrapping_add}
use beetree.Vfs.{IoResult}
use beetree.Vfs.Counting.{
  Vfs, IoStats, CountingVfs, no_stats, counting, wrap, counted_read, counted_write, counted_sync,
  counted_len, counted_set_len,
}

pub data Request : Type 0 where
  read_request : (off count : ℕ) → Request
  write_request : (off : ℕ) (bytes : List ℕ) → Request
  sync_request : Request
  len_request : Request
  set_len_request : (len : ℕ) → Request

pub data Answer : Type 0 where
  bytes_answer : IoResult (List ℕ) → Answer
  unit_answer : IoResult Unit → Answer
  len_answer : IoResult ℕ → Answer

module _ {S : Type 0} where
  abbrev pub bytes_of : Option (IoResult (List ℕ) × S) → Option (Answer × S)
  bytes_of o = do (r, s) ← o; some (bytes_answer r, s)

  abbrev pub unit_of : Option (IoResult Unit × S) → Option (Answer × S)
  unit_of o = do (r, s) ← o; some (unit_answer r, s)

  abbrev pub prepend : Answer → Option (List Answer × S) → Option (List Answer × S)
  prepend a o = do (answers, s) ← o; some (a ∷ answers, s)

module _ {D : Type 0} where
  abbrev pub serve : Vfs D → Request → D → Option (Answer × D)
  serve vfs (read_request off count) d = do
    r ← vfs.read_exact_at off count d
    some (bytes_answer r, d)
  serve vfs (write_request off bytes) d = unit_of (vfs.write_all_at off bytes d)
  serve vfs sync_request d = unit_of (vfs.sync d)
  serve vfs len_request d = some (len_answer (vfs.len d), d)
  serve vfs (set_len_request n) d = unit_of (vfs.set_len n d)

  unfoldable pub serve_counted : Vfs D → Request → CountingVfs D → Option (Answer × CountingVfs D)
  serve_counted vfs (read_request off count) s = bytes_of (counted_read vfs off count s)
  serve_counted vfs (write_request off bytes) s = unit_of (counted_write vfs off bytes s)
  serve_counted vfs sync_request s = unit_of (counted_sync vfs s)
  serve_counted vfs len_request s = some (len_answer (counted_len vfs s), s)
  serve_counted vfs (set_len_request n) s = unit_of (counted_set_len vfs n s)

-- The answers to requests in turn.
unfoldable pub run_with :
    {D : Type 0} → (Request → D → Option (Answer × D)) → List Request → D → Option (List Answer × D)
run_with step [] d = some ([], d)
run_with step (q ∷ qs) d = do (a, d') ← step q d; prepend a (run_with step qs d')

abbrev pub plus : IoStats → IoStats → IoStats
plus a b = record {
  read_ops = a.read_ops + b.read_ops;
  read_bytes = a.read_bytes + b.read_bytes;
  write_ops = a.write_ops + b.write_ops;
  write_bytes = a.write_bytes + b.write_bytes;
  syncs = a.syncs + b.syncs;
  set_lens = a.set_lens + b.set_lens;
}

-- What a request adds to the counters; `len` is not counted.
abbrev pub cost : Request → IoStats
cost (read_request off count) = record no_stats { read_ops = 1; read_bytes = count }
cost (write_request off bytes) = record no_stats { write_ops = 1; write_bytes = length bytes }
cost sync_request = record no_stats { syncs = 1 }
cost len_request = no_stats
cost (set_len_request n) = record no_stats { set_lens = 1 }

unfoldable pub total : List Request → IoStats
total [] = no_stats
total (q ∷ qs) = plus (cost q) (total qs)

-- Counters of 64 bits.
abbrev pub reduce : IoStats → IoStats
reduce a = record {
  read_ops = a.read_ops % u64_mod;
  read_bytes = a.read_bytes % u64_mod;
  write_ops = a.write_ops % u64_mod;
  write_bytes = a.write_bytes % u64_mod;
  syncs = a.syncs % u64_mod;
  set_lens = a.set_lens % u64_mod;
}

IoStats-ext :
    {a b : IoStats}
    → a.read_ops ≡ b.read_ops
    → a.read_bytes ≡ b.read_bytes
    → a.write_ops ≡ b.write_ops
    → a.write_bytes ≡ b.write_bytes
    → a.syncs ≡ b.syncs
    → a.set_lens ≡ b.set_lens
    → a ≡ b
IoStats-ext e1 e2 e3 e4 e5 e6 = λ i. record {
  read_ops = e1 i;
  read_bytes = e2 i;
  write_ops = e3 i;
  write_bytes = e4 i;
  syncs = e5 i;
  set_lens = e6 i;
}

kept : (a : ℕ) → a % u64_mod ≡ (a + 0) % u64_mod
kept a = omega arith

added : (a n : ℕ) → wrapping_add (a % u64_mod) n ≡ (a + n) % u64_mod
unfolding wrapping_add
added a n = omega arith

module _ {D : Type 0} where
  abbrev pub counted_at : IoStats → D → CountingVfs D
  counted_at stats d = record { inner = d; stats = reduce stats }

  -- An answer, with the device wrapped in counters that stand for the sums.
  abbrev pub settle : {X : Type 0} → IoStats → Option (X × D) → Option (X × CountingVfs D)
  settle sum o = do (x, d) ← o; some (x, counted_at sum d)

  wrap_lem :
      (answer : Option (IoResult Unit × D)) {stats : IoStats} (sum : IoStats)
      → stats ≡ reduce sum
      → unit_of (wrap stats answer) ≡ settle sum (unit_of answer)
  wrap_lem none sum e = refl
  wrap_lem (some a) sum e = ap (λ st. some (unit_answer a.0, record { inner = a.1; stats = st })) e

  abbrev with_stats :
      IoStats → D → Option (IoResult (List ℕ)) → Option (IoResult (List ℕ) × CountingVfs D)
  with_stats stats d o = do r ← o; some (r, record { inner = d; stats = stats })

  abbrev unchanged : D → Option (IoResult (List ℕ)) → Option (Answer × D)
  unchanged d o = do r ← o; some (bytes_answer r, d)

  read_lem :
      (answer : Option (IoResult (List ℕ))) {stats : IoStats} (sum : IoStats) (d : D)
      → stats ≡ reduce sum
      → bytes_of (with_stats stats d answer) ≡ settle sum (unchanged d answer)
  read_lem none sum d e = refl
  read_lem (some r) sum d e = ap (λ st. some (bytes_answer r, record { inner = d; stats = st })) e

  settle-prepend :
      (sum : IoStats) (a : Answer) (o : Option (List Answer × D))
      → prepend a (settle sum o) ≡ settle sum (prepend a o)
  settle-prepend sum a none = refl
  settle-prepend sum a (some p) = refl

module _ {D : Type 0} (vfs : Vfs D) where
  -- One request, on counters that stand for the sums in `done`.
  serve_counted_lem :
      (q : Request) (done : IoStats) (d : D)
      → serve_counted vfs q (counted_at done d) ≡ settle (plus done (cost q)) (serve vfs q d)
  unfolding serve_counted counted_read counted_write counted_sync counted_len counted_set_len
  serve_counted_lem (read_request off count) done d =
      read_lem (vfs.read_exact_at off count d) (plus done (cost (read_request off count))) d
        (IoStats-ext (added _ 1) (added _ count) (kept _) (kept _) (kept _) (kept _))
  serve_counted_lem (write_request off bytes) done d =
      wrap_lem (vfs.write_all_at off bytes d) (plus done (cost (write_request off bytes)))
        (IoStats-ext (kept _) (kept _) (added _ 1) (added _ (length bytes)) (kept _) (kept _))
  serve_counted_lem sync_request done d =
      wrap_lem (vfs.sync d) (plus done (cost sync_request))
        (IoStats-ext (kept _) (kept _) (kept _) (kept _) (added _ 1) (kept _))
  serve_counted_lem len_request done d =
      ap (λ st. some (len_answer (vfs.len d), record { inner = d; stats = st }))
        (IoStats-ext (kept _) (kept _) (kept _) (kept _) (kept _) (kept _))
  serve_counted_lem (set_len_request n) done d =
      wrap_lem (vfs.set_len n d) (plus done (cost (set_len_request n)))
        (IoStats-ext (kept _) (kept _) (kept _) (kept _) (kept _) (added _ 1))

  -- The other requests, after the answer to the first.
  run_with-next :
      (qs : List Request) (sum rest : IoStats) (o : Option (Answer × D))
      → ((d : D)
          → run_with (serve_counted vfs) qs (counted_at sum d)
            ≡ settle rest (run_with (serve vfs) qs d))
      → (settle sum o >>= λ p. prepend p.0 (run_with (serve_counted vfs) qs p.1))
        ≡ settle rest (o >>= λ p. prepend p.0 (run_with (serve vfs) qs p.1))
  run_with-next qs sum rest none h = refl
  run_with-next qs sum rest (some p) h =
      ap (prepend p.0) (h p.1) ∙ settle-prepend rest p.0 (run_with (serve vfs) qs p.1)

  run_with-counted_from :
      (qs : List Request) (done : IoStats) (d : D)
      → run_with (serve_counted vfs) qs (counted_at done d)
        ≡ settle (plus done (total qs)) (run_with (serve vfs) qs d)
  unfolding run_with total
  run_with-counted_from [] done d =
      ap (λ st. some ([], record { inner = d; stats = st }))
        (IoStats-ext (kept _) (kept _) (kept _) (kept _) (kept _) (kept _))
  run_with-counted_from (q ∷ qs) done d =
      let sum = plus done (cost q) in
      let rest = plus done (plus (cost q) (total qs)) in
      ap (λ o. o >>= λ p. prepend p.0 (run_with (serve_counted vfs) qs p.1))
        (serve_counted_lem q done d)
      ∙ run_with-next qs sum rest (serve vfs q d) (λ d'.
        run_with-counted_from qs sum d'
        ∙ ap (λ t. settle t (run_with (serve vfs) qs d'))
            (IoStats-ext (omega arith) (omega arith) (omega arith) (omega arith) (omega arith)
              (omega arith)))

  -- A counting wrapper gives the answers of the file system it wraps, to any requests and panics
  -- included, leaves that file system in the same state, and its counters are the sums of the
  -- requests' costs, modulo 2 ^ 64.
  pub run_with-counting :
      (qs : List Request) (d : D)
      → run_with (serve_counted vfs) qs (counting d) ≡ settle (total qs) (run_with (serve vfs) qs d)
  unfolding counting
  run_with-counting qs d =
      run_with-counted_from qs no_stats d
      ∙ ap (λ t. settle t (run_with (serve vfs) qs d))
          (IoStats-ext (omega arith) (omega arith) (omega arith) (omega arith) (omega arith)
            (omega arith))
