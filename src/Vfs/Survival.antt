-- ===== src/Vfs/Survival.antt =====
-- src/vfs.rs: the bytes that a crash cannot reach.
use beetree.Prelude.{
  get_elem?-take, get_elem?-drop, get_elem?-append_right, ℕ, zero, suc, ◌+◌, ◌-◌, ◌%◌, ◌≤◌, ◌<◌,
  ◌≡◌, ◌⊎◌, inl, inr, refl, sym, ap, ◌∙◌, Bool, true, false, Option, none, some, List, [], ◌∷◌,
  ◌++◌, length, get_elem?, take, replicate, AllOf, length-append, length-take, length-drop,
  length-replicate, get_elem?-append_left, ltb, lt→ltb, ltb→lt, Bool-cases, ◌>>=◌, arith,
  if◌then◌else◌,
}
use beetree.Prelude
use beetree.Bytes.{u64_mod}
use beetree.Vfs.{Fate, LogEntry, FaultyState}
use beetree.Vfs.Faulty.{
  apply_window, apply_from, apply_entry, fate_at, crash_image_at, write_at, resize,
}
use beetree.Vfs.Crash.{Reachable, crash_image_at-durable}

-- `img` keeps the byte at `i` of `buf`.
abbrev pub Keeps : ℕ → List ℕ → List ℕ → Type 0
Keeps i buf img = (i < length img) × (get_elem? img i ≡ get_elem? buf i)

Keeps-resize : (i len : ℕ) (buf : List ℕ) → i < len → i < length buf → Keeps i buf (resize len buf)
Keeps-resize i len buf h h' =
    let longer : i < length (take len buf) = omega (arith, length-take len buf) in
    (
      omega (
        arith,
        length-append (take len buf) (replicate (len - length buf) 0),
        length-take len buf,
        length-replicate {A = ℕ} (len - length buf) 0,
      ),
      get_elem?-append_left (take len buf) (replicate (len - length buf) 0) i longer
          ∙ get_elem?-take len i buf h,
    )

-- A splice that ends before the end of the list.
Keeps-splice :
    (i off : ℕ) (bytes buf : List ℕ)
    → (i < off) ⊎ (off + length bytes ≤ i)
    → i < length buf
    → off + length bytes ≤ length buf
    → Keeps i buf (take off buf ++ bytes ++ Prelude.drop (off + length bytes) buf)
Keeps-splice i off bytes buf apart h h' =
    let tail = Prelude.drop (off + length bytes) buf in
    let front = take off buf ++ bytes in
    let at : length front ≡ off + length bytes =
      omega (arith, length-append (take off buf) bytes, length-take off buf) in
    let long : i < length (front ++ tail) =
      omega (arith, length-append front tail, length-drop (off + length bytes) buf) in
    elim apart [
      | inl h ↦ (
        long,
        get_elem?-append_left front tail i (omega arith)
            ∙ get_elem?-append_left (take off buf) bytes i (omega (arith, length-take off buf))
            ∙ get_elem?-take off i buf h,
      )
      | inr h ↦
          let j = i - (off + length bytes) in
          (
            long,
            get_elem?-append_right front tail j i (omega arith)
                ∙ get_elem?-drop (off + length bytes) j i buf (omega arith),
          )
    ]

pub length-resize : (len : ℕ) (buf : List ℕ) → length (resize len buf) ≡ len
length-resize len buf = omega (
  arith,
  length-append (take len buf) (replicate (len - length buf) 0),
  length-take len buf,
  length-replicate {A = ℕ} (len - length buf) 0,
)

Keeps-trans : (i : ℕ) (a b c : List ℕ) → Keeps i a b → Keeps i b c → Keeps i a c
Keeps-trans i a b c h h' = (h'.0, h'.1 ∙ h.1)

-- `o` is a result, and it keeps the byte.
abbrev pub Survives : ℕ → List ℕ → Option (List ℕ) → Type 0
Survives i buf o = (img : List ℕ) × (o ≡ some img) × Keeps i buf img

Survives-write_at :
    (i off : ℕ) (bytes buf : List ℕ)
    → off + length bytes < u64_mod
    → (i < off) ⊎ (off + length bytes ≤ i)
    → i < length buf
    → Survives i buf (write_at off bytes buf)
unfolding write_at
Survives-write_at i off bytes buf fits apart h =
    let end = off + length bytes in
    let splice : List ℕ → List ℕ = λ grown. take off grown ++ bytes ++ Prelude.drop end grown in
    elim (Bool-cases (ltb (length buf) end)) [
      | inl e ↦
          let longer = ltb→lt (length buf) end e in
          let grown = Keeps-resize i end buf (omega arith) h in
          (
            splice (resize end buf),
            ap
                  (λ b.
                    if b
                    then some (splice (if ltb (length buf) end then resize end buf else buf))
                    else none)
                  (lt→ltb end u64_mod fits)
                ∙ ap (λ b. some (splice (if b then resize end buf else buf))) e,
            Keeps-trans i buf (resize end buf) _ grown (
                Keeps-splice i off bytes (resize end buf) apart grown.0
                  (omega (arith, length-resize end buf))),
          )
      | inr e ↦ (
        splice buf,
        ap
              (λ b.
                if b
                then some (splice (if ltb (length buf) end then resize end buf else buf))
                else none)
              (lt→ltb end u64_mod fits)
            ∙ ap (λ b. some (splice (if b then resize end buf else buf))) e,
        Keeps-splice i off bytes buf apart h (ground (arith, e)),
      )
    ]

-- Where an operation leaves the byte at `i` alone. A write fits in the address space.
abbrev pub Spares : ℕ → LogEntry → Type 0
Spares i (LogEntry.write off bytes) =
    (off + length bytes < u64_mod) × ((i < off) ⊎ (off + length bytes ≤ i))
Spares i (LogEntry.set_len len) = i < len
Spares i LogEntry.sync_ok = ⊥
Spares i (LogEntry.sync_failed fates) = ⊥

shorter : (i off : ℕ) {m n : ℕ} → n ≤ m → (i < off) ⊎ (off + m ≤ i) → (i < off) ⊎ (off + n ≤ i)
shorter i off h (inl e) = inl e
shorter i off h (inr e) = inr (omega arith)

Survives-apply_entry :
    (i : ℕ) (e : LogEntry) (fate : Fate) (buf : List ℕ)
    → Spares i e
    → i < length buf
    → Survives i buf (apply_entry e fate buf)
unfolding apply_entry
Survives-apply_entry i (LogEntry.write off bytes) Fate.drop buf h h' = (buf, refl, (h', refl))
Survives-apply_entry i (LogEntry.write off bytes) Fate.apply buf h h' =
    Survives-write_at i off bytes buf h.0 h.1 h'
Survives-apply_entry i (LogEntry.write off bytes) Fate.zero buf h h' =
    let same = length-replicate {A = ℕ} (length bytes) 0 in
    Survives-write_at i off (replicate (length bytes) 0) buf (omega (arith, h.0))
      (shorter i off (omega arith) h.1) h'
Survives-apply_entry i (LogEntry.write off bytes) (Fate.tear seed) buf h h' =
    let keep = seed % (length bytes + 1) in
    let prefix = length-take keep bytes in
    Survives-write_at i off (take keep bytes) buf (omega (arith, h.0))
      (shorter i off (omega arith) h.1) h'
Survives-apply_entry i (LogEntry.set_len len) Fate.drop buf h h' = (buf, refl, (h', refl))
Survives-apply_entry i (LogEntry.set_len len) Fate.apply buf h h' =
    (resize len buf, refl, Keeps-resize i len buf h h')
Survives-apply_entry i (LogEntry.set_len len) Fate.zero buf h h' =
    (resize len buf, refl, Keeps-resize i len buf h h')
Survives-apply_entry i (LogEntry.set_len len) (Fate.tear seed) buf h h' =
    (resize len buf, refl, Keeps-resize i len buf h h')
Survives-apply_entry i LogEntry.sync_ok fate buf h h' = absurd h
Survives-apply_entry i (LogEntry.sync_failed fates) fate buf h h' = absurd h

Survives-apply_from :
    (i n : ℕ) (window : List LogEntry) (fates : List Fate) (buf : List ℕ)
    → AllOf (Spares i) window
    → i < length buf
    → Survives i buf (apply_from n window fates false buf)
unfolding apply_from
Survives-apply_from i n [] fates buf h h' = (buf, refl, (h', refl))
Survives-apply_from i n (e ∷ window) fates buf h h' =
    let (mid, e1, k1) = Survives-apply_entry i e (fate_at fates false n) buf h.0 h' in
    let (img, e2, k2) = Survives-apply_from i (suc n) window fates mid h.1 k1.0 in
    (
      img,
      ap (λ o. o >>= λ r. apply_from (suc n) window fates false r) e1 ∙ e2,
      Keeps-trans i buf mid img k1 k2,
    )

-- On a device that requests have led to from an image, a durable byte that no pending operation
-- touches (no write covers it, no change of length cuts it off, and each write ends below 2 ^ 64)
-- is in the file that a crash after the whole log leaves, whatever the fates, and there is such a
-- file.
pub crash_image_at-survives :
    {image : List ℕ} {s : FaultyState}
    → Reachable image s
    → (i : ℕ) (fates : List Fate) → i < length s.durable
    → AllOf (Spares i) (Prelude.drop s.window_start s.log)
    → (img : List ℕ) × (crash_image_at (length s.log) fates s ≡ some img)
      × (get_elem? img i ≡ get_elem? s.durable i)
unfolding apply_window
crash_image_at-survives {s = s} r i fates h spared =
    let (img, e, k) =
      Survives-apply_from i 0 (Prelude.drop s.window_start s.log) fates s.durable spared h in
    (img, crash_image_at-durable r fates ∙ e, k.1)
