-- ===== src/Erase/Chunk.antt =====
-- One packed block, read back.
use mathlib.Core.List.{append_assoc}
use native.Mathlib.Nat.{add_assoc}
use mcu_updater.Base.{
  ℕ, ◌+◌, ◌-◌, ◌<◌, ◌≤◌, ◌≡◌, refl, sym, ap, ◌∙◌, ◌++◌, length, take, drop, get_or, replicate,
  take-append, get_or-append_left, get_or-append_right, drop-append, drop-exact, le→ltb, arith,
  length-append, length-replicate,
}
use mcu_updater.Base.Bytes.{Bytes, u32_mod, word, pack32, le32, word-append, word-append-zero}
use mcu_updater.Base.Result.{ok}
use mcu_updater.Uf2.Container.{
  Block, read_block as read_uf2_block, block_size, max_payload, magic_start0, magic_start1,
  magic_end,
}
use mcu_updater.Erase.Defs.{EraseBlock, read_block, chunk, ljust}

pub length-chunk :
    (number count : ℕ) (b : EraseBlock)
    → length b.payload ≤ max_payload
    → length (chunk number count b) ≡ block_size
unfolding chunk pack32
length-chunk number count b h = omega (
  arith,
  length-append {0} (ljust 476 b.payload) (pack32 magic_end),
  length-append {0} b.payload (replicate (476 - length b.payload) 0),
  length-replicate {0} {A = ℕ} (476 - length b.payload) 0,
)

module _ (number count : ℕ) (b : EraseBlock) (rest : Bytes) where
  word-chunk-flags : b.flags < u32_mod → word (chunk number count b ++ rest) 8 ≡ b.flags
  unfolding chunk word pack32 le32
  word-chunk-flags h = omega arith

  word-chunk-target : b.target < u32_mod → word (chunk number count b ++ rest) 12 ≡ b.target
  unfolding chunk word pack32 le32
  word-chunk-target h = omega arith

  word-chunk-size :
      length b.payload < u32_mod → word (chunk number count b ++ rest) 16 ≡ length b.payload
  unfolding chunk word pack32 le32
  word-chunk-size h = omega arith

  word-chunk-family : b.family < u32_mod → word (chunk number count b ++ rest) 28 ≡ b.family
  unfolding chunk word pack32 le32
  word-chunk-family h = omega arith

  pub word-chunk-number : number < u32_mod → word (chunk number count b ++ rest) 20 ≡ number
  unfolding chunk word pack32 le32
  word-chunk-number h = omega arith

  pub word-chunk-count : count < u32_mod → word (chunk number count b ++ rest) 24 ≡ count
  unfolding chunk word pack32 le32
  word-chunk-count h = omega arith

  word-chunk-start0 : word (chunk number count b ++ rest) 0 ≡ magic_start0
  unfolding chunk word pack32 le32
  word-chunk-start0 = refl

  word-chunk-start1 : word (chunk number count b ++ rest) 4 ≡ magic_start1
  unfolding chunk word pack32 le32
  word-chunk-start1 = refl

  length-ljust : length b.payload ≤ max_payload → length (ljust 476 b.payload) ≡ 476
  length-ljust h = omega (
    arith,
    length-append {0} b.payload (replicate (476 - length b.payload) 0),
    length-replicate {0} {A = ℕ} (476 - length b.payload) 0,
  )

  word-chunk-end :
      length b.payload ≤ max_payload → word (chunk number count b ++ rest) 508 ≡ magic_end
  unfolding chunk word pack32 le32
  word-chunk-end h =
      rw (append_assoc (ljust 476 b.payload) (pack32 magic_end) rest)
        (rw (drop-exact (ljust 476 b.payload) (pack32 magic_end ++ rest) 476 (length-ljust h)) refl)

  payload-chunk : take (length b.payload) (drop 32 (chunk number count b ++ rest)) ≡ b.payload
  unfolding chunk pack32
  payload-chunk = rw (append_assoc (ljust 476 b.payload) (pack32 magic_end) rest) (
      rw (append_assoc b.payload (replicate (476 - length b.payload) 0) (pack32 magic_end ++ rest))
        (take-append b.payload _))

-- The words that both readers check and keep.
record HasWords (uf2 : Bytes) (offset : ℕ) (b : EraseBlock) : Type 0 where
  start0 : word uf2 offset ≡ magic_start0
  start1 : word uf2 (offset + 4) ≡ magic_start1
  end : word uf2 (offset + 508) ≡ magic_end
  size : word uf2 (offset + 16) ≡ length b.payload
  flags : word uf2 (offset + 8) ≡ b.flags
  target : word uf2 (offset + 12) ≡ b.target
  family : word uf2 (offset + 28) ≡ b.family

chunk-HasWords :
    (pre rest : Bytes) (number count : ℕ) (b : EraseBlock)
    → b.flags < u32_mod
    → b.target < u32_mod
    → length b.payload ≤ max_payload
    → b.family < u32_mod
    → HasWords (pre ++ (chunk number count b ++ rest)) (length pre) b
chunk-HasWords pre rest number count b hf ht hp hm =
    let bytes = chunk number count b ++ rest in
    record {
      start0 = word-append-zero pre bytes ∙ word-chunk-start0 number count b rest;
      start1 = word-append pre bytes 4 ∙ word-chunk-start1 number count b rest;
      end = word-append pre bytes 508 ∙ word-chunk-end number count b rest hp;
      size = word-append pre bytes 16 ∙ word-chunk-size number count b rest (omega arith);
      flags = word-append pre bytes 8 ∙ word-chunk-flags number count b rest hf;
      target = word-append pre bytes 12 ∙ word-chunk-target number count b rest ht;
      family = word-append pre bytes 28 ∙ word-chunk-family number count b rest hm;
    }

-- Reading a packed block gives it back, wherever in a container it stands.
pub read_block-chunk :
    (pre rest : Bytes) (number count : ℕ) (b : EraseBlock)
    → b.flags < u32_mod
    → b.target < u32_mod
    → length b.payload ≤ max_payload
    → b.family < u32_mod
    → read_block (pre ++ (chunk number count b ++ rest)) (length pre) ≡ ok b
unfolding read_block
read_block-chunk pre rest number count b hf ht hp hm =
    let w = chunk-HasWords pre rest number count b hf ht hp hm in
    let small = le→ltb max_payload (length b.payload) hp in
    let payload =
      ap (take (length b.payload)) (drop-append pre (chunk number count b ++ rest) 32)
      ∙ payload-chunk number count b rest in
    rw (w.start0, w.start1, w.end, w.size, w.flags, w.target, w.family) (rw (small, payload) refl)

-- The block as the reader of uf2.py sees it: by its place.
abbrev pub at_offset : ℕ → EraseBlock → Block
at_offset offset b = record {
  offset = offset;
  flags = b.flags;
  target = b.target;
  payload_size = length b.payload;
}

pub read_uf2_block-chunk :
    (pre rest : Bytes) (number count : ℕ) (b : EraseBlock)
    → b.flags < u32_mod
    → b.target < u32_mod
    → length b.payload ≤ max_payload
    → b.family < u32_mod
    → read_uf2_block (pre ++ (chunk number count b ++ rest)) (length pre)
      ≡ ok (at_offset (length pre) b)
unfolding read_uf2_block
read_uf2_block-chunk pre rest number count b hf ht hp hm =
    let w = chunk-HasWords pre rest number count b hf ht hp hm in
    let small = le→ltb max_payload (length b.payload) hp in
    rw (w.start0, w.start1, w.end, w.size, w.flags, w.target) (rw small refl)

-- The 32 bytes before the payload.
header : ℕ → ℕ → EraseBlock → Bytes
header number count b =
    pack32 magic_start0
    ++ (pack32 magic_start1
        ++ (pack32 b.flags
            ++ (pack32 b.target
                ++ (pack32 (length b.payload)
                    ++ (pack32 number ++ (pack32 count ++ pack32 b.family))))))

behind : EraseBlock → Bytes → Bytes
behind b rest = replicate (476 - length b.payload) 0 ++ (pack32 magic_end ++ rest)

chunk-split :
    (number count : ℕ) (b : EraseBlock) (rest : Bytes)
    → chunk number count b ++ rest ≡ header number count b ++ (b.payload ++ behind b rest)
unfolding chunk pack32 header behind
chunk-split number count b rest = rw (append_assoc (ljust 476 b.payload) (pack32 magic_end) rest) (
    rw (append_assoc b.payload (replicate (476 - length b.payload) 0) (pack32 magic_end ++ rest))
      refl)

length-header : (number count : ℕ) (b : EraseBlock) → length (header number count b) ≡ 32
unfolding header pack32
length-header number count b = refl

-- The bytes of a packed block's payload.
pub get_or-chunk :
    (pre rest : Bytes) (number count : ℕ) (b : EraseBlock) (i : ℕ)
    → i < length b.payload
    → get_or (pre ++ (chunk number count b ++ rest)) (length pre + 32 + i) 0 ≡ get_or b.payload i 0
get_or-chunk pre rest number count b i lt =
    let h = header number count b in
    rw (add_assoc (length pre) 32 i, chunk-split number count b rest)
      (get_or-append_right pre (h ++ (b.payload ++ behind b rest)) (32 + i) 0
        ∙ ap (λ n. get_or (h ++ (b.payload ++ behind b rest)) (n + i) 0)
            (sym (length-header number count b))
        ∙ get_or-append_right h (b.payload ++ behind b rest) i 0
        ∙ get_or-append_left b.payload (behind b rest) i 0 lt)
