-- ===== src/Str/Memory.antt =====
-- `memcpy`, `memset` and `memmove` of util/string.c against one description each.
use cabbage_pke.Common.{
  ℕ, zero, suc, ◌+◌, ◌-◌, ◌%◌, ◌≤◌, ◌<◌, ◌≡◌, ◌⊎◌, inl, inr, ◌&&◌, arith, ltb, ◌==◌, if◌then◌else◌,
  Bool-cases, ltb→lt,
}
use cabbage_pke.Str.{
  Mem, write, in_range, copy_word, Cursor, copy_words, copy_bytes, both_aligned, memcpy, set_words,
  set_bytes, memset, move_down, move_up, memmove,
}

-- `n` bytes at `d` read as the `n` bytes that stood at `s`; the rest of the memory is as before.
abbrev pub copied : Mem → ℕ → ℕ → ℕ → Mem
copied m d s n q = if in_range d n q then m (s + (q - d)) else m q

abbrev pub filled : Mem → ℕ → ℕ → ℕ → Mem
filled m d n v q = if in_range d n q then v else m q

move_down-copied : (n : ℕ) (m : Mem) (d s q : ℕ) → s < d → move_down n m d s q ≡ copied m d s n q
unfolding move_down
move_down-copied zero m d s q h = ground arith
move_down-copied (suc n) m d s q h =
    let ih = move_down-copied n (write m (d + n) (m (s + n))) d s q h in
    elim (Bool-cases (q == d + n)) [
      | inl e ↦
          let same : q ≡ d + n = ground arith in
          let back : s + (q - d) ≡ s + n = omega arith in rw (ih, back) (ground arith)
      | inr e ↦ rw ih (ground arith)
    ]

move_up-copied :
    (n : ℕ) (m : Mem) (d s q : ℕ) → (d ≤ s) ⊎ (s + n ≤ d) → move_up n m d s q ≡ copied m d s n q
unfolding move_up
move_up-copied zero m d s q h = ground arith
move_up-copied (suc n) m d s q h =
    let ih = move_up-copied n (write m d (m s)) (d + 1) (s + 1) q (omega arith) in
    elim (Bool-cases (q == d)) [
      | inl e ↦
          let same : q ≡ d = ground arith in
          let front : s + (q - d) ≡ s = omega arith in rw (ih, front) (ground arith)
      | inr e ↦ elim (Bool-cases (in_range (d + 1) n q)) [
        | inl inside ↦
            let next : s + 1 + (q - (d + 1)) ≡ s + (q - d) = ground arith in
            rw (ih, next) (ground arith)
        | inr outside ↦ rw ih (ground arith)
      ]
    ]

-- `memmove` copies the old bytes whatever the overlap of the two regions.
pub memmove-copied : (m : Mem) (dst src n q : ℕ) → memmove m dst src n q ≡ copied m dst src n q
unfolding memmove
memmove-copied m dst src n q = elim (Bool-cases (ltb src dst && ltb dst (src + n))) [
  | inl e ↦ rw e (move_down-copied n m dst src q (ground arith))
  | inr e ↦ rw e (move_up-copied n m dst src q (ground arith))
]

module _ (m : Mem) (dest src len : ℕ) (apart : (dest + len ≤ src) ⊎ (src + len ≤ dest)) where
  -- `memcpy` after `j` bytes.
  record Progress (j : ℕ) (c : Cursor) : Type 0 where
    within : j ≤ len
    dst : c.dst ≡ dest + j
    src_at : c.src ≡ src + j
    mem : (q : ℕ) → c.mem q ≡ copied m dest src j q

  copy_word-Progress :
      (j : ℕ) (c : Cursor)
      → Progress j c
      → c.dst + 7 < dest + len
      → Progress
          (j + 8)
          (record { mem = copy_word c.mem c.dst c.src; dst = c.dst + 8; src = c.src + 8 })
  unfolding copy_word
  copy_word-Progress j c p h = record {
    within = omega (arith, p.dst);
    dst = omega (arith, p.dst);
    src_at = omega (arith, p.src_at);
    mem = λ q. elim (Bool-cases (in_range c.dst 8 q)) [
      | inl e ↦
          let from : c.src + (q - c.dst) ≡ src + (q - dest) = ground (arith, p.dst, p.src_at) in
          rw (e, from) (ground (arith, p.dst, p.mem (src + (q - dest))))
      | inr e ↦ rw e (ground (arith, p.dst, p.mem q))
    ];
  }

  copy_words-Progress :
      (k j : ℕ) (c : Cursor) → Progress j c → (j' : ℕ) × Progress j' (copy_words k (dest + len) c)
  unfolding copy_words
  copy_words-Progress zero j c p = (j, p)
  copy_words-Progress (suc k) j c p = elim (Bool-cases (ltb (c.dst + 7) (dest + len))) [
    | inr e ↦ (j, rw (e, copy_words) p)
    | inl e ↦
        let (j', p') =
          copy_words-Progress k (j + 8) _
            (copy_word-Progress j c p (ltb→lt (c.dst + 7) (dest + len) e)) in
        (j', rw (e, copy_words) p')
  ]

  copy_byte-Progress :
      (j : ℕ) (c : Cursor)
      → Progress j c
      → c.dst < dest + len
      → Progress
          (j + 1)
          (record { mem = write c.mem c.dst (c.mem c.src); dst = c.dst + 1; src = c.src + 1 })
  copy_byte-Progress j c p h = record {
    within = omega (arith, p.dst);
    dst = omega (arith, p.dst);
    src_at = omega (arith, p.src_at);
    mem = λ q. elim (Bool-cases (c.dst == q)) [
      | inl e ↦
          let from : c.src ≡ src + (q - dest) = ground (arith, p.dst, p.src_at) in
          rw (e, from) (ground (arith, p.dst, p.mem (src + (q - dest))))
      | inr e ↦ rw e (ground (arith, p.dst, p.mem q))
    ];
  }

  copy_bytes-copied :
      (k j : ℕ) (c : Cursor) (q : ℕ)
      → Progress j c
      → len ≤ j + k
      → (copy_bytes k (dest + len) c).mem q ≡ copied m dest src len q
  unfolding copy_bytes
  copy_bytes-copied zero j c q p h = ground (arith, p.mem q, p.within)
  copy_bytes-copied (suc k) j c q p h = elim (Bool-cases (ltb c.dst (dest + len))) [
    | inr e ↦ rw (e, copy_bytes) (ground (arith, p.mem q, p.dst, p.within))
    | inl e ↦
        rw (e, copy_bytes)
          (copy_bytes-copied k (j + 1) _ q (copy_byte-Progress j c p (ltb→lt c.dst (dest + len) e))
            (omega arith))
  ]

  -- Whether it goes by words or by bytes, `memcpy` of regions that do not overlap copies the region.
  pub memcpy-copied : (q : ℕ) → memcpy m dest src len q ≡ copied m dest src len q
  unfolding memcpy
  memcpy-copied q = elim (Bool-cases (both_aligned dest src)) [
    | inl e ↦
        let (j, p) = copy_words-Progress len 0 start start-Progress in
        rw (e, memcpy) (copy_bytes-copied len j _ q p (omega arith))
    | inr e ↦ rw (e, memcpy) (copy_bytes-copied len 0 start q start-Progress (omega arith))
  ]
    where
      start : Cursor
      start = record { mem = m; dst = dest; src = src }

      start-Progress : Progress 0 start
      start-Progress = record {
        within = omega arith;
        dst = omega arith;
        src_at = omega arith;
        mem = λ q. ground arith;
      }

set_words-filled :
    (k byte end : ℕ) (m : Mem) (d q : ℕ)
    → (end - d) % 8 ≡ 0
    → d ≤ end
    → end ≤ d + k
    → set_words k byte end m d q ≡ filled m d (end - d) (byte % 256) q
unfolding set_words
set_words-filled zero byte end m d q h le fuel = ground arith
set_words-filled (suc k) byte end m d q h le fuel = elim (Bool-cases (ltb d end)) [
  | inr e ↦ rw (e, set_words) (ground arith)
  | inl e ↦
      let lt : d < end = ltb→lt d end e in
      rw
        (
          e,
          set_words,
          set_words-filled k byte end (λ q. if in_range d 8 q then byte % 256 else m q) (d + 8) q
              (omega arith) (omega arith) (omega arith),
        )
        (ground arith)
]

set_bytes-filled :
    (k byte end : ℕ) (m : Mem) (d q : ℕ)
    → d ≤ end
    → end ≤ d + k
    → set_bytes k byte end m d q ≡ filled m d (end - d) (byte % 256) q
unfolding set_bytes
set_bytes-filled zero byte end m d q le fuel = ground arith
set_bytes-filled (suc k) byte end m d q le fuel = elim (Bool-cases (ltb d end)) [
  | inr e ↦ rw (e, set_bytes) (ground arith)
  | inl e ↦
      let lt : d < end = ltb→lt d end e in
      rw
        (
          e,
          set_bytes,
          set_bytes-filled k byte end (write m d (byte % 256)) (d + 1) q (omega arith)
              (omega arith),
        )
        (ground arith)
]

-- `memset` fills exactly the region, by words or by bytes.
pub memset-filled :
    (m : Mem) (dest byte len q : ℕ) → memset m dest byte len q ≡ filled m dest len (byte % 256) q
unfolding memset
memset-filled m dest byte len q = elim (Bool-cases (both_aligned dest len)) [
  | inl e ↦
      let whole : len % 8 ≡ 0 = ground arith in
      rw
        (
          e,
          set_words-filled len byte (dest + len) m dest q (omega arith) (omega arith) (omega arith),
        )
        (ground arith)
  | inr e ↦
      rw (e, set_bytes-filled len byte (dest + len) m dest q (omega arith) (omega arith))
        (ground arith)
]
