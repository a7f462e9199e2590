-- ===== src/Str.antt =====
-- util/string.c over a flat memory of bytes. A pointer is an address, and 0 is NULL.
pub mod Memory
pub mod Strings
use cabbage_pke.Common.{
  ℕ, zero, suc, ◌+◌, ◌-◌, ◌*◌, ◌%◌, ◌^◌, Bool, true, false, ◌&&◌, ◌||◌, not, Run, ok, out_of_fuel,
  ◌>>=◌, ltb, leb, ◌==◌, if◌then◌else◌,
}
use cabbage_pke.Common.Int.{ℤ, pos, sub_ℕ}

abbrev pub Mem : Type 0
Mem = ℕ → ℕ

abbrev pub write : Mem → ℕ → ℕ → Mem
write m a v q = if a == q then v else m q

abbrev pub in_range : ℕ → ℕ → ℕ → Bool
in_range d n q = leb d q && ltb q (d + n)

-- `*(uintptr_t *)d = *(const uintptr_t *)s`: eight bytes at once.
unfoldable pub copy_word : Mem → ℕ → ℕ → Mem
copy_word m d s q = if in_range d 8 q then m (s + (q - d)) else m q

pub record Cursor : Type 0 where
  pub mem : Mem
  pub dst : ℕ
  pub src : ℕ

-- The two loops of `memcpy`; `end` is `dest + len`.
unfoldable pub copy_words : ℕ → ℕ → Cursor → Cursor
copy_words zero end c = c
copy_words (suc k) end c = elim (ltb (c.dst + 7) end) [
  | false ↦ c
  | true ↦
      copy_words k end
        (record { mem = copy_word c.mem c.dst c.src; dst = c.dst + 8; src = c.src + 8 })
]

unfoldable pub copy_bytes : ℕ → ℕ → Cursor → Cursor
copy_bytes zero end c = c
copy_bytes (suc k) end c = elim (ltb c.dst end) [
  | false ↦ c
  | true ↦
      copy_bytes k end
        (record { mem = write c.mem c.dst (c.mem c.src); dst = c.dst + 1; src = c.src + 1 })
]

-- `((a | b) & (sizeof(uintptr_t) - 1)) == 0`: the low three bits of both are clear.
abbrev pub both_aligned : ℕ → ℕ → Bool
both_aligned a b = (a % 8 == 0) && (b % 8 == 0)

unfoldable pub memcpy : Mem → ℕ → ℕ → ℕ → Mem
memcpy m dest src len =
    let start : Cursor = record { mem = m; dst = dest; src = src } in
    let words = copy_words len (dest + len) start in
    (copy_bytes len (dest + len) (if both_aligned dest src then words else start)).mem

-- `*d++ = word`, where `word` holds the low byte of `byte` eight times.
unfoldable pub set_words : ℕ → ℕ → ℕ → Mem → ℕ → Mem
set_words zero byte end m d = m
set_words (suc k) byte end m d = elim (ltb d end) [
  | false ↦ m
  | true ↦ set_words k byte end (λ q. if in_range d 8 q then byte % 256 else m q) (d + 8)
]

unfoldable pub set_bytes : ℕ → ℕ → ℕ → Mem → ℕ → Mem
set_bytes zero byte end m d = m
set_bytes (suc k) byte end m d = elim (ltb d end) [
  | false ↦ m
  | true ↦ set_bytes k byte end (write m d (byte % 256)) (d + 1)
]

unfoldable pub memset : Mem → ℕ → ℕ → ℕ → Mem
memset m dest byte len =
    if both_aligned dest len
    then set_words len byte (dest + len) m dest
    else set_bytes len byte (dest + len) m dest

-- The two loops of `memmove`: down from the ends, and up from the starts.
unfoldable pub move_down : ℕ → Mem → ℕ → ℕ → Mem
move_down zero m d s = m
move_down (suc n) m d s = move_down n (write m (d + n) (m (s + n))) d s

unfoldable pub move_up : ℕ → Mem → ℕ → ℕ → Mem
move_up zero m d s = m
move_up (suc n) m d s = move_up n (write m d (m s)) (d + 1) (s + 1)

unfoldable pub memmove : Mem → ℕ → ℕ → ℕ → Mem
memmove m dst src n =
    if ltb src dst && ltb dst (src + n) then move_down n m dst src else move_up n m dst src

-- The string loops run on fuel: a string in memory ends only where it holds a 0.
unfoldable pub strlen : ℕ → Mem → ℕ → Run ℕ
strlen zero m s = out_of_fuel
strlen (suc k) m s =
    let rest = strlen k m (suc s) in if m s == 0 then ok 0 else do n ← rest; ok (suc n)

unfoldable pub strcmp : ℕ → Mem → ℕ → ℕ → Run ℤ
strcmp zero m a b = out_of_fuel
strcmp (suc k) m a b =
    let rest = strcmp k m (suc a) (suc b) in
    if not (m a == 0) && (m a == m b) then rest else ok (sub_ℕ (m a) (m b))

unfoldable pub strncmp : ℕ → Mem → ℕ → ℕ → ℤ
strncmp zero m a b = pos 0
strncmp (suc n) m a b =
    let rest = strncmp n m (suc a) (suc b) in
    if (m a == 0) || not (m a == m b) then sub_ℕ (m a) (m b) else rest

unfoldable pub strcpy : ℕ → Mem → ℕ → ℕ → Run Mem
strcpy zero m d s = out_of_fuel
strcpy (suc k) m d s =
    let m' = write m d (m s) in
    let rest = strcpy k m' (suc d) (suc s) in if m s == 0 then ok m' else rest

unfoldable pub strchr : ℕ → Mem → ℕ → ℕ → Run ℕ
strchr zero m p ch = out_of_fuel
strchr (suc k) m p ch =
    let rest = strchr k m (suc p) ch in
    if m p == ch % 256 then ok p else if m p == 0 then ok 0 else rest

unfoldable pub strcat : ℕ → Mem → ℕ → ℕ → Run Mem
strcat fuel m dst src = do n ← strlen fuel m dst; strcpy fuel m (dst + n) src

-- `*p != 0 && (strchr(delim, *p) != NULL) == member`: the tests of the two loops of `strtok`.
unfoldable pub goes_on : ℕ → Mem → ℕ → ℕ → Bool → Run Bool
goes_on fuel m delim p member =
    if m p == 0
    then ok false
    else do at ← strchr fuel m delim (m p); ok (if at == 0 then not member else member)

unfoldable pub skip : ℕ → ℕ → Mem → ℕ → ℕ → Bool → Run ℕ
skip zero fuel m delim p member = out_of_fuel
skip (suc k) fuel m delim p member =
    let rest = skip k fuel m delim (suc p) member in
    do more ← goes_on fuel m delim p member; if more then rest else ok p

-- `str` is NULL for the next token; the result is the token, the memory and the static `current`.
unfoldable pub strtok : ℕ → Mem → ℕ → ℕ → ℕ → Run (ℕ × Mem × ℕ)
strtok fuel m current str delim =
    let from = if str == 0 then current else str in
    if from == 0 then ok (0, m, from) else do
      start ← skip fuel fuel m delim from true
      if m start == 0 then ok (0, m, 0) else do
        end ← skip fuel fuel m delim start false
        if m end == 0 then ok (start, m, 0) else ok (start, write m end 0, end + 1)

-- `long` arithmetic, kept modulo 2 ^ 64; a byte below `'0'` wraps as the subtraction does.
unfoldable pub atol_digits : ℕ → Mem → ℕ → ℕ → Run ℕ
atol_digits zero m s res = out_of_fuel
atol_digits (suc k) m s res =
    let rest = atol_digits k m (suc s) ((res * 10 + m s + 2 ^ 64 - b'0') % 2 ^ 64) in
    if m s == 0 then ok res else rest

unfoldable pub skip_spaces : ℕ → Mem → ℕ → Run ℕ
skip_spaces zero m s = out_of_fuel
skip_spaces (suc k) m s = let rest = skip_spaces k m (suc s) in if m s == b' ' then rest else ok s

unfoldable pub atol : ℕ → Mem → ℕ → Run ℕ
atol fuel m str = do
  s ← skip_spaces fuel m str
  let minus = m s == b'-'
  let signed = minus || (m s == b'+')
  res ← atol_digits fuel m (if signed then suc s else s) 0
  ok (if minus then (2 ^ 64 - res) % 2 ^ 64 else res)

-- The loop of `safestrcpy`; `n` bytes of room are left before the final 0.
unfoldable pub copy_at_most : ℕ → Mem → ℕ → ℕ → Mem
copy_at_most zero m s t = write m s 0
copy_at_most (suc n) m s t =
    let m' = write m s (m t) in
    let rest = copy_at_most n m' (suc s) (suc t) in if m t == 0 then write m' (suc s) 0 else rest

unfoldable pub safestrcpy : Mem → ℕ → ℕ → ℕ → Mem
safestrcpy m s t n = if n == 0 then m else copy_at_most (n - 1) m s t
