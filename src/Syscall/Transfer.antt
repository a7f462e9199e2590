-- ===== src/Syscall/Transfer.antt =====
-- The loops of `sys_user_read` and `sys_user_write` over the pages of the buffer.
use cabbage_pke.Common.{
  ℕ, zero, suc, ◌+◌, ◌%◌, ◌≤◌, ◌<◌, ◌^◌, ◌≡◌, ◌≢◌, inl, inr, subst, true, false, arith, Run, ok,
  fault, Stops, Stops-bind, Stops-mono, ltb, leb, ◌==◌, if◌then◌else◌, Bool-cases, ltb→lt, not,
  ◌&&◌, ◌||◌, Option, none, some,
}
use cabbage_pke.Common.Int.{ℤ, pos, negsuc}
use cabbage_pke.Pmm.{pgsize}
use cabbage_pke.Vmm.{Vm, maxva, pte_at, walk, page_walk, lookup_pa}
use cabbage_pke.Syscall.{to_uint64, narrow}
use cabbage_pke.Syscall.Buffers.{chunk, transfer}

-- A result from 0 to the length that was asked for.
abbrev pub UpTo : ℕ → ℤ → Type 0
UpTo len (pos n) = n ≤ len
UpTo len (negsuc n) = ⊥

-- What a part of the buffer is that is not at its end yet.
chunk_fits :
    (count i addr : ℕ)
    → i < count
    → (0 < chunk count i addr)
      × (i + chunk count i addr ≤ count)
      × (addr % pgsize + chunk count i addr ≤ pgsize)
chunk_fits count i addr h = ground arith

narrow_small : (n : ℕ) → n < 2 ^ 31 → narrow n ≡ n
narrow_small n h = ground arith

to_uint64_small : (r : ℕ) → r < 2 ^ 31 → to_uint64 (pos r) ≡ r
to_uint64_small r h = ground arith

module _ {S : Type 0} (lookup : ℕ → Run ℕ) (io : S → ℕ → ℕ → Run (ℤ × S)) (bufva count : ℕ) where
  -- The call for one part from `i` on gives `r`. The part begins in the page of its address, is not empty and
  -- does not reach over the end of the page or of the buffer.
  pub record OnePart (i : ℕ) (s : S) (len r : ℕ) (s' : S) : Type 0 where
    pub pa : ℕ
    pub offset : ℕ
    pub mapped : lookup ((bufva + i) % 2 ^ 64) ≡ ok pa
    pub there : pa ≢ 0
    pub in_page : offset + len ≤ pgsize
    pub in_buffer : i + len ≤ count
    pub not_empty : 0 < len
    pub run : io s (pa + offset) len ≡ ok (pos r, s')

  -- The parts from `i` on: each one is full but the last, which may be short; with `n` the total.
  pub data Parts : ℕ → S → ℕ → S → Type 0 where
    all : (s : S) → Parts count s count s
    short :
        (i : ℕ) (s : S) (len r : ℕ) (s' : S) → OnePart i s len r s' → r < len → Parts i s (i + r) s'
    full :
        (i : ℕ) (s : S) (len : ℕ) (s' : S) (n : ℕ) (s'' : S)
        → OnePart i s len len s'
        → Parts (i + len) s' n s''
        → Parts i s n s''

  abbrev pub Moved : ℕ → S → ℕ × S → Type 0
  Moved i s (n, s') = (n ≤ count) × Parts i s n s'

  -- What follows the call for a part that begins at `i`.
  abbrev next : ℕ → ℕ → ℕ → ℕ → ℤ × S → Run (ℕ × S)
  next k i len pa (r, s') = if pa == 0 then fault else elim (ltb (to_uint64 r) len) [
    | true ↦ ok (narrow (i + to_uint64 r), s')
    | false ↦ transfer lookup io k bufva count (narrow (i + to_uint64 r)) s'
  ]

  -- A loop with more fuel than bytes are left, where the calls for the parts keep `Good`.
  pub transfer-Moved :
      (Good : S → Type 0)
      → ((va : ℕ) → Stops (lookup va) (λ pa. Unit))
      → ((s : S) (a len : ℕ) → Good s → Stops (io s a len) (λ (r, s'). UpTo len r × Good s'))
      → count < 2 ^ 31
      → (k i : ℕ) (s : S) → Good s
      → i ≤ count
      → count < i + k
      → Stops (transfer lookup io k bufva count i s) (Moved i s)
  unfolding transfer
  transfer-Moved Good look part small zero i s good low fuel = absurd (omega arith)
  transfer-Moved Good look part small (suc k) i s good low fuel = elim (Bool-cases (ltb i count)) [
    | inl more ↦
        rw (transfer, more)
          (Stops-bind (Moved i s) (lookup va) _ (look va) (λ pa e there.
            Stops-bind (Moved i s) (io s (pa + va % pgsize) len) _
              (part s (pa + va % pgsize) len good)
              (λ got run (up, good').
                after pa got e run up (ltb→lt i count more)
                  (λ i'. transfer-Moved Good look part small k i' got.1 good'))))
    | inr done ↦
        rw (transfer, done) (omega arith, subst (λ j. Parts j s count s) (end done) (all s))
  ]
    where
      va : ℕ
      va = (bufva + i) % 2 ^ 64

      len : ℕ
      len = chunk count i va

      fits : i < count → (0 < len) × (i + len ≤ count) × (va % pgsize + len ≤ pgsize)
      fits more = chunk_fits count i va more

      after :
          (pa : ℕ) (got : ℤ × S)
          → lookup va ≡ ok pa
          → io s (pa + va % pgsize) len ≡ ok got
          → UpTo len got.0
          → i < count
          → ((i' : ℕ)
              → i' ≤ count
              → count < i' + k
              → Stops (transfer lookup io k bufva count i' got.1) (Moved i' got.1))
          → Stops (next k i len pa got) (Moved i s)
      after pa (negsuc n, s') e run up more ih = absurd up
      after pa (pos r, s') e run up more ih = elim (Bool-cases (pa == 0)) [
        | inl null ↦ rw null tt
        | inr there ↦ elim (Bool-cases (ltb r len)) [
          | inl less ↦
              rw (there, sized, less, moved)
                (omega (arith, fits more), short i s len r s' (one there) (ltb→lt r len less))
          | inr same ↦
              rw (there, sized, same, moved)
                (Stops-mono (transfer lookup io k bufva count (i + r) s')
                  (ih (i + r) (omega (arith, fits more)) (omega (arith, fits more, whole same)))
                  (λ (n, s'') (under, parts). (
                    under,
                    full i s len s' n s''
                        (subst (λ l. OnePart i s len l s') (whole same) (one there))
                        (subst (λ l. Parts (i + l) s' n s'') (whole same) parts),
                  )))
        ]
      ]
        where
          sized : to_uint64 (pos r) ≡ r
          sized = to_uint64_small r (omega (arith, fits more))

          moved : narrow (i + to_uint64 (pos r)) ≡ i + r
          moved = rw sized (narrow_small (i + r) (omega (arith, fits more)))

          whole : ltb r len ≡ false → r ≡ len
          whole same = ground (arith, up)

          one : (pa == 0) ≡ false → OnePart i s len r s'
          one there = record {
            pa = pa;
            offset = va % pgsize;
            mapped = e;
            there = λ z. ground arith;
            in_page = (fits more).2;
            in_buffer = (fits more).1;
            not_empty = (fits more).0;
            run = run;
          }

      end : ltb i count ≡ false → count ≡ i
      end e = ground arith

walk-Stops : (l va pt : ℕ) (vm : Vm) → Stops (walk l va false pt vm) (λ _. Unit)
unfolding walk
walk-Stops zero va pt vm = tt
walk-Stops (suc l) va pt vm = elim (Bool-cases (vm.ptes (pte_at pt (suc l) va)).valid) [
  | inl valid ↦ rw (walk, valid) (walk-Stops l va (vm.ptes (pte_at pt (suc l) va)).pa vm)
  | inr invalid ↦ rw (walk, invalid) tt
]

pub lookup_pa-Stops : (vm : Vm) (pagetable va : ℕ) → Stops (lookup_pa vm pagetable va) (λ pa. Unit)
unfolding lookup_pa page_walk
lookup_pa-Stops vm pagetable va = elim (Bool-cases (leb maxva va)) [
  | inl high ↦ rw high tt
  | inr low ↦ rw low (
      Stops-bind (λ pa. Unit) (walk 2 va false pagetable vm) _ (walk-Stops 2 va pagetable vm)
        (λ got run h. entry got))
]
  where
    entry :
        (got : Option ℕ × Vm)
        → Stops
            (elim got.0 as (λ o. Run ℕ) [
              | none ↦ ok 0
              | some a ↦
                  if not (vm.ptes a).valid
                    || (not (vm.ptes a).perm.readable && not (vm.ptes a).perm.writable)
                  then ok 0
                  else ok (vm.ptes a).pa
            ])
            (λ pa. Unit)
    entry (none, _) = tt
    entry (some a, _) =
        elim (Bool-cases (
          not (vm.ptes a).valid
          || (not (vm.ptes a).perm.readable && not (vm.ptes a).perm.writable))) [
            | inl h ↦ rw h tt
            | inr h ↦ rw h tt
          ]
