-- ===== src/Vfs/Paths.antt =====
-- Paths of kernel/vfs.c: `lookup_final_dentry` and `get_base_name`. A path is the bytes of a string
-- without its final 0.
pub mod Tokens
pub mod Resolve
use cabbage_pke.Common.{
  ℕ, zero, suc, ◌+◌, Bool, true, false, Option, none, some, List, [], ◌∷◌, ◌++◌, Run, ok, fault,
  ◌>>=◌, leb, ◌==◌, if◌then◌else◌, length,
}
use cabbage_pke.Pmm.{free_page}
use cabbage_pke.Rfs.Dir.{Name}
use cabbage_pke.Vfs.{same_bytes}
use cabbage_pke.Vfs.Objects.{
  max_path_len, VinodeOps, World, ref_up, with_pmm, set_dentry, set_inode, hold_inode,
  alloc_vfs_dentry, get_dentry, put_dentry, get_inode, put_inode,
}

abbrev pub slash : ℕ
slash = b'/'

abbrev pub dot : Name
dot = b'.' ∷ []

abbrev pub dot_dot : Name
dot_dot = b'.' ∷ b'.' ∷ []

-- A token ends, where it has bytes.
abbrev pub emit : Name → List Name → List Name
emit [] rest = rest
emit (c ∷ cs) rest = (c ∷ cs) ∷ rest

-- The tokens that `strtok` with the delimiter "/" gives one after the other; `cur` is what the current
-- one has so far.
unfoldable pub tokens_from : Name → List ℕ → List Name
tokens_from cur [] = emit cur []
tokens_from cur (c ∷ cs) =
    let rest = tokens_from (if c == slash then [] else cur ++ c ∷ []) cs in
    if c == slash then emit cur rest else rest

unfoldable pub tokens : List ℕ → List Name
unfolding tokens_from
tokens path = tokens_from [] path

-- `path_copy[0] == '/'`, which the calls of `strtok` leave as it is.
abbrev pub is_absolute : List ℕ → Bool
is_absolute [] = false
is_absolute (c ∷ cs) = c == slash

-- What a lookup gives: the dentry (`none` is NULL), `*parent`, what was written to `miss_name`, and the
-- state.
pub record Found (F : Type 0) : Type 0 where
  pub this : Option ℕ
  pub parent : ℕ
  pub miss_name : Option Name
  pub world : World F

module _ {F : Type 0} (ops : ℕ → VinodeOps F) where
  -- `viop_lookup` found a vinode, in the page `a`: the cached vinode of the same number takes its place.
  unfoldable pub settle_inode : World F → ℕ → ℕ → Run (World F)
  settle_inode w this a = do
    same ← get_inode w (w.inodes a)
    let d = w.dentries this
    if same == 0
        then put_inode (hold_inode (set_dentry w this (record d { inode = a })) a) a
        else do
          s ← free_page w.env.pmm a
          ok (with_pmm (hold_inode (set_dentry w this (record d { inode = same })) same) s)

  -- The name is in no cache: the directory on the disk is asked.
  unfoldable pub find_on_disk : World F → ℕ → Name → Run (Found F)
  find_on_disk w parent token = do
    (this, w₁) ← alloc_vfs_dentry w token 0 parent
    let dir = (w₁.dentries parent).inode
    if (if parent == 0 then true else dir == 0) then fault else do
      (found, env) ← (ops (w₁.inodes dir).i_ops).viop_lookup w₁.env (w₁.inodes dir) token
      let w₂ : World F = record w₁ { env = env }
      elim found [
        | none ↦ do
          s ← free_page env.pmm this
          ok (record {
            this = none;
            parent = parent;
            miss_name = some token;
            world = with_pmm w₂ s;
          })
        | some (a, inode) ↦ do
          w₃ ← settle_inode (set_inode w₂ a inode) this a
          w₄ ← put_dentry w₃ this
          ok (record { this = some this; parent = parent; miss_name = none; world = w₄ })
      ]

  unfoldable pub find_name : World F → ℕ → Name → Run (Found F)
  find_name w this token = do
    cached ← get_dentry w this token
    if cached == 0
        then find_on_disk w this token
        else ok (record { this = some cached; parent = this; miss_name = none; world = w })

  -- One round of the loop.
  unfoldable pub lookup_token : World F → ℕ → ℕ → Name → Run (Found F)
  lookup_token w parent this token =
      if same_bytes token dot
      then ok (record { this = some this; parent = parent; miss_name = none; world = w })
      else if same_bytes token dot_dot
      then if this == 0
        then fault
        else (let up = (w.dentries this).parent in
            ok (record {
              this = (if up == 0 then none else some up);
              parent = parent;
              miss_name = none;
              world = w;
            }))
      else find_name w this token

  unfoldable pub lookup_tokens : List Name → World F → ℕ → ℕ → Run (Found F)
  lookup_tokens [] w parent this = ok (record {
    this = (if this == 0 then none else some this);
    parent = parent;
    miss_name = none;
    world = w;
  })
  lookup_tokens (t ∷ ts) w parent this = do
    f ← lookup_token w parent this t
    elim f.this [ none ↦ ok f | some next ↦ lookup_tokens ts f.world f.parent next ]

  -- A path that does not fit in `path_copy` is undefined.
  unfoldable pub lookup_final_dentry : World F → List ℕ → ℕ → Run (Found F)
  lookup_final_dentry w path parent =
      if leb max_path_len (length path)
      then fault
      else lookup_tokens (tokens path) w parent (if is_absolute path then w.root else parent)

abbrev pub last_token : List Name → Option Name
last_token [] = none
last_token (t ∷ []) = some t
last_token (t ∷ u ∷ ts) = last_token (u ∷ ts)

-- `strcpy(base_name, last_token)` of NULL is undefined.
unfoldable pub get_base_name : List ℕ → Run Name
get_base_name path =
    if leb max_path_len (length path)
    then fault
    else elim (last_token (tokens path)) [ none ↦ fault | some t ↦ ok t ]
