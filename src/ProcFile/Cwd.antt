-- ===== src/ProcFile/Cwd.antt =====
-- What `do_read_cwd` of kernel/proc_file.c makes of the working directory.
use cabbage_pke.Common.{
  ℕ, zero, suc, ◌<◌, ◌≡◌, ◌≢◌, refl, sym, ◌∙◌, subst, List, [], ◌∷◌, ◌++◌, arith, ok, lt→leb,
  length, ne→==,
}
use cabbage_pke.Rfs.Dir.{Name}
use cabbage_pke.Vfs.Objects.{max_path_len, World}
use cabbage_pke.ProcFile.{ProcFiles, climb, do_read_cwd}

module _ {F : Type 0} (w : World F) where
  -- From `a` on the parents are `xs`, up to NULL, and each name fits in front of `path`.
  abbrev pub Ancestors : Name → ℕ → List ℕ → Type 0
  Ancestors path a [] = a ≡ 0
  Ancestors path a (x ∷ xs) =
      (a ≡ x)
      × (x ≢ 0)
      × (length ((w.dentries x).name ++ path) < max_path_len)
      × Ancestors path (w.dentries x).parent xs

  abbrev pub topmost : ℕ → List ℕ → ℕ
  topmost x [] = x
  topmost x (y ∷ ys) = topmost y ys

  climb-topmost :
      (k x : ℕ) (xs : List ℕ) (path copy : Name)
      → Ancestors path x (x ∷ xs)
      → length (x ∷ xs) < k
      → climb k w x path copy ≡ ok ((w.dentries (topmost x xs)).name ++ path)
  unfolding climb
  climb-topmost zero x xs path copy h l = absurd (omega arith)
  climb-topmost (suc zero) x xs path copy h l = absurd (omega arith)
  climb-topmost (suc (suc k)) x [] path copy (_, there, fits, top) l =
      rw
        (
          climb,
          ne→== x 0 there,
          lt→leb max_path_len (length ((w.dentries x).name ++ path)) fits,
          climb,
          top,
        )
        refl
  climb-topmost (suc (suc k)) x (y ∷ ys) path copy (_, there, fits, (e, there', fits', rest)) l =
      rw (climb, ne→== x 0 there, lt→leb max_path_len (length ((w.dentries x).name ++ path)) fits)
        (subst
          (λ b.
            climb (suc k) w b path ((w.dentries x).name ++ path)
            ≡ ok ((w.dentries (topmost y ys)).name ++ path))
          (sym e)
          (climb-topmost (suc k) y ys path ((w.dentries x).name ++ path) (refl, there', fits', rest)
            (omega arith)))

  -- For a working directory under other ones, the string is the name of the topmost of them, which has no
  -- parent, and the name of the directory itself; the names of the directories between are left out. The
  -- names have to fit in the array, and the fuel is above the number of directories.
  pub do_read_cwd-topmost :
      (fuel x : ℕ) (xs : List ℕ) (p : ProcFiles)
      → Ancestors (w.dentries p.cwd).name (w.dentries p.cwd).parent (x ∷ xs)
      → length (x ∷ xs) < fuel
      → do_read_cwd fuel w p ≡ ok ((w.dentries (topmost x xs)).name ++ (w.dentries p.cwd).name)
  unfolding do_read_cwd
  do_read_cwd-topmost fuel x xs p up h =
      rw (ne→== (w.dentries p.cwd).parent 0 (λ z. up.1 (sym up.0 ∙ z))) (
        subst
          (λ b.
            climb fuel w b (w.dentries p.cwd).name []
            ≡ ok ((w.dentries (topmost x xs)).name ++ (w.dentries p.cwd).name))
          (sym up.0)
          (climb-topmost fuel x xs (w.dentries p.cwd).name [] (refl, up.1, up.2, up.3) h))
