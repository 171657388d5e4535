-- ===== src/Proc/Alloc/Copied.antt =====
-- `fork` of proc.c: the open files of the child.
use tp2_so.Base.{zero, suc, [], ◌∷◌, ℕ, ◌≡◌, ◌≢◌, false, List, ◌==◌, arith}
use tp2_so.Proc.Env.{Env}
use tp2_so.Proc.Alloc.{dup_files}

module _ {M : Type 0} (env : Env M) where
  -- The open files of a child: where the parent has one, what `filedup` gives, and where it has none,
  -- what the slot had. The copies take the memory from the first `M` to the second, in the order of
  -- `ofile`.
  pub data Copied : List ℕ → List ℕ → M → List ℕ → M → Type 0 where
    all_done : (cs : List ℕ) (m : M) → Copied [] cs m cs m
    no_slot : (f : ℕ) (fs : List ℕ) (m : M) → Copied (f ∷ fs) [] m [] m
    shut :
        (c : ℕ) (fs cs gs : List ℕ) (m m' : M)
        → Copied fs cs m gs m'
        → Copied (0 ∷ fs) (c ∷ cs) m (c ∷ gs) m'
    dup :
        (f c : ℕ) (fs cs gs : List ℕ) (m m' : M)
        → f ≢ 0
        → Copied fs cs (env.filedup f m).1 gs m'
        → Copied (f ∷ fs) (c ∷ cs) m ((env.filedup f m).0 ∷ gs) m'

  pub dup_files-Copied :
      (fs cs : List ℕ) (m : M) → Copied fs cs m (dup_files env fs cs m).0 (dup_files env fs cs m).1
  unfolding dup_files
  dup_files-Copied [] cs m = all_done cs m
  dup_files-Copied (f ∷ fs) [] m = no_slot f fs m
  dup_files-Copied (zero ∷ fs) (c ∷ cs) m =
      shut c fs cs (dup_files env fs cs m).0 m (dup_files env fs cs m).1 (dup_files-Copied fs cs m)
  dup_files-Copied (suc f ∷ fs) (c ∷ cs) m =
      let m1 = (env.filedup (suc f) m).1 in
      let there : (suc f == 0) ≡ false = ground arith in
      rw (there, dup_files)
        (dup (suc f) c fs cs (dup_files env fs cs m1).0 m (dup_files env fs cs m1).1
          (λ e. absurd (omega (arith, e))) (dup_files-Copied fs cs m1))
