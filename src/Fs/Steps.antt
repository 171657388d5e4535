-- ===== src/Fs/Steps.antt =====
-- Equations that take a run of fs.c one action further.
use tp2_so.Base.{ℕ, ◌≡◌, refl, ap, some, get_elem?, true, false, if◌then◌else◌, Bool}
use tp2_so.Fs.{Fs, Inode, M, ok, and_then, ◌>>=◌}
use tp2_so.Fs.Inodes.{inode_at}

module _ {A B : Type 0} where
  pub bind-ok : (m : M A) (k : A → M B) {s t : Fs} {a : A} → m s ≡ ok a t → (m >>= k) s ≡ k a t
  unfolding ◌>>=◌
  bind-ok m k e = ap (λ r. and_then r k) e

module _ {A : Type 0} where
  pub if-true : (b : Bool) (m n : M A) (s : Fs) → b ≡ true → (if b then m else n) s ≡ m s
  if-true b m n s e = ap (λ c. (if c then m else n) s) e

  pub if-false : (b : Bool) (m n : M A) (s : Fs) → b ≡ false → (if b then m else n) s ≡ n s
  if-false b m n s e = ap (λ c. (if c then m else n) s) e

pub inode_at_lem :
    (ip : ℕ) (s : Fs) (i : Inode) → get_elem? s.inodes ip ≡ some i → inode_at ip s ≡ ok i s
unfolding inode_at
inode_at_lem ip s i e = rw (e, inode_at) refl
