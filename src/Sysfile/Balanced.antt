-- ===== src/Sysfile/Balanced.antt =====
-- xv6-public/sysfile.c: the transactions of the system calls, and what they write to the log.
pub mod Calls
use tp2_so.Base.{
  ℕ, suc, ◌+◌, ◌-◌, ◌≡◌, refl, sym, ap, ◌∙◌, Bool, true, false, Option, none, some, List, ◌∷◌, ◌==◌,
  occurs, if◌then◌else◌, arith, find_index,
}
use tp2_so.File.{File, Last, nothing, pipeclose, filealloc, filedup, fileclose}
use tp2_so.File
use tp2_so.Fs.{Block, Inode, Fs, M, ok, panic, stored, pure, alter, if_none, ◌>>=◌, ◌>>◌}
use tp2_so.Fs.Keeps.{
  Keeps, Holds, Holds-ok, Holds-panic, Holds-option, Holds-and_then, Keeps-pure, Keeps-bind,
  keeps_rules,
}
use tp2_so.Fs.Inodes.{iput}
use tp2_so.Fs.Closed.{IsClosed}
use tp2_so.Fs.Closed.Inodes.{layer, Keeps-iput}
use tp2_so.Sysfile.Create.{set_file, set_cwd}
use tp2_so.Sysfile.{
  begin_op, end_op, is_free, set_fd, fdalloc, alloc_file, dup_file, close_last, drop_file,
  close_file,
}

-- With `n` transactions open, every block that is not among the logged ones is as on the disk `d`.
pub record Within (d : ℕ → Block) (n : ℕ) (s : Fs) : Type 0 where
  pub same : (b i : ℕ) → occurs b s.logged ≡ 0 → s.blocks b i ≡ d b i
  pub open_ops : s.ops ≡ n

-- `m` ends one transaction.
pub record Ends {A : Type 0} (d : ℕ → Block) (n : ℕ) (m : M A) : Type 0 where
  pub at : (s : Fs) → Within d (suc n) s → Holds (Within d n) (m s)

module _ {d : ℕ → Block} {n : ℕ} where
  logged_write :
      (b : ℕ) (e : Block) (s : Fs)
      → Within d n s
      → Within d n (record (stored b e s) { logged = b ∷ s.logged })
  logged_write b e s w = record {
    same = λ c i o. ground (arith, w.same c i);
    open_ops = w.open_ops;
  }

  -- Writes of anything but the blocks, the log and the count of transactions.
  same_log :
      {s t : Fs}
      → t.blocks ≡ s.blocks
      → t.logged ≡ s.logged
      → t.ops ≡ s.ops
      → Within d n s
      → Within d n t
  same_log b l o w = record {
    same = λ c i h. ap (λ x. x c i) b ∙ w.same c i (ap (occurs c) (sym l) ∙ h);
    open_ops = o ∙ w.open_ops;
  }

  pub Within-IsClosed : IsClosed (Within d n)
  Within-IsClosed = record { write = logged_write; move = λ is s w. same_log refl refl refl w }

  pub Keeps-set_fd : (fd : ℕ) (f : Option ℕ) → Keeps (Within d n) (alter (set_fd fd f))
  unfolding alter set_fd
  Keeps-set_fd fd f = record { at = λ s w. Holds-ok _ _ (same_log refl refl refl w) }

  pub Keeps-set_file : (f : ℕ) (g : File → File) → Keeps (Within d n) (alter (set_file f g))
  unfolding alter set_file
  Keeps-set_file f g = record { at = λ s w. Holds-ok _ _ (same_log refl refl refl w) }

  pub Keeps-set_cwd : (ip : ℕ) → Keeps (Within d n) (alter (set_cwd ip))
  unfolding alter set_cwd
  Keeps-set_cwd ip = record { at = λ s w. Holds-ok _ _ (same_log refl refl refl w) }

  pub Keeps-fdalloc : (f : ℕ) → Keeps (Within d n) (fdalloc f)
  unfolding fdalloc
  Keeps-fdalloc f = record {
    at = λ s w.
        Holds-option (find_index is_free s.ofile) _ _ (Holds-ok _ _ w)
          λ fd. Holds-ok _ _ (same_log refl refl refl w);
  }

  pub Keeps-alloc_file : Keeps (Within d n) alloc_file
  unfolding alloc_file
  Keeps-alloc_file = record { at = λ s w. Holds-ok _ _ (same_log refl refl refl w) }

  pub Keeps-dup_file : (f : ℕ) → Keeps (Within d n) (dup_file f)
  unfolding dup_file
  Keeps-dup_file f = record {
    at = λ s w.
        Holds-option (filedup f s.files) _ _ Holds-panic
          λ files. Holds-ok _ _ (same_log refl refl refl w);
  }

  Keeps-drop_file : (f : ℕ) → Keeps (Within d n) (drop_file f)
  unfolding drop_file
  Keeps-drop_file f = record {
    at = λ s w.
        Holds-option (fileclose f s.files) _ _ Holds-panic
          λ p. Holds-ok _ _ (same_log refl refl refl w);
  }

  -- How a transaction begins, goes on and ends.
  pub Keeps-begin : {A : Type 0} (k : M A) → Ends d n k → Keeps (Within d n) (begin_op >> k)
  unfolding ◌>>=◌ begin_op
  Keeps-begin k e = record {
    at = λ s w. e.at _ (record { same = w.same; open_ops = omega (arith, w.open_ops) });
  }

  pub Ends-last : Ends d n end_op
  unfolding end_op
  Ends-last = record {
    at = λ s w. Holds-ok _ _ (record { same = w.same; open_ops = omega (arith, w.open_ops) });
  }

  pub Ends-end : {A : Type 0} (k : M A) → Keeps (Within d n) k → Ends d n (end_op >> k)
  unfolding ◌>>=◌ end_op
  Ends-end k e = record {
    at = λ s w. e.at _ (record { same = w.same; open_ops = omega (arith, w.open_ops) });
  }

  pub Ends-bind :
      {A B : Type 0} (m : M A) (k : A → M B)
      → Keeps (Within d (suc n)) m
      → ((a : A) → Ends d n (k a))
      → Ends d n (m >>= k)
  unfolding ◌>>=◌
  Ends-bind m k km kk = record { at = λ s w. Holds-and_then (m s) k (km.at s w) (λ a. (kk a).at) }

  pub Ends-if :
      {A : Type 0} (b : Bool) (m k : M A) → Ends d n m → Ends d n k → Ends d n (if b then m else k)
  Ends-if true m k h g = h
  Ends-if false m k h g = g

  pub Ends-if_none :
      {A B : Type 0} (o : Option A) (m : M B) (k : A → M B)
      → Ends d n m
      → ((a : A) → Ends d n (k a))
      → Ends d n (if_none o m k)
  unfolding if_none
  Ends-if_none none m k h g = h
  Ends-if_none (some a) m k h g = g a

pub ruleset call_rules = (
  layer, Within-IsClosed, Keeps-set_fd, Keeps-set_file, Keeps-set_cwd, Keeps-fdalloc,
  Keeps-alloc_file, Keeps-dup_file, Keeps-begin, Ends-last, Ends-end, Ends-bind, Ends-if,
  Ends-if_none,
)

module _ {d : ℕ → Block} {n : ℕ} where
  Keeps-close_last : (l : Last) → Keeps (Within d n) (close_last l)
  unfolding close_last
  Keeps-close_last nothing = search call_rules
  Keeps-close_last (pipeclose p w) = search call_rules
  Keeps-close_last (File.iput ip) = search (call_rules, Keeps-iput) depth 12

  pub Keeps-close_file : (f : ℕ) → Keeps (Within d n) (close_file f)
  unfolding close_file
  Keeps-close_file f = Keeps-bind _ _ (Keeps-drop_file f) Keeps-close_last
