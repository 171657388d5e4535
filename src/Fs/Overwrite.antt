-- ===== src/Fs/Overwrite.antt =====
-- xv6-public/fs.c: writes of `writei` inside a file, on the content as a function of the place.
use tp2_so.Base.{
  ℕ, zero, suc, ◌+◌, ◌-◌, ◌*◌, ◌/◌, ◌%◌, ◌≤◌, ◌<◌, ◌≡◌, ◌≢◌, inl, inr, refl, ◌∙◌, sym, ap, subst,
  true, false, not, ◌∷◌, ◌==◌, ◌&&◌, ◌||◌, if◌then◌else◌, ltb, leb, add32, arith, Bool-cases,
  get_or,
}
use tp2_so.Fs.{Block, bsize, ndirect, maxfile, Inode, Fs, ok, pure, stored, ◌>>=◌}
use tp2_so.Fs.Words.{get32, put_bytes}
use tp2_so.Fs.Inodes.{inode_at, bmap}
use tp2_so.Fs.Content.{Devices, t_dev, chunk, write_chunk, write_loop, grow, write_file, writei}
use tp2_so.Fs.Steps.{bind-ok, if-false, inode_at_lem}
use tp2_so.Fs.Bytes.{
  block_of, byte_of, Whole, bmap_lem, chunk_lem, block_of-direct, block_of-indirect,
}

-- No two blocks of a file are the same, and none is its indirect block.
pub record Apart (s : Fs) (i : Inode) : Type 0 where
  pub distinct :
      (a b : ℕ) → a * bsize < i.size → b * bsize < i.size → block_of s i a ≡ block_of s i b → a ≡ b
  pub off_index :
      (a : ℕ)
      → a * bsize < i.size
      → ndirect * bsize < i.size
      → block_of s i a ≢ get_or i.addrs ndirect 0

-- After `n` bytes of `src` are written at `off`.
pub record Written (s t : Fs) (ip : ℕ) (i : Inode) (src : ℕ → ℕ) (off n : ℕ) : Type 0 where
  pub whole : Whole t ip i
  pub apart : Apart t i
  pub bytes : (k : ℕ) → k < i.size → byte_of t i k ≡ put_bytes (byte_of s i) off n src k

-- A write of a block and its entry in the log.
abbrev rewritten : ℕ → Block → Fs → Fs
rewritten b d s = record (stored b d s) { logged = b ∷ s.logged }

write_chunk_lem :
    (s : Fs) (ip : ℕ) (i : Inode) (src : ℕ → ℕ) (off m : ℕ)
    → Whole s ip i
    → off < i.size
    → write_chunk ip src off m s
      ≡ ok tt (
          rewritten
            (block_of s i (off / bsize))
            (put_bytes (s.blocks (block_of s i (off / bsize))) (off % bsize) m src)
            s)
unfolding write_chunk ◌>>=◌
write_chunk_lem s ip i src off m w lt =
    bind-ok (bmap ip (off / bsize)) _ (bmap_lem s ip i (off / bsize) w (omega arith))

rewritten_same : (b : ℕ) (d : Block) (s : Fs) → (rewritten b d s).blocks b ≡ d
rewritten_same b d s = ground arith

rewritten_other : (b c : ℕ) (d : Block) (s : Fs) → b ≢ c → (rewritten b d s).blocks c ≡ s.blocks c
rewritten_other b c d s ne = ground arith

-- A write of a block of the file leaves the file's blocks where they are.
block_of-rewritten :
    (s : Fs) (i : Inode) (a bn : ℕ) (d : Block)
    → Apart s i
    → a * bsize < i.size
    → bn * bsize < i.size
    → block_of (rewritten (block_of s i a) d s) i bn ≡ block_of s i bn
block_of-rewritten s i a bn d w lt ln = elim (Bool-cases (ltb bn ndirect)) [
  | inl direct ↦
      block_of-direct (rewritten (block_of s i a) d s) i bn direct
      ∙ sym (block_of-direct s i bn direct)
  | inr far ↦
      block_of-indirect (rewritten (block_of s i a) d s) i bn far
      ∙ ap (λ e. get32 e (4 * (bn - ndirect)))
          (rewritten_other (block_of s i a) (get_or i.addrs ndirect 0) d s
            (w.off_index a lt (ground arith)))
      ∙ sym (block_of-indirect s i bn far)
]

-- A write inside one block, as a write of the whole content.
inside_block :
    (f : ℕ → Block) (src : ℕ → ℕ) (off m k : ℕ)
    → off / bsize ≡ k / bsize
    → put_bytes (f (k / bsize)) (off % bsize) m src (k % bsize)
      ≡ put_bytes (λ j. f (j / bsize) (j % bsize)) off m src k
unfolding put_bytes
inside_block f src off m k e =
    let low : leb (off % bsize) (k % bsize) ≡ leb off k = ground arith in
    let high : ltb (k % bsize) (off % bsize + m) ≡ ltb k (off + m) = ground arith in
    let place : k % bsize - off % bsize ≡ k - off = omega arith in rw (low, high, place) refl

outside_block :
    (g src : ℕ → ℕ) (off m k : ℕ)
    → off / bsize ≢ k / bsize
    → off % bsize + m ≤ bsize
    → put_bytes g off m src k ≡ g k
unfolding put_bytes
outside_block g src off m k ne le =
    let out : (leb off k && ltb k (off + m)) ≡ false = ground arith in rw out refl

write_chunk-Written :
    (s : Fs) (ip : ℕ) (i : Inode) (src : ℕ → ℕ) (off m : ℕ)
    → Whole s ip i
    → Apart s i
    → off < i.size
    → off % bsize + m ≤ bsize
    → Written s
        (rewritten
          (block_of s i (off / bsize))
          (put_bytes (s.blocks (block_of s i (off / bsize))) (off % bsize) m src)
          s)
        ip
        i
        src
        off
        m
write_chunk-Written s ip i src off m w v lt one =
    let a = off / bsize in
    let d = put_bytes (s.blocks (block_of s i a)) (off % bsize) m src in
    let t = rewritten (block_of s i a) d s in
    let la : a * bsize < i.size = omega arith in
    let keep : (bn : ℕ) → bn * bsize < i.size → block_of t i bn ≡ block_of s i bn =
      λ bn ln. block_of-rewritten s i a bn d v la ln in
    record {
      whole = record {
        slot = w.slot;
        small = w.small;
        present = λ bn ln. subst (λ x. x ≢ 0) (sym (keep bn ln)) (w.present bn ln);
        indirect = w.indirect;
      };
      apart = record {
        distinct = λ b c lb lc e. v.distinct b c lb lc (sym (keep b lb) ∙ e ∙ keep c lc);
        off_index = λ b lb ln.
            subst (λ x. x ≢ get_or i.addrs ndirect 0) (sym (keep b lb)) (v.off_index b lb ln);
      };
      bytes = λ k lk.
          let lb : k / bsize * bsize < i.size = omega arith in
          ap (λ x. t.blocks x (k % bsize)) (keep (k / bsize) lb)
          ∙ elim (Bool-cases (a == k / bsize)) [
            | inl here ↦
                let q : a ≡ k / bsize = ground arith in
                ap (λ x. t.blocks (block_of s i x) (k % bsize)) (sym q)
                ∙ ap (λ e. e (k % bsize)) (rewritten_same (block_of s i a) d s)
                ∙ ap (λ x. put_bytes (s.blocks (block_of s i x)) (off % bsize) m src (k % bsize)) q
                ∙ inside_block (λ x. s.blocks (block_of s i x)) src off m k q
            | inr far ↦
                let ne : a ≢ k / bsize = ground arith in
                ap (λ e. e (k % bsize))
                  (rewritten_other (block_of s i a) (block_of s i (k / bsize)) d s
                    (λ e. ne (v.distinct a (k / bsize) la lb e)))
                ∙ sym (outside_block (byte_of s i) src off m k ne one)
          ];
    }

put_bytes-append :
    (g f src : ℕ → ℕ) (off m n k : ℕ)
    → g k ≡ put_bytes f off m src k
    → put_bytes g (off + m) n (λ j. src (j + m)) k ≡ put_bytes f off (m + n) src k
unfolding put_bytes
put_bytes-append g f src off m n k e = elim (Bool-cases (leb (off + m) k)) [
  | inl late ↦
      let p : k - (off + m) + m ≡ k - off = ground arith in
      let low : leb off k ≡ true = ground arith in
      let out : ltb k (off + m) ≡ false = ground arith in
      let high : ltb k (off + m + n) ≡ ltb k (off + (m + n)) = ground arith in
      let before : g k ≡ f k = e ∙ rw (low, out) refl in rw (late, low, high, p, before) refl
  | inr early ↦
      let high : ltb k (off + (m + n)) ≡ true = ground arith in
      let near : ltb k (off + m) ≡ true = ground arith in rw (early, high) (e ∙ rw near refl)
]

Written-then :
    (s t u : Fs) (ip : ℕ) (i : Inode) (src : ℕ → ℕ) (off m n : ℕ)
    → Written s t ip i src off m
    → Written t u ip i (λ j. src (j + m)) (off + m) n
    → Written s u ip i src off (m + n)
unfolding put_bytes
Written-then s t u ip i src off m n a b = record {
  whole = b.whole;
  apart = b.apart;
  bytes = λ k lk.
      b.bytes k lk ∙ put_bytes-append (byte_of t i) (byte_of s i) src off m n k (a.bytes k lk);
}

Written-none :
    (s : Fs) (ip : ℕ) (i : Inode) (src : ℕ → ℕ) (off : ℕ)
    → Whole s ip i
    → Apart s i
    → Written s s ip i src off 0
unfolding put_bytes
Written-none s ip i src off w v = record {
  whole = w;
  apart = v;
  bytes = λ k lk. let out : (leb off k && ltb k (off + 0)) ≡ false = ground arith in rw out refl;
}

write_loop_lem :
    (ip : ℕ) (i : Inode) (fuel : ℕ) (s : Fs) (src : ℕ → ℕ) (left off : ℕ)
    → Whole s ip i
    → Apart s i
    → left ≤ fuel
    → off + left ≤ i.size
    → (t : Fs) × (write_loop ip src fuel left off s ≡ ok (off + left) t)
      × Written s t ip i src off left
unfolding write_loop ◌>>=◌
write_loop_lem ip i fuel s src zero off w v le fits =
    let stay : off ≡ off + 0 = omega arith in
    (s, ap (λ x. ok x s) stay, Written-none s ip i src off w v)
write_loop_lem ip i zero s src (suc left) off w v le fits = absurd (omega arith)
write_loop_lem ip i (suc fuel) s src (suc left) off w v le fits =
    let (pos, most, one) = chunk_lem (suc left) off (omega arith) in
    let m = chunk (suc left) off in
    let next : add32 off m ≡ off + m = ground (arith, w.small) in
    let first = write_chunk-Written s ip i src off m w v (omega arith) one in
    let (u, e, rest) =
      write_loop_lem ip i fuel _ (λ j. src (j + m)) (suc left - m) (off + m) first.whole first.apart
        (omega arith) (omega arith) in
    let all : m + (suc left - m) ≡ suc left = omega arith in
    let end : off + m + (suc left - m) ≡ off + suc left = omega arith in
    (
      u,
      bind-ok (write_chunk ip src off m) _ (write_chunk_lem s ip i src off m w (omega arith))
          ∙ ap
              (λ x.
                write_loop ip (λ j. src (j + m)) fuel (suc left - m) x
                  (rewritten (block_of s i (off / bsize))
                    (put_bytes (s.blocks (block_of s i (off / bsize))) (off % bsize) m src) s))
              next
          ∙ e
          ∙ ap (λ x. ok x u) end,
      subst (Written s u ip i src off) all
          (Written-then s _ u ip i src off m (suc left - m) first rest),
    )

-- For a file in a slot of the inode cache that is not a device, has all its blocks, all different,
-- `writei` of `n` bytes at `off`, inside its size, returns `n`. The file then still has all its
-- blocks, all different; its bytes from `off` to `off + n` are those of `src`, the others are as
-- before.
pub writei_lem :
    (devsw : Devices) (s : Fs) (ip : ℕ) (i : Inode) (src : ℕ → ℕ) (off n : ℕ)
    → Whole s ip i
    → Apart s i
    → i.type ≢ t_dev
    → off + n ≤ i.size
    → (t : Fs) × (writei devsw ip src off n s ≡ ok n t) × Written s t ip i src off n
unfolding writei write_file ◌>>=◌
writei_lem devsw s ip i src off n w v file fits =
    let total : add32 off n ≡ off + n = ground (arith, w.small) in
    let (t, e, written) = write_loop_lem ip i n s src n off w v (omega arith) fits in
    let fine : (ltb i.size off || ltb (add32 off n) off) ≡ false = ground (arith, w.small) in
    let short : ltb (maxfile * bsize) (add32 off n) ≡ false = ground (arith, w.small) in
    let same : (not (n == 0) && ltb i.size (off + n)) ≡ false = ground arith in
    (
      t,
      bind-ok (inode_at ip) _ (inode_at_lem ip s i w.slot)
          ∙ if-false (i.type == t_dev) _ _ s (ground arith)
          ∙ bind-ok (inode_at ip) _ (inode_at_lem ip s i w.slot)
          ∙ if-false (ltb i.size off || ltb (add32 off n) off) _ _ s fine
          ∙ if-false (ltb (maxfile * bsize) (add32 off n)) _ _ s short
          ∙ bind-ok (write_loop ip src n n off) _ e
          ∙ bind-ok (inode_at ip) _ (inode_at_lem ip t i written.whole.slot)
          ∙ bind-ok (if not (n == 0) && ltb i.size (off + n) then grow ip (off + n) else pure tt) _
              (if-false (not (n == 0) && ltb i.size (off + n)) _ _ t same),
      written,
    )
