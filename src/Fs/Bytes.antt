-- ===== src/Fs/Bytes.antt =====
-- xv6-public/fs.c: the content of a file as a function of the place in it, and `readi`.
use tp2_so.Base.{
  ℕ, zero, suc, ◌+◌, ◌-◌, ◌*◌, ◌/◌, ◌%◌, ◌^◌, ◌≤◌, ◌<◌, ◌≡◌, ◌≢◌, inl, inr, refl, ◌∙◌, sym, ap,
  subst, true, false, some, [], ◌∷◌, ◌++◌, ◌==◌, ◌&&◌, ◌||◌, if◌then◌else◌, ltb, leb, add32,
  minus_one, arith, Bool-cases, get_elem?, get_or,
}
use tp2_so.Fs.{Block, bsize, ndirect, nindirect, maxfile, Inode, Fs, ok, pure, ◌>>=◌}
use tp2_so.Fs.Words.{get32, bytes_from}
use tp2_so.Fs.Inodes.{inode_at, addr_at, indirect_at, bmap}
use tp2_so.Fs.Steps.{bind-ok, if-true, if-false, inode_at_lem}
use tp2_so.Fs.Content.{Devices, t_dev, chunk, read_chunk, read_loop, read_file, readi}

-- The block that holds block `bn` of a file, and the byte at a place of the file.
abbrev pub block_of : Fs → Inode → ℕ → ℕ
block_of s i bn =
    if ltb bn ndirect
    then get_or i.addrs bn 0
    else get32 (s.blocks (get_or i.addrs ndirect 0)) (4 * (bn - ndirect))

abbrev pub byte_of : Fs → Inode → ℕ → ℕ
byte_of s i k = s.blocks (block_of s i (k / bsize)) (k % bsize)

-- A file without holes, in a slot.
pub record Whole (s : Fs) (ip : ℕ) (i : Inode) : Type 0 where
  pub slot : get_elem? s.inodes ip ≡ some i
  pub small : i.size ≤ maxfile * bsize
  pub present : (bn : ℕ) → bn * bsize < i.size → block_of s i bn ≢ 0
  pub indirect : ndirect * bsize < i.size → get_or i.addrs ndirect 0 ≢ 0

addr_at_lem :
    (s : Fs) (ip k : ℕ) (i : Inode)
    → get_elem? s.inodes ip ≡ some i
    → get_or i.addrs k 0 ≢ 0
    → addr_at ip k s ≡ ok (get_or i.addrs k 0) s
unfolding addr_at ◌>>=◌
addr_at_lem s ip k i e ne =
    bind-ok (inode_at ip) _ (inode_at_lem ip s i e)
    ∙ if-false (get_or i.addrs k 0 == 0) _ _ s (ground arith)

indirect_at_lem :
    (s : Fs) (b k : ℕ)
    → get32 (s.blocks b) (4 * k) ≢ 0
    → indirect_at b k s ≡ ok (get32 (s.blocks b) (4 * k)) s
unfolding indirect_at ◌>>=◌
indirect_at_lem s b k ne = if-false (get32 (s.blocks b) (4 * k) == 0) _ _ s (ground arith)

pub block_of-direct :
    (s : Fs) (i : Inode) (bn : ℕ) → ltb bn ndirect ≡ true → block_of s i bn ≡ get_or i.addrs bn 0
block_of-direct s i bn e = rw e refl

pub block_of-indirect :
    (s : Fs) (i : Inode) (bn : ℕ)
    → ltb bn ndirect ≡ false
    → block_of s i bn ≡ get32 (s.blocks (get_or i.addrs ndirect 0)) (4 * (bn - ndirect))
block_of-indirect s i bn e = rw e refl

pub bmap_lem :
    (s : Fs) (ip : ℕ) (i : Inode) (bn : ℕ)
    → Whole s ip i
    → bn * bsize < i.size
    → bmap ip bn s ≡ ok (block_of s i bn) s
unfolding bmap ◌>>=◌
bmap_lem s ip i bn w lt = elim (Bool-cases (ltb bn ndirect)) [
  | inl direct ↦
      let at = block_of-direct s i bn direct in
      if-true (ltb bn ndirect) _ _ s direct
      ∙ addr_at_lem s ip bn i w.slot (subst (λ x. x ≢ 0) at (w.present bn lt))
      ∙ ap (λ x. ok x s) (sym at)
  | inr far ↦
      let at = block_of-indirect s i bn far in
      let ne : get_or i.addrs ndirect 0 ≢ 0 = w.indirect (ground arith) in
      let in_range : ltb (bn - ndirect) nindirect ≡ true = ground (arith, w.small) in
      if-false (ltb bn ndirect) _ _ s far
      ∙ if-true (ltb (bn - ndirect) nindirect) _ _ s in_range
      ∙ bind-ok (addr_at ip ndirect) _ (addr_at_lem s ip ndirect i w.slot ne)
      ∙ indirect_at_lem s (get_or i.addrs ndirect 0) (bn - ndirect)
          (subst (λ x. x ≢ 0) at (w.present bn lt))
      ∙ ap (λ x. ok x s) (sym at)
]

pub bytes_from-append :
    (d : Block) (o m n : ℕ) → bytes_from d o (m + n) ≡ bytes_from d o m ++ bytes_from d (o + m) n
unfolding bytes_from
bytes_from-append d o zero n =
    let a : 0 + n ≡ n = omega arith in let b : o + 0 ≡ o = omega arith in rw (a, b) refl
bytes_from-append d o (suc m) n =
    let a : suc m + n ≡ suc (m + n) = omega arith in
    let b : o + suc m ≡ o + 1 + m = omega arith in
    ap (bytes_from d o) a
    ∙ ap (λ xs. d o ∷ xs) (bytes_from-append d (o + 1) m n)
    ∙ ap (λ p. d o ∷ (bytes_from d (o + 1) m ++ bytes_from d p n)) (sym b)

pub bytes_from-eq :
    (d e : Block) (o p m : ℕ)
    → ((j : ℕ) → j < m → d (o + j) ≡ e (p + j))
    → bytes_from d o m ≡ bytes_from e p m
unfolding bytes_from
bytes_from-eq d e o p zero h = refl
bytes_from-eq d e o p (suc m) h =
    let first : d o ≡ e p =
      subst (λ q. q ≡ e p) (ap d (omega arith)) (h 0 (omega arith) ∙ ap e (omega arith)) in
    let rest =
      bytes_from-eq d e (o + 1) (p + 1) m
        (λ j lt. ap d (omega arith) ∙ h (suc j) (omega arith) ∙ ap e (omega arith)) in
    rw (first, rest) refl

-- The bytes of one round, all in one block.
pub chunk_lem :
    (left off : ℕ)
    → 0 < left
    → (0 < chunk left off) × (chunk left off ≤ left) × (off % bsize + chunk left off ≤ bsize)
chunk_lem left off lt = ground arith

block_bytes :
    (s : Fs) (i : Inode) (off m : ℕ)
    → off % bsize + m ≤ bsize
    → bytes_from (s.blocks (block_of s i (off / bsize))) (off % bsize) m
      ≡ bytes_from (byte_of s i) off m
block_bytes s i off m le = bytes_from-eq _ _ (off % bsize) off m (λ j lt.
    let q : (off + j) / bsize ≡ off / bsize = omega arith in
    let r : (off + j) % bsize ≡ off % bsize + j = omega arith in
    ap (λ x. s.blocks (block_of s i x) (off % bsize + j)) (sym q)
    ∙ ap (λ x. s.blocks (block_of s i ((off + j) / bsize)) x) (sym r))

read_chunk_lem :
    (s : Fs) (ip : ℕ) (i : Inode) (off m : ℕ)
    → Whole s ip i
    → off < i.size
    → off % bsize + m ≤ bsize
    → read_chunk ip off m s ≡ ok (bytes_from (byte_of s i) off m) s
unfolding read_chunk ◌>>=◌
read_chunk_lem s ip i off m w lt le =
    bind-ok (bmap ip (off / bsize)) _ (bmap_lem s ip i (off / bsize) w (omega arith))
    ∙ ap (λ x. ok x s) (block_bytes s i off m le)

read_loop_lem :
    (s : Fs) (ip : ℕ) (i : Inode) (fuel left off : ℕ)
    → Whole s ip i
    → left ≤ fuel
    → off + left ≤ i.size
    → read_loop ip fuel left off s ≡ ok (bytes_from (byte_of s i) off left) s
unfolding read_loop bytes_from ◌>>=◌
read_loop_lem s ip i fuel zero off w le fits = refl
read_loop_lem s ip i zero (suc left) off w le fits = absurd (omega arith)
read_loop_lem s ip i (suc fuel) (suc left) off w le fits =
    let (pos, most, one) = chunk_lem (suc left) off (omega arith) in
    let m = chunk (suc left) off in
    let next : add32 off m ≡ off + m = ground (arith, w.small) in
    let rest = read_loop_lem s ip i fuel (suc left - m) (off + m) w (omega arith) (omega arith) in
    let all : m + (suc left - m) ≡ suc left = omega arith in
    let joined : bytes_from (byte_of s i) off m ++ bytes_from (byte_of s i) (off + m) (suc left - m)
        ≡ bytes_from (byte_of s i) off (suc left) =
      sym (bytes_from-append (byte_of s i) off m (suc left - m))
      ∙ ap (bytes_from (byte_of s i) off) all in
    bind-ok (read_chunk ip off m) _ (read_chunk_lem s ip i off m w (omega arith) one)
    ∙ bind-ok (read_loop ip fuel (suc left - m) (add32 off m)) _
        (ap (λ x. read_loop ip fuel (suc left - m) x s) next ∙ rest)
    ∙ ap (λ xs. ok xs s) joined

-- The number of bytes of a read that does not fail.
abbrev pub readable : Inode → ℕ → ℕ → ℕ
readable i off n = if ltb i.size (off + n) then i.size - off else n

read_file_lem :
    (s : Fs) (ip : ℕ) (i : Inode) (off n : ℕ)
    → Whole s ip i
    → off ≤ i.size
    → off + n < 2 ^ 32
    → read_file ip off n s
      ≡ ok (readable i off n, bytes_from (byte_of s i) off (readable i off n)) s
unfolding read_file ◌>>=◌
read_file_lem s ip i off n w le lt =
    let total : add32 off n ≡ off + n = omega arith in
    let fine : (ltb i.size off || ltb (add32 off n) off) ≡ false = ground arith in
    let m : (if ltb i.size (add32 off n) then i.size - off else n) ≡ readable i off n =
      rw total refl in
    bind-ok (inode_at ip) _ (inode_at_lem ip s i w.slot)
    ∙ if-false (ltb i.size off || ltb (add32 off n) off) _ _ s fine
    ∙ ap (λ k. (read_loop ip k k off >>= λ bytes. pure (k, bytes)) s) m
    ∙ bind-ok (read_loop ip (readable i off n) (readable i off n) off) _ (
        read_loop_lem s ip i (readable i off n) (readable i off n) off w (omega arith)
          (ground arith))

read_file_fails :
    (s : Fs) (ip : ℕ) (i : Inode) (off n : ℕ)
    → get_elem? s.inodes ip ≡ some i
    → (ltb i.size off || ltb (add32 off n) off) ≡ true
    → read_file ip off n s ≡ ok (minus_one, []) s
unfolding read_file ◌>>=◌
read_file_fails s ip i off n e bad =
    bind-ok (inode_at ip) _ (inode_at_lem ip s i e)
    ∙ if-true (ltb i.size off || ltb (add32 off n) off) _ _ s bad

-- For a file in a slot of the inode cache that is not a device, has all its blocks and is shorter than
-- 2^32 bytes (as MAXFILE blocks are), `readi` at `off` of `n` bytes fails with -1 when `off` is past
-- the end or `off + n` overflows. Otherwise it returns the number of bytes between `off` and the
-- smaller of `off + n` and the size, and those bytes of the file, in order, and changes nothing.
pub readi_lem :
    (devsw : Devices) (s : Fs) (ip : ℕ) (i : Inode) (off n : ℕ)
    → Whole s ip i
    → i.type ≢ t_dev
    → off < 2 ^ 32
    → n < 2 ^ 32
    → readi devsw ip off n s ≡ (
        if leb off i.size && ltb (off + n) (2 ^ 32)
        then ok (readable i off n, bytes_from (byte_of s i) off (readable i off n)) s
        else ok (minus_one, []) s)
unfolding readi ◌>>=◌
readi_lem devsw s ip i off n w file lo ln =
    bind-ok (inode_at ip) _ (inode_at_lem ip s i w.slot)
    ∙ if-false (i.type == t_dev) _ _ s (ground arith)
    ∙ elim (Bool-cases (leb off i.size && ltb (off + n) (2 ^ 32))) [
      | inl fine ↦ read_file_lem s ip i off n w (ground arith) (ground arith) ∙ rw fine refl
      | inr bad ↦ read_file_fails s ip i off n w.slot (ground arith) ∙ rw bad refl
    ]
