-- ===== src/Fs/Content.antt =====
-- xv6-public/fs.c: reads and writes of an inode's content. The bytes that `readi` puts at `dst` are
-- in its result, those at `src` are a function of their place. The device functions of `devsw` are a
-- parameter.
use tp2_so.Base.{
  ℕ, zero, suc, ◌+◌, ◌-◌, ◌*◌, ◌/◌, ◌%◌, ◌^◌, Bool, not, Option, List, [], ◌++◌, ◌==◌, ◌&&◌, ◌||◌,
  if◌then◌else◌, ltb, add32, minus_one,
}
use tp2_so.Fs.{bsize, maxfile, M, no_fuel, if_none, pure, ◌>>=◌, ◌>>◌, bread, store, log_write}
use tp2_so.Fs.Words.{bytes_from, put_bytes}
use tp2_so.Fs.Inodes.{inode_at, change, iupdate, bmap}

abbrev pub t_dir : ℕ
t_dir = 1

abbrev pub t_file : ℕ
t_file = 2

abbrev pub t_dev : ℕ
t_dev = 3

abbrev pub ndev : ℕ
ndev = 10

-- `struct stat`
pub record Stat : Type 0 where
  pub dev : ℕ
  pub ino : ℕ
  pub type : ℕ
  pub nlink : ℕ
  pub size : ℕ

unfoldable pub stati : ℕ → M Stat
unfolding ◌>>=◌ inode_at
stati ip = do
  i ← inode_at ip
  pure (record { dev = i.dev; ino = i.inum; type = i.type; nlink = i.nlink; size = i.size })

-- `devsw`: a device's functions by its major number, `none` being a null pointer. A read gives its
-- result and the bytes, a write takes them and their number.
pub record Devices : Type 0 where
  pub read : ℕ → Option (ℕ → ℕ × List ℕ)
  pub write : ℕ → Option ((ℕ → ℕ) → ℕ → ℕ)

-- `ip->major < 0 || ip->major >= NDEV`
abbrev pub bad_major : ℕ → Bool
bad_major major = not (ltb major (2 ^ 15)) || not (ltb major ndev)

-- `min(n - tot, BSIZE - off%BSIZE)`
abbrev pub chunk : ℕ → ℕ → ℕ
chunk left off = if ltb left (bsize - off % bsize) then left else bsize - off % bsize

-- The bodies of the loops of `readi` and `writei`, for `m` bytes.
unfoldable pub read_chunk : ℕ → ℕ → ℕ → M (List ℕ)
unfolding bmap bytes_from ◌>>=◌
read_chunk ip off m = do b ← bmap ip (off / bsize); d ← bread b; pure (bytes_from d (off % bsize) m)

unfoldable pub write_chunk : ℕ → (ℕ → ℕ) → ℕ → ℕ → M (Unit {0})
unfolding bmap put_bytes ◌>>=◌
write_chunk ip src off m = do
  b ← bmap ip (off / bsize)
  d ← bread b
  store b (put_bytes d (off % bsize) m src)
  log_write b

-- The loop of `readi`, with `left` bytes to read.
unfoldable pub read_loop : ℕ → ℕ → ℕ → ℕ → M (List ℕ)
unfolding read_chunk
read_loop ip fuel zero off = pure []
read_loop ip zero (suc left) off = no_fuel
read_loop ip (suc fuel) (suc left) off =
    let m = chunk (suc left) off in
    read_chunk ip off m >>= λ bytes.
    read_loop ip fuel (suc left - m) (add32 off m) >>= λ rest. pure (bytes ++ rest)

-- The loop of `writei`: where `off` ends up.
unfoldable pub write_loop : ℕ → (ℕ → ℕ) → ℕ → ℕ → ℕ → M ℕ
unfolding write_chunk
write_loop ip src fuel zero off = pure off
write_loop ip src zero (suc left) off = no_fuel
write_loop ip src (suc fuel) (suc left) off =
    let m = chunk (suc left) off in
    write_chunk ip src off m >> write_loop ip (λ i. src (i + m)) fuel (suc left - m) (add32 off m)

-- `readi` and `writei` of what is not a device; `n` rounds are enough.
unfoldable pub read_file : ℕ → ℕ → ℕ → M (ℕ × List ℕ)
unfolding read_loop ◌>>=◌ inode_at
read_file ip off n = do
  i ← inode_at ip
  if ltb i.size off || ltb (add32 off n) off then pure (minus_one, []) else (do
    let m = if ltb i.size (add32 off n) then i.size - off else n
    bytes ← read_loop ip m m off
    pure (m, bytes))

-- `ip->size = off; iupdate(ip);`
unfoldable pub grow : ℕ → ℕ → M (Unit {0})
unfolding change iupdate ◌>>=◌
grow ip end = do change ip (λ i. record i { size = end }); iupdate ip

unfoldable pub write_file : ℕ → (ℕ → ℕ) → ℕ → ℕ → M ℕ
unfolding write_loop grow ◌>>=◌ inode_at change
write_file ip src off n = do
  i ← inode_at ip
  if ltb i.size off || ltb (add32 off n) off
      then pure minus_one
      else if ltb (maxfile * bsize) (add32 off n)
      then pure minus_one
      else (do
        end ← write_loop ip src n n off
        j ← inode_at ip
        if not (n == 0) && ltb j.size end then grow ip end else pure tt
        pure n)

module _ (devsw : Devices) where
  unfoldable pub readi : ℕ → ℕ → ℕ → M (ℕ × List ℕ)
  unfolding read_file ◌>>=◌ inode_at
  readi ip off n = do
    i ← inode_at ip
    if i.type == t_dev
        then (if bad_major i.major
            then pure (minus_one, [])
            else if_none (devsw.read i.major) (pure (minus_one, [])) λ f. pure (f n))
        else read_file ip off n

  unfoldable pub writei : ℕ → (ℕ → ℕ) → ℕ → ℕ → M ℕ
  unfolding write_file ◌>>=◌ inode_at
  writei ip src off n = do
    i ← inode_at ip
    if i.type == t_dev
        then (if bad_major i.major
            then pure minus_one
            else if_none (devsw.write i.major) (pure minus_one) λ f. pure (f src n))
        else write_file ip src off n
