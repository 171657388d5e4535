-- ===== src/Log.antt =====
-- xv6-public/log.c: the write-ahead log of the file system. A block is any value of `B`. The header
-- block is kept apart from the others, as the list of the home block numbers in it; log block `tail`
-- is number `start + tail + 1`.
pub mod Install
pub mod Crash
pub mod Ops
pub mod Space
pub mod Full
pub mod Tests
use tp2_so.Base.{
  slt, u32, add32, sub32, ℕ, zero, suc, ◌+◌, ◌-◌, ◌*◌, Bool, true, false, not, Option, none, some,
  List, [], ◌∷◌, ◌++◌, ◌==◌, ◌&&◌, ◌||◌, if◌then◌else◌, ltb, leb, length,
}

abbrev pub logsize : ℕ
logsize = 30

abbrev pub max_op_blocks : ℕ
max_op_blocks = 10

abbrev pub update : {B : Type 0} → (ℕ → B) → ℕ → B → ℕ → B
update f b d c = if b == c then d else f c

pub record Disk (B : Type 0) : Type 0 where
  pub header : List ℕ
  pub blocks : ℕ → B

-- What `bread` gives (the buffer cache), the disk, and the disk after each write so far, the last
-- first: where a crash may strike.
pub record Io (B : Type 0) : Type 0 where
  pub view : ℕ → B
  pub disk : Disk B
  pub crashes : List (Disk B)

module _ {B : Type 0} where
  -- `bwrite` of block `b` with the content `d`.
  unfoldable pub bwrite : ℕ → B → Io B → Io B
  bwrite b d io =
      let disk : Disk B = record (io.disk) { blocks = update io.disk.blocks b d } in
      record { view = update io.view b d; disk = disk; crashes = disk ∷ io.crashes }

  unfoldable pub write_head : List ℕ → Io B → Io B
  write_head lh io =
      let disk : Disk B = record (io.disk) { header = lh } in
      record { view = io.view; disk = disk; crashes = disk ∷ io.crashes }

  -- The loop of `install_trans` from `tail` on, over the block numbers that are left.
  unfoldable pub install_trans : ℕ → ℕ → List ℕ → Io B → Io B
  install_trans start tail [] io = io
  install_trans start tail (b ∷ bs) io =
      install_trans start (suc tail) bs (bwrite b (io.view (start + tail + 1)) io)

  -- The loop of `write_log`.
  unfoldable pub write_log : ℕ → ℕ → List ℕ → Io B → Io B
  write_log start tail [] io = io
  write_log start tail (b ∷ bs) io =
      write_log start (suc tail) bs (bwrite (start + tail + 1) (io.view b) io)

  unfoldable pub commit : ℕ → List ℕ → Io B → Io B
  commit start [] io = io
  commit start (b ∷ bs) io =
      let lh = b ∷ bs in
      write_head [] (install_trans start 0 lh (write_head lh (write_log start 0 lh io)))

  -- `initlog`: at boot nothing is cached; `read_head` takes the header from the disk.
  unfoldable pub recover_from_log : ℕ → Disk B → Io B
  recover_from_log start disk =
      write_head [] (
        install_trans start 0 disk.header
          (record { view = disk.blocks; disk = disk; crashes = [] }))

-- The rest of `struct log`, its `int`s as 32-bit patterns: `lh.block[0 .. lh.n)`, and who is at work.
pub record Log : Type 0 where
  pub size : ℕ
  pub outstanding : ℕ
  pub committing : Bool
  pub lh : List ℕ

-- `begin_op`, up to its end or its next `sleep`.
unfoldable pub begin_op : Log → Option Log
begin_op l =
    if l.committing
    then none
    else if slt logsize (u32 (length l.lh + add32 l.outstanding 1 * max_op_blocks))
    then none
    else some (record l { outstanding = add32 l.outstanding 1 })

-- `end_op` up to the commit: whether this caller is to commit. `none` is the panic.
unfoldable pub end_op : Log → Option (Bool × Log)
end_op l =
    if l.committing
    then none
    else if sub32 l.outstanding 1 == 0
    then some (true, record l { outstanding = sub32 l.outstanding 1; committing = true })
    else some (false, record l { outstanding = sub32 l.outstanding 1 })

-- `end_op` after the commit, which has emptied the header.
unfoldable pub end_commit : Log → Log
end_commit l = record l { committing = false; lh = [] }

-- The loop of `log_write` with the two lines after it: a block that is there is absorbed.
unfoldable pub absorb : ℕ → List ℕ → List ℕ
absorb b [] = b ∷ []
absorb b (c ∷ cs) = c ∷ (if c == b then cs else absorb b cs)

-- The two tests of `log_write`, before it takes the lock: whether it does not panic.
unfoldable pub may_log : Log → Bool
may_log l =
    if leb logsize (length l.lh) || not (slt (length l.lh) (sub32 l.size 1))
    then false
    else not (slt l.outstanding 1)

-- The section of `log_write` under the lock.
unfoldable pub record_block : ℕ → Log → Log
unfolding absorb
record_block b l = record l { lh = absorb b l.lh }

-- `log_write` when nothing comes between the tests and the section. `none` is a panic.
unfoldable pub log_write : ℕ → Log → Option Log
unfolding may_log record_block
log_write b l = if may_log l then some (record_block b l) else none
