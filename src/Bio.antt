-- ===== src/Bio.antt =====
-- xv6-public/bio.c and sleeplock.c: the buffer cache as the list of its buffers from `head.next` on,
-- most recently used first. A `struct buf *` is the number of the buffer. A function that sleeps in
-- `acquiresleep` ends there: `acquiresleep` is a function of its own.
pub mod Cache
pub mod Recency
pub mod Tests
use tp2_so.Base.{
  ℕ, zero, suc, ◌+◌, Bool, true, false, not, Option, none, some, List, [], ◌∷◌, ◌++◌, ◌==◌, ◌&&◌,
  if◌then◌else◌, get_elem?, modify, take, drop, find_index, add32, sub32,
}

-- `struct sleeplock`, without its name and its spinlock, which each function below holds.
pub record SleepLock : Type 0 where
  pub locked : ℕ
  pub pid : ℕ

-- `struct buf`, `flags` as its two bits, without its data and the disk's queue.
pub record Buf : Type 0 where
  pub id : ℕ
  pub valid : Bool
  pub dirty : Bool
  pub dev : ℕ
  pub blockno : ℕ
  pub lock : SleepLock
  pub refcnt : ℕ

abbrev pub initsleeplock : SleepLock
initsleeplock = record { locked = 0; pid = 0 }

-- `acquiresleep` by the process `me`: `none` is another round of sleep.
unfoldable pub acquiresleep : ℕ → SleepLock → Option SleepLock
acquiresleep me l = if not (l.locked == 0) then none else some (record { locked = 1; pid = me })

-- The wakeup of the lock's channel is left to the caller.
unfoldable pub releasesleep : SleepLock → SleepLock
releasesleep l = record { locked = 0; pid = 0 }

unfoldable pub holdingsleep : ℕ → SleepLock → Bool
holdingsleep me l = not (l.locked == 0) && l.pid == me

abbrev pub nbuf : ℕ
nbuf = 30

-- A buffer at boot.
abbrev pub new_buf : ℕ → Buf
new_buf i = record {
  id = i;
  valid = false;
  dirty = false;
  dev = 0;
  blockno = 0;
  lock = initsleeplock;
  refcnt = 0;
}

-- The loop of `binit` from buffer `i` on, with `n` left: each goes to the front.
unfoldable pub push_all : ℕ → ℕ → List Buf → List Buf
push_all zero i bs = bs
push_all (suc n) i bs = push_all n (suc i) (new_buf i ∷ bs)

unfoldable pub binit : List Buf
unfolding push_all
binit = push_all nbuf 0 []

abbrev pub same_block : ℕ → ℕ → Buf → Bool
same_block dev blockno b = b.dev == dev && b.blockno == blockno

abbrev pub is_spare : Buf → Bool
is_spare b = b.refcnt == 0 && not b.dirty

abbrev pub recycle : ℕ → ℕ → Buf → Buf
recycle dev blockno b = record b {
  dev = dev;
  blockno = blockno;
  valid = false;
  dirty = false;
  refcnt = 1;
}

-- The second loop of `bget`, from the tail of the list: the place of the buffer that it stops at.
unfoldable pub last_spare : List Buf → Option ℕ
last_spare [] = none
last_spare (b ∷ bs) = elim (last_spare bs) [
  | some i ↦ some (suc i)
  | none ↦ if is_spare b then some 0 else none
]

-- `bget` up to `acquiresleep`: the place of the buffer, and the list. `none` is the panic.
unfoldable pub bget : ℕ → ℕ → List Buf → Option (ℕ × List Buf)
bget dev blockno bs = elim (find_index (same_block dev blockno) bs) [
  | some i ↦ some (i, modify bs i (λ b. record b { refcnt = add32 b.refcnt 1 }))
  | none ↦ elim (last_spare bs) [
    | none ↦ none
    | some i ↦ some (i, modify bs i (recycle dev blockno))
  ]
]

-- `bread` once it has the lock, `iderw` being the disk driver's work on the buffer.
unfoldable pub bread : (Buf → Buf) → Buf → Buf
bread iderw b = if not b.valid then iderw b else b

-- `bwrite` of a buffer. `none` is the panic.
unfoldable pub bwrite : (Buf → Buf) → ℕ → Buf → Option Buf
bwrite iderw me b =
    if not (holdingsleep me b.lock) then none else some (iderw (record b { dirty = true }))

-- The buffer at a place goes to the front.
unfoldable pub to_front : ℕ → List Buf → List Buf
to_front i bs = elim (get_elem? bs i) [ none ↦ bs | some b ↦ b ∷ (take i bs ++ drop (suc i) bs) ]

abbrev pub unlock_and_drop : Buf → Buf
unlock_and_drop b = record b { lock = releasesleep b.lock; refcnt = sub32 b.refcnt 1 }

-- `brelse` of the buffer at a place, by the process `me`. `none` is the panic.
unfoldable pub brelse : ℕ → ℕ → List Buf → Option (List Buf)
unfolding holdingsleep releasesleep to_front
brelse me i bs = elim (get_elem? bs i) [
  | none ↦ none
  | some b ↦
      if not (holdingsleep me b.lock)
      then none
      else if sub32 b.refcnt 1 == 0
      then some (to_front i (modify bs i unlock_and_drop))
      else some (modify bs i unlock_and_drop)
]
