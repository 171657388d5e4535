-- ===== src/Log/Crash.antt =====
-- A crash during `commit` of log.c, at any write, and the recovery after it.
use tp2_so.Base.{
  subst, ℕ, suc, ◌+◌, ◌<◌, ◌≡◌, ◌≢◌, ◌⊎◌, inl, inr, refl, sym, ◌∙◌, ap, true, List, [], ◌∷◌,
  if◌then◌else◌, arith, length,
}
use tp2_so.Log.{update, Disk, Io, write_head, install_trans, write_log, commit, recover_from_log}
use tp2_so.Log.Install.{
  IsHome-of_member, All-map, write_head-SlotsHold, IsHome, AllHome, member, SlotsHold, All,
  write_log-SlotsHold, write_log_keeps, install_trans_at, install_trans_keeps,
}

commit-eq :
    {B : Type 0} (start : ℕ) (lh : List ℕ) (io : Io B)
    → lh ≢ []
    → commit start lh io
      ≡ write_head [] (install_trans start 0 lh (write_head lh (write_log start 0 lh io)))
unfolding commit
commit-eq start [] io ne = absurd (ne refl)
commit-eq start (b ∷ bs) io ne = refl

module _ {B : Type 0} (start size : ℕ) where
  -- The home blocks of the disk have the contents `f`.
  abbrev pub Shows : (ℕ → B) → Disk B → Type 0
  Shows f d = (c : ℕ) → IsHome start size c → d.blocks c ≡ f c

  -- The log blocks of the disk hold the contents `v` of the blocks `bs`.
  abbrev DiskHolds : ℕ → List ℕ → Disk B → (ℕ → B) → Type 0
  DiskHolds t [] d v = Unit {0}
  DiskHolds t (b ∷ bs) d v = (d.blocks (start + t + 1) ≡ v b) × DiskHolds (suc t) bs d v

  SlotsHold-of_disk :
      (t : ℕ) (bs : List ℕ) (d : Disk B) (v : ℕ → B)
      → DiskHolds t bs d v
      → SlotsHold start t bs (record { view = d.blocks; disk = d; crashes = [] }) v
  SlotsHold-of_disk t [] d v h = tt
  SlotsHold-of_disk t (b ∷ bs) d v h = (h.0, h.0, SlotsHold-of_disk (suc t) bs d v h.1)

  DiskHolds-of_slots :
      (t : ℕ) (bs : List ℕ) (io : Io B) (v : ℕ → B)
      → SlotsHold start t bs io v
      → DiskHolds t bs io.disk v
  DiskHolds-of_slots t [] io v h = tt
  DiskHolds-of_slots t (b ∷ bs) io v h = (h.1, DiskHolds-of_slots (suc t) bs io v h.2)

  DiskHolds-update :
      (t : ℕ) (bs : List ℕ) (d : Disk B) (v : ℕ → B) (b : ℕ) (x : B)
      → t + length bs < size
      → IsHome start size b
      → DiskHolds t bs d v
      → DiskHolds t bs (record d { blocks = update d.blocks b x }) v
  DiskHolds-update t [] d v b x s h k = tt
  DiskHolds-update t (c ∷ bs) d v b x s h k =
      (ground (arith, k.0), DiskHolds-update (suc t) bs d v b x (omega arith) h k.1)

  -- The transaction that writes the contents `v` to the blocks `lh` over the contents `old`.
  module _ (lh : List ℕ) (old v : ℕ → B) where
    abbrev pub updated : ℕ → B
    updated c = if member c lh then v c else old c

    -- Before the commit point, and from it on.
    record Before (d : Disk B) : Type 0 where
      no_header : d.header ≡ []
      old_blocks : Shows old d

    record After (d : Disk B) : Type 0 where
      header : d.header ≡ lh
      slots : DiskHolds 0 lh d v
      blocks :
          (c : ℕ)
          → IsHome start size c
          → (d.blocks c ≡ old c) ⊎ ((member c lh ≡ true) × (d.blocks c ≡ v c))

    Before-recovers : (d : Disk B) → Before d → Shows old (recover_from_log start d).disk
    unfolding recover_from_log write_head install_trans
    Before-recovers d p c h = rw (p.no_header, install_trans) (p.old_blocks c h)

    After-recovers :
        (d : Disk B)
        → AllHome start size lh
        → length lh < size
        → After d
        → Shows updated (recover_from_log start d).disk
    unfolding recover_from_log write_head
    After-recovers d home fits p c h =
        subst (λ l. (install_trans start 0 l boot).disk.blocks c ≡ updated c) (sym p.header)
          (install_trans_at start size lh 0 boot v c home (omega arith)
              (SlotsHold-of_disk 0 lh d v p.slots)
            ∙ settle c h)
      where
        boot : Io B
        boot = record { view = d.blocks; disk = d; crashes = [] }

        settle :
            (c : ℕ)
            → IsHome start size c
            → (if member c lh then v c else d.blocks c) ≡ (if member c lh then v c else old c)
        settle c h = ground (arith, p.blocks c h)

    Before-step :
        (d : Disk B) (t : ℕ) (x : B)
        → t + 1 < size
        → Before d
        → Before (record d { blocks = update d.blocks (start + t + 1) x })
    Before-step d t x s p = record {
      no_header = p.no_header;
      old_blocks = λ c h. ground (arith, p.old_blocks c h);
    }

    After-step :
        (d : Disk B) (b : ℕ)
        → AllHome start size lh
        → length lh < size
        → member b lh ≡ true
        → After d
        → After (record d { blocks = update d.blocks b (v b) })
    After-step d b home fits m p = record {
      header = p.header;
      slots =
          DiskHolds-update 0 lh d v b (v b) (omega arith) (IsHome-of_member start size lh b home m)
            p.slots;
      blocks = λ c h. ground (arith, p.blocks c h, ap v);
    }

    -- After a crash with this disk, recovery shows all of the transaction or none of it.
    abbrev pub Atomic : Disk B → Type 0
    Atomic d =
        Shows old (recover_from_log start d).disk ⊎ Shows updated (recover_from_log start d).disk

    -- What the parts of `commit` have established when they are done.
    record Logged (io : Io B) : Type 0 where
      old_disk : Before io.disk
      safe : All Atomic io.crashes
      slots : SlotsHold start 0 lh io v

    logged :
        (io : Io B)
        → AllHome start size lh
        → length lh < size
        → Before io.disk
        → io.crashes ≡ []
        → ((c : ℕ) → IsHome start size c → io.view c ≡ v c)
        → Logged (write_log start 0 lh io)
    logged io home fits old_disk none_yet sees =
        let (p, a) =
          write_log_keeps start size Before (λ d t x s q. Before-step d t x s q) lh 0 io
            (omega arith) old_disk (rw none_yet tt) in
        record {
          old_disk = p;
          safe = All-map Before Atomic _ (λ d q. inl (Before-recovers d q)) a;
          slots = write_log-SlotsHold start size lh 0 io v home (omega arith) sees;
        }

    record Installed (io : Io B) : Type 0 where
      safe : All Atomic io.crashes
      home_blocks : Shows updated io.disk

    installed :
        (io : Io B)
        → AllHome start size lh
        → length lh < size
        → Logged io
        → Installed (install_trans start 0 lh (write_head lh io))
    unfolding write_head
    installed io home fits g =
        let io2 = write_head lh io in
        let slots = write_head-SlotsHold start size lh 0 lh io v g.slots in
        let after : After io2.disk = record {
          header = refl;
          slots = DiskHolds-of_slots 0 lh io2 v slots;
          blocks = λ c h. inl (g.old_disk.old_blocks c h);
        } in
        let atomic = λ (d : Disk B) (q : After d). inr (After-recovers d home fits q) in
        let (p, a) =
          install_trans_keeps start size After Atomic v atomic lh 0 io2
            (λ d b m q. After-step d b home fits m q) home (omega arith) slots after
            (atomic io2.disk after, g.safe) in
        record {
          safe = a;
          home_blocks = λ c h.
              install_trans_at start size lh 0 io2 v c home (omega arith) slots
              ∙ ap (λ x. if member c lh then v c else x) (g.old_disk.old_blocks c h);
        }

    cleared_recovers :
        (d : Disk B)
        → d.header ≡ []
        → Shows updated d
        → Shows updated (recover_from_log start d).disk
    unfolding recover_from_log write_head install_trans
    cleared_recovers d e h c hc = rw (e, install_trans) (h c hc)

    -- `commit` of a transaction that writes `v` to the blocks `lh`, at least one and fewer than the
    -- log has blocks, all outside the log, from a disk with an empty header and a cache that shows `v`
    -- for the home blocks: at whatever write the machine stops, recovery shows either every home block as before, or every block of the transaction
    -- written and the others as before. When `commit` is done, the blocks are written and the
    -- header is empty.
    pub commit-Atomic :
        (io : Io B)
        → lh ≢ []
        → AllHome start size lh
        → length lh < size
        → io.disk.header ≡ []
        → Shows old io.disk
        → io.crashes ≡ []
        → ((c : ℕ) → IsHome start size c → io.view c ≡ v c)
        → All Atomic (commit start lh io).crashes
          × Shows updated (commit start lh io).disk
          × ((commit start lh io).disk.header ≡ [])
    unfolding write_head
    commit-Atomic io ne home fits empty olds none_yet sees =
        let start_disk : Before io.disk = record { no_header = empty; old_blocks = olds } in
        let g = logged io home fits start_disk none_yet sees in
        let i = installed (write_log start 0 lh io) home fits g in
        let io3 = install_trans start 0 lh (write_head lh (write_log start 0 lh io)) in
        let cleared : Disk B = record (io3.disk) { header = [] } in
        rw (commit-eq start lh io ne)
          ((inr (cleared_recovers cleared refl i.home_blocks), i.safe), i.home_blocks, refl)
