-- ===== src/Log/Tests.antt =====
-- The log of log.c on a small disk: the log has size 30 at block 2, and the home blocks follow it.
use tp2_so.Base.{ℕ, ◌≡◌, inr, refl, [], ◌∷◌, arith, ◌==◌, if◌then◌else◌}
use tp2_so.Log.{Io, commit, log_write}
use tp2_so.Log.Install.{AllHome, All}
use tp2_so.Log.Crash.{Shows, updated, Atomic, commit-Atomic}
use tp2_so.Log.Ops.{outside}
use tp2_so.Log.Space.{Ops, OpSteps}
use tp2_so.Log.Full.{log_of, idle_log, blocks_from, log_write_panics}
use tp2_so.Base.{none}

-- Block `b` has the content `b`, and the cache has 1000 for block 40.
abbrev old_blocks : ℕ → ℕ
old_blocks b = b

abbrev new_blocks : ℕ → ℕ
new_blocks b = if b == 40 then 1000 else b

abbrev io : Io ℕ
io = record { view = new_blocks; disk = record { header = []; blocks = old_blocks }; crashes = [] }

home_40 : AllHome 2 30 (40 ∷ 41 ∷ [])
home_40 = (inr (omega arith), (inr (omega arith), tt))

commit-Atomic_example :
    All (Atomic 2 30 (40 ∷ 41 ∷ []) old_blocks new_blocks) (commit 2 (40 ∷ 41 ∷ []) io).crashes
    × Shows 2 30
        (updated 2 30 (40 ∷ 41 ∷ []) old_blocks new_blocks)
        (commit 2 (40 ∷ 41 ∷ []) io).disk
    × ((commit 2 (40 ∷ 41 ∷ []) io).disk.header ≡ [])
commit-Atomic_example =
    commit-Atomic 2 30 (40 ∷ 41 ∷ []) old_blocks new_blocks io (λ e. absurd (ground arith)) home_40
      (omega arith) refl (λ c h. refl) refl (λ c h. refl)

abbrev wrote : Ops
wrote = record { log = log_of 1 (40 ∷ []); left = outside 9 ∷ [] }

log_write_panics_example :
    (t : Ops) × OpSteps idle_log t
    × (t.left ≡ outside 0 ∷ outside 0 ∷ outside 1 ∷ [])
    × (t.log.lh ≡ blocks_from 40 29)
    × ((c : ℕ) → log_write c t.log ≡ none)
log_write_panics_example = log_write_panics 40
