-- ===== src/Log/Install.antt =====
-- What the two copying loops of log.c do to the blocks of the disk.
use tp2_so.Base.{
  subst, ℕ, suc, ◌+◌, ◌≤◌, ◌<◌, ◌≡◌, ◌⊎◌, inl, inr, refl, ap, Bool, true, false, List, [], ◌∷◌,
  ◌==◌, if◌then◌else◌, arith, Bool-cases, length,
}
use tp2_so.Log.{update, Disk, Io, bwrite, write_head, install_trans, write_log}

-- The block numbers outside the log's region of `size` blocks.
abbrev pub IsHome : ℕ → ℕ → ℕ → Type 0
IsHome start size b = (b < start) ⊎ (start + size ≤ b)

abbrev pub AllHome : ℕ → ℕ → List ℕ → Type 0
AllHome start size [] = Unit {0}
AllHome start size (b ∷ bs) = IsHome start size b × AllHome start size bs

abbrev pub member : ℕ → List ℕ → Bool
member c [] = false
member c (b ∷ bs) = if b == c then true else member c bs

-- The log blocks from `tail` on hold the contents `v` of the home blocks `bs`, in the cache and on the
-- disk.
abbrev pub SlotsHold : {B : Type 0} → ℕ → ℕ → List ℕ → Io B → (ℕ → B) → Type 0
SlotsHold start tail [] io v = Unit {0}
SlotsHold start tail (b ∷ bs) io v =
    (io.view (start + tail + 1) ≡ v b)
    × (io.disk.blocks (start + tail + 1) ≡ v b)
    × SlotsHold start (suc tail) bs io v

abbrev pub All : {B : Type 0} → (Disk B → Type 0) → List (Disk B) → Type 0
All P [] = Unit {0}
All P (d ∷ ds) = P d × All P ds

module _ {B : Type 0} (start size : ℕ) where
  -- `write_log` writes no slot before `tail`.
  write_log-kept :
      (bs : List ℕ) (t u : ℕ) (io : Io B)
      → u < t
      → ((write_log start t bs io).view (start + u + 1) ≡ io.view (start + u + 1))
        × ((write_log start t bs io).disk.blocks (start + u + 1) ≡ io.disk.blocks (start + u + 1))
  unfolding write_log bwrite
  write_log-kept [] t u io h = (refl, refl)
  write_log-kept (b ∷ bs) t u io h =
      ground (arith, write_log-kept bs (suc t) u (bwrite (start + t + 1) (io.view b) io))

  -- It copies the contents of the home blocks into the slots.
  pub write_log-SlotsHold :
      (bs : List ℕ) (t : ℕ) (io : Io B) (v : ℕ → B)
      → AllHome start size bs
      → t + length bs < size
      → ((c : ℕ) → IsHome start size c → io.view c ≡ v c)
      → SlotsHold start t bs (write_log start t bs io) v
  unfolding write_log bwrite
  write_log-SlotsHold [] t io v h s e = tt
  write_log-SlotsHold (b ∷ bs) t io v h s e =
      let io1 = bwrite (start + t + 1) (io.view b) io in
      let kept = write_log-kept bs (suc t) t io1 (omega arith) in
      (
        ground (arith, kept, e b, h.0),
        ground (arith, kept, e b, h.0),
        write_log-SlotsHold bs (suc t) io1 v h.1 (omega arith) (λ c hc. ground (arith, e c)),
      )

  -- And leaves the home blocks, the header and, in every crash, both.
  pub write_log_keeps :
      (P : Disk B → Type 0)
      → ((d : Disk B) (t : ℕ) (x : B)
          → t + 1 < size
          → P d
          → P (record d { blocks = update d.blocks (start + t + 1) x }))
      → (bs : List ℕ) (t : ℕ) (io : Io B) → t + length bs < size
      → P io.disk
      → All P io.crashes
      → P (write_log start t bs io).disk × All P (write_log start t bs io).crashes
  unfolding write_log bwrite
  write_log_keeps P step [] t io s p a = (p, a)
  write_log_keeps P step (b ∷ bs) t io s p a =
      let p1 = step io.disk t (io.view b) (omega arith) p in
      write_log_keeps P step bs (suc t) (bwrite (start + t + 1) (io.view b) io) (omega arith) p1
        (p1, a)

  -- A write to a home block leaves the slots.
  bwrite-SlotsHold :
      (bs : List ℕ) (t b : ℕ) (x : B) (io : Io B) (v : ℕ → B)
      → t + length bs < size
      → IsHome start size b
      → SlotsHold start t bs io v
      → SlotsHold start t bs (bwrite b x io) v
  unfolding bwrite
  bwrite-SlotsHold [] t b x io v s h k = tt
  bwrite-SlotsHold (c ∷ bs) t b x io v s h k = (
    ground (arith, k.0),
    ground (arith, k.1),
    bwrite-SlotsHold bs (suc t) b x io v (omega arith) h k.2,
  )

  -- `install_trans` brings the contents home.
  pub install_trans_at :
      (bs : List ℕ) (t : ℕ) (io : Io B) (v : ℕ → B) (c : ℕ)
      → AllHome start size bs
      → t + length bs < size
      → SlotsHold start t bs io v
      → (install_trans start t bs io).disk.blocks c
        ≡ (if member c bs then v c else io.disk.blocks c)
  unfolding install_trans bwrite
  install_trans_at [] t io v c h s k = refl
  install_trans_at (b ∷ bs) t io v c h s k =
      let io1 = bwrite b (io.view (start + t + 1)) io in
      let rest =
        bwrite-SlotsHold bs (suc t) b (io.view (start + t + 1)) io v (omega arith) h.0 k.2 in
      ground (arith, install_trans_at bs (suc t) io1 v c h.1 (omega arith) rest, k.0, ap v)

  -- And keeps what every such write keeps; every crash has what follows from that.
  pub install_trans_keeps :
      (P Q : Disk B → Type 0) (v : ℕ → B)
      → ((d : Disk B) → P d → Q d)
      → (bs : List ℕ) (t : ℕ) (io : Io B)
      → ((d : Disk B) (b : ℕ)
          → member b bs ≡ true
          → P d
          → P (record d { blocks = update d.blocks b (v b) }))
      → AllHome start size bs
      → t + length bs < size
      → SlotsHold start t bs io v
      → P io.disk
      → All Q io.crashes
      → P (install_trans start t bs io).disk × All Q (install_trans start t bs io).crashes
  unfolding install_trans bwrite
  install_trans_keeps P Q v q [] t io step h s k p a = (p, a)
  install_trans_keeps P Q v q (b ∷ bs) t io step h s k p a =
      let io1 = bwrite b (io.view (start + t + 1)) io in
      let rest =
        bwrite-SlotsHold bs (suc t) b (io.view (start + t + 1)) io v (omega arith) h.0 k.2 in
      let p1 : P io1.disk = rw k.0 (step io.disk b (ground arith) p) in
      install_trans_keeps P Q v q bs (suc t) io1 (λ d c m. step d c (ground arith)) h.1
        (omega arith) rest p1 (q io1.disk p1, a)

  pub write_head-SlotsHold :
      (hs : List ℕ) (t : ℕ) (lh : List ℕ) (io : Io B) (v : ℕ → B)
      → SlotsHold start t lh io v
      → SlotsHold start t lh (write_head hs io) v
  unfolding write_head
  write_head-SlotsHold hs t [] io v k = tt
  write_head-SlotsHold hs t (b ∷ bs) io v k =
      (k.0, k.1, write_head-SlotsHold hs (suc t) bs io v k.2)

pub All-map :
    {B : Type 0} (P Q : Disk B → Type 0) (ds : List (Disk B))
    → ((d : Disk B) → P d → Q d)
    → All P ds
    → All Q ds
All-map P Q [] q a = tt
All-map P Q (d ∷ ds) q a = (q d a.0, All-map P Q ds q a.1)

pub IsHome-of_member :
    (start size : ℕ) (bs : List ℕ) (c : ℕ)
    → AllHome start size bs
    → member c bs ≡ true
    → IsHome start size c
IsHome-of_member start size [] c h m = absurd (ground arith)
IsHome-of_member start size (b ∷ bs) c h m = elim (Bool-cases (b == c)) [
  | inl e ↦ let same : b ≡ c = ground arith in subst (IsHome start size) same h.0
  | inr e ↦ IsHome-of_member start size bs c h.1 (ground arith)
]
