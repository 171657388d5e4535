-- ===== src/File/Chunks.antt =====
-- The loop of `filewrite` in file.c.
use tp2_so.Base.{
  ℕ, zero, suc, ◌+◌, ◌-◌, ◌≤◌, ◌<◌, ◌^◌, ◌≡◌, ◌≢◌, ◌⊎◌, inl, inr, refl, sym, ◌∙◌, ap, subst, true,
  false, Option, none, some, ◌==◌, if◌then◌else◌, ltb, arith, Bool-cases, add32, slt, minus_one,
}
use tp2_so.File.{File, Inodes, fd_inode, filewrite, write_chunk, write_chunks, advance}

-- The file after `n` more bytes.
abbrev pub moved_on : ℕ → File → File
moved_on n f = record f { off = add32 f.off n }

-- The bytes of a round when `i` of `n` are written.
abbrev pub size : ℕ → ℕ → ℕ
size i n = if ltb 1536 (n - i) then 1536 else n - i

module _ {S : Type 0} (io : Inodes S) (f : File) (addr n : ℕ) where
  -- What `writei` gives in the round that starts at `i` bytes, and the state after that round.
  abbrev pub wrote : ℕ → S → ℕ × S
  wrote i s = io.writei f.ip (addr + i) (add32 f.off i) (size i n) (io.ilock f.ip (io.begin_op s))

  abbrev pub after_round : ℕ → S → S
  after_round i s = io.end_op (io.iunlock f.ip (wrote i s).1)

  -- Rounds that write all their bytes take the first number of bytes and state to the second.
  pub data Rounds : ℕ → S → ℕ → S → Type 0 where
    here : (i : ℕ) (s : S) → Rounds i s i s
    round :
        (i j : ℕ) (s t : S)
        → i < n
        → (wrote i s).0 ≡ size i n
        → Rounds (i + size i n) (after_round i s) j t
        → Rounds i s j t

  -- Every round has written its bytes, and the answer is `n`.
  pub record All (i : ℕ) (s : S) (r : Option (Option (ℕ × File × S))) : Type 0 where
    pub t : S
    pub rounds : Rounds i s n t
    pub answer : r ≡ some (some (n, moved_on n f, t))

  -- The round that follows `j` bytes is the first whose `writei` answers a negative number. The answer
  -- is -1.
  pub record Fails (i : ℕ) (s : S) (r : Option (Option (ℕ × File × S))) : Type 0 where
    pub j : ℕ
    pub t : S
    pub rounds : Rounds i s j t
    pub unfinished : j < n
    pub negative : slt (wrote j t).0 0 ≡ true
    pub answer : r ≡ some (some (minus_one, moved_on j f, after_round j t))

  -- The round that follows `j` bytes is the first whose `writei` answers another number. It panics.
  pub record Panics (i : ℕ) (s : S) (r : Option (Option (ℕ × File × S))) : Type 0 where
    pub j : ℕ
    pub t : S
    pub rounds : Rounds i s j t
    pub unfinished : j < n
    pub not_negative : slt (wrote j t).0 0 ≡ false
    pub short : (wrote j t).0 ≢ size j n
    pub answer : r ≡ some none

  abbrev pub Ended : ℕ → S → Option (Option (ℕ × File × S)) → Type 0
  Ended i s r = All i s r ⊎ (Fails i s r ⊎ Panics i s r)

  -- A full round before.
  full_round :
      (i : ℕ) (s : S) (r : Option (Option (ℕ × File × S)))
      → i < n
      → (wrote i s).0 ≡ size i n
      → Ended (i + size i n) (after_round i s) r
      → Ended i s r
  full_round i s r lt full e = elim e [
    | inl a ↦ inl (record { t = a.t; rounds = round i n s a.t lt full a.rounds; answer = a.answer })
    | inr (inl a) ↦ inr (
        inl (record {
          j = a.j;
          t = a.t;
          rounds = round i a.j s a.t lt full a.rounds;
          unfinished = a.unfinished;
          negative = a.negative;
          answer = a.answer;
        }))
    | inr (inr a) ↦ inr (
        inr (record {
          j = a.j;
          t = a.t;
          rounds = round i a.j s a.t lt full a.rounds;
          unfinished = a.unfinished;
          not_negative = a.not_negative;
          short = a.short;
          answer = a.answer;
        }))
  ]

  no_advance : (i r : ℕ) → slt r 0 ≡ true → advance r (moved_on i f) ≡ moved_on i f
  no_advance i r neg = let no : slt 0 r ≡ false = ground arith in rw no refl

  full_advance :
      (i : ℕ) → i < n → n < 2 ^ 31 → advance (size i n) (moved_on i f) ≡ moved_on (i + size i n) f
  full_advance i lt hn =
      let pos : slt 0 (size i n) ≡ true = ground arith in
      let off : add32 (add32 f.off i) (size i n) ≡ add32 f.off (i + size i n) = omega arith in
      rw pos (ap (λ o. record f { off = o }) off)

  write_chunks-Ended :
      (fuel i : ℕ) (s : S)
      → n < 2 ^ 31
      → i ≤ n
      → n - i < fuel
      → Ended i s (write_chunks io fuel addr i n (moved_on i f) s)
  unfolding write_chunks write_chunk
  write_chunks-Ended zero i s hn hi hf = absurd (omega arith)
  write_chunks-Ended (suc fuel) i s hn hi hf = elim (Bool-cases (ltb i n)) [
    | inl more ↦
        let unfinished : (i == n) ≡ false = ground arith in
        let r = (wrote i s).0 in
        let step : i < i + size i n = ground arith in
        let below : i + size i n ≤ n = ground arith in
        elim (Bool-cases (slt r 0)) [
          | inl bad ↦ inr (
              inl (record {
                j = i;
                t = s;
                rounds = here i s;
                unfinished = ground arith;
                negative = bad;
                answer =
                    rw (more, write_chunks, bad, unfinished)
                      (ap (λ g. some (some (minus_one, g, after_round i s))) (no_advance i r bad));
              }))
          | inr good ↦ elim (Bool-cases (r == size i n)) [
            | inl full ↦
                let eq : r ≡ size i n = ground arith in
                let next =
                  write_chunks-Ended fuel (i + size i n) (after_round i s) hn below (omega arith) in
                let unrolled : write_chunks io (suc fuel) addr i n (moved_on i f) s
                    ≡ write_chunks io fuel addr (i + r) n (advance r (moved_on i f))
                        (after_round i s) =
                  rw (more, write_chunks, good, full) refl in
                let whole =
                  ap
                    (λ q.
                      write_chunks io fuel addr (i + q) n (advance q (moved_on i f))
                        (after_round i s))
                    eq
                  ∙ ap (λ g. write_chunks io fuel addr (i + size i n) n g (after_round i s))
                      (full_advance i (ground arith) hn) in
                full_round i s _ (ground arith) eq
                  (subst (Ended (i + size i n) (after_round i s)) (sym (unrolled ∙ whole)) next)
            | inr short ↦ inr (
                inr (record {
                  j = i;
                  t = s;
                  rounds = here i s;
                  unfinished = ground arith;
                  not_negative = good;
                  short = ground arith;
                  answer = rw (more, write_chunks, good, short) refl;
                }))
          ]
        ]
    | inr stop ↦
        let eq : i ≡ n = ground arith in
        let done : (i == n) ≡ true = ground arith in
        inl (record {
          t = s;
          rounds = subst (λ k. Rounds i s k s) eq (here i s);
          answer = rw (stop, write_chunks, done) (ap (λ k. some (some (n, moved_on k f, s))) eq);
        })
  ]

filewrite-eq :
    {S : Type 0} (io : Inodes S) (f : File) (addr n fuel : ℕ) (s : S)
    → f.type ≡ fd_inode
    → f.writable ≢ 0
    → filewrite io fuel f addr n s ≡ write_chunks io fuel addr 0 n f s
unfolding filewrite
filewrite-eq io f addr n fuel s ht hw =
    let may : (f.writable == 0) ≡ false = ground arith in ground (arith, may)

-- `filewrite` to a writable file with an inode, of `n` bytes, with fuel for `n` rounds, ends after
-- rounds of 1536 bytes, the last of what is left. If `writei` writes all the bytes of every round, the
-- answer is `n` and the offset moves on by `n`. If `writei` first answers a negative number, the answer
-- is -1, with the offset moved on by the bytes of the rounds before. If it first answers a smaller or a
-- larger number, `filewrite` panics. Each round has its own transaction around the locked inode.
pub filewrite_lem :
    {S : Type 0} (io : Inodes S) (f : File) (addr n fuel : ℕ) (s : S)
    → n < 2 ^ 31
    → n < fuel
    → f.off < 2 ^ 32
    → f.type ≡ fd_inode
    → f.writable ≢ 0
    → Ended io f addr n 0 s (filewrite io fuel f addr n s)
filewrite_lem io f addr n fuel s hn hf ho ht hw =
    let off : add32 f.off 0 ≡ f.off = omega arith in
    let same : moved_on 0 f ≡ f = ap (λ o. record f { off = o }) off in
    subst (Ended io f addr n 0 s)
      (ap (λ g. write_chunks io fuel addr 0 n g s) same
        ∙ sym (filewrite-eq io f addr n fuel s ht hw))
      (write_chunks-Ended io f addr n fuel 0 s hn (omega arith) (omega arith))
