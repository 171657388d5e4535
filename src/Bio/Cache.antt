-- ===== src/Bio/Cache.antt =====
-- Runs of the cache of bio.c: which blocks its buffers hold.
use tp2_so.Base.{
  ℕ, zero, suc, ◌+◌, ◌≤◌, ◌<◌, ◌≡◌, ◌≢◌, inl, inr, refl, ◌∙◌, subst, Bool, none, some, List, [],
  ◌∷◌, ◌++◌, ◌==◌, ◌&&◌, if◌then◌else◌, get_elem?, modify, take, drop, find_index, arith,
  Option-cases, Bool-cases, add32, sub32, leb, ltb,
}
use tp2_so.Bio.{
  Buf, binit, push_all, new_buf, nbuf, same_block, recycle, last_spare, bget, to_front,
  unlock_and_drop, brelse, holdingsleep,
}

-- How many buffers pass a test.
abbrev pub count_if : (Buf → Bool) → List Buf → ℕ
count_if t [] = 0
count_if t (b ∷ bs) = (if t b then 1 else 0) + count_if t bs

-- How many hold a block, and how many have a number.
abbrev pub copies : ℕ → ℕ → List Buf → ℕ
copies dev blockno = count_if (same_block dev blockno)

abbrev pub has_id : ℕ → Buf → Bool
has_id n b = b.id == n

-- A write that keeps what the test reads.
count_if-modify :
    (t : Buf → Bool) (f : Buf → Buf) (bs : List Buf) (i : ℕ)
    → ((b : Buf) → t (f b) ≡ t b)
    → count_if t (modify bs i f) ≡ count_if t bs
count_if-modify t f [] i h = ground arith
count_if-modify t f (b ∷ bs) zero h = ground (arith, h b)
count_if-modify t f (b ∷ bs) (suc i) h = ground (arith, count_if-modify t f bs i h)

-- A buffer that is recycled adds at most one copy, of its new block.
copies-recycle :
    (dev blockno d k : ℕ) (bs : List Buf) (i : ℕ)
    → copies d k (modify bs i (recycle dev blockno))
      ≤ copies d k bs + (if dev == d && blockno == k then 1 else 0)
copies-recycle dev blockno d k [] i = ground arith
copies-recycle dev blockno d k (b ∷ bs) zero = ground arith
copies-recycle dev blockno d k (b ∷ bs) (suc i) =
    ground (arith, copies-recycle dev blockno d k bs i)

copies-absent :
    (d k : ℕ) (bs : List Buf) → find_index (same_block d k) bs ≡ none → copies d k bs ≡ 0
unfolding find_index
copies-absent d k [] e = refl
copies-absent d k (b ∷ bs) e = ground (arith, copies-absent d k bs)

count_if-take-drop :
    (t : Buf → Bool) (bs : List Buf) (i : ℕ) (b : Buf)
    → get_elem? bs i ≡ some b
    → count_if t (b ∷ (take i bs ++ drop (suc i) bs)) ≡ count_if t bs
count_if-take-drop t [] i b e = absurd (ground arith)
count_if-take-drop t (c ∷ bs) zero b e = ground arith
count_if-take-drop t (c ∷ bs) (suc i) b e = ground (arith, count_if-take-drop t bs i b)

count_if-to_front :
    (t : Buf → Bool) (bs : List Buf) (i : ℕ) → count_if t (to_front i bs) ≡ count_if t bs
unfolding to_front
count_if-to_front t bs i = elim (Option-cases (get_elem? bs i)) [
  | inl n ↦ rw (n, to_front) refl
  | inr (b, e) ↦ rw (e, to_front) (count_if-take-drop t bs i b e)
]

-- `brelse` keeps the counts of any test that reads neither the lock nor the count.
count_if-brelse :
    (t : Buf → Bool) (bs cs : List Buf) (me i : ℕ)
    → ((b : Buf) → t (unlock_and_drop b) ≡ t b)
    → brelse me i bs ≡ some cs
    → count_if t cs ≡ count_if t bs
unfolding brelse
count_if-brelse t bs cs me i h e = elim (Option-cases (get_elem? bs i)) [
  | inl n ↦ absurd (ground arith)
  | inr (b, g) ↦ elim (Bool-cases (holdingsleep me b.lock)) [
    | inr free ↦ absurd (ground arith)
    | inl held ↦ elim (Bool-cases (sub32 b.refcnt 1 == 0)) [
      | inl last ↦
          let cs_is : to_front i (modify bs i unlock_and_drop) ≡ cs = ground arith in
          subst (λ x. count_if t x ≡ count_if t bs) cs_is
            (count_if-to_front t (modify bs i unlock_and_drop) i
              ∙ count_if-modify t unlock_and_drop bs i h)
      | inr more ↦
          let cs_is : modify bs i unlock_and_drop ≡ cs = ground arith in
          subst (λ x. count_if t x ≡ count_if t bs) cs_is (count_if-modify t unlock_and_drop bs i h)
    ]
  ]
]

-- The calls, and writes of a buffer's flags, lock and count.
pub data Use (bs : List Buf) : List Buf → Type 0 where
  gets : {cs : List Buf} (dev blockno i : ℕ) → bget dev blockno bs ≡ some (i, cs) → Use bs cs
  releases : {cs : List Buf} (me i : ℕ) → brelse me i bs ≡ some cs → Use bs cs
  edits :
      (i : ℕ) (f : Buf → Buf)
      → ((b : Buf) → ((f b).dev ≡ b.dev) × ((f b).blockno ≡ b.blockno) × ((f b).id ≡ b.id))
      → Use bs (modify bs i f)

pub data Uses (bs : List Buf) : List Buf → Type 0 where
  here : Uses bs bs
  next : {cs ds : List Buf} → Uses bs cs → Use cs ds → Uses bs ds

-- Each block has one buffer at most, and buffer `n` is in the list as often as in the list `start`.
pub record Sound (start bs : List Buf) : Type 0 where
  pub single : (d k : ℕ) → d ≢ 0 → copies d k bs ≤ 1
  pub complete : (n : ℕ) → count_if (has_id n) bs ≡ count_if (has_id n) start

bump : Buf → Buf
bump b = record b { refcnt = add32 b.refcnt 1 }

gets-Sound :
    (start bs cs : List Buf) (dev blockno i : ℕ)
    → bget dev blockno bs ≡ some (i, cs)
    → Sound start bs
    → Sound start cs
unfolding bget bump
gets-Sound start bs cs dev blockno i e s =
    elim (Option-cases (find_index (same_block dev blockno) bs)) [
      | inr (j, h) ↦
          let cs_is : modify bs j bump ≡ cs = ground arith in
          subst (Sound start) cs_is (record {
            single = λ d k ne.
                ground
                  (arith, count_if-modify (same_block d k) bump bs j (λ b. refl), s.single d k ne);
            complete = λ n. count_if-modify (has_id n) bump bs j (λ b. refl) ∙ s.complete n;
          })
      | inl miss ↦ elim (Option-cases (last_spare bs)) [
        | inl n ↦ absurd (ground arith)
        | inr (j, h) ↦
            let cs_is : modify bs j (recycle dev blockno) ≡ cs = ground arith in
            subst (Sound start) cs_is (record {
              single = λ d k ne. elim (Bool-cases (dev == d && blockno == k)) [
                | inl same ↦
                    let absent = copies-absent dev blockno bs miss in
                    let dd : dev ≡ d = ground arith in
                    let kk : blockno ≡ k = ground arith in
                    ground (arith, copies-recycle dev blockno dev blockno bs j, absent, dd, kk)
                | inr other ↦ ground (arith, copies-recycle dev blockno d k bs j, s.single d k ne)
              ];
              complete = λ n.
                  count_if-modify (has_id n) (recycle dev blockno) bs j (λ b. refl) ∙ s.complete n;
            })
      ]
    ]

Use-Sound : {start bs cs : List Buf} → Use bs cs → Sound start bs → Sound start cs
Use-Sound {start} {bs} {cs} (gets dev blockno i e) s = gets-Sound start bs cs dev blockno i e s
Use-Sound {start} {bs} {cs} (releases me i e) s = record {
  single = λ d k ne.
      ground (arith, count_if-brelse (same_block d k) bs cs me i (λ b. refl) e, s.single d k ne);
  complete = λ n. count_if-brelse (has_id n) bs cs me i (λ b. refl) e ∙ s.complete n;
}
Use-Sound {start} {bs} {cs} (edits i f keeps) s = record {
  single = λ d k ne. ground (
    arith,
    count_if-modify (same_block d k) f bs i (λ b. ground (arith, keeps b)),
    s.single d k ne,
  );
  complete = λ n. count_if-modify (has_id n) f bs i (λ b. ground (arith, keeps b)) ∙ s.complete n;
}

Uses-Sound : {start bs cs : List Buf} → Uses bs cs → Sound start bs → Sound start cs
Uses-Sound here s = s
Uses-Sound (next us u) s = Use-Sound u (Uses-Sound us s)

push_all-copies :
    (d k n i : ℕ) (bs : List Buf) → d ≢ 0 → copies d k (push_all n i bs) ≡ copies d k bs
unfolding push_all
push_all-copies d k zero i bs ne = refl
push_all-copies d k (suc n) i bs ne =
    ground (arith, push_all-copies d k n (suc i) (new_buf i ∷ bs) ne)

push_all-ids :
    (m n i : ℕ) (bs : List Buf)
    → count_if (has_id m) (push_all n i bs)
      ≡ count_if (has_id m) bs + (if leb i m && ltb m (i + n) then 1 else 0)
unfolding push_all
push_all-ids m zero i bs = ground arith
push_all-ids m (suc n) i bs = ground (arith, push_all-ids m n (suc i) (new_buf i ∷ bs))

none_yet : (d k : ℕ) → d ≢ 0 → copies d k binit ≤ 1
unfolding binit
none_yet d k ne = ground (arith, push_all-copies d k nbuf 0 [] ne)

in_range : (n : ℕ) → n < nbuf → 0 + (if leb 0 n && ltb n (0 + nbuf) then 1 else 0) ≡ 1
in_range n lt = ground arith

all_there : (n : ℕ) → n < nbuf → count_if (has_id n) binit ≡ 1
unfolding binit
all_there n lt = push_all-ids n nbuf 0 [] ∙ in_range n lt

-- From the cache that `binit` makes, in any order of calls of `bget` and `brelse` and of writes of
-- flags, locks and counts, no two buffers ever hold the same block of a device other than 0 (which is
-- what all name at boot), and each of the 30 buffers is in the list once.
pub one_buffer :
    {bs : List Buf}
    → Uses binit bs
    → ((d k : ℕ) → d ≢ 0 → copies d k bs ≤ 1) × ((n : ℕ) → n < nbuf → count_if (has_id n) bs ≡ 1)
one_buffer {bs} us =
    let first : Sound binit binit = record {
      single = λ d k ne. none_yet d k ne;
      complete = λ n. refl;
    } in
    let s = Uses-Sound us first in (s.single, λ n lt. s.complete n ∙ all_there n lt)
