-- ===== src/File/Counts.antt =====
-- file.c: users of open files, and the count of references to a slot.
use tp2_so.Base.{
  occurs, ℕ, ◌+◌, ◌<◌, ◌^◌, ◌≡◌, inl, inr, subst, false, Option, none, some, List, ◌∷◌, ◌++◌, ◌==◌,
  if◌then◌else◌, get_elem?, get_elem?-modify, modify, find_index, find_index-passes, arith,
  Option-cases, add32, slt,
}
use tp2_so.File.{File, filealloc, filedup, fileclose, Last, FileType}

-- The table, with one entry of `owners` for each reference that is out: a descriptor of a process, or
-- one that a call holds.
pub record Open : Type 0 where
  pub files : List File
  pub owners : List ℕ

-- The fields that whoever opens a file writes, the count apart.
abbrev pub filled : FileType → ℕ → ℕ → ℕ → ℕ → ℕ → File → File
filled type readable writable pipe ip off f = record {
  type = type;
  ref = f.ref;
  readable = readable;
  writable = writable;
  pipe = pipe;
  ip = ip;
  off = off;
}

-- Who holds a reference may copy it, give it up, or fill in the entry.
pub data Use (s : Open) : Open → Type 0 where
  allocs :
      (i : ℕ) (fs : List File)
      → filealloc s.files ≡ (some i, fs)
      → Use s (record { files = fs; owners = i ∷ s.owners })
  dups :
      (i : ℕ) (fs : List File)
      → 0 < occurs i s.owners
      → occurs i s.owners + 1 < 2 ^ 31
      → filedup i s.files ≡ some fs
      → Use s (record { files = fs; owners = i ∷ s.owners })
  closes :
      (before after : List ℕ) (i : ℕ) (l : Last) (fs : List File)
      → s.owners ≡ before ++ (i ∷ after)
      → fileclose i s.files ≡ some (l, fs)
      → Use s (record { files = fs; owners = before ++ after })
  fills :
      (i : ℕ) (type : FileType) (readable writable pipe ip off : ℕ)
      → 0 < occurs i s.owners
      → Use s (record {
        files = modify s.files i (filled type readable writable pipe ip off);
        owners = s.owners;
      })

pub data Uses (s : Open) : Open → Type 0 where
  here : Uses s s
  next : {t u : Open} → Uses s t → Use t u → Uses s u

-- Slot `j` counts the references to it.
abbrev pub ref_of : Option File → ℕ
ref_of none = 0
ref_of (some f) = f.ref

abbrev pub ref_at : List File → ℕ → ℕ
ref_at fs j = ref_of (get_elem? fs j)

pub record Counted (s : Open) : Type 0 where
  pub counts : (j : ℕ) → ref_at s.files j ≡ occurs j s.owners
  pub small : (j : ℕ) → occurs j s.owners < 2 ^ 31

pub ref_at-modify :
    (f : File → File) (fs : List File) (i j : ℕ) (o : File)
    → get_elem? fs i ≡ some o
    → ref_at (modify fs i f) j ≡ (if i == j then (f o).ref else ref_at fs j)
ref_at-modify f fs i j o g = ground (arith, get_elem?-modify fs i j f)

pub allocs-Counted :
    (s : Open) (i : ℕ) (fs : List File)
    → filealloc s.files ≡ (some i, fs)
    → Counted s
    → Counted (record { files = fs; owners = i ∷ s.owners })
unfolding filealloc
allocs-Counted s i fs e c = elim (Option-cases (find_index (λ f. f.ref == 0) s.files)) [
  | inl n ↦ absurd (ground arith)
  | inr (k, h) ↦
      let (o, g, z) = find_index-passes (λ (f : File). f.ref == 0) s.files k h in
      let same : k ≡ i = ground arith in
      let after : fs ≡ modify s.files i (λ f. record f { ref = 1 }) = ground arith in
      let at_i : get_elem? s.files i ≡ some o = subst (λ x. get_elem? s.files x ≡ some o) same g in
      let empty : o.ref ≡ 0 = ground arith in
      record {
        counts = λ j. rw after (
            ground (
              arith,
              ref_at-modify (λ f. record f { ref = 1 }) s.files i j o at_i,
              c.counts j,
              at_i,
            ));
        small = λ j. ground (arith, c.small j, c.counts j, at_i);
      }
]

-- A reference that is out is to a slot with a count of at least 1.
pub held :
    (s : Open) (i : ℕ)
    → Counted s
    → 0 < occurs i s.owners
    → (o : File) × (get_elem? s.files i ≡ some o)
      × (o.ref ≡ occurs i s.owners)
      × (slt o.ref 1 ≡ false)
held s i c pos = elim (Option-cases (get_elem? s.files i)) [
  | inl n ↦ absurd (ground (arith, c.counts i))
  | inr (o, g) ↦ (o, g, ground (arith, c.counts i), ground (arith, c.counts i, c.small i))
]

-- `filedup` by a holder.
pub dup_ok :
    (s : Open) (i : ℕ)
    → Counted s
    → 0 < occurs i s.owners
    → filedup i s.files ≡ some (modify s.files i (λ g. record g { ref = add32 g.ref 1 }))
unfolding filedup
dup_ok s i c pos = let (o, g, r, ok) = held s i c pos in rw (g, filedup, ok)

pub dups-Counted :
    (s : Open) (i : ℕ)
    → Counted s
    → 0 < occurs i s.owners
    → occurs i s.owners + 1 < 2 ^ 31
    → Counted (record {
      files = modify s.files i (λ g. record g { ref = add32 g.ref 1 });
      owners = i ∷ s.owners;
    })
dups-Counted s i c pos lt =
    let (o, g, r, ok) = held s i c pos in
    record {
      counts = λ j. ground (
        arith,
        ref_at-modify (λ g. record g { ref = add32 g.ref 1 }) s.files i j o g,
        c.counts j,
      );
      small = λ j. ground (arith, c.small j);
    }
