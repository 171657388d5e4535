-- ===== src/Fs/Names.antt =====
-- xv6-public/fs.c, the layers of directories and of path names. A string is the list of its bytes up
-- to the 0 that ends it; a `name` of DIRSIZ bytes may have no such 0.
use tp2_so.Base.{
  ℕ, zero, suc, ◌+◌, ◌*◌, ◌/◌, ◌%◌, Bool, true, false, not, Option, none, some, List, [], ◌∷◌, ◌==◌,
  ◌&&◌, if◌then◌else◌, ltb, add32, sub32, minus_one, length, get_or, take, drop, replicate, opt_map,
}
use tp2_so.Fs.{dirsiz, M, no_fuel, if_none, pure, panics, gets, ◌>>=◌, ◌>>◌}
use tp2_so.Fs.Inodes.{inode_at, iget, idup, ilock, iunlock, iput, iunlockput}
use tp2_so.Fs.Content.{Devices, t_dir, readi, writei}

abbrev pub dirent_size : ℕ
dirent_size = 16

-- `strncmp` of two such strings.
unfoldable pub compare_names : ℕ → List ℕ → List ℕ → ℕ
compare_names zero s t = 0
compare_names (suc n) s t =
    let rest = compare_names n (drop 1 s) (drop 1 t) in
    if not (get_or s 0 0 == 0) && get_or s 0 0 == get_or t 0 0
    then rest
    else sub32 (get_or s 0 0) (get_or t 0 0)

unfoldable pub namecmp : List ℕ → List ℕ → ℕ
unfolding compare_names
namecmp s t = compare_names dirsiz s t

-- `struct dirent` in its 16 bytes.
abbrev pub entry_inum : List ℕ → ℕ
entry_inum de = get_or de 0 0 + get_or de 1 0 * 256

abbrev pub entry_name : List ℕ → List ℕ
entry_name de = drop 2 de

-- `strncpy(de.name, name, DIRSIZ)`, and the entry. `n` bytes are left.
unfoldable pub padded : ℕ → List ℕ → List ℕ
padded zero name = []
padded (suc n) [] = replicate (suc n) 0
padded (suc n) (c ∷ name) =
    let rest = padded n name in if c == 0 then replicate (suc n) 0 else c ∷ rest

unfoldable pub entry : List ℕ → ℕ → List ℕ
unfolding padded
entry name inum = inum % 256 ∷ inum / 256 % 256 ∷ padded dirsiz name

abbrev pub slash : ℕ
slash = 47

-- `while(*path == '/') path++;`
unfoldable pub skip_slashes : List ℕ → List ℕ
skip_slashes [] = []
skip_slashes (c ∷ path) = let rest = skip_slashes path in if c == slash then rest else c ∷ path

-- What the loop `while(*path != '/' && *path != 0) path++;` passes, and where it stops.
unfoldable pub span_name : List ℕ → List ℕ × List ℕ
span_name [] = ([], [])
span_name (c ∷ path) =
    let (passed, rest) = span_name path in if c == slash then ([], c ∷ path) else (c ∷ passed, rest)

-- The name, and the path that is left.
unfoldable pub skipelem : List ℕ → Option (List ℕ × List ℕ)
unfolding skip_slashes span_name
skipelem path = elim (skip_slashes path) [
  | [] ↦ none
  | c ∷ rest ↦
      let (passed, left) = span_name (c ∷ rest) in some (take dirsiz passed, skip_slashes left)
]

module _ (devsw : Devices) where
  -- The read of one entry; the other results of `readi` are panics.
  unfoldable pub read_entry : ℕ → ℕ → M (List ℕ)
  unfolding readi ◌>>=◌
  read_entry dp off = do
    r ← readi devsw dp off dirent_size
    if r.0 == dirent_size then pure r.1 else panics

  -- The body of the loop of `dirlookup` at `off`, and the loop.
  unfoldable pub match_entry : ℕ → List ℕ → ℕ → M (Option (ℕ × ℕ)) → M (Option (ℕ × ℕ))
  unfolding read_entry namecmp iget ◌>>=◌ inode_at
  match_entry dp name off next = do
    i ← inode_at dp
    if ltb off i.size
        then (do
          de ← read_entry dp off
          if not (entry_inum de == 0) && namecmp name (entry_name de) == 0
              then (do ip ← iget i.dev (entry_inum de); pure (some (ip, off)))
              else next)
        else pure none

  unfoldable pub lookup_loop : ℕ → List ℕ → ℕ → ℕ → M (Option (ℕ × ℕ))
  unfolding match_entry
  lookup_loop dp name zero off = no_fuel
  lookup_loop dp name (suc fuel) off =
      match_entry dp name off (lookup_loop dp name fuel (add32 off dirent_size))

  -- The inode, and the place of its entry. A directory of `size` bytes takes at most one round more
  -- than it has entries.
  unfoldable pub dirlookup : ℕ → List ℕ → M (Option (ℕ × ℕ))
  unfolding lookup_loop ◌>>=◌ inode_at
  dirlookup dp name = do
    i ← inode_at dp
    if i.type == t_dir then lookup_loop dp name (i.size / dirent_size + 2) 0 else panics

  -- The body of the second loop of `dirlink`, and where the loop stops.
  unfoldable pub empty_at : ℕ → ℕ → M ℕ → M ℕ
  unfolding read_entry ◌>>=◌ inode_at
  empty_at dp off next = do
    i ← inode_at dp
    if ltb off i.size
        then (do de ← read_entry dp off; if entry_inum de == 0 then pure off else next)
        else pure off

  unfoldable pub empty_entry : ℕ → ℕ → ℕ → M ℕ
  unfolding empty_at
  empty_entry dp zero off = no_fuel
  empty_entry dp (suc fuel) off = empty_at dp off (empty_entry dp fuel (add32 off dirent_size))

  -- The write of one entry; the other results of `writei` are panics.
  unfoldable pub write_entry : ℕ → ℕ → List ℕ → M (Unit {0})
  unfolding writei ◌>>=◌
  write_entry dp off de = do
    r ← writei devsw dp (λ k. get_or de k 0) off dirent_size
    if r == dirent_size then pure tt else panics

  unfoldable pub dirlink : ℕ → List ℕ → ℕ → M ℕ
  unfolding dirlookup iput empty_entry write_entry entry ◌>>=◌ inode_at
  dirlink dp name inum = do
    found ← dirlookup dp name
    if_none found
        (do
          i ← inode_at dp
          off ← empty_entry dp (i.size / dirent_size + 2) 0
          write_entry dp off (entry name inum)
          pure 0)
        (λ p. do iput p.0; pure minus_one)

  -- The body of the loop of `namex` at the inode `ip`, with the element and the path behind it.
  unfoldable pub walk_elem :
      Bool → ℕ → List ℕ → List ℕ → (ℕ → M (Option (ℕ × List ℕ))) → M (Option (ℕ × List ℕ))
  unfolding ilock iunlock iunlockput dirlookup ◌>>=◌ inode_at
  walk_elem parent ip elem rest next = do
    ilock ip
    i ← inode_at ip
    if not (i.type == t_dir)
        then (do iunlockput ip; pure none)
        else if parent && length rest == 0
        then (do iunlock ip; pure (some (ip, elem)))
        else (do
          found ← dirlookup ip elem
          if_none found (do iunlockput ip; pure none) λ p. do iunlockput ip; next p.0)

  -- What comes after the loop.
  unfoldable pub walk_end : Bool → ℕ → List ℕ → M (Option (ℕ × List ℕ))
  unfolding iput ◌>>=◌
  walk_end parent ip name = if parent then (do iput ip; pure none) else pure (some (ip, name))

  unfoldable pub walk : Bool → ℕ → ℕ → List ℕ → List ℕ → M (Option (ℕ × List ℕ))
  unfolding skipelem walk_elem walk_end
  walk parent zero ip path name = no_fuel
  walk parent (suc fuel) ip path name =
      if_none (skipelem path) (walk_end parent ip name)
        λ p. walk_elem parent ip p.0 p.1 λ next. walk parent fuel next p.1 p.0

  -- The inode and `name`. Each round takes a byte of the path at least.
  unfoldable pub namex : Bool → List ℕ → M (Option (ℕ × List ℕ))
  unfolding walk iget idup ◌>>=◌
  namex parent path = do
    cwd ← gets (λ s. s.cwd)
    ip ← (if get_or path 0 0 == slash then iget 1 1 else idup cwd)
    walk parent (length path + 1) ip path []

  unfoldable pub namei : List ℕ → M (Option ℕ)
  unfolding namex ◌>>=◌
  namei path = do r ← namex false path; pure (opt_map (λ p. p.0) r)

  unfoldable pub nameiparent : List ℕ → M (Option (ℕ × List ℕ))
  unfolding namex
  nameiparent path = namex true path
