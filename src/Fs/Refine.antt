-- ===== src/Fs/Refine.antt =====
-- xv6-public/fs.c: sequences of reads and writes of a file, against an array of bytes.
use tp2_so.Base.{
  ℕ, ◌+◌, ◌-◌, ◌^◌, ◌≤◌, ◌<◌, ◌≡◌, ◌≢◌, refl, ◌∙◌, ap, true, List, [], ◌∷◌, ◌&&◌, if◌then◌else◌,
  ltb, leb, arith,
}
use tp2_so.Fs.{Inode, Fs, M, ok, pure, ◌>>=◌, ◌>>◌}
use tp2_so.Fs.Words.{bytes_from, put_bytes}
use tp2_so.Fs.Content.{Devices, t_dev, readi, writei}
use tp2_so.Fs.Steps.{bind-ok}
use tp2_so.Fs.Bytes.{byte_of, Whole, readable, readi_lem, bytes_from-eq}
use tp2_so.Fs.Overwrite.{Apart, writei_lem}

-- A read at an offset of a number of bytes, and a write at an offset of that many bytes of `src`.
pub data Access : Type 0 where
  reads : ℕ → ℕ → Access
  writes : ℕ → (ℕ → ℕ) → ℕ → Access

-- A read starts inside the file and may ask for more than there is; a write stays inside.
abbrev pub Inside : ℕ → List Access → Type 0
Inside size [] = Unit
Inside size (reads off n ∷ ops) = (off ≤ size) × (off + n < 2 ^ 32) × Inside size ops
Inside size (writes off src n ∷ ops) = (off + n ≤ size) × Inside size ops

-- What the reads return, from the inode code and from an array of bytes.
unfoldable pub run : Devices → ℕ → List Access → M (List (List ℕ))
unfolding readi writei ◌>>=◌
run devsw ip [] = pure []
run devsw ip (reads off n ∷ ops) =
    readi devsw ip off n >>= λ r. run devsw ip ops >>= λ rs. pure (r.1 ∷ rs)
run devsw ip (writes off src n ∷ ops) = writei devsw ip src off n >> run devsw ip ops

unfoldable pub replay : Inode → List Access → (ℕ → ℕ) → List (List ℕ)
unfolding bytes_from put_bytes
replay i [] f = []
replay i (reads off n ∷ ops) f = bytes_from f off (readable i off n) ∷ replay i ops f
replay i (writes off src n ∷ ops) f = replay i ops (put_bytes f off n src)

put_bytes-eq :
    (f g src : ℕ → ℕ) (off n k : ℕ) → f k ≡ g k → put_bytes f off n src k ≡ put_bytes g off n src k
unfolding put_bytes
put_bytes-eq f g src off n k e =
    ap (λ x. if leb off k && ltb k (off + n) then src (k - off) else x) e

run_lem :
    (devsw : Devices) (ip : ℕ) (i : Inode) (ops : List Access) (s : Fs) (f : ℕ → ℕ)
    → Whole s ip i
    → Apart s i
    → i.type ≢ t_dev
    → Inside i.size ops
    → ((k : ℕ) → k < i.size → byte_of s i k ≡ f k)
    → (t : Fs) × (run devsw ip ops s ≡ ok (replay i ops f) t)
unfolding run replay ◌>>=◌
run_lem devsw ip i [] s f w v file h eq = (s, refl)
run_lem devsw ip i (reads off n ∷ ops) s f w v file (lo, lt, h) eq =
    let (t, e) = run_lem devsw ip i ops s f w v file h eq in
    let fine : (leb off i.size && ltb (off + n) (2 ^ 32)) ≡ true = ground arith in
    let got : readi devsw ip off n s
        ≡ ok (readable i off n, bytes_from (byte_of s i) off (readable i off n)) s =
      readi_lem devsw s ip i off n w file (omega arith) (omega arith) ∙ rw fine refl in
    let same : bytes_from (byte_of s i) off (readable i off n)
        ≡ bytes_from f off (readable i off n) =
      bytes_from-eq _ _ off off (readable i off n) (λ j lj. eq (off + j) (ground arith)) in
    (
      t,
      bind-ok (readi devsw ip off n) _ got
          ∙ bind-ok (run devsw ip ops) _ e
          ∙ ap (λ xs. ok (xs ∷ replay i ops f) t) same,
    )
run_lem devsw ip i (writes off src n ∷ ops) s f w v file (fits, h) eq =
    let (u, e, written) = writei_lem devsw s ip i src off n w v file fits in
    let (t, rest) =
      run_lem devsw ip i ops u (put_bytes f off n src) written.whole written.apart file h
        (λ k lk. written.bytes k lk ∙ put_bytes-eq (byte_of s i) f src off n k (eq k lk)) in
    (t, bind-ok (writei devsw ip src off n) _ e ∙ rest)

-- Take a file in a slot of the inode cache that is not a device and has all its blocks, all different.
-- Any sequence of reads and writes of it, in which reads start inside the file and do not overflow
-- and writes stay inside, ends with a result, and each read returns what the same sequence reads from
-- an array of bytes that starts as the file's content.
pub run_refines :
    (devsw : Devices) (ip : ℕ) (i : Inode) (ops : List Access) (s : Fs)
    → Whole s ip i
    → Apart s i
    → i.type ≢ t_dev
    → Inside i.size ops
    → (t : Fs) × (run devsw ip ops s ≡ ok (replay i ops (byte_of s i)) t)
run_refines devsw ip i ops s w v file h =
    run_lem devsw ip i ops s (byte_of s i) w v file h (λ k lk. refl)
