-- ===== src/Pipe/Close.antt =====
-- `pipeclose` of pipe.c.
use tp2_so.Base.{◌≡◌, ◌↔◌, refl, Bool, true, false, arith, if◌then◌else◌}
use tp2_so.Pipe.{Pipe, pipeclose}
use tp2_so.Pipe.Ring.{IsValid, contents}

-- `pipeclose` closes the one end, keeps the other, the bytes and the counters, and frees the pipe
-- exactly when the other end was closed already.
pub pipeclose_lem :
    (writable : Bool) (p : Pipe)
    → let (q, freed) = pipeclose writable p in
      (contents q ≡ contents p)
      × (IsValid p → IsValid q)
      × (q.writeopen ≡ (if writable then 0 else p.writeopen))
      × (q.readopen ≡ (if writable then p.readopen else 0))
      × ((freed ≡ true) ↔ ((if writable then p.readopen else p.writeopen) ≡ 0))
unfolding pipeclose
pipeclose_lem true p = (refl, λ v. omega (arith, v), refl, refl, ground arith)
pipeclose_lem false p = (refl, λ v. omega (arith, v), refl, refl, ground arith)
