-- ===== src/Sysfile/Tests.antt =====
-- System calls of sysfile.c on the small disk: the root directory gets a directory `a`.
use tp2_so.Base.{ℕ, ◌≡◌, refl, some, List, [], ◌∷◌, occurs, find_index}
use tp2_so.Fs.{Fs, Run, ok, panic, sleeps, out_of_fuel}
use tp2_so.Fs.Tests.{small_fs, no_devices}
use tp2_so.Sysfile.Create.{sys_mkdir}
use tp2_so.Sysfile.Balanced.Calls.{mkdir, call, calls_log}

abbrev end_state : Fs → Run ℕ → Fs
end_state s (ok a t) = t
end_state s panic = s
end_state s sleeps = s
end_state s out_of_fuel = s

abbrev slash_a : List ℕ
slash_a = 47 ∷ 97 ∷ []

abbrev after : Fs
after = end_state small_fs (call no_devices (mkdir (some slash_a)) small_fs)

mkdir_runs : call no_devices (mkdir (some slash_a)) small_fs ≡ ok 0 after
unfolding sys_mkdir find_index
mkdir_runs = refl

calls_log_example :
    (after.ops ≡ 0)
    × ((b i : ℕ) → occurs b after.logged ≡ 0 → after.blocks b i ≡ small_fs.blocks b i)
calls_log_example = calls_log no_devices (mkdir (some slash_a)) small_fs after 0 mkdir_runs

-- The blocks that it gave to the log, the last first.
mkdir_logged : after.logged ≡ 2 ∷ 5 ∷ 2 ∷ 7 ∷ 2 ∷ 7 ∷ 7 ∷ 4 ∷ 2 ∷ 2 ∷ 2 ∷ []
unfolding sys_mkdir find_index
mkdir_logged = refl
