-- ===== src/Userfs/Write/Loop.antt =====
-- The whole loop of `ufs_write` in 3/userfs.c on a dense file.
use mathlib.Core.List.{append_assoc}
use sysprog_exercises.Prelude.{
  ℕ, zero, suc, ◌+◌, ◌≤◌, ◌<◌, ◌≡◌, refl, ap, subst, ◌∙◌, sym, Option, some, List, [], ◌∷◌, ◌++◌,
  arith, length, overwrite, overwrite-overwrite, overwrite-nil, length-append,
}
use sysprog_exercises.Userfs.Types.{max_file_size, File, Filedesc}
use sysprog_exercises.Userfs.Chain.{content}
use sysprog_exercises.Userfs.Transfer.{WriteState, go, full, after_write, write_loop}
use sysprog_exercises.Userfs.Ahead.{SameOwner, rank}
use sysprog_exercises.Userfs.Position.{
  IsDenseFile, StandsAt, SameFile, StandsAt-le, WriteRound, onward, no_room,
}
use sysprog_exercises.Userfs.Write.{write_round-Round, SameFile-trans, SameOwner-trans}

-- What the loop leaves in a file and a descriptor that stood at `a`, when it wrote `bytes`.
pub record Written (f : File) (d : Filedesc) (a : ℕ) (bytes : List ℕ) (g : File) (e : Filedesc)
    : Type 0 where
  pub dense : IsDenseFile g
  pub stands : StandsAt g e (a + length bytes)
  pub same_file : SameFile f g
  pub same_owner : SameOwner d e
  pub image : content g.block_list ≡ overwrite (content f.block_list) a bytes

-- The loop writes all, or stops where the file is as large as it may be with bytes left over.
pub data WriteResult (f : File) (d : Filedesc) (a : ℕ) (buf : List ℕ) (n : ℕ)
    (r : Option WriteState) : Type 0 where
  wrote :
      (g : File) (e : Filedesc)
      → r ≡ some (go g e [] (n + length buf))
      → Written f d a buf g e
      → WriteResult f d a buf n r
  stopped :
      (g : File) (e : Filedesc) (bytes left : List ℕ)
      → r ≡ some (full g e)
      → buf ≡ bytes ++ left
      → 0 < length left
      → max_file_size ≤ a + length bytes
      → Written f d a bytes g e
      → WriteResult f d a buf n r

Written-nil :
    {f : File} {d : Filedesc} {a : ℕ} → IsDenseFile f → StandsAt f d a → Written f d a [] f d
Written-nil {f} {d} {a} w at = record {
  dense = w;
  stands = subst (StandsAt f d) (omega arith) at;
  same_file = record { same_refs = refl; same_name = refl; same_is_removed = refl };
  same_owner = record { same_file = refl; same_permissions = refl; same_fd = refl };
  image = sym (overwrite-nil (content f.block_list) a);
}

-- A round and what follows it, together.
Written-append :
    {f g h : File} {d e i : Filedesc} {a m : ℕ} {buf : List ℕ} (chunk bytes : List ℕ)
    → a ≤ length (content f.block_list)
    → m ≡ a + length chunk
    → buf ≡ chunk ++ bytes
    → SameFile f g
    → SameOwner d e
    → content g.block_list ≡ overwrite (content f.block_list) a chunk
    → Written g e m bytes h i
    → Written f d a buf h i
Written-append {f} {h} {i} {a} {m} chunk bytes le at split sf so app v = record {
  dense = v.dense;
  stands =
      subst (StandsAt h i) (omega (arith, length-append chunk bytes, ap length split)) v.stands;
  same_file = SameFile-trans sf v.same_file;
  same_owner = SameOwner-trans so v.same_owner;
  image =
      v.image
      ∙ ap (λ c. overwrite c m bytes) app
      ∙ overwrite-overwrite (content f.block_list) a m chunk bytes le at
      ∙ ap (overwrite (content f.block_list) a) (sym split);
}

Again : (k : ℕ) → (File → Filedesc → List ℕ → ℕ → Option WriteState) → Type 0
Again k again =
    (f : File) (d : Filedesc) (a : ℕ) (buf : List ℕ) (n : ℕ)
    → length buf + length buf + rank d < k
    → IsDenseFile f
    → StandsAt f d a
    → WriteResult f d a buf n (again f d buf n)

after_round :
    (again : File → Filedesc → List ℕ → ℕ → Option WriteState) (k : ℕ)
    → Again k again
    → {f : File} {d : Filedesc} {a : ℕ} {buf : List ℕ} {n : ℕ}
    → length buf + length buf + rank d < suc k
    → 0 < length buf
    → IsDenseFile f
    → StandsAt f d a
    → {r : WriteState} → WriteRound f d a buf n r
    → WriteResult f d a buf n (after_write again r)
unfolding Again
after_round again k ih {f} {d} {a} {buf} {n} h pos w at
      (onward {g} {e} {left} {n = n'} chunk w' at' sf so split cnt app falls) =
    join (ih g e (a + length chunk) left n' (omega arith) w' at')
  where
    le : a ≤ length (content f.block_list)
    le = StandsAt-le w at

    join :
        WriteResult g e (a + length chunk) left n' (again g e left n')
        → WriteResult f d a buf n (again g e left n')
    join (wrote g' e' eq v) =
        wrote g' e'
          (eq
            ∙ ap (λ c. some (go g' e' [] c))
                (omega (arith, ap length split, length-append chunk left)))
          (Written-append chunk left le refl split sf so app v)
    join (stopped g' e' bytes rest eq split' some_left big v) =
        stopped g' e' (chunk ++ bytes) rest eq
          (split ∙ ap (λ t. chunk ++ t) split' ∙ sym (append_assoc chunk bytes rest)) some_left
          (omega (arith, length-append chunk bytes))
          (Written-append chunk bytes le refl refl sf so app v)
after_round again k ih {f} {d} {a} {buf} h pos w at (no_room big missing) =
    stopped f d [] buf refl refl pos (omega arith) (Written-nil w at)

-- Two rounds for each byte and one more are enough fuel.
pub write_loop-WriteResult :
    (k : ℕ) (f : File) (d : Filedesc) (a : ℕ) (buf : List ℕ) (n : ℕ)
    → length buf + length buf + rank d < k
    → IsDenseFile f
    → StandsAt f d a
    → WriteResult f d a buf n (write_loop k f d buf n)
unfolding write_loop Again
write_loop-WriteResult zero f d a buf n h w at = absurd (omega arith)
write_loop-WriteResult (suc k) f d a [] n h w at =
    wrote f d (ap (λ c. some (go f d [] c)) (omega arith)) (Written-nil w at)
write_loop-WriteResult (suc k) f d a (x ∷ xs) n h w at =
    after_round (write_loop k) k
      (λ g e b buf m lt w' at'. write_loop-WriteResult k g e b buf m lt w' at') h (omega arith) w at
      (write_round-Round f d a (x ∷ xs) n w (omega arith) at)
