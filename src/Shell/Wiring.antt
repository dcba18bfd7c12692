-- ===== src/Shell/Wiring.antt =====
-- The descriptors of the children and of the shell in 2/pipe_list.c.
use sysprog_exercises.Prelude.{
  ℕ, ◌+◌, ◌-◌, ◌<◌, ◌≡◌, refl, sym, subst, Bool, true, false, Option, none, some, List, [], ◌∷◌,
  arith, length, if◌then◌else◌, ltb,
}
use sysprog_exercises.Shell.Evaluator.{Program}
use sysprog_exercises.Shell.Descriptors.{read_end, write_end, Table, opened, close, dup_onto, dup2}
use sysprog_exercises.Shell.Pipeline.{
  Process, Kernel, Pipes, name_of, child_of, make_pipe, child_table, parent_side, fork_all,
}
use sysprog_exercises.Shell.Connected.{
  Started, free_before, parent_between, Connected, child_between, child_first, parent_first,
  child_last, parent_last, GivesFresh, Ready,
}

-- A property by the three tests of a round.
by_tests :
    {a b c a' b' c' : Bool} (P : Bool → Bool → Bool → Type 0)
    → a ≡ a'
    → b ≡ b'
    → c ≡ c'
    → P a' b' c'
    → P a b c
by_tests {b = b} {c = c} {a' = a'} {b' = b'} P e f g h =
    subst (λ x. P x b c) (sym e) (subst (λ y. P a' y c) (sym f) (subst (P a' b') (sym g) h))

module _ (shell : Table) (started : Started shell) {W : Type 0} (kernel : Kernel W)
    (fresh : GivesFresh shell started kernel.pipe_fds) (size : ℕ) where
  -- `child_table` and `parent_side` by their tests.
  abbrev pipes_by : ℕ → Bool → Pipes → Pipes
  pipes_by i more p =
      let fds = kernel.pipe_fds p.shell in
      if more
      then record p {
        shell = opened (opened p.shell fds.0 (read_end i)) fds.1 (write_end i);
        current = fds;
      }
      else p

  abbrev child_by : Bool → Bool → Pipes → Table
  child_by more later p =
      let out = if more then dup2 p.shell p.current.1 1 else p.shell in
      let into = if later then dup2 out p.previous 0 else out in close into p.current.0

  abbrev parent_by : Bool → Bool → Pipes → Pipes
  parent_by later many p =
      let one = if later then close p.shell p.previous else p.shell in
      let two = if many then close one p.current.1 else one in
      record p { shell = two; previous = p.current.0 }

  middle_child :
      (i k : ℕ) (p : Pipes)
      → Ready shell started i p
      → Connected shell started (some i) (some k) (child_by true true (pipes_by k true p))
  middle_child i k p ready =
      let fds = kernel.pipe_fds p.shell in
      let t = opened (opened p.shell fds.0 (read_end k)) fds.1 (write_end k) in
      let f = fresh.between i p.previous p.shell ready.linked in
      let here : t fds.1 ≡ some (write_end k) = ground arith in
      let before : opened t 1 (write_end k) p.previous ≡ some (read_end i) = ground (
        arith,
        ready.linked.0,
        ready.linked.1 p.previous,
        f.free_read,
        f.free_write,
        started.output_open.1,
      ) in
      subst
        (λ o.
          Connected shell started (some i) (some k)
            (close (dup2 (dup_onto t o 1) p.previous 0) fds.0))
        (sym here)
        (subst
          (λ o.
            Connected shell started (some i) (some k)
              (close (dup_onto (opened t 1 (write_end k)) o 0) fds.0))
          (sym before)
          (child_between shell started i k p.previous fds.0 fds.1 p.shell ready.linked f))

  last_child :
      (i k : ℕ) (p : Pipes)
      → Ready shell started i p
      → Connected shell started (some i) none (child_by false true (pipes_by k false p))
  last_child i k p ready =
      let here : p.shell p.previous ≡ some (read_end i) =
        ground (arith, ready.linked.1 p.previous) in
      subst (λ o. Connected shell started (some i) none (close (dup_onto p.shell o 0) p.current.0))
        (sym here)
        (subst
          (λ r. Connected shell started (some i) none (close (opened p.shell 0 (read_end i)) r))
          (sym ready.same_read) (child_last shell started i p.previous p.shell ready.linked))

  first_child :
      (p : Pipes)
      → p.shell ≡ shell
      → Connected shell started none (some 0) (child_by true false (pipes_by 0 true p))
  first_child p e =
      let fds = kernel.pipe_fds shell in
      let t = opened (opened shell fds.0 (read_end 0)) fds.1 (write_end 0) in
      let here : t fds.1 ≡ some (write_end 0) = ground arith in
      subst
        (λ s.
          Connected shell started none (some 0)
            (child_by true false (pipes_by 0 true (record p { shell = s }))))
        (sym e)
        (subst (λ o. Connected shell started none (some 0) (close (dup_onto t o 1) fds.0))
          (sym here) (child_first shell started fds.0 fds.1 fresh.at_start))

  Ready-middle :
      (i k : ℕ) (p : Pipes)
      → Ready shell started i p
      → Ready shell started k (parent_by true true (pipes_by k true p))
  Ready-middle i k p ready =
      let fds = kernel.pipe_fds p.shell in
      let f = fresh.between i p.previous p.shell ready.linked in
      record {
        linked = parent_between shell started i k p.previous fds.0 fds.1 p.shell ready.linked f;
        same_read = refl;
        write_closed =
            (free_before shell started i p.previous p.shell fds.1 ready.linked f.free_write).0;
      }

  Ready-first :
      (p : Pipes)
      → p.shell ≡ shell
      → Ready shell started 0 (parent_by false true (pipes_by 0 true p))
  Ready-first p e =
      let fds = kernel.pipe_fds shell in
      subst
        (λ s.
          Ready shell started 0 (parent_by false true (pipes_by 0 true (record p { shell = s }))))
        (sym e)
        (record {
          linked = parent_first shell started fds.0 fds.1 fresh.at_start;
          same_read = refl;
          write_closed = fresh.at_start.free_write;
        })

  -- A child that a program was forked for.
  abbrev pub Spawned : W → Option ℕ → Option ℕ → Program → Process → Type 0
  Spawned w before after prg child =
      (t : Table) × Connected shell started before after t
      × (child ≡ child_of kernel w t prg (name_of prg.argv))

  -- The children of a pipeline, from the program at `i` on.
  abbrev pub Wired : W → Option ℕ → ℕ → List Program → List Process → Type 0
  Wired w before i [] children = ⊥
  Wired w before i (prg ∷ prgs) [] = ⊥
  Wired w before i (prg ∷ []) (child ∷ []) = Spawned w before none prg child
  Wired w before i (prg ∷ []) (child ∷ c ∷ cs) = ⊥
  Wired w before i (prg ∷ q ∷ prgs) (child ∷ children) =
      Spawned w before (some i) prg child × Wired w (some i) (i + 1) (q ∷ prgs) children

  -- What the loop comes to from a program on.
  abbrev Forked : W → Option ℕ → ℕ → List Program → List Process × Pipes → Type 0
  Forked w before i prgs r = Wired w before i prgs r.0 × ((fd : ℕ) → r.1.shell fd ≡ shell fd)

  fork_rest :
      (w : W) (i k : ℕ) (prg : Program) (prgs : List Program) (p : Pipes)
      → Ready shell started i p
      → 0 < k
      → size ≡ k + length (prg ∷ prgs)
      → Forked w (some i) k (prg ∷ prgs) (fork_all kernel size w k (prg ∷ prgs) p)
  unfolding fork_all
  fork_rest w i k prg [] p ready pos e =
      let more : ltb k (size - 1) ≡ false = ground arith in
      let later : ltb 0 k ≡ true = ground arith in
      let many : ltb 1 size ≡ true = ground arith in
      (
        (
          child_table kernel size k (make_pipe kernel size k p),
          by_tests
              (λ more later many.
                Connected shell started (some i) none (child_by more later (pipes_by k more p)))
              more later many (last_child i k p ready),
          refl,
        ),
        λ fd.
            by_tests
              (λ more later many. (parent_by later many (pipes_by k more p)).shell fd ≡ shell fd)
              more later many
              (parent_last shell started i p.previous p.current.1 p.shell ready.linked
                ready.write_closed fd),
      )
  fork_rest w i k prg (q ∷ prgs) p ready pos e =
      let more : ltb k (size - 1) ≡ true = ground arith in
      let later : ltb 0 k ≡ true = ground arith in
      let many : ltb 1 size ≡ true = ground arith in
      let next =
        by_tests
          (λ more later many. Ready shell started k (parent_by later many (pipes_by k more p))) more
          later many (Ready-middle i k p ready) in
      let rest =
        fork_rest w k (k + 1) q prgs (parent_side kernel size k (make_pipe kernel size k p)) next
          (omega arith) (omega arith) in
      (
        (
          (
            child_table kernel size k (make_pipe kernel size k p),
            by_tests
                (λ more later many.
                  Connected shell started (some i) (some k)
                    (child_by more later (pipes_by k more p)))
                more later many (middle_child i k p ready),
            refl,
          ),
          rest.0,
        ),
        rest.1,
      )

  -- For a pipeline of two programs or more: each child reads from the pipe of the program before it and
  -- writes to its own, the first and the last one from and to what the shell was started with. A child
  -- holds no other end of a pipe, so that a reader meets the end of its input once the writer has ended,
  -- and the shell is left with the descriptors that it was started with.
  pub fork_all-Wired :
      (w : W) (prg q : Program) (prgs : List Program) (p : Pipes)
      → p.shell ≡ shell
      → size ≡ length (prg ∷ q ∷ prgs)
      → Wired w none 0 (prg ∷ q ∷ prgs) (fork_all kernel size w 0 (prg ∷ q ∷ prgs) p).0
        × ((fd : ℕ) → (fork_all kernel size w 0 (prg ∷ q ∷ prgs) p).1.shell fd ≡ shell fd)
  unfolding fork_all
  fork_all-Wired w prg q prgs p s e =
      let more : ltb 0 (size - 1) ≡ true = ground arith in
      let many : ltb 1 size ≡ true = ground arith in
      let next : Ready shell started 0 (parent_side kernel size 0 (make_pipe kernel size 0 p)) =
        by_tests {b' = false}
          (λ more later many. Ready shell started 0 (parent_by later many (pipes_by 0 more p))) more
          refl many (Ready-first p s) in
      let rest =
        fork_rest w 0 (0 + 1) q prgs (parent_side kernel size 0 (make_pipe kernel size 0 p)) next
          (omega arith) (omega arith) in
      (
        (
          (
            child_table kernel size 0 (make_pipe kernel size 0 p),
            by_tests {b' = false}
                (λ more later many.
                  Connected shell started none (some 0) (child_by more later (pipes_by 0 more p)))
                more refl many (first_child p s),
            refl,
          ),
          rest.0,
        ),
        rest.1,
      )
