-- ===== src/Shell/Connected.antt =====
-- Descriptors that are connected by pipes, in the children and in the shell of 2/pipe_list.c.
use sysprog_exercises.Prelude.{
  ℕ, ◌<◌, ◌≡◌, ◌≢◌, false, Option, none, some, arith, if◌then◌else◌, ◌==◌,
}
use sysprog_exercises.Shell.Descriptors.{End, read_end, write_end, Table, opened, close}
use sysprog_exercises.Shell.Pipeline.{Pipes}

-- The descriptors that the shell was started with: both streams are open, and no end of its pipes.
pub record Started (shell : Table) : Type 0 where
  pub input_open : (e : End) × (shell 0 ≡ some e)
  pub output_open : (e : End) × (shell 1 ≡ some e)
  pub no_read_end : (fd n : ℕ) → shell fd ≢ some (read_end n)
  pub no_write_end : (fd n : ℕ) → shell fd ≢ some (write_end n)

-- `pipe` gives out two different numbers that are not in use.
pub record Fresh (t : Table) (fds : ℕ × ℕ) : Type 0 where
  pub free_read : t fds.0 ≡ none
  pub free_write : t fds.1 ≡ none
  pub apart : (fds.0 == fds.1) ≡ false

module _ (shell : Table) (started : Started shell) where
  -- The shell's descriptors in front of the program at `i`: those that it started with, and the read end
  -- of the pipe before it.
  abbrev pub Linked : ℕ → ℕ → Table → Type 0
  Linked i previous t =
      (shell previous ≡ none)
      × ((fd : ℕ) → t fd ≡ (if fd == previous then some (read_end i) else shell fd))

  pub free_before :
      (i previous : ℕ) (t : Table) (fd : ℕ)
      → Linked i previous t
      → t fd ≡ none
      → (shell fd ≡ none) × ((fd == previous) ≡ false)
  free_before i previous t fd (n, l) e = ground (arith, l fd)

  pub parent_between :
      (i k previous r w : ℕ) (t : Table)
      → Linked i previous t
      → Fresh t (r, w)
      → Linked k r (close (close (opened (opened t r (read_end k)) w (write_end k)) previous) w)
  parent_between i k previous r w t l f =
      let (n, e) = free_before i previous t r l f.free_read in
      let (m, d) = free_before i previous t w l f.free_write in
      (n, λ fd. ground (arith, l.0, l.1 fd, n, e, m, d, f.apart))

  -- The descriptors of a child between the pipes of the programs `before` and `after` it, if there are
  -- such: its streams, the ends of pipes that it holds, and all that it was left.
  pub record Connected (before after : Option ℕ) (t : Table) : Type 0 where
    pub input : t 0 ≡ (elim before [ none ↦ shell 0 | some n ↦ some (read_end n) ])
    pub output : t 1 ≡ (elim after [ none ↦ shell 1 | some n ↦ some (write_end n) ])
    pub reads : (fd n : ℕ) → t fd ≡ some (read_end n) → before ≡ some n
    pub writes : (fd n : ℕ) → t fd ≡ some (write_end n) → after ≡ some n
    pub kept : (fd : ℕ) (e : End) → 1 < fd → shell fd ≡ some e → t fd ≡ some e

  pub child_between :
      (i k previous r w : ℕ) (t : Table)
      → Linked i previous t
      → Fresh t (r, w)
      → Connected (some i) (some k) (
          close
            (opened
              (opened (opened (opened t r (read_end k)) w (write_end k)) 1 (write_end k))
              0
              (read_end i))
            r)
  child_between i k previous r w t l f =
      let (n, e) = free_before i previous t r l f.free_read in
      let (m, d) = free_before i previous t w l f.free_write in
      let in_open = started.input_open.1 in
      let out_open = started.output_open.1 in
      record {
        input = ground (arith, n, in_open);
        output = ground (arith, n, out_open);
        reads =
            λ fd o h. ground (arith, l.0, l.1 fd, n, e, m, d, f.apart, started.no_read_end fd o);
        writes =
            λ fd o h. ground (arith, l.0, l.1 fd, n, e, m, d, f.apart, started.no_write_end fd o);
        kept = λ fd k lt h. ground (arith, l.0, l.1 fd, n, e, m, d);
      }

  pub child_first :
      (r w : ℕ)
      → Fresh shell (r, w)
      → Connected none
          (some 0)
          (close (opened (opened (opened shell r (read_end 0)) w (write_end 0)) 1 (write_end 0)) r)
  child_first r w f =
      let in_open = started.input_open.1 in
      let out_open = started.output_open.1 in
      record {
        input = ground (arith, f.free_read, f.free_write, in_open);
        output = ground (arith, f.free_read, out_open);
        reads =
            λ fd k h. ground (arith, f.free_read, f.free_write, f.apart, started.no_read_end fd k);
        writes =
            λ fd k h. ground (arith, f.free_read, f.free_write, f.apart, started.no_write_end fd k);
        kept = λ fd e lt h. ground (arith, f.free_read, f.free_write);
      }

  pub parent_first :
      (r w : ℕ)
      → Fresh shell (r, w)
      → Linked 0 r (close (opened (opened shell r (read_end 0)) w (write_end 0)) w)
  parent_first r w f = (f.free_read, λ fd. ground (arith, f.free_read, f.free_write, f.apart))

  pub child_last :
      (i previous : ℕ) (t : Table)
      → Linked i previous t
      → Connected (some i) none (close (opened t 0 (read_end i)) previous)
  child_last i previous t (n, l) =
      let in_open = started.input_open.1 in
      let out_open = started.output_open.1 in
      record {
        input = ground (arith, n, in_open);
        output = ground (arith, n, l 1, out_open);
        reads = λ fd k h. ground (arith, n, l fd, started.no_read_end fd k);
        writes = λ fd k h. ground (arith, n, l fd, started.no_write_end fd k);
        kept = λ fd e lt h. ground (arith, n, l fd);
      }

  pub parent_last :
      (i previous w : ℕ) (t : Table)
      → Linked i previous t
      → shell w ≡ none
      → (fd : ℕ) → close (close t previous) w fd ≡ shell fd
  parent_last i previous w t (n, l) e fd = ground (arith, n, e, l fd)

  -- `pipe` gives out fresh numbers while the shell is in the loop.
  pub record GivesFresh (pipe_fds : Table → ℕ × ℕ) : Type 0 where
    pub at_start : Fresh shell (pipe_fds shell)
    pub between : (i previous : ℕ) (t : Table) → Linked i previous t → Fresh t (pipe_fds t)

  -- What the loop finds at a program behind the first.
  pub record Ready (i : ℕ) (p : Pipes) : Type 0 where
    pub linked : Linked i p.previous p.shell
    pub same_read : p.current.0 ≡ p.previous
    pub write_closed : shell p.current.1 ≡ none
