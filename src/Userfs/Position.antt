-- ===== src/Userfs/Position.antt =====
-- Positions in a dense file of 3/userfs.c, and a round of `ufs_write` from one.
use sysprog_exercises.Prelude.{
  ℕ, ◌+◌, ◌*◌, ◌≤◌, ◌<◌, ◌≡◌, refl, none, some, List, ◌++◌, arith, length, get_elem?, overwrite,
}
use sysprog_exercises.Userfs.Types.{block_size, max_file_size, Block, File, Filedesc}
use sysprog_exercises.Userfs.Chain.{content, IsDense}
use sysprog_exercises.Userfs.Transfer.{write_size, advance, WriteState, go, full}
use sysprog_exercises.Userfs.Ahead.{SameOwner, rank}
use sysprog_exercises.Userfs.Dense.{AllFull, position-le}

-- A file whose blocks are full but for the last one, with their right number.
pub record IsDenseFile (f : File) : Type 0 where
  pub dense : IsDense f.block_list
  pub counted : f.blocks_count ≡ length f.block_list

-- The descriptor stands at position `a` of the content: in a block, or behind the last, full one.
pub data StandsAt (f : File) (d : Filedesc) (a : ℕ) : Type 0 where
  at_end :
      d.current_block ≡ none
      → AllFull f.block_list
      → a ≡ length (content f.block_list)
      → StandsAt f d a
  at_block :
      (p : ℕ) (b : Block)
      → d.current_block ≡ some p
      → get_elem? f.block_list p ≡ some b
      → d.offset ≤ b.occupied
      → p < d.next_block_index
      → a ≡ p * block_size + d.offset
      → StandsAt f d a

-- What the write loop leaves alone in a file.
pub record SameFile (f g : File) : Type 0 where
  pub same_refs : g.refs ≡ f.refs
  pub same_name : g.name ≡ f.name
  pub same_is_removed : g.is_removed ≡ f.is_removed

pub StandsAt-le :
    {f : File} {d : Filedesc} {a : ℕ}
    → IsDenseFile f
    → StandsAt f d a
    → a ≤ length (content f.block_list)
StandsAt-le w (at_end cur all e) = omega arith
StandsAt-le {f} {d} w (at_block p b cur here off idx e) =
    omega (arith, position-le f.block_list p d.offset w.dense here off)

-- A round writes the next bytes at the position, or stops where the file may not grow.
pub data WriteRound (f : File) (d : Filedesc) (a : ℕ) (buf : List ℕ) (written : ℕ)
    : WriteState → Type 0 where
  onward :
      {g : File} {e : Filedesc} {left : List ℕ} {n : ℕ} (chunk : List ℕ)
      → IsDenseFile g
      → StandsAt g e (a + length chunk)
      → SameFile f g
      → SameOwner d e
      → buf ≡ chunk ++ left
      → n ≡ written + length chunk
      → content g.block_list ≡ overwrite (content f.block_list) a chunk
      → length left + length left + rank e < length buf + length buf + rank d
      → WriteRound f d a buf written (go g e left n)
  no_room : max_file_size ≤ a → d.current_block ≡ none → WriteRound f d a buf written (full f d)

pub write_size_bounds :
    (off n : ℕ)
    → off < block_size
    → 0 < n
    → (0 < write_size off n) × (write_size off n ≤ n) × (off + write_size off n ≤ block_size)
unfolding write_size
write_size_bounds off n h k = ground arith

pub SameOwner-advance : (f : File) (p : ℕ) (d : Filedesc) → SameOwner d (advance f p d)
unfolding advance
SameOwner-advance f p d = record { same_file = refl; same_permissions = refl; same_fd = refl }

pub rank-advance :
    (f : File) (p : ℕ) (d : Filedesc) → block_size ≤ d.offset → rank (advance f p d) < rank d
unfolding advance
rank-advance f p d h = ground arith
