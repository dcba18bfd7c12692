-- ===== src/Userfs/Transfer.antt =====
-- The loops of `ufs_write` and `ufs_read` in 3/userfs.c, one round at a time.
--
-- A round works on the file and the descriptor that the loop mutates in place, here as values. Each
-- loop runs on fuel: a round copies at least one byte, or leaves a full block or a missing one, so
-- two rounds for each byte and two more are enough.
use sysprog_exercises.Prelude.{
  ℕ, zero, suc, ◌+◌, ◌-◌, ◌/◌, Option, none, some, List, [], ◌∷◌, ◌++◌, length, get_elem?, set,
  take, drop, overwrite, if◌then◌else◌, ltb, leb,
}
use sysprog_exercises.Userfs.Types.{block_size, max_file_size, Block, File, Filedesc}
use sysprog_exercises.Userfs.Chain.{add_block, next_block}

-- The macros `min` and `max`.
abbrev pub min : ℕ → ℕ → ℕ
min a b = if ltb a b then a else b

abbrev pub max : ℕ → ℕ → ℕ
max a b = if ltb a b then b else a

-- `init_filedesc_current_block`
unfoldable pub init_current_block : File → Filedesc → Filedesc
init_current_block f d = elim d.current_block [
  | some p ↦ d
  | none ↦ elim f.block_list [
    | [] ↦ d
    | b ∷ bs ↦ record d { current_block = some 0; next_block_index = d.next_block_index + 1 }
  ]
]

-- What one round, or the whole loop, of `ufs_write` leads to: on with the bytes still to be written
-- and the count so far, out of room, or a dereference of a pointer to no block.
pub data WriteState : Type 0 where
  go : File → Filedesc → List ℕ → ℕ → WriteState
  full : File → Filedesc → WriteState
  dangling : WriteState

-- `if (!desc->current_block)`: a new block behind the last one, if the file may grow.
unfoldable pub ensure_block : File → Filedesc → Option (File × Filedesc)
unfolding add_block
ensure_block f d = elim d.current_block [
  | some p ↦ some (f, d)
  | none ↦
      if leb (max_file_size / block_size) f.blocks_count
      then none
      else (let g = add_block f in
          some (
            g,
            record d {
              current_block = some (length f.block_list);
              next_block_index = g.blocks_count;
              offset = 0;
            },
          ))
]

-- `memcpy` into the block at `p`, and its new `occupied`.
unfoldable pub store_bytes : File → ℕ → Block → ℕ → List ℕ → File
store_bytes f p b off bytes = record f {
  block_list = set f.block_list p (record {
    memory = overwrite b.memory off bytes;
    occupied = max b.occupied (off + length bytes);
  });
}

-- `desc->current_block = desc->current_block->next`, to the start of that block.
unfoldable pub advance : File → ℕ → Filedesc → Filedesc
unfolding next_block
advance f p d = record d {
  current_block = next_block f p;
  next_block_index = d.next_block_index + 1;
  offset = 0;
}

-- `block_write_size` after the `min`.
unfoldable pub write_size : ℕ → ℕ → ℕ
write_size offset left = min (block_size - offset) left

-- The rest of a round, at the current block `p`.
unfoldable pub fill_block : File → Filedesc → ℕ → List ℕ → ℕ → WriteState
unfolding store_bytes advance
fill_block f d p buf written = elim (get_elem? f.block_list p) [
  | none ↦ dangling
  | some b ↦
      if leb block_size d.offset
      then go f (advance f p d) buf written
      else (let size = write_size d.offset (length buf) in
          go (store_bytes f p b d.offset (take size buf)) (record d { offset = d.offset + size })
            (drop size buf) (written + size))
]

unfoldable pub write_round : File → Filedesc → List ℕ → ℕ → WriteState
unfolding ensure_block fill_block
write_round f d buf written = elim (ensure_block f d) [
  | none ↦ full f d
  | some (g, e) ↦ elim e.current_block [ none ↦ dangling | some p ↦ fill_block g e p buf written ]
]

-- The loop's test comes after a round that goes on.
abbrev pub after_write :
    (File → Filedesc → List ℕ → ℕ → Option WriteState) → WriteState → Option WriteState
after_write again (go f d buf written) = again f d buf written
after_write again (full f d) = some (full f d)
after_write again dangling = some dangling

-- The loop; `none` means that the fuel ran out.
unfoldable pub write_loop : ℕ → File → Filedesc → List ℕ → ℕ → Option WriteState
write_loop zero f d buf written = none
write_loop (suc k) f d [] written = some (go f d [] written)
write_loop (suc k) f d (x ∷ xs) written =
    after_write (write_loop k) (write_round f d (x ∷ xs) written)

-- What one round of `ufs_read` leads to: on with a descriptor, the count still wanted and the bytes
-- read so far, the end of the loop, or a dereference of a pointer to no block.
pub data ReadState : Type 0 where
  more : Filedesc → ℕ → List ℕ → ReadState
  done : Filedesc → List ℕ → ReadState
  wild : ReadState

-- `block_read_size` after both `min`s. The source's difference `occupied - offset` may be negative; it
-- then stops the loop, as 0 does.
unfoldable pub read_size : ℕ → ℕ → ℕ → ℕ
read_size offset wanted occupied = min (min (block_size - offset) wanted) (occupied - offset)

unfoldable pub read_round : File → Filedesc → ℕ → List ℕ → ReadState
unfolding advance
read_round f d wanted out = elim d.current_block [
  | none ↦ done d out
  | some p ↦ elim (get_elem? f.block_list p) [
    | none ↦ wild
    | some b ↦
        if leb block_size d.offset
        then more (advance f p d) wanted out
        else (let size = read_size d.offset wanted b.occupied in
            if leb size 0
            then done d out
            else more (record d { offset = d.offset + size }) (wanted - size)
                (out ++ take size (drop d.offset b.memory)))
  ]
]

-- The loop's test comes after a round that goes on.
abbrev pub after_read : (Filedesc → ℕ → List ℕ → Option ReadState) → ReadState → Option ReadState
after_read again (more d wanted out) = again d wanted out
after_read again (done d out) = some (done d out)
after_read again wild = some wild

-- The loop; `none` means that the fuel ran out.
unfoldable pub read_loop : ℕ → File → Filedesc → ℕ → List ℕ → Option ReadState
read_loop zero f d wanted out = none
read_loop (suc k) f d zero out = some (done d out)
read_loop (suc k) f d (suc n) out = after_read (read_loop k f) (read_round f d (suc n) out)
