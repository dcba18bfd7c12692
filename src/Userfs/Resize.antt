-- ===== src/Userfs/Resize.antt =====
-- `ufs_resize` of 3/userfs.c in parts: the blocks that it adds or frees, and the descriptors that it moves.
use sysprog_exercises.Prelude.{
  ℕ, zero, suc, ◌+◌, ◌-◌, ◌/◌, ◌%◌, Option, none, some, List, [], ◌∷◌, length, if◌then◌else◌, ltb,
  ◌==◌, ◌&&◌,
}
use sysprog_exercises.Userfs.Types.{block_size, Block, File, Filedesc}
use sysprog_exercises.Userfs.Chain.{add_block}
use sysprog_exercises.Userfs.Transfer.{min}

-- The blocks that `new_size` bytes take.
unfoldable pub blocks_for : ℕ → ℕ
blocks_for new_size =
    if new_size % block_size == 0 then new_size / block_size else new_size / block_size + 1

unfoldable pub add_blocks : ℕ → File → File
unfolding add_block
add_blocks zero f = f
add_blocks (suc n) f = add_blocks n (add_block f)

-- The list without its last block.
abbrev pub drop_last : List Block → List Block
drop_last [] = []
drop_last (b ∷ []) = []
drop_last (b ∷ c ∷ bs) = b ∷ drop_last (c ∷ bs)

-- One round of the loop that frees blocks: `none` reads `last_block->prev` where there is no last
-- block, and a block that has no block before it stays.
unfoldable pub drop_block : File → Option File
drop_block f = elim f.block_list [
  | [] ↦ none
  | b ∷ [] ↦ some f
  | b ∷ c ∷ bs ↦
      some (record f { block_list = b ∷ drop_last (c ∷ bs); blocks_count = f.blocks_count - 1 })
]

unfoldable pub drop_blocks : ℕ → File → Option File
drop_blocks zero f = some f
drop_blocks (suc n) f = elim (drop_block f) [ none ↦ none | some g ↦ drop_blocks n g ]

-- What the last block holds after a cut to `new_size`.
unfoldable pub last_occupied : ℕ → ℕ
last_occupied new_size =
    if ltb 0 new_size && (new_size % block_size == 0) then block_size else new_size % block_size

-- `f->last_block->occupied = n`
abbrev pub set_last : List Block → ℕ → List Block
set_last [] n = []
set_last (b ∷ []) n = record b { occupied = n } ∷ []
set_last (b ∷ c ∷ bs) n = b ∷ set_last (c ∷ bs) n

-- `f->last_block`, as a position.
abbrev pub last_block : List Block → Option ℕ
last_block [] = none
last_block (b ∷ bs) = some (length bs)

-- `f->last_block ? f->last_block->occupied : 0`
abbrev pub end_offset : List Block → ℕ
end_offset [] = 0
end_offset (b ∷ []) = b.occupied
end_offset (b ∷ c ∷ bs) = end_offset (c ∷ bs)

-- A descriptor behind the new end goes to the last block, and one in the last block no further than
-- the block's end.
unfoldable pub pull_back : File → Filedesc → Filedesc
pull_back f d =
    let e =
      (if ltb f.blocks_count d.next_block_index
        then record d { next_block_index = f.blocks_count; current_block = last_block f.block_list }
        else d) in
    if e.next_block_index == f.blocks_count
    then record e { offset = min e.offset (end_offset f.block_list) }
    else e

unfoldable pub pull_back_at : ℕ → File → Option Filedesc → Option Filedesc
unfolding pull_back
pull_back_at a f none = none
pull_back_at a f (some d) = if d.file == a then some (pull_back f d) else some d

-- The file after a cut.
unfoldable pub truncate : File → ℕ → Option File
truncate f new_size = elim (drop_blocks (f.blocks_count - blocks_for new_size) f) [
  | none ↦ none
  | some g ↦ some (record g { block_list = set_last g.block_list (last_occupied new_size) })
]
