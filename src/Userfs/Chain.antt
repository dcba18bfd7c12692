-- ===== src/Userfs/Chain.antt =====
-- The block list of a file in 3/userfs.c: `add_block`, and what the list holds.
use sysprog_exercises.Prelude.{
  ℕ, ◌+◌, ◌-◌, ◌≤◌, ◌≡◌, Option, none, some, List, [], ◌∷◌, ◌++◌, length, take, drop, replicate,
  if◌then◌else◌, ltb, ◌==◌,
}
use sysprog_exercises.Userfs.Types.{block_size, Block, File}

-- A block as `calloc` leaves it.
abbrev pub empty_block : Block
empty_block = record { memory = replicate block_size 0; occupied = 0 }

unfoldable pub add_block : File → File
add_block f = record f {
  block_list = f.block_list ++ (empty_block ∷ []);
  blocks_count = f.blocks_count + 1;
}

-- `p->next`
unfoldable pub next_block : File → ℕ → Option ℕ
next_block f p = if ltb (p + 1) (length f.block_list) then some (p + 1) else none

-- The bytes that a block holds, and those of a list of blocks.
abbrev pub occupied_bytes : Block → List ℕ
occupied_bytes b = take b.occupied b.memory

abbrev pub content : List Block → List ℕ
content [] = []
content (b ∷ bs) = occupied_bytes b ++ content bs

-- What a reader meets from offset `off` of the first block on: up to the first block that is not
-- full.
abbrev pub readable : List Block → ℕ → List ℕ
readable [] off = []
readable (b ∷ bs) off =
    take (b.occupied - off) (drop off b.memory)
    ++ (if b.occupied == block_size then readable bs 0 else [])

-- Every block has its memory, and no more bytes than fit.
abbrev pub AllSized : List Block → Type 0
AllSized [] = Unit {0}
AllSized (b ∷ bs) = (length b.memory ≡ block_size) × (b.occupied ≤ block_size) × AllSized bs

-- Besides, every block but the last is full.
abbrev pub IsDense : List Block → Type 0
IsDense [] = Unit {0}
IsDense (b ∷ []) = (length b.memory ≡ block_size) × (b.occupied ≤ block_size)
IsDense (b ∷ c ∷ bs) = (length b.memory ≡ block_size) × (b.occupied ≡ block_size) × IsDense (c ∷ bs)
