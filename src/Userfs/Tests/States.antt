-- ===== src/Userfs/Tests/States.antt =====
-- States of 3/userfs.c that short programs reach, and what single calls come to in them.
use sysprog_exercises.Prelude.{ℕ, ◌≡◌, refl, true, none, some, arith, List, [], ◌∷◌, replicate}
use sysprog_exercises.Prelude.Int.{pos}
use sysprog_exercises.Userfs.Types.{
  File, Filedesc, Ufs, no_err, heap_at, ufs_create, ufs_read_write, ufs_read_only, ufs_write_only,
  block_size,
}
use sysprog_exercises.Userfs.Transfer.{
  init_current_block, ensure_block, fill_block, write_round, write_loop, store_bytes, advance,
  write_size,
}
use sysprog_exercises.Userfs.Chain.{add_block}
use sysprog_exercises.Userfs.Table.{
  new_desc, returns, find_slot, first_free, grow_table, create_filedesc, permits,
}
use sysprog_exercises.Userfs.Files.{new_file, search_from, add_file}
use sysprog_exercises.Userfs.Api.{permissions_of, ufs_open, ufs_write, write_file}
use sysprog_exercises.Userfs.Valid.{IsValid}
use sysprog_exercises.Userfs.Content.RoundTrip.{pos-injective}
use sysprog_exercises.Userfs.Safety.Program.{
  open_file, write, perform, Reach, start, call, Reach-safe,
}

-- The empty file and the descriptor of a place.
abbrev pub empty_file : File
empty_file = record (new_file "a") { refs = 2 }

abbrev pub desc_at : ℕ → Filedesc
desc_at fd = new_desc 0 empty_file ufs_read_write fd

-- After a first `ufs_open`, and two descriptors on one empty file.
abbrev pub opened_once : Ufs
opened_once = record {
  heap = some (record empty_file { refs = 1 }) ∷ [];
  file_list = 0 ∷ [];
  file_descriptors = some (desc_at 0) ∷ none ∷ none ∷ none ∷ [];
  file_descriptor_count = 1;
  file_descriptor_capacity = 4;
  ufs_error_code = no_err;
}

abbrev pub opened_twice : Ufs
opened_twice = record opened_once {
  heap = some empty_file ∷ [];
  file_descriptors = some (desc_at 0) ∷ some (desc_at 1) ∷ none ∷ none ∷ [];
  file_descriptor_count = 2;
}

pub opened_once-Reach : Reach opened_once
unfolding perform ufs_open search_from create_filedesc first_free grow_table add_file permissions_of
opened_once-Reach = call {r = pos 0} (open_file "a" ufs_create) start tt refl

pub opened_twice-Reach : Reach opened_twice
unfolding perform ufs_open search_from create_filedesc first_free grow_table heap_at permissions_of
opened_twice-Reach = call {r = pos 1} (open_file "a" 0) opened_once-Reach tt refl

pub opened_twice-IsValid : IsValid opened_twice
opened_twice-IsValid = (Reach-safe opened_twice-Reach (open_file "a" 0) tt).0

pub may_write : permits (desc_at 0) ufs_read_write ufs_write_only ≡ true
unfolding permits
may_write = refl

pub may_read : (fd : ℕ) → permits (desc_at fd) ufs_read_write ufs_read_only ≡ true
unfolding permits
may_read fd = refl

-- A full block of the file, the file, and the descriptor that wrote it.
abbrev pub page : List ℕ
page = replicate block_size 7

abbrev pub full_file : File
full_file = record empty_file {
  block_list = record { memory = page; occupied = block_size } ∷ [];
  blocks_count = 1;
}

abbrev pub full_desc : Filedesc
full_desc = record (desc_at 0) { current_block = some 0; next_block_index = 1; offset = block_size }

-- The state after a whole block was written.
abbrev pub filled : Ufs
filled = record opened_twice {
  heap = some full_file ∷ [];
  file_descriptors = some full_desc ∷ some (desc_at 1) ∷ none ∷ none ∷ [];
}

pub write_page :
    write_file opened_twice 0 empty_file (desc_at 0) page ≡ returns (pos block_size) filled
unfolding write_file write_loop write_round ensure_block add_block fill_block store_bytes advance
    write_size
write_page = refl

pub filled-Reach : Reach filled
unfolding perform ufs_write find_slot init_current_block permits heap_at
filled-Reach =
    call {r = pos block_size} (write (pos 0) page) opened_twice-Reach
      (λ e. absurd (omega (arith, pos-injective e))) write_page

pub filled-IsValid : IsValid filled
filled-IsValid = (Reach-safe filled-Reach (open_file "a" 0) tt).0
