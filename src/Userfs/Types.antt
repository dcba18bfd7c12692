-- ===== src/Userfs/Types.antt =====
-- The structs, enums and globals of 3/userfs.c and 3/userfs.h.
--
-- A file object is named by its address, the position in `heap` at which `calloc` put it; `none` there
-- means that it was freed. Blocks are only appended behind the last block of a file and freed from
-- the last block on, so a pointer to a live block is the block's position in the file's list.
-- Allocation never fails in the model: the source checks it only in `checked_realloc`, which exits.
use Prim.Native.String.{String}
use sysprog_exercises.Prelude.{ℕ, ◌*◌, Bool, Option, none, some, List, [], get_elem?}

-- `BLOCK_SIZE`, in bytes
abbrev pub block_size : ℕ
block_size = 512

-- `MAX_FILE_SIZE`, in bytes
abbrev pub max_file_size : ℕ
max_file_size = 1024 * 1024 * 100

-- `UFS_CREATE`, `UFS_READ_ONLY`, `UFS_WRITE_ONLY` and `UFS_READ_WRITE`
abbrev pub ufs_create : ℕ
ufs_create = 1

abbrev pub ufs_read_only : ℕ
ufs_read_only = 2

abbrev pub ufs_write_only : ℕ
ufs_write_only = 4

abbrev pub ufs_read_write : ℕ
ufs_read_write = 8

-- `enum ufs_error_code`
pub data ErrorCode : Type 0 where
  no_err no_file no_mem not_implemented no_permission : ErrorCode

-- `struct block`: its bytes, and how many of them are occupied. `next` and `prev` are the
-- neighbours in the list that holds it.
pub record Block : Type 0 where
  pub memory : List ℕ
  pub occupied : ℕ

-- `struct file`. `last_block` is the last of `block_list`.
pub record File : Type 0 where
  pub block_list : List Block
  pub blocks_count : ℕ
  pub refs : ℕ
  pub name : String
  pub is_removed : Bool

-- `struct filedesc`. `next_block_index` is the source's `current_block_index` plus one: that field
-- starts at -1 and is never below it.
pub record Filedesc : Type 0 where
  pub file : ℕ
  pub current_block : Option ℕ
  pub next_block_index : ℕ
  pub offset : ℕ
  pub permissions : ℕ
  pub fd : ℕ

-- The global variables, and the file objects on the heap.
pub record Ufs : Type 0 where
  pub heap : List (Option File)
  pub file_list : List ℕ
  pub file_descriptors : List (Option Filedesc)
  pub file_descriptor_count : ℕ
  pub file_descriptor_capacity : ℕ
  pub ufs_error_code : ErrorCode

-- The globals as the program starts.
abbrev pub initial : Ufs
initial = record {
  heap = [];
  file_list = [];
  file_descriptors = [];
  file_descriptor_count = 0;
  file_descriptor_capacity = 0;
  ufs_error_code = no_err;
}

abbrev pub join {ℓ} : {A : Type ℓ} → Option (Option A) → Option A
join none = none
join (some x) = x

-- The file object at an address of a heap, `none` when it was freed or never allocated.
unfoldable pub heap_at : List (Option File) → ℕ → Option File
heap_at heap a = join (get_elem? heap a)

abbrev pub file_at : Ufs → ℕ → Option File
file_at s a = heap_at s.heap a
