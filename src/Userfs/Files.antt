-- ===== src/Userfs/Files.antt =====
-- The list of files of 3/userfs.c: search, `add_file`, unlinking and `free_file`.
use Prim.Native.String.{String}
use text.Mathlib.Text.{◌==◌ as str_eq}
use sysprog_exercises.Prelude.{
  ℕ, false, none, some, List, [], ◌∷◌, ◌++◌, length, set, if◌then◌else◌, ◌==◌,
}
use sysprog_exercises.Userfs.Types.{File, Ufs, file_at}

-- The walk over `file_list` that compares names: the address of the first file with that name, none, or a
-- step onto freed memory.
pub data Search : Type 0 where
  at : ℕ → File → Search
  absent : Search
  freed : Search

unfoldable pub search_from : Ufs → String → List ℕ → Search
search_from s name [] = absent
search_from s name (a ∷ rest) = elim (file_at s a) [
  | none ↦ freed
  | some f ↦ if str_eq f.name name then at a f else search_from s name rest
]

abbrev pub new_file : String → File
new_file name = record {
  block_list = [];
  blocks_count = 0;
  refs = 0;
  name = name;
  is_removed = false;
}

-- `add_file`: a new object on the heap, behind the last file of the list.
unfoldable pub add_file : Ufs → String → Ufs
add_file s name = record s {
  heap = s.heap ++ (some (new_file name) ∷ []);
  file_list = s.file_list ++ (length s.heap ∷ []);
}

-- The list without the node at `a`: its neighbours, or the head, are linked past it.
unfoldable pub unlink : ℕ → List ℕ → List ℕ
unlink a [] = []
unlink a (b ∷ rest) = if a == b then rest else b ∷ unlink a rest

-- `free_file`
abbrev pub free_file : Ufs → ℕ → Ufs
free_file s a = record s { heap = set s.heap a none }
