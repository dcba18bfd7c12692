-- ===== src/Userfs/Api.antt =====
-- The functions of 3/userfs.h on the globals. Flags and sizes are not negative, and a size fits
-- `ssize_t`.
use Prim.Native.String.{String}
use sysprog_exercises.Prelude.{
  ℕ, ◌+◌, ◌-◌, ◌%◌, true, Option, none, some, List, [], ◌∷◌, length, if◌then◌else◌, ltb, leb, ◌==◌,
  ◌&&◌, map,
}
use sysprog_exercises.Prelude.Int.{ℤ, pos}
use sysprog_exercises.Userfs.Types.{
  ErrorCode, no_err, no_file, no_mem, no_permission, File, Filedesc, Ufs, file_at, max_file_size,
  ufs_read_only, ufs_write_only, ufs_read_write,
}
use sysprog_exercises.Userfs.Transfer.{
  init_current_block, write_loop, go, full, dangling, read_loop, more, done, wild,
}
use sysprog_exercises.Userfs.Table.{
  Outcome, returns, fault, out_of_fuel, failure, set_error, put_file, put_desc, missing,
  out_of_bounds, found, find_slot, permits, create_filedesc,
}
use sysprog_exercises.Userfs.Files.{
  at, absent, freed, search_from, new_file, add_file, unlink, free_file,
}
use sysprog_exercises.Userfs.Resize.{blocks_for, add_blocks, truncate, pull_back_at}

-- `ufs_errno`
abbrev pub ufs_errno : Ufs → ErrorCode
ufs_errno s = s.ufs_error_code

-- The permission bits of `flags`; none of them means both.
unfoldable pub permissions_of : ℕ → ℕ
permissions_of flags = if flags - flags % 2 == 0 then ufs_read_write else flags - flags % 2

unfoldable pub ufs_open : Ufs → String → ℕ → Outcome ℤ
unfolding permissions_of
ufs_open s name flags = elim (search_from s name s.file_list) [
  | freed ↦ fault
  | at a f ↦ create_filedesc (set_error s no_err) a f (permissions_of flags)
  | absent ↦
      if flags % 2 == 0
      then returns failure (set_error s no_file)
      else create_filedesc (set_error (add_file s name) no_err) (length s.heap) (new_file name)
          (permissions_of flags)
]

-- The rest of `ufs_write` behind its checks, for the descriptor `d` of the file `f`.
unfoldable pub write_file : Ufs → ℕ → File → Filedesc → List ℕ → Outcome ℤ
write_file s fd f d buf = elim (write_loop (length buf + length buf + 2) f d buf 0) [
  | none ↦ out_of_fuel
  | some (go g e rest written) ↦
      returns (pos written) (set_error (put_desc (put_file s d.file g) fd (some e)) no_err)
  | some (full g e) ↦
      returns failure (set_error (put_desc (put_file s d.file g) fd (some e)) no_mem)
  | some dangling ↦ fault
]

unfoldable pub ufs_write : Ufs → ℤ → List ℕ → Outcome ℤ
unfolding init_current_block
ufs_write s fd buf = elim (find_slot s fd) [
  | missing ↦ returns failure (set_error s no_file)
  | out_of_bounds ↦ fault
  | found i d ↦ elim (file_at s d.file) [
    | none ↦ fault
    | some f ↦
        if permits (init_current_block f d) ufs_read_write ufs_write_only
        then write_file s i f (init_current_block f d) buf
        else returns failure
            (set_error (put_desc s i (some (init_current_block f d))) no_permission)
  ]
]

-- The rest of `ufs_read` behind its checks. The bytes are what goes into the caller's buffer.
unfoldable pub read_file : Ufs → ℕ → File → Filedesc → ℕ → Outcome (ℤ × List ℕ)
read_file s fd f d size = elim (read_loop (size + size + 2) f d size []) [
  | none ↦ out_of_fuel
  | some (more e left out) ↦ fault
  | some (done e out) ↦ returns (pos (length out), out) (set_error (put_desc s fd (some e)) no_err)
  | some wild ↦ fault
]

unfoldable pub ufs_read : Ufs → ℤ → ℕ → Outcome (ℤ × List ℕ)
unfolding init_current_block
ufs_read s fd size = elim (find_slot s fd) [
  | missing ↦ returns (failure, []) (set_error s no_file)
  | out_of_bounds ↦ fault
  | found i d ↦ elim (file_at s d.file) [
    | none ↦ fault
    | some f ↦
        if permits (init_current_block f d) ufs_read_write ufs_read_only
        then read_file s i f (init_current_block f d) size
        else returns (failure, [])
            (set_error (put_desc s i (some (init_current_block f d))) no_permission)
  ]
]

-- One descriptor fewer on the file at `a`, which is freed if it was the last of a removed file.
unfoldable pub release : Ufs → ℕ → File → Ufs
release s a f =
    if f.is_removed && (f.refs - 1 == 0)
    then free_file s a
    else put_file s a (record f { refs = f.refs - 1 })

unfoldable pub ufs_close : Ufs → ℤ → Outcome ℤ
unfolding release
ufs_close s fd = elim (find_slot s fd) [
  | missing ↦ returns failure (set_error s no_file)
  | out_of_bounds ↦ fault
  | found i d ↦ elim (file_at s d.file) [
    | none ↦ fault
    | some f ↦ returns (pos 0) (set_error (put_desc (release s d.file f) i none) no_err)
  ]
]

unfoldable pub ufs_delete : Ufs → String → Outcome ℤ
ufs_delete s name = elim (search_from s name s.file_list) [
  | freed ↦ fault
  | absent ↦ returns failure (set_error s no_file)
  | at a f ↦
      let t = record s { file_list = unlink a s.file_list } in
      returns (pos 0) (
        set_error
          (if f.refs == 0 then free_file t a else put_file t a (record f { is_removed = true }))
          no_err)
]

-- The rest of `ufs_resize` behind its checks, for the file `f` at `a`.
unfoldable pub resize_file : Ufs → ℕ → File → ℕ → Outcome ℤ
resize_file s a f new_size =
    if leb f.blocks_count (blocks_for new_size)
    then returns (pos 0)
        (set_error (put_file s a (add_blocks (blocks_for new_size - f.blocks_count) f)) no_err)
    else (elim (truncate f new_size) [
      | none ↦ fault
      | some g ↦ returns (pos 0) (
          set_error
            (record (put_file s a g) {
              file_descriptors = map (pull_back_at a g) s.file_descriptors;
            })
            no_err)
    ])

unfoldable pub ufs_resize : Ufs → ℤ → ℕ → Outcome ℤ
ufs_resize s fd new_size = elim (find_slot s fd) [
  | missing ↦ returns failure (set_error s no_file)
  | out_of_bounds ↦ fault
  | found i d ↦
      if ltb max_file_size new_size
      then returns failure (set_error s no_mem)
      else (elim (file_at s d.file) [ none ↦ fault | some f ↦ resize_file s d.file f new_size ])
]

-- `ufs_destroy`: the listed files are freed, then the descriptors and their array; `none` is a step onto
-- freed memory. The source leaves the global pointers as they were, for no one to use.
unfoldable pub free_all : List ℕ → Ufs → Option Ufs
free_all [] s = some s
free_all (a ∷ rest) s = elim (file_at s a) [ none ↦ none | some f ↦ free_all rest (free_file s a) ]

unfoldable pub ufs_destroy : Ufs → Option Ufs
unfolding free_all
ufs_destroy s = elim (free_all s.file_list s) [
  | none ↦ none
  | some t ↦ some (record t { file_descriptors = [] })
]
