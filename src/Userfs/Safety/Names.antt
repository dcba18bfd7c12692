-- ===== src/Userfs/Safety/Names.antt =====
-- `ufs_open`, `ufs_close` and `ufs_delete` of 3/userfs.c on a state in order.
use Prim.Native.String.{String}
use text.Mathlib.Text.{◌==◌ as str_eq}
use sysprog_exercises.Prelude.{
  ℕ, ◌-◌, Option, [], ◌∷◌, ◌++◌, ◌+◌, ◌%◌, ◌<◌, ◌≡◌, ◌≢◌, refl, ap, subst, ◌∙◌, sym, ◌⊎◌, inl, inr,
  true, false, none, some, arith, length, get_elem?, Bool-cases, ◌==◌, ==_iff, set,
}
use sysprog_exercises.Prelude.Int.{ℤ, pos}
use sysprog_exercises.Userfs.Types.{File, Filedesc, Ufs, file_at, no_err, no_file}
use sysprog_exercises.Userfs.Table.{Slot, failure, set_error, find_slot, create_filedesc, new_desc}
use sysprog_exercises.Userfs.Files.{Search, new_file, add_file, search_from}
use sysprog_exercises.Userfs.Api.{permissions_of, ufs_open, release, ufs_close, ufs_delete}
use sysprog_exercises.Userfs.Valid.{IsValid, mentions}
use sysprog_exercises.Userfs.Valid.Open.{create_filedesc-Created}
use sysprog_exercises.Userfs.Valid.AddFile.{IsValid-add_file, at-new, at-old}
use sysprog_exercises.Userfs.Valid.Close.{IsValid-release, release_file, release_others}
use sysprog_exercises.Userfs.Valid.Delete.{
  SearchCase, at_file, nowhere, search_from-SearchCase, IsValid-free, IsValid-mark, mentions-unlink,
  mentions-unlink_other, after, at-file, at-other,
}
use sysprog_exercises.Userfs.Safety.Slots.{
  Ends, ends, SlotCase, closed, open_at, find_slot-SlotCase, IsValid-set_error, NotOpen,
  missing-NotOpen,
}

-- No listed file has the name.
abbrev pub Unnamed : Ufs → String → Type 0
Unnamed s name =
    (a : ℕ) (f : File)
    → 0 < mentions a s.file_list
    → file_at s a ≡ some f
    → str_eq f.name name ≡ false

-- The file of the new descriptor: one that was listed with the name, or, where none was and the flags ask
-- for it, a new one at the end of the list.
pub data Origin (s : Ufs) (name : String) (flags : ℕ) (t : Ufs) (a : ℕ) : Type 0 where
  was_listed :
      {f : File}
      → 0 < mentions a s.file_list
      → file_at s a ≡ some f
      → str_eq f.name name ≡ true
      → file_at t a ≡ some (record f { refs = f.refs + 1 })
      → t.file_list ≡ s.file_list
      → Origin s name flags t a
  created :
      (flags % 2 ≢ 0)
      → Unnamed s name
      → a ≡ length s.heap
      → file_at t a ≡ some (record (new_file name) { refs = 1 })
      → t.file_list ≡ s.file_list ++ (a ∷ [])
      → Origin s name flags t a

-- A place of the table holds a new descriptor with the flags' rights on a file of that name, and no other
-- file changes.
pub record Opened (s : Ufs) (name : String) (flags : ℕ) (r : ℤ) (t : Ufs) : Type 0 where
  pub place : ℕ
  pub desc : Filedesc
  pub result : r ≡ pos place
  pub slot : get_elem? t.file_descriptors place ≡ some (some desc)
  pub origin : Origin s name flags t desc.file
  pub others : (b : ℕ) → desc.file ≢ b → file_at t b ≡ file_at s b
  pub rights : desc.permissions ≡ permissions_of flags
  pub start : desc.offset ≡ 0
  pub clean : t.ufs_error_code ≡ no_err

abbrev pub OpenReply : Ufs → String → ℕ → ℤ → Ufs → Type 0
OpenReply s name flags r t =
    IsValid t
    × (Opened s name flags r t
        ⊎ (r ≡ failure) × (t ≡ set_error s no_file) × (flags % 2 ≡ 0) × Unnamed s name)

file_list-add_file :
    (s : Ufs) (name : String) → (add_file s name).file_list ≡ s.file_list ++ (length s.heap ∷ [])
unfolding add_file
file_list-add_file s name = refl

opened_of :
    (s u : Ufs) (name : String) (flags a : ℕ) (f : File)
    → IsValid u
    → file_at u a ≡ some f
    → ((b : ℕ) → a ≢ b → file_at u b ≡ file_at s b)
    → ((t : Ufs)
        → file_at t a ≡ some (record f { refs = f.refs + 1 })
        → t.file_list ≡ u.file_list
        → Origin s name flags t a)
    → u.ufs_error_code ≡ no_err
    → Ends (OpenReply s name flags) (create_filedesc u a f (permissions_of flags))
opened_of s u name flags a f v live others origin clean =
    let c = create_filedesc-Created u a f (permissions_of flags) v live in
    subst (Ends (OpenReply s name flags)) (sym c.result) (
      ends (
        c.valid,
        inl (record {
          place = c.place;
          desc = new_desc a f (permissions_of flags) c.place;
          result = refl;
          slot = c.opened;
          origin = origin c.state c.target c.same_list;
          others = λ b h. c.others b h ∙ others b h;
          rights = refl;
          start = refl;
          clean = c.same_error ∙ clean;
        }),
      ))

pub ufs_open-IsValid :
    (s : Ufs) (name : String) (flags : ℕ)
    → IsValid s
    → Ends (OpenReply s name flags) (ufs_open s name flags)
unfolding ufs_open
ufs_open-IsValid s name flags v =
    split (search_from s name s.file_list) refl (search_from-SearchCase s name s.file_list v.listed)
  where
    split :
        (c : Search)
        → search_from s name s.file_list ≡ c
        → SearchCase s name s.file_list c
        → Ends (OpenReply s name flags) (ufs_open s name flags)
    split c e (at_file {a} {f} live named m) =
        rw (e, ufs_open)
          (opened_of s (set_error s no_err) name flags a f (IsValid-set_error s no_err v) live
            (λ b h. refl) (λ t target same. was_listed m live named target same) refl)
    split c e (nowhere none_of) =
        rw (e, ufs_open)
          (elim (Bool-cases (flags % 2 == 0)) [
            | inl z ↦ rw z (
                ends (
                  IsValid-set_error s no_file v,
                  inr (refl, refl, (==_iff (flags % 2) 0).0 z, none_of),
                ))
            | inr z ↦ rw z (
                opened_of s (set_error (add_file s name) no_err) name flags (length s.heap)
                  (new_file name)
                  (IsValid-set_error (add_file s name) no_err (IsValid-add_file s name v))
                  (at-new s name v) (at-old s name v)
                  (λ t target same.
                    created (ground (arith, z)) none_of refl target
                      (same ∙ file_list-add_file s name))
                  refl)
          ])

file_descriptors-release :
    (s : Ufs) (a : ℕ) (f : File) → (release s a f).file_descriptors ≡ s.file_descriptors
unfolding release
file_descriptors-release s a f = ground arith

-- An open descriptor's place is emptied, and its file has one descriptor fewer, or is freed: that is if
-- it was removed and this was the last one. No other file changes, and the list neither.
pub record Closed (s : Ufs) (fd r : ℤ) (t : Ufs) : Type 0 where
  pub place : ℕ
  pub desc : Filedesc
  pub file : File
  pub argument : fd ≡ pos place
  pub slot : get_elem? s.file_descriptors place ≡ some (some desc)
  pub live : file_at s desc.file ≡ some file
  pub result : r ≡ pos 0
  pub emptied : t.file_descriptors ≡ set s.file_descriptors place none
  pub released :
      (file.is_removed ≡ true) × (file.refs ≡ 1) × (file_at t desc.file ≡ none)
      ⊎ (file.is_removed ≡ true → 1 < file.refs)
        × (file_at t desc.file ≡ some (record file { refs = file.refs - 1 }))
  pub others : (b : ℕ) → desc.file ≢ b → file_at t b ≡ file_at s b
  pub same_list : t.file_list ≡ s.file_list
  pub clean : t.ufs_error_code ≡ no_err

abbrev pub CloseReply : Ufs → ℤ → ℤ → Ufs → Type 0
CloseReply s fd r t =
    IsValid t × (Closed s fd r t ⊎ (r ≡ failure) × (t ≡ set_error s no_file) × NotOpen s fd)

file_list-release : (s : Ufs) (a : ℕ) (f : File) → (release s a f).file_list ≡ s.file_list
unfolding release
file_list-release s a f = ground arith

pub ufs_close-IsValid :
    (s : Ufs) (fd : ℤ)
    → IsValid s
    → fd ≢ pos s.file_descriptor_capacity
    → Ends (CloseReply s fd) (ufs_close s fd)
unfolding ufs_close
ufs_close-IsValid s fd v safe = split (find_slot s fd) refl (find_slot-SlotCase s fd v safe)
  where
    split :
        (c : Slot) → find_slot s fd ≡ c → SlotCase s fd c → Ends (CloseReply s fd) (ufs_close s fd)
    split c e closed =
        rw (e, ufs_close)
          (ends (IsValid-set_error s no_file v, inr (refl, refl, missing-NotOpen s fd v e)))
    split c e (open_at {i} {d} arg slot) =
        let ok = v.descs i d slot in
        rw (e, ok.live, ufs_close)
          (ends (
            IsValid-set_error _ no_err (IsValid-release s i d ok.target v slot ok.live),
            inl (record {
              place = i;
              desc = d;
              file = ok.target;
              argument = arg;
              slot = slot;
              live = ok.live;
              result = refl;
              emptied = ap (λ ds. set ds i none) (file_descriptors-release s d.file ok.target);
              released = release_file s i d ok.target v slot ok.live;
              others = release_others s i d ok.target v slot ok.live;
              same_list = file_list-release s d.file ok.target;
              clean = refl;
            }),
          ))

-- A listed file of the name is off the list, on which all others stay. It is freed if no descriptor is
-- open on it, and else stays, marked as removed. No descriptor and no other file changes.
pub record Deleted (s : Ufs) (name : String) (r : ℤ) (t : Ufs) : Type 0 where
  pub address : ℕ
  pub file : File
  pub was_listed : 0 < mentions address s.file_list
  pub live : file_at s address ≡ some file
  pub named : str_eq file.name name ≡ true
  pub result : r ≡ pos 0
  pub unlisted : mentions address t.file_list ≡ 0
  pub still_listed : (b : ℕ) → address ≢ b → mentions b t.file_list ≡ mentions b s.file_list
  pub object :
      (file.refs ≡ 0) × (file_at t address ≡ none)
      ⊎ (0 < file.refs) × (file_at t address ≡ some (record file { is_removed = true }))
  pub others : (b : ℕ) → address ≢ b → file_at t b ≡ file_at s b
  pub same_descriptors : t.file_descriptors ≡ s.file_descriptors
  pub clean : t.ufs_error_code ≡ no_err

abbrev pub DeleteReply : Ufs → String → ℤ → Ufs → Type 0
DeleteReply s name r t =
    IsValid t × (Deleted s name r t ⊎ (r ≡ failure) × (t ≡ set_error s no_file) × Unnamed s name)

module _ (s : Ufs) (name : String) (v : IsValid s) (a : ℕ) (f : File) (live : file_at s a ≡ some f)
    (named : str_eq f.name name ≡ true) (m : 0 < mentions a s.file_list) (x : Option File) where
  deleted :
      (f.refs ≡ 0) × (x ≡ none) ⊎ (0 < f.refs) × (x ≡ some (record f { is_removed = true }))
      → Deleted s name (pos 0) (set_error (after s a f v live m x) no_err)
  deleted object = record {
    address = a;
    file = f;
    was_listed = m;
    live = live;
    named = named;
    result = refl;
    unlisted = mentions-unlink s a f v live m;
    still_listed = λ b h. mentions-unlink_other a b s.file_list h;
    object = elim object [
      | inl (e, x) ↦ inl (e, at-file s a f v live m _ ∙ x)
      | inr (e, x) ↦ inr (e, at-file s a f v live m _ ∙ x)
    ];
    others = at-other s a f v live m x;
    same_descriptors = refl;
    clean = refl;
  }

-- In a state that is in order `ufs_delete` returns. It takes a listed file of that name off the list,
-- frees it if no descriptor is open on it, and else marks it as removed and keeps it; no descriptor, no
-- other file and no other place on the list changes. Where no listed file has the name it returns -1 and
-- sets the error for no file alone. The state stays in order.
pub ufs_delete-IsValid :
    (s : Ufs) (name : String) → IsValid s → Ends (DeleteReply s name) (ufs_delete s name)
unfolding ufs_delete
ufs_delete-IsValid s name v =
    split (search_from s name s.file_list) refl (search_from-SearchCase s name s.file_list v.listed)
  where
    split :
        (c : Search)
        → search_from s name s.file_list ≡ c
        → SearchCase s name s.file_list c
        → Ends (DeleteReply s name) (ufs_delete s name)
    split c e (at_file {a} {f} live named m) =
        rw (e, ufs_delete)
          (elim (Bool-cases (f.refs == 0)) [
            | inl z ↦ rw z (
                ends (
                  IsValid-set_error _ no_err (IsValid-free s a f v live m (ground arith)),
                  inl (deleted s name v a f live named m none (inl (ground arith, refl))),
                ))
            | inr z ↦ rw z (
                ends (
                  IsValid-set_error _ no_err (IsValid-mark s a f v live m (ground arith)),
                  inl (
                      deleted s name v a f live named m (some (record f { is_removed = true }))
                        (inr (ground arith, refl))),
                ))
          ])
    split c e (nowhere none_of) =
        rw (e, ufs_delete) (ends (IsValid-set_error s no_file v, inr (refl, refl, none_of)))
