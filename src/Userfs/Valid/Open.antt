-- ===== src/Userfs/Valid/Open.antt =====
-- `create_filedesc` of 3/userfs.c keeps the state in order.
use native.Mathlib.Decide.{ℕ_discrete}
use sysprog_exercises.Prelude.{
  ℕ, ◌+◌, ◌<◌, ◌≡◌, ◌≢◌, ap, subst, ◌∙◌, sym, none, some, arith, get_elem?, set, eq_of_some,
  length-set, get_elem?-set_self, get_elem?-set_ne, get_elem?-lt,
}
use sysprog_exercises.Prelude.Int.{ℤ, pos}
use sysprog_exercises.Userfs.Types.{File, Filedesc, Ufs, heap_at, file_at}
use sysprog_exercises.Userfs.Ahead.{CursorOk}
use sysprog_exercises.Userfs.Write.Kept.{CursorOk-Grows, Grows-refl}
use sysprog_exercises.Userfs.Table.{Outcome, returns, grow_table, new_desc, create_filedesc}
use sysprog_exercises.Userfs.Valid.{
  slot_refs, slot_open, refs_to, mentions, DescOk, FileOk, IsValid, total-set, heap_at-put,
  heap_at-lt,
}
use sysprog_exercises.Userfs.Valid.Grow.{first_free_of_room, grow_table-Grown, new_desc-CursorOk}

-- A new descriptor at a free place of the table.
module _ (s : Ufs) (a fd permissions : ℕ) (f : File) (v : IsValid s)
    (roomy : s.file_descriptor_count < s.file_descriptor_capacity)
    (free : get_elem? s.file_descriptors fd ≡ some none) (live : file_at s a ≡ some f) where
  abbrev one_more : File
  one_more = record f { refs = f.refs + 1 }

  abbrev desc : Filedesc
  desc = new_desc a f permissions fd

  abbrev after : Ufs
  after = record s {
    heap = set s.heap a (some one_more);
    file_descriptors = set s.file_descriptors fd (some desc);
    file_descriptor_count = s.file_descriptor_count + 1;
  }

  at-file : file_at after a ≡ some one_more
  at-file = heap_at-put s.heap a a (some one_more) (heap_at-lt s.heap a live) ∙ ground arith

  at-other : (b : ℕ) → a ≢ b → file_at after b ≡ file_at s b
  at-other b h = heap_at-put s.heap a b (some one_more) (heap_at-lt s.heap a live) ∙ ground arith

  DescOk-after : (c : Filedesc) → DescOk s c → DescOk after c
  DescOk-after c ok = elim (ℕ_discrete a c.file) [
    | yes h ↦ record {
      target = one_more;
      live = ap (file_at after) (sym h) ∙ at-file;
      cursor = CursorOk-Grows (Grows-refl f.block_list) (
          subst (λ u. CursorOk u c) (eq_of_some (sym ok.live ∙ ap (file_at s) (sym h) ∙ live))
            ok.cursor);
    }
    | no h ↦ record { target = ok.target; live = at-other c.file h ∙ ok.live; cursor = ok.cursor }
  ]

  desc-after :
      (j : ℕ) (c : Filedesc) → get_elem? after.file_descriptors j ≡ some (some c) → DescOk after c
  desc-after j c there = elim (ℕ_discrete fd j) [
    | yes h ↦
        let same : desc ≡ c = eq_of_some (
          eq_of_some (
            sym (
              get_elem?-set_self s.file_descriptors fd (some desc)
                (get_elem?-lt s.file_descriptors fd free))
            ∙ ap (get_elem? after.file_descriptors) h
            ∙ there)) in
        subst (DescOk after) same (record {
          target = one_more;
          live = at-file;
          cursor = CursorOk-Grows (Grows-refl f.block_list) (new_desc-CursorOk a f permissions fd);
        })
    | no h ↦
        DescOk-after c
          (v.descs j c (sym (get_elem?-set_ne s.file_descriptors fd j (some desc) h) ∙ there))
  ]

  refs_to-after :
      (b : ℕ)
      → refs_to b after.file_descriptors ≡ refs_to b s.file_descriptors + slot_refs b (some desc)
  refs_to-after b =
      omega (arith, total-set (slot_refs b) s.file_descriptors fd none (some desc) free)

  file-after : (b : ℕ) (t : File) → file_at after b ≡ some t → FileOk after b t
  file-after b t there = elim (ℕ_discrete a b) [
    | yes h ↦
        let same : one_more ≡ t = eq_of_some (sym at-file ∙ ap (file_at after) h ∙ there) in
        let old = v.files a f live in
        let one : slot_refs a (some desc) ≡ 1 = ground arith in
        subst (λ c. FileOk after c t) h
          (subst (FileOk after a) same (record {
            fits = record {
              sized = old.fits.sized;
              counted = old.fits.counted;
              bounded = old.fits.bounded;
            };
            counted = omega (arith, refs_to-after a, old.counted);
            linked = old.linked;
            kept = λ r. omega arith;
          }))
    | no h ↦
        let old = v.files b t (sym (at-other b h) ∙ there) in
        let none_of : slot_refs b (some desc) ≡ 0 = ground arith in
        record {
          fits = old.fits;
          counted = omega (arith, refs_to-after b, old.counted);
          linked = old.linked;
          kept = old.kept;
        }
  ]

  listed-after : (b : ℕ) → 0 < mentions b after.file_list → (t : File) × (file_at after b ≡ some t)
  listed-after b m = elim (ℕ_discrete a b) [
    | yes h ↦ (one_more, ap (file_at after) (sym h) ∙ at-file)
    | no h ↦ let (t, there) = v.listed b m in (t, at-other b h ∙ there)
  ]

  IsValid-new_desc : IsValid after
  IsValid-new_desc = record {
    table = length-set s.file_descriptors fd (some desc) ∙ v.table;
    room = omega (arith, v.room, total-set slot_open s.file_descriptors fd none (some desc) free);
    used = omega arith;
    descs = desc-after;
    files = file-after;
    listed = listed-after;
  }

-- `create_filedesc` takes the first free place of the table, which has one, and leaves the rest alone.
pub record Created (s : Ufs) (a : ℕ) (f : File) (permissions : ℕ) (o : Outcome ℤ) : Type 0 where
  pub place : ℕ
  pub state : Ufs
  pub result : o ≡ returns (pos place) state
  pub valid : IsValid state
  pub opened : get_elem? state.file_descriptors place ≡ some (some (new_desc a f permissions place))
  pub target : file_at state a ≡ some (record f { refs = f.refs + 1 })
  pub others : (b : ℕ) → a ≢ b → file_at state b ≡ file_at s b
  pub same_list : state.file_list ≡ s.file_list
  pub same_error : state.ufs_error_code ≡ s.ufs_error_code

pub create_filedesc-Created :
    (s : Ufs) (a : ℕ) (f : File) (permissions : ℕ)
    → IsValid s
    → file_at s a ≡ some f
    → Created s a f permissions (create_filedesc s a f permissions)
unfolding create_filedesc
create_filedesc-Created s a f permissions v live =
    let g = grow_table-Grown s v in
    let t = grow_table s in
    let live' : file_at t a ≡ some f = ap (λ h. heap_at h a) g.same_heap ∙ live in
    let (fd, e, free) =
      first_free_of_room t.file_descriptors (omega (arith, g.valid.table, g.valid.room, g.roomy)) in
    record {
      place = fd;
      state = after t a fd permissions f g.valid g.roomy free live';
      result = rw (e, create_filedesc);
      valid = IsValid-new_desc t a fd permissions f g.valid g.roomy free live';
      opened =
          get_elem?-set_self t.file_descriptors fd (some (new_desc a f permissions fd))
            (get_elem?-lt t.file_descriptors fd free);
      target = at-file t a fd permissions f g.valid g.roomy free live';
      others = λ b h.
          at-other t a fd permissions f g.valid g.roomy free live' b h
          ∙ ap (λ u. heap_at u b) g.same_heap;
      same_list = g.same_list;
      same_error = g.same_error;
    }
