-- ===== src/Userfs/Valid/Close.antt =====
-- `ufs_close` and `ufs_delete` of 3/userfs.c keep the state in order.
use native.Mathlib.Decide.{ℕ_discrete}
use sysprog_exercises.Prelude.{
  ℕ, ◌+◌, ◌-◌, ◌≤◌, ◌<◌, ◌≡◌, ◌≢◌, ◌⊎◌, ap, subst, ◌∙◌, sym, true, Option, none, some, arith,
  get_elem?, set, if◌then◌else◌, ◌==◌, ◌&&◌, eq_of_some, inl, inr, length-set, get_elem?-set_self,
  get_elem?-set_ne, get_elem?-lt, Bool-cases,
}
use sysprog_exercises.Userfs.Types.{File, Filedesc, Ufs, file_at}
use sysprog_exercises.Userfs.Ahead.{CursorOk}
use sysprog_exercises.Userfs.Write.Kept.{CursorOk-Grows, Grows-refl}
use sysprog_exercises.Userfs.Table.{put_desc}
use sysprog_exercises.Userfs.Api.{release}
use sysprog_exercises.Userfs.Valid.{
  slot_refs, slot_open, refs_to, open_slots, mentions, DescOk, FileOk, IsValid, total-set, le-total,
  heap_at-put, heap_at-lt,
}

-- One descriptor fewer on the file at `d.file`; the object becomes `x`.
module _ (s : Ufs) (i : ℕ) (d : Filedesc) (f : File) (v : IsValid s)
    (slot : get_elem? s.file_descriptors i ≡ some (some d)) (live : file_at s d.file ≡ some f)
    (x : Option File) where
  abbrev after : Ufs
  after = put_desc (record s { heap = set s.heap d.file x }) i none

  at-file : file_at after d.file ≡ x
  at-file = heap_at-put s.heap d.file d.file x (heap_at-lt s.heap d.file live) ∙ ground arith

  at-other : (b : ℕ) → d.file ≢ b → file_at after b ≡ file_at s b
  at-other b h = heap_at-put s.heap d.file b x (heap_at-lt s.heap d.file live) ∙ ground arith

  refs_to-after : refs_to d.file after.file_descriptors + 1 ≡ refs_to d.file s.file_descriptors
  refs_to-after =
      let one : slot_refs d.file (some d) ≡ 1 = ground arith in
      omega (arith, total-set (slot_refs d.file) s.file_descriptors i (some d) none slot)

  refs_to-other :
      (a : ℕ) → d.file ≢ a → refs_to a after.file_descriptors ≡ refs_to a s.file_descriptors
  refs_to-other a h =
      let zero_refs : slot_refs a (some d) ≡ 0 = ground arith in
      omega (arith, total-set (slot_refs a) s.file_descriptors i (some d) none slot)

  -- A descriptor that stays open was open before.
  still_open :
      (j : ℕ) (c : Filedesc)
      → get_elem? after.file_descriptors j ≡ some (some c)
      → get_elem? s.file_descriptors j ≡ some (some c)
  still_open j c there = elim (ℕ_discrete i j) [
    | yes h ↦
        let gone : some (some c) ≡ some none =
          sym there
          ∙ ap (get_elem? after.file_descriptors) (sym h)
          ∙ get_elem?-set_self s.file_descriptors i none (get_elem?-lt s.file_descriptors i slot) in
        cc gone
    | no h ↦ sym (get_elem?-set_ne s.file_descriptors i j none h) ∙ there
  ]

  file-other : (a : ℕ) (t : File) → d.file ≢ a → file_at after a ≡ some t → FileOk after a t
  file-other a t h there =
      let old = v.files a t (sym (at-other a h) ∙ there) in
      record {
        fits = old.fits;
        counted = omega (arith, refs_to-other a h, old.counted);
        linked = old.linked;
        kept = old.kept;
      }

module _ (s : Ufs) (i : ℕ) (d : Filedesc) (f : File) (v : IsValid s)
    (slot : get_elem? s.file_descriptors i ≡ some (some d)) (live : file_at s d.file ≡ some f) where
  refs_pos : 0 < f.refs
  refs_pos =
      let one : slot_refs d.file (some d) ≡ 1 = ground arith in
      omega (
        arith,
        le-total (slot_refs d.file) s.file_descriptors i (some d) slot,
        (v.files d.file f live).counted,
      )

  abbrev one_less : File
  one_less = record f { refs = f.refs - 1 }

  room-after :
      (x : Option File)
      → open_slots (after s i d f v slot live x).file_descriptors ≤ s.file_descriptor_count
  room-after x = omega (arith, v.room, total-set slot_open s.file_descriptors i (some d) none slot)

  -- The file stays: it is still listed, or another descriptor is open on it.
  module _ (stays : f.is_removed ≡ true → 1 < f.refs) where
    abbrev kept : Ufs
    kept = after s i d f v slot live (some one_less)

    desc-kept :
        (j : ℕ) (c : Filedesc) → get_elem? kept.file_descriptors j ≡ some (some c) → DescOk kept c
    desc-kept j c there =
        let ok = v.descs j c (still_open s i d f v slot live (some one_less) j c there) in
        elim (ℕ_discrete d.file c.file) [
          | yes h ↦ record {
            target = one_less;
            live = ap (file_at kept) (sym h) ∙ at-file s i d f v slot live (some one_less);
            cursor = CursorOk-Grows (Grows-refl f.block_list) (
                subst (λ t. CursorOk t c) (eq_of_some (sym ok.live ∙ ap (file_at s) (sym h) ∙ live))
                  ok.cursor);
          }
          | no h ↦ record {
            target = ok.target;
            live = at-other s i d f v slot live (some one_less) c.file h ∙ ok.live;
            cursor = ok.cursor;
          }
        ]

    file-kept : (a : ℕ) (t : File) → file_at kept a ≡ some t → FileOk kept a t
    file-kept a t there = elim (ℕ_discrete d.file a) [
      | yes h ↦
          let same : one_less ≡ t =
            eq_of_some
              (sym (at-file s i d f v slot live (some one_less)) ∙ ap (file_at kept) h ∙ there) in
          let old = v.files d.file f live in
          subst (λ b. FileOk kept b t) h
            (subst (FileOk kept d.file) same (record {
              fits = record {
                sized = old.fits.sized;
                counted = old.fits.counted;
                bounded = old.fits.bounded;
              };
              counted =
                  omega (
                    arith,
                    refs_to-after s i d f v slot live (some one_less),
                    old.counted,
                    refs_pos,
                  );
              linked = old.linked;
              kept = λ r. omega (arith, stays r);
            }))
      | no h ↦ file-other s i d f v slot live (some one_less) a t h there
    ]

    listed-kept : (a : ℕ) → 0 < mentions a kept.file_list → (t : File) × (file_at kept a ≡ some t)
    listed-kept a m = elim (ℕ_discrete d.file a) [
      | yes h ↦ (one_less, ap (file_at kept) (sym h) ∙ at-file s i d f v slot live (some one_less))
      | no h ↦
          let (t, there) = v.listed a m in
          (t, at-other s i d f v slot live (some one_less) a h ∙ there)
    ]

    IsValid-kept : IsValid kept
    IsValid-kept = record {
      table = length-set s.file_descriptors i none ∙ v.table;
      room = room-after (some one_less);
      used = v.used;
      descs = desc-kept;
      files = file-kept;
      listed = listed-kept;
    }

  -- The file goes: it was removed, and this was its last descriptor.
  module _ (removed : f.is_removed ≡ true) (last : f.refs ≡ 1) where
    abbrev gone : Ufs
    gone = after s i d f v slot live none

    desc-gone :
        (j : ℕ) (c : Filedesc) → get_elem? gone.file_descriptors j ≡ some (some c) → DescOk gone c
    desc-gone j c there =
        let ok = v.descs j c (still_open s i d f v slot live none j c there) in
        elim (ℕ_discrete d.file c.file) [
          | yes h ↦
              let one : slot_refs d.file (some c) ≡ 1 = ground arith in
              absurd (
                omega (
                  arith,
                  refs_to-after s i d f v slot live none,
                  (v.files d.file f live).counted,
                  le-total (slot_refs d.file) gone.file_descriptors j (some c) there,
                ))
          | no h ↦ record {
            target = ok.target;
            live = at-other s i d f v slot live none c.file h ∙ ok.live;
            cursor = ok.cursor;
          }
        ]

    file-gone : (a : ℕ) (t : File) → file_at gone a ≡ some t → FileOk gone a t
    file-gone a t there = elim (ℕ_discrete d.file a) [
      | yes h ↦ cc (sym (at-file s i d f v slot live none) ∙ ap (file_at gone) h ∙ there)
      | no h ↦ file-other s i d f v slot live none a t h there
    ]

    listed-gone : (a : ℕ) → 0 < mentions a gone.file_list → (t : File) × (file_at gone a ≡ some t)
    listed-gone a m = elim (ℕ_discrete d.file a) [
      | yes h ↦
          let unlisted : mentions d.file s.file_list ≡ 0 =
            (v.files d.file f live).linked ∙ ap (λ r. if r then 0 else 1) removed in
          absurd (omega (arith, ap (λ b. mentions b s.file_list) h))
      | no h ↦ let (t, there) = v.listed a m in (t, at-other s i d f v slot live none a h ∙ there)
    ]

    IsValid-gone : IsValid gone
    IsValid-gone = record {
      table = length-set s.file_descriptors i none ∙ v.table;
      room = room-after none;
      used = v.used;
      descs = desc-gone;
      files = file-gone;
      listed = listed-gone;
    }

  pub IsValid-release : IsValid (put_desc (release s d.file f) i none)
  unfolding release
  IsValid-release = elim (Bool-cases (f.is_removed && (f.refs - 1 == 0))) [
    | inl e ↦ rw e (IsValid-gone (ground arith) (ground (arith, refs_pos)))
    | inr e ↦ rw e (IsValid-kept (λ r. ground (arith, refs_pos)))
  ]

  -- What becomes of the file, and that all others stay.
  pub release_file :
      (f.is_removed ≡ true)
        × (f.refs ≡ 1)
        × (file_at (put_desc (release s d.file f) i none) d.file ≡ none)
      ⊎ (f.is_removed ≡ true → 1 < f.refs)
        × (file_at (put_desc (release s d.file f) i none) d.file ≡ some one_less)
  unfolding release
  release_file = elim (Bool-cases (f.is_removed && (f.refs - 1 == 0))) [
    | inl e ↦ rw e (inl (ground arith, ground (arith, refs_pos), at-file s i d f v slot live none))
    | inr e ↦
        rw e (inr (λ r. ground (arith, refs_pos), at-file s i d f v slot live (some one_less)))
  ]

  pub release_others :
      (b : ℕ) → d.file ≢ b → file_at (put_desc (release s d.file f) i none) b ≡ file_at s b
  unfolding release
  release_others b h = elim (Bool-cases (f.is_removed && (f.refs - 1 == 0))) [
    | inl e ↦ rw e (at-other s i d f v slot live none b h)
    | inr e ↦ rw e (at-other s i d f v slot live (some one_less) b h)
  ]
