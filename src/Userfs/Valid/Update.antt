-- ===== src/Userfs/Valid/Update.antt =====
-- `ufs_write` and `ufs_read` of 3/userfs.c keep the state in order: one descriptor and its file change.
use native.Mathlib.Decide.{ℕ_discrete}
use sysprog_exercises.Prelude.{
  ℕ, ◌<◌, ◌≡◌, ◌≢◌, ap, subst, ◌∙◌, sym, some, arith, get_elem?, if◌then◌else◌, ◌==◌, eq_of_some,
  length-set, get_elem?-set_self, get_elem?-set_ne, get_elem?-lt,
}
use sysprog_exercises.Userfs.Types.{File, Filedesc, Ufs, file_at}
use sysprog_exercises.Userfs.Ahead.{CursorOk}
use sysprog_exercises.Userfs.Write.Kept.{Kept, CursorOk-Grows}
use sysprog_exercises.Userfs.Table.{put_file, put_desc}
use sysprog_exercises.Userfs.Valid.{
  slot_refs, slot_open, refs_to, mentions, DescOk, FileOk, IsValid, total-set, heap_at-put,
  heap_at-lt,
}

module _ (s : Ufs) (i : ℕ) (d e : Filedesc) (f g : File) (v : IsValid s)
    (slot : get_elem? s.file_descriptors i ≡ some (some d)) (live : file_at s d.file ≡ some f)
    (k : Kept f d g e) where
  abbrev after : Ufs
  after = put_desc (put_file s d.file g) i (some e)

  at-file : file_at after d.file ≡ some g
  at-file = heap_at-put s.heap d.file d.file (some g) (heap_at-lt s.heap d.file live) ∙ ground arith

  at-other : (b : ℕ) → d.file ≢ b → file_at after b ≡ file_at s b
  at-other b h = heap_at-put s.heap d.file b (some g) (heap_at-lt s.heap d.file live) ∙ ground arith

  -- The descriptors on a file are as many as before.
  same_refs_to : (a : ℕ) → refs_to a after.file_descriptors ≡ refs_to a s.file_descriptors
  same_refs_to a =
      let same : slot_refs a (some e) ≡ slot_refs a (some d) =
        ap (λ b. if b == a then 1 else 0) k.same_owner.same_file in
      omega (arith, total-set (slot_refs a) s.file_descriptors i (some d) (some e) slot)

  -- What a descriptor on some file meets afterwards.
  DescOk-after : (c : Filedesc) → DescOk s c → DescOk after c
  DescOk-after c ok = elim (ℕ_discrete d.file c.file) [
    | yes h ↦ record {
      target = g;
      live = ap (file_at after) (sym h) ∙ at-file;
      cursor = CursorOk-Grows k.grows (
          subst (λ t. CursorOk t c) (eq_of_some (sym ok.live ∙ ap (file_at s) (sym h) ∙ live))
            ok.cursor);
    }
    | no h ↦ record { target = ok.target; live = at-other c.file h ∙ ok.live; cursor = ok.cursor }
  ]

  desc-after :
      (j : ℕ) (c : Filedesc) → get_elem? after.file_descriptors j ≡ some (some c) → DescOk after c
  desc-after j c there = elim (ℕ_discrete i j) [
    | yes h ↦
        let same : e ≡ c = eq_of_some (
          eq_of_some (
            sym (
              get_elem?-set_self s.file_descriptors i (some e)
                (get_elem?-lt s.file_descriptors i slot))
            ∙ ap (get_elem? after.file_descriptors) h
            ∙ there)) in
        subst (DescOk after) same (record {
          target = g;
          live = ap (file_at after) k.same_owner.same_file ∙ at-file;
          cursor = k.cursor;
        })
    | no h ↦
        DescOk-after c
          (v.descs j c (sym (get_elem?-set_ne s.file_descriptors i j (some e) h) ∙ there))
  ]

  file-after : (a : ℕ) (t : File) → file_at after a ≡ some t → FileOk after a t
  file-after a t there = elim (ℕ_discrete d.file a) [
    | yes h ↦
        let same : g ≡ t = eq_of_some (sym at-file ∙ ap (file_at after) h ∙ there) in
        let old = v.files d.file f live in
        subst (λ b. FileOk after b t) h
          (subst (FileOk after d.file) same (record {
            fits = k.fits;
            counted = omega (arith, same_refs_to d.file, k.same_file.same_refs, old.counted);
            linked = old.linked ∙ ap (λ r. if r then 0 else 1) (sym k.same_file.same_is_removed);
            kept = λ r.
                omega
                  (arith, k.same_file.same_refs, old.kept (sym k.same_file.same_is_removed ∙ r));
          }))
    | no h ↦
        let old = v.files a t (sym (at-other a h) ∙ there) in
        record {
          fits = old.fits;
          counted = omega (arith, same_refs_to a, old.counted);
          linked = old.linked;
          kept = old.kept;
        }
  ]

  listed-after : (a : ℕ) → 0 < mentions a after.file_list → (t : File) × (file_at after a ≡ some t)
  listed-after a m = elim (ℕ_discrete d.file a) [
    | yes h ↦ (g, ap (file_at after) (sym h) ∙ at-file)
    | no h ↦ let (t, there) = v.listed a m in (t, at-other a h ∙ there)
  ]

  pub IsValid-update : IsValid after
  IsValid-update = record {
    table = length-set s.file_descriptors i (some e) ∙ v.table;
    room = omega (arith, v.room, total-set slot_open s.file_descriptors i (some d) (some e) slot);
    used = v.used;
    descs = desc-after;
    files = file-after;
    listed = listed-after;
  }
