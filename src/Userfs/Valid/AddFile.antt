-- ===== src/Userfs/Valid/AddFile.antt =====
-- `add_file` of 3/userfs.c keeps the state in order.
use Prim.Native.String.{String}
use native.Mathlib.Decide.{ℕ_discrete, dec_lt}
use sysprog_exercises.Prelude.{
  ℕ, ◌≡◌, ◌≢◌, refl, ap, subst, ◌∙◌, sym, Option, none, some, [], ◌∷◌, arith, length, get_elem?,
  if◌then◌else◌, ◌==◌, eq_of_some,
}
use sysprog_exercises.Userfs.Types.{File, Filedesc, Ufs, file_at}
use sysprog_exercises.Userfs.Files.{new_file, add_file}
use sysprog_exercises.Userfs.Valid.{
  slot_refs, refs_to, mentions, FileOk, IsValid, total-append, heap_at-append, heap_at-lt,
}
use sysprog_exercises.Userfs.Valid.Grow.{total_zero}

-- A new, empty file that no descriptor is open on.
module _ (s : Ufs) (name : String) (v : IsValid s) where
  pub at-new : file_at (add_file s name) (length s.heap) ≡ some (new_file name)
  unfolding add_file
  at-new = heap_at-append s.heap (length s.heap) (some (new_file name)) ∙ ground arith

  pub at-old : (b : ℕ) → length s.heap ≢ b → file_at (add_file s name) b ≡ file_at s b
  unfolding add_file
  at-old b h = heap_at-append s.heap b (some (new_file name)) ∙ ground arith

  fresh_refs : refs_to (length s.heap) s.file_descriptors ≡ 0
  fresh_refs = total_zero (slot_refs (length s.heap)) s.file_descriptors none_of
    where
      none_of :
          (i : ℕ) (x : Option Filedesc)
          → get_elem? s.file_descriptors i ≡ some x
          → slot_refs (length s.heap) x ≡ 0
      none_of i none e = refl
      none_of i (some d) e = let lt = heap_at-lt s.heap d.file (v.descs i d e).live in ground arith

  fresh_mentions : mentions (length s.heap) s.file_list ≡ 0
  fresh_mentions = elim (dec_lt 0 (mentions (length s.heap) s.file_list)) [
    | yes h ↦
        let (t, there) = v.listed (length s.heap) h in
        absurd (omega (arith, heap_at-lt s.heap (length s.heap) there))
    | no h ↦ omega arith
  ]

  file-added :
      (b : ℕ) (t : File) → file_at (add_file s name) b ≡ some t → FileOk (add_file s name) b t
  unfolding add_file
  file-added b t there = elim (ℕ_discrete (length s.heap) b) [
    | yes h ↦
        let same : new_file name ≡ t =
          eq_of_some (sym at-new ∙ ap (file_at (add_file s name)) h ∙ there) in
        subst (λ c. FileOk (add_file s name) c t) h
          (subst (FileOk (add_file s name) (length s.heap)) same (record {
            fits = record { sized = tt; counted = refl; bounded = omega arith };
            counted = sym fresh_refs;
            linked = ground (
              arith,
              fresh_mentions,
              total-append (λ c. if length s.heap == c then 1 else 0) s.file_list
                  (length s.heap ∷ []),
            );
            kept = λ r. cc;
          }))
    | no h ↦
        let old = v.files b t (sym (at-old b h) ∙ there) in
        record {
          fits = old.fits;
          counted = old.counted;
          linked = ground (
            arith,
            old.linked,
            total-append (λ c. if b == c then 1 else 0) s.file_list (length s.heap ∷ []),
          );
          kept = old.kept;
        }
  ]

  pub IsValid-add_file : IsValid (add_file s name)
  unfolding add_file
  IsValid-add_file = record {
    table = v.table;
    room = v.room;
    used = v.used;
    descs = λ i d e.
        let ok = v.descs i d e in
        let lt = heap_at-lt s.heap d.file ok.live in
        record {
          target = ok.target;
          live = at-old d.file (λ h. absurd (omega arith)) ∙ ok.live;
          cursor = ok.cursor;
        };
    files = file-added;
    listed = λ b m. elim (ℕ_discrete (length s.heap) b) [
      | yes h ↦ (new_file name, ap (file_at (add_file s name)) (sym h) ∙ at-new)
      | no h ↦
          let (t, there) = v.listed b (
            ground (
              arith,
              total-append (λ c. if b == c then 1 else 0) s.file_list (length s.heap ∷ []),
            )) in
          (t, at-old b h ∙ there)
    ];
  }
