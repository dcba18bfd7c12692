-- ===== src/Userfs/Valid/Resize.antt =====
-- `ufs_resize` of 3/userfs.c keeps the state in order.
use native.Mathlib.Decide.{ℕ_discrete}
use sysprog_exercises.Prelude.{
  ℕ, zero, suc, ◌≡◌, ◌≢◌, refl, ap, subst, ◌∙◌, sym, Option, none, some, List, [], ◌∷◌, arith,
  length, get_elem?, set, map, if◌then◌else◌, eq_of_some,
}
use sysprog_exercises.Userfs.Types.{File, Filedesc, Ufs, file_at}
use sysprog_exercises.Userfs.Ahead.{CursorOk}
use sysprog_exercises.Userfs.Resize.{pull_back, pull_back_at}
use sysprog_exercises.Userfs.Truncate.{Cut}
use sysprog_exercises.Userfs.Truncate.Moves.{file-pull_back, pull_back-CursorOk}
use sysprog_exercises.Userfs.Valid.{
  total, slot_refs, slot_open, refs_to, DescOk, FileOk, IsValid, heap_at-put, heap_at-lt,
}

length-map :
    (h : Option Filedesc → Option Filedesc) (ds : List (Option Filedesc))
    → length (map h ds) ≡ length ds
length-map h [] = refl
length-map h (d ∷ ds) = ap suc (length-map h ds)

total-map :
    (t : Option Filedesc → ℕ) (h : Option Filedesc → Option Filedesc) (ds : List (Option Filedesc))
    → ((d : Option Filedesc) → t (h d) ≡ t d)
    → total t (map h ds) ≡ total t ds
total-map t h [] same = refl
total-map t h (d ∷ ds) same = omega (arith, same d, total-map t h ds same)

-- A place of the mapped table holds what the place held, mapped.
get_elem?-map :
    (h : Option Filedesc → Option Filedesc) (ds : List (Option Filedesc)) (i : ℕ)
    {y : Option Filedesc}
    → get_elem? (map h ds) i ≡ some y
    → (x : Option Filedesc) × (get_elem? ds i ≡ some x) × (h x ≡ y)
get_elem?-map h [] i e = cc e
get_elem?-map h (d ∷ ds) zero e = (d, refl, eq_of_some e)
get_elem?-map h (d ∷ ds) (suc i) e = get_elem?-map h ds i e

slot_refs-pull_back_at :
    (a b : ℕ) (g : File) (d : Option Filedesc) → slot_refs b (pull_back_at a g d) ≡ slot_refs b d
unfolding pull_back_at
slot_refs-pull_back_at a b g none = refl
slot_refs-pull_back_at a b g (some d) = ground (arith, file-pull_back g d)

slot_open-pull_back_at :
    (a : ℕ) (g : File) (d : Option Filedesc) → slot_open (pull_back_at a g d) ≡ slot_open d
unfolding pull_back_at
slot_open-pull_back_at a g none = refl
slot_open-pull_back_at a g (some d) = ground arith

module _ (s : Ufs) (a new_size : ℕ) (f g : File) (v : IsValid s) (live : file_at s a ≡ some f)
    (k : Cut f new_size g) where
  abbrev after : Ufs
  after = record s {
    heap = set s.heap a (some g);
    file_descriptors = map (pull_back_at a g) s.file_descriptors;
  }

  at-file : file_at after a ≡ some g
  at-file = heap_at-put s.heap a a (some g) (heap_at-lt s.heap a live) ∙ ground arith

  at-other : (b : ℕ) → a ≢ b → file_at after b ≡ file_at s b
  at-other b h = heap_at-put s.heap a b (some g) (heap_at-lt s.heap a live) ∙ ground arith

  DescOk-pulled : (d : Filedesc) → d.file ≡ a → DescOk s d → DescOk after (pull_back g d)
  DescOk-pulled d h ok = record {
    target = g;
    live = ap (file_at after) (file-pull_back g d ∙ h) ∙ at-file;
    cursor =
        pull_back-CursorOk f g new_size k d (
          subst (λ t. CursorOk t d) (eq_of_some (sym ok.live ∙ ap (file_at s) h ∙ live)) ok.cursor);
  }

  desc-after :
      (j : ℕ) (c : Filedesc) → get_elem? after.file_descriptors j ≡ some (some c) → DescOk after c
  unfolding pull_back_at
  desc-after j c there =
      let (x, here, e) = get_elem?-map (pull_back_at a g) s.file_descriptors j there in
      by_slot x here e
    where
      by_slot :
          (x : Option Filedesc)
          → get_elem? s.file_descriptors j ≡ some x
          → pull_back_at a g x ≡ some c
          → DescOk after c
      by_slot none here e = cc e
      by_slot (some d) here e = elim (ℕ_discrete d.file a) [
        | yes h ↦
            let same : pull_back g d ≡ c = ground arith in
            subst (DescOk after) same (DescOk-pulled d h (v.descs j d here))
        | no h ↦
            let same : d ≡ c = ground arith in
            let ok = v.descs j d here in
            subst (DescOk after) same (record {
              target = ok.target;
              live = at-other d.file (λ q. h (sym q)) ∙ ok.live;
              cursor = ok.cursor;
            })
      ]

  refs_to-after : (b : ℕ) → refs_to b after.file_descriptors ≡ refs_to b s.file_descriptors
  refs_to-after b =
      total-map (slot_refs b) (pull_back_at a g) s.file_descriptors (slot_refs-pull_back_at a b g)

  file-after : (b : ℕ) (t : File) → file_at after b ≡ some t → FileOk after b t
  file-after b t there = elim (ℕ_discrete a b) [
    | yes h ↦
        let same : g ≡ t = eq_of_some (sym at-file ∙ ap (file_at after) h ∙ there) in
        let old = v.files a f live in
        subst (λ c. FileOk after c t) h
          (subst (FileOk after a) same (record {
            fits = k.fits;
            counted = omega (arith, refs_to-after a, k.same_file.same_refs, old.counted);
            linked = old.linked ∙ ap (λ r. if r then 0 else 1) (sym k.same_file.same_is_removed);
            kept = λ r.
                omega
                  (arith, k.same_file.same_refs, old.kept (sym k.same_file.same_is_removed ∙ r));
          }))
    | no h ↦
        let old = v.files b t (sym (at-other b h) ∙ there) in
        record {
          fits = old.fits;
          counted = omega (arith, refs_to-after b, old.counted);
          linked = old.linked;
          kept = old.kept;
        }
  ]

  pub IsValid-cut : IsValid after
  IsValid-cut = record {
    table = length-map (pull_back_at a g) s.file_descriptors ∙ v.table;
    room = omega (
      arith,
      v.room,
      total-map slot_open (pull_back_at a g) s.file_descriptors (slot_open-pull_back_at a g),
    );
    used = v.used;
    descs = desc-after;
    files = file-after;
    listed = λ b m. elim (ℕ_discrete a b) [
      | yes h ↦ (g, ap (file_at after) (sym h) ∙ at-file)
      | no h ↦ let (t, there) = v.listed b m in (t, at-other b h ∙ there)
    ];
  }
