-- ===== src/Userfs/Valid/Delete.antt =====
-- `ufs_delete` of 3/userfs.c keeps the state in order, and what the search for a name finds.
use Prim.Native.String.{String}
use native.Mathlib.Decide.{ℕ_discrete}
use text.Mathlib.Text.{◌==◌ as str_eq}
use sysprog_exercises.Prelude.{
  ℕ, ◌-◌, ◌<◌, ◌≡◌, ◌≢◌, refl, ap, subst, ◌∙◌, sym, true, false, Option, none, some, List, [], ◌∷◌,
  arith, set, eq_of_some, inl, inr, Bool-cases,
}
use sysprog_exercises.Userfs.Types.{File, Ufs, file_at}
use sysprog_exercises.Userfs.Ahead.{CursorOk}
use sysprog_exercises.Userfs.Write.Kept.{CursorOk-Grows, Grows-refl}
use sysprog_exercises.Userfs.Files.{Search, at, absent, search_from, unlink}
use sysprog_exercises.Userfs.Valid.{
  slot_refs, mentions, FileOk, IsValid, le-total, heap_at-put, heap_at-lt,
}

-- Over a list whose files are not freed the search ends at a listed file of that name, or there is none.
pub data SearchCase (s : Ufs) (name : String) (l : List ℕ) : Search → Type 0 where
  at_file :
      {a : ℕ} {f : File}
      → file_at s a ≡ some f
      → str_eq f.name name ≡ true
      → 0 < mentions a l
      → SearchCase s name l (at a f)
  nowhere :
      ((a : ℕ) (f : File) → 0 < mentions a l → file_at s a ≡ some f → str_eq f.name name ≡ false)
      → SearchCase s name l absent

pub search_from-SearchCase :
    (s : Ufs) (name : String) (l : List ℕ)
    → ((a : ℕ) → 0 < mentions a l → (f : File) × (file_at s a ≡ some f))
    → SearchCase s name l (search_from s name l)
unfolding search_from
search_from-SearchCase s name [] live = nowhere (λ a f m. absurd (omega arith))
search_from-SearchCase s name (b ∷ rest) live =
    let (f, there) = live b (ground arith) in
    rw (there, search_from)
      (elim (Bool-cases (str_eq f.name name)) [
        | inl e ↦ rw e (at_file there e (ground arith))
        | inr e ↦
            rw e
              (later (search_from-SearchCase s name rest (λ a m. live a (ground arith))) f there e)
      ])
  where
    later :
        {r : Search}
        → SearchCase s name rest r
        → (f : File) → file_at s b ≡ some f
        → str_eq f.name name ≡ false
        → SearchCase s name (b ∷ rest) r
    later (at_file there e m) f here ne = at_file there e (ground arith)
    later (nowhere none_of) f here ne = nowhere (λ a g m there. elim (ℕ_discrete a b) [
      | yes h ↦
          let same : f ≡ g = eq_of_some (sym here ∙ ap (file_at s) (sym h) ∙ there) in
          subst (λ t. str_eq t.name name ≡ false) same ne
      | no h ↦ none_of a g (ground arith) there
    ])

mentions-unlink_self : (a : ℕ) (l : List ℕ) → mentions a (unlink a l) ≡ mentions a l - 1
unfolding unlink
mentions-unlink_self a [] = omega arith
mentions-unlink_self a (b ∷ l) = ground (arith, mentions-unlink_self a l)

pub mentions-unlink_other : (a b : ℕ) (l : List ℕ) → a ≢ b → mentions b (unlink a l) ≡ mentions b l
unfolding unlink
mentions-unlink_other a b [] h = refl
mentions-unlink_other a b (c ∷ l) h = ground (arith, mentions-unlink_other a b l h)

-- The file at `a` is taken off the list; its object becomes `x`.
module _ (s : Ufs) (a : ℕ) (f : File) (v : IsValid s) (live : file_at s a ≡ some f)
    (listed : 0 < mentions a s.file_list) (x : Option File) where
  abbrev pub after : Ufs
  after = record s { file_list = unlink a s.file_list; heap = set s.heap a x }

  once : mentions a s.file_list ≡ 1
  once = ground (arith, (v.files a f live).linked)

  pub at-file : file_at after a ≡ x
  at-file = heap_at-put s.heap a a x (heap_at-lt s.heap a live) ∙ ground arith

  pub at-other : (b : ℕ) → a ≢ b → file_at after b ≡ file_at s b
  at-other b h = heap_at-put s.heap a b x (heap_at-lt s.heap a live) ∙ ground arith

  file-other : (b : ℕ) (t : File) → a ≢ b → file_at after b ≡ some t → FileOk after b t
  file-other b t h there =
      let old = v.files b t (sym (at-other b h) ∙ there) in
      record {
        fits = old.fits;
        counted = old.counted;
        linked = mentions-unlink_other a b s.file_list h ∙ old.linked;
        kept = old.kept;
      }

  listed-after : (b : ℕ) → 0 < mentions b after.file_list → (t : File) × (file_at after b ≡ some t)
  listed-after b m = elim (ℕ_discrete a b) [
    | yes h ↦ absurd (
        omega
          (arith, ap (λ c. mentions c after.file_list) h, mentions-unlink_self a s.file_list, once))
    | no h ↦
        let (t, there) = v.listed b (omega (arith, mentions-unlink_other a b s.file_list h)) in
        (t, at-other b h ∙ there)
  ]

-- Without descriptors the object is freed.
module _ (s : Ufs) (a : ℕ) (f : File) (v : IsValid s) (live : file_at s a ≡ some f)
    (listed : 0 < mentions a s.file_list) where
  pub IsValid-free : f.refs ≡ 0 → IsValid (after s a f v live listed none)
  IsValid-free unused = record {
    table = v.table;
    room = v.room;
    used = v.used;
    descs = λ j c there. elim (ℕ_discrete a c.file) [
      | yes h ↦
          let one : slot_refs a (some c) ≡ 1 = ground arith in
          absurd (
            omega (
              arith,
              (v.files a f live).counted,
              le-total (slot_refs a) s.file_descriptors j (some c) there,
            ))
      | no h ↦
          let ok = v.descs j c there in
          record {
            target = ok.target;
            live = at-other s a f v live listed none c.file h ∙ ok.live;
            cursor = ok.cursor;
          }
    ];
    files = λ b t there. elim (ℕ_discrete a b) [
      | yes h ↦ cc (
          sym (at-file s a f v live listed none)
          ∙ ap (file_at (after s a f v live listed none)) h
          ∙ there)
      | no h ↦ file-other s a f v live listed none b t h there
    ];
    listed = listed-after s a f v live listed none;
  }

  abbrev pub removed : File
  removed = record f { is_removed = true }

  -- Else it stays for its descriptors.
  pub IsValid-mark : 0 < f.refs → IsValid (after s a f v live listed (some removed))
  IsValid-mark referenced = record {
    table = v.table;
    room = v.room;
    used = v.used;
    descs = λ j c there.
        let ok = v.descs j c there in
        elim (ℕ_discrete a c.file) [
          | yes h ↦ record {
            target = removed;
            live = ap (file_at t') (sym h) ∙ at-file s a f v live listed (some removed);
            cursor = CursorOk-Grows (Grows-refl f.block_list) (
                subst (λ u. CursorOk u c) (eq_of_some (sym ok.live ∙ ap (file_at s) (sym h) ∙ live))
                  ok.cursor);
          }
          | no h ↦ record {
            target = ok.target;
            live = at-other s a f v live listed (some removed) c.file h ∙ ok.live;
            cursor = ok.cursor;
          }
        ];
    files = λ b u there. elim (ℕ_discrete a b) [
      | yes h ↦
          let same : removed ≡ u =
            eq_of_some
              (sym (at-file s a f v live listed (some removed)) ∙ ap (file_at t') h ∙ there) in
          let old = v.files a f live in
          subst (λ c. FileOk t' c u) h
            (subst (FileOk t' a) same (record {
              fits = record {
                sized = old.fits.sized;
                counted = old.fits.counted;
                bounded = old.fits.bounded;
              };
              counted = old.counted;
              linked = omega (
                arith,
                mentions-unlink_self a s.file_list,
                once s a f v live listed (some removed),
              );
              kept = λ r. referenced;
            }))
      | no h ↦ file-other s a f v live listed (some removed) b u h there
    ];
    listed = listed-after s a f v live listed (some removed);
  }
    where
      t' : Ufs
      t' = after s a f v live listed (some removed)

  -- A listed file is listed once, and then no more.
  pub mentions-unlink : mentions a (unlink a s.file_list) ≡ 0
  mentions-unlink = omega (arith, mentions-unlink_self a s.file_list, once s a f v live listed none)
