-- ===== src/Userfs/Safety/Destroy.antt =====
-- `ufs_destroy` of 3/userfs.c on a state in order.
use native.Mathlib.Decide.{ℕ_discrete}
use sysprog_exercises.Prelude.{
  ℕ, ◌≤◌, ◌<◌, ◌≡◌, refl, true, Option, none, some, List, [], ◌∷◌, arith, if◌then◌else◌, inl, inr,
  ◌↔◌, Bool-cases, ltb,
}
use sysprog_exercises.Userfs.Types.{File, Ufs, file_at}
use sysprog_exercises.Userfs.Files.{free_file}
use sysprog_exercises.Userfs.Api.{free_all, ufs_destroy}
use sysprog_exercises.Userfs.Valid.{IsValid, mentions, heap_at-put, heap_at-lt}

-- The files of a list without repetitions are freed, and no others.
free_all-freed :
    (l : List ℕ) (s : Ufs)
    → ((a : ℕ) → 0 < mentions a l → (f : File) × (file_at s a ≡ some f))
    → ((a : ℕ) → mentions a l ≤ 1)
    → (t : Ufs) × (free_all l s ≡ some t)
      × ((a : ℕ) → file_at t a ≡ (if ltb 0 (mentions a l) then none else file_at s a))
unfolding free_all
free_all-freed [] s live once = (s, refl, λ a. refl)
free_all-freed (b ∷ l) s live once =
    let (f, there) = live b (ground arith) in
    let lt = heap_at-lt s.heap b there in
    let at = λ (a : ℕ). heap_at-put s.heap b a none lt in
    let (t, e, gone) =
      free_all-freed l (free_file s b)
        (λ a m. let (g, here) = live a (ground arith) in (g, ground (arith, at a, once b)))
        (λ a. ground (arith, once a)) in
    (t, rw (there, free_all) e, λ a. ground (arith, gone a, at a, once b))

-- In a state that is in order `ufs_destroy` follows no freed pointer. It frees every listed file; what is
-- left on the heap are exactly the files that were deleted while a descriptor was open on them.
pub ufs_destroy-leaks :
    (s : Ufs)
    → IsValid s
    → (t : Ufs) × (ufs_destroy s ≡ some t)
      × (t.file_descriptors ≡ [])
      × ((a : ℕ) (f : File)
          → (file_at t a ≡ some f) ↔ ((file_at s a ≡ some f) × (f.is_removed ≡ true)))
unfolding ufs_destroy
ufs_destroy-leaks s v =
    let (t, e, gone) = free_all-freed s.file_list s v.listed once in
    (
      record t { file_descriptors = [] },
      rw (e, ufs_destroy),
      refl,
      λ a f. (there a f (gone a), back a f (gone a)),
    )
  where
    once : (a : ℕ) → mentions a s.file_list ≤ 1
    once a = elim (ℕ_discrete (mentions a s.file_list) 0) [
      | yes z ↦ omega arith
      | no n ↦ let (f, live) = v.listed a (omega arith) in ground (arith, (v.files a f live).linked)
    ]

    there :
        (a : ℕ) (f : File) {x : Option File}
        → x ≡ (if ltb 0 (mentions a s.file_list) then none else file_at s a)
        → x ≡ some f
        → (file_at s a ≡ some f) × (f.is_removed ≡ true)
    there a f e h = elim (Bool-cases (ltb 0 (mentions a s.file_list))) [
      | inl t ↦ cc
      | inr t ↦
          let live : file_at s a ≡ some f = ground arith in
          (live, ground (arith, (v.files a f live).linked))
    ]

    back :
        (a : ℕ) (f : File) {x : Option File}
        → x ≡ (if ltb 0 (mentions a s.file_list) then none else file_at s a)
        → (file_at s a ≡ some f) × (f.is_removed ≡ true)
        → x ≡ some f
    back a f e (live, removed) = ground (arith, (v.files a f live).linked)
