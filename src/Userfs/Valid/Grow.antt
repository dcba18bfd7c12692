-- ===== src/Userfs/Valid/Grow.antt =====
-- The table of 3/userfs.c grows when it is full, and then has a free place.
use sysprog_exercises.Prelude.{
  ℕ, zero, suc, ◌+◌, ◌<◌, ◌≡◌, refl, ap, Option, none, some, List, [], ◌∷◌, ◌++◌, arith, length,
  get_elem?, ◌==◌, inl, inr, Bool-cases, replicate, length-append,
}
use sysprog_exercises.Userfs.Types.{Block, File, Filedesc, Ufs}
use sysprog_exercises.Userfs.Ahead.{CursorOk, unset, inside}
use sysprog_exercises.Userfs.Table.{first_free, grow_table, new_desc}
use sysprog_exercises.Userfs.Valid.{total, slot_refs, slot_open, open_slots, IsValid, total-append}

-- A table with a place left has a first free place.
pub first_free_of_room :
    (ds : List (Option Filedesc))
    → open_slots ds < length ds
    → (i : ℕ) × (first_free ds ≡ some i) × (get_elem? ds i ≡ some none)
unfolding first_free
first_free_of_room [] h = absurd (omega arith)
first_free_of_room (none ∷ ds) h = (0, refl, refl)
first_free_of_room (some d ∷ ds) h =
    let (i, e, free) = first_free_of_room ds (omega arith) in (i + 1, rw e, get_suc i free)
  where
    get_suc : (i : ℕ) → get_elem? ds i ≡ some none → get_elem? (some d ∷ ds) (i + 1) ≡ some none
    get_suc i e = let same : i + 1 ≡ suc i = omega arith in rw same e

get_elem?-grown :
    (ds : List (Option Filedesc)) (i : ℕ) {d : Filedesc}
    → get_elem? (ds ++ replicate 4 none) i ≡ some (some d)
    → get_elem? ds i ≡ some (some d)
get_elem?-grown [] zero e = cc e
get_elem?-grown [] (suc zero) e = cc e
get_elem?-grown [] (suc (suc zero)) e = cc e
get_elem?-grown [] (suc (suc (suc zero))) e = cc e
get_elem?-grown [] (suc (suc (suc (suc i)))) e = cc e
get_elem?-grown (x ∷ ds) zero e = e
get_elem?-grown (x ∷ ds) (suc i) e = get_elem?-grown ds i e

pub total_zero {ℓ} :
    {A : Type ℓ} (h : A → ℕ) (xs : List A)
    → ((i : ℕ) (x : A) → get_elem? xs i ≡ some x → h x ≡ 0)
    → total h xs ≡ 0
total_zero h [] none_of = refl
total_zero h (x ∷ xs) none_of =
    omega (arith, none_of 0 x refl, total_zero h xs (λ i y e. none_of (suc i) y e))

module _ (s : Ufs) (v : IsValid s) where
  grown : Ufs
  grown = record s {
    file_descriptor_capacity = s.file_descriptor_capacity + 4;
    file_descriptors = s.file_descriptors ++ replicate 4 none;
  }

  IsValid-grown : s.file_descriptor_count ≡ s.file_descriptor_capacity → IsValid grown
  unfolding grown
  IsValid-grown full = record {
    table = omega (arith, v.table, length-append s.file_descriptors (replicate 4 none));
    room = omega (arith, v.room, total-append slot_open s.file_descriptors (replicate 4 none));
    used = omega arith;
    descs = λ i d e.
        let ok = v.descs i d (get_elem?-grown s.file_descriptors i e) in
        record { target = ok.target; live = ok.live; cursor = ok.cursor };
    files = λ a f e.
        let ok = v.files a f e in
        record {
          fits = ok.fits;
          counted =
              omega (
                arith,
                ok.counted,
                total-append (slot_refs a) s.file_descriptors (replicate 4 none),
              );
          linked = ok.linked;
          kept = ok.kept;
        };
    listed = v.listed;
  }

  -- What the table is like when a place is sought.
  pub record Grown (t : Ufs) : Type 0 where
    pub valid : IsValid t
    pub roomy : t.file_descriptor_count < t.file_descriptor_capacity
    pub same_heap : t.heap ≡ s.heap
    pub same_list : t.file_list ≡ s.file_list
    pub same_error : t.ufs_error_code ≡ s.ufs_error_code

  pub grow_table-Grown : Grown (grow_table s)
  unfolding grow_table grown
  grow_table-Grown = elim (Bool-cases (s.file_descriptor_count == s.file_descriptor_capacity)) [
    | inl e ↦ rw e (record {
      valid = IsValid-grown (ground arith);
      roomy = ground arith;
      same_heap = refl;
      same_list = refl;
      same_error = refl;
    })
    | inr e ↦ rw e (record {
      valid = v;
      roomy = ground (arith, v.used);
      same_heap = refl;
      same_list = refl;
      same_error = refl;
    })
  ]

pub new_desc-CursorOk :
    (a : ℕ) (f : File) (permissions fd : ℕ) → CursorOk f (new_desc a f permissions fd)
new_desc-CursorOk a f permissions fd = by_blocks f.block_list refl
  where
    by_blocks : (bs : List Block) → f.block_list ≡ bs → CursorOk f (new_desc a f permissions fd)
    by_blocks [] e = unset (rw e) refl
    by_blocks (b ∷ bs) e =
        inside 0 b (rw e) (ap (λ l. get_elem? l 0) e) (omega arith) (rw e (omega arith))
