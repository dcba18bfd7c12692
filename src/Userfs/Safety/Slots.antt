-- ===== src/Userfs/Safety/Slots.antt =====
-- A call that ends in a state with a property, and what the check of a descriptor finds in 3/userfs.c.
use native.Mathlib.Decide.{dec_lt}
use sysprog_exercises.Prelude.{
  ℕ, ◌≡◌, ◌≢◌, refl, ap, subst, ◌∙◌, sym, some, arith, get_elem?, inl, inr, Option-cases,
  get_elem?-lt, get_elem?_of_lt, set, set_same, eq_of_some,
}
use sysprog_exercises.Prelude.Int.{ℤ, pos, negsuc}
use sysprog_exercises.Userfs.Types.{ErrorCode, File, Filedesc, Ufs, join, heap_at, file_at}
use sysprog_exercises.Userfs.Ahead.{CursorOk}
use sysprog_exercises.Userfs.Write.Kept.{Kept}
use sysprog_exercises.Userfs.Table.{
  Outcome, returns, fault, out_of_fuel, set_error, put_desc, Slot, missing, found, find_slot,
}
use sysprog_exercises.Userfs.Valid.{IsValid}
use sysprog_exercises.Userfs.Valid.Update.{IsValid-update}

-- The call returns, with this property of its value and of the new state: it has no undefined
-- behaviour and does not run out of fuel.
pub data Ends {A : Type 0} (P : A → Ufs → Type 0) : Outcome A → Type 0 where
  ends : {a : A} {t : Ufs} → P a t → Ends P (returns a t)

-- The same as a type that computes.
Holds : {A : Type 0} → (A → Ufs → Type 0) → Outcome A → Type 0
Holds P (returns a t) = P a t
Holds P fault = ⊥
Holds P out_of_fuel = ⊥

Holds-of_Ends : {A : Type 0} {P : A → Ufs → Type 0} {o : Outcome A} → Ends P o → Holds P o
unfolding Holds
Holds-of_Ends (ends p) = p

pub Ends-returns :
    {A : Type 0} {P : A → Ufs → Type 0} {o : Outcome A} {a : A} {t : Ufs}
    → Ends P o
    → o ≡ returns a t
    → P a t
unfolding Holds
Ends-returns {P} h e = subst (Holds P) e (Holds-of_Ends h)

-- The check of an argument other than the table's capacity finds no descriptor, or one of the table.
pub data SlotCase (s : Ufs) (fd : ℤ) : Slot → Type 0 where
  closed : SlotCase s fd missing
  open_at :
      {i : ℕ} {d : Filedesc}
      → fd ≡ pos i
      → get_elem? s.file_descriptors i ≡ some (some d)
      → SlotCase s fd (found i d)

pub find_slot-SlotCase :
    (s : Ufs) (fd : ℤ)
    → IsValid s
    → fd ≢ pos s.file_descriptor_capacity
    → SlotCase s fd (find_slot s fd)
unfolding find_slot
find_slot-SlotCase s (negsuc n) v h = closed
find_slot-SlotCase s (pos i) v h = elim (dec_lt i s.file_descriptor_capacity) [
  | yes lt ↦
      let (x, there) = get_elem?_of_lt s.file_descriptors i (omega (arith, v.table)) in
      elim (Option-cases x) [
        | inl e ↦ subst (SlotCase s (pos i)) {x = missing} (ground arith) closed
        | inr (d, e) ↦
            let at = there ∙ ap (λ y. some y) e in
            subst (SlotCase s (pos i)) {x = found i d} (ground arith) (open_at refl at)
      ]
  | no ge ↦
      let ne : i ≢ s.file_descriptor_capacity = λ e. h (ap pos e) in
      subst (SlotCase s (pos i)) {x = missing} (ground arith) closed
]

-- The error code is no part of the order.
pub IsValid-set_error : (s : Ufs) (c : ErrorCode) → IsValid s → IsValid (set_error s c)
IsValid-set_error s c v = record {
  table = v.table;
  room = v.room;
  used = v.used;
  descs = λ i d e.
      let ok = v.descs i d e in record { target = ok.target; live = ok.live; cursor = ok.cursor };
  files = λ a f e.
      let ok = v.files a f e in
      record { fits = ok.fits; counted = ok.counted; linked = ok.linked; kept = ok.kept };
  listed = v.listed;
}

pub put_file_same :
    (s : Ufs) (a : ℕ) (f : File) → file_at s a ≡ some f → set s.heap a (some f) ≡ s.heap
unfolding heap_at
put_file_same s a f e = elim (Option-cases (get_elem? s.heap a)) [
  | inl gone ↦ cc (ap join gone)
  | inr (x, there) ↦ set_same s.heap a (there ∙ ap (λ y. some y) (sym (ap join there) ∙ e))
]

-- A descriptor alone changes.
pub IsValid-desc :
    (s : Ufs) (i : ℕ) (d e : Filedesc) (f : File)
    → IsValid s
    → get_elem? s.file_descriptors i ≡ some (some d)
    → file_at s d.file ≡ some f
    → Kept f d f e
    → IsValid (put_desc s i (some e))
IsValid-desc s i d e f v slot live k =
    subst (λ h. IsValid (put_desc (record s { heap = h }) i (some e)))
      (put_file_same s d.file f live) (IsValid-update s i d e f f v slot live k)

pub find_slot-found :
    (s : Ufs) (i : ℕ) (d : Filedesc)
    → IsValid s
    → get_elem? s.file_descriptors i ≡ some (some d)
    → find_slot s (pos i) ≡ found i d
unfolding find_slot
find_slot-found s i d v slot =
    let lt = get_elem?-lt s.file_descriptors i slot in ground (arith, v.table)

-- An open descriptor points into its file.
pub cursor_of :
    (s : Ufs) (i : ℕ) (d : Filedesc) (f : File)
    → IsValid s
    → get_elem? s.file_descriptors i ≡ some (some d)
    → file_at s d.file ≡ some f
    → CursorOk f d
cursor_of s i d f v slot live =
    let ok = v.descs i d slot in
    subst (λ t. CursorOk t d) (eq_of_some (sym ok.live ∙ live)) ok.cursor

-- No descriptor of the table is the argument's.
abbrev pub NotOpen : Ufs → ℤ → Type 0
NotOpen s fd = (i : ℕ) (d : Filedesc) → fd ≡ pos i → get_elem? s.file_descriptors i ≢ some (some d)

pub missing-NotOpen : (s : Ufs) (fd : ℤ) → IsValid s → find_slot s fd ≡ missing → NotOpen s fd
missing-NotOpen s fd v e i d arg slot =
    let there = find_slot-found s i d v slot in
    let same : missing ≡ found i d = sym e ∙ ap (find_slot s) arg ∙ there in cc same
