-- ===== src/Sort/Coroutines.antt =====
-- The coroutines of 1/mine/main.c: how they share the files among them.
--
-- A coroutine is its place in `coroutine`, between two calls that may yield, `merge_sort` included. Which
-- coroutine goes on is left open, so that every schedule of the library is a run. The numbers that
-- `fscanf` finds in a file are a parameter; a file that does not open ends the process.
use sysprog_exercises.Prelude.{
  ℕ, zero, suc, ◌+◌, ◌-◌, ◌<◌, ◌≡◌, Bool, true, false, Option, none, some, List, [], ◌∷◌, ◌++◌, ◌*◌,
  ltb, length, if◌then◌else◌, ◌==◌,
}
use sysprog_exercises.Prelude.Int.{ℤ}
use sysprog_exercises.Sort.Plan.{Write, writes, write}

-- `file_data`, with the numbers that `fscanf` finds in the file; the result is not set at first.
pub record FileData : Type 0 where
  pub is_taken : Bool
  pub numbers : List ℤ
  pub result : Option (List ℤ)

-- With `file_i` in front of the search, with a file before `input_file`, with its numbers, with the writes
-- that `merge_sort` has left on its array, at the end.
pub data Coro : Type 0 where
  searching took loaded : ℕ → Coro
  sorting : ℕ → List Write → Coro
  ended : Coro

-- A write at a place.
abbrev pub write_at : {A : Type 0} → (ℕ → A) → ℕ → A → ℕ → A
write_at f i x = λ j. if j == i then x else f j

-- The search for a free file, from `file_i` on.
unfoldable pub first_free : (ℕ → FileData) → ℕ → ℕ → Option ℕ
first_free files zero file_i = none
first_free files (suc left) file_i =
    let rest = first_free files left (file_i + 1) in
    if (files file_i).is_taken then rest else some file_i

-- The loop of `input_file` with the numbers that are left to `fscanf`, and its buffer: what is in it, `i`,
-- and its size, which doubles when it is full. `none` is a write outside of it.
unfoldable pub read_numbers : List ℤ → List ℤ → ℕ → ℕ → Option (List ℤ)
read_numbers [] buf i buf_size = some buf
read_numbers (n ∷ ns) buf i buf_size =
    let size = if i == buf_size then buf_size * 2 else buf_size in
    let rest = read_numbers ns (buf ++ (n ∷ [])) (i + 1) size in if ltb i size then rest else none

unfoldable pub input_file : List ℤ → Option (List ℤ)
unfolding read_numbers
input_file numbers = read_numbers numbers [] 0 16

-- The next write of `merge_sort` to the array `a` of file `j`, or its return.
abbrev pub sort_step : (ℕ → FileData) → ℕ → List Write → List ℤ → (ℕ → FileData) × Coro
sort_step files j [] a = (write_at files j (record (files j) { result = some a }), searching j)
sort_step files j (w ∷ ws) a =
    (write_at files j (record (files j) { result = some (write w a) }), sorting j ws)

-- What a coroutine does up to its next place.
unfoldable pub coro_step : ℕ → (ℕ → FileData) → Coro → Option ((ℕ → FileData) × Coro)
unfolding first_free input_file writes write
coro_step n_files files (searching i) = elim (first_free files (n_files - i) i) [
  | none ↦ some (files, ended)
  | some j ↦ some (write_at files j (record (files j) { is_taken = true }), took j)
]
coro_step n_files files (took j) = elim (input_file (files j).numbers) [
  | none ↦ none
  | some buf ↦ some (write_at files j (record (files j) { result = some buf }), loaded j)
]
coro_step n_files files (loaded j) = elim (files j).result [
  | none ↦ none
  | some a ↦ some (sort_step files j (writes (length a) 0 (length a)) a)
]
coro_step n_files files (sorting j ws) = elim (files j).result [
  | none ↦ none
  | some a ↦ some (sort_step files j ws a)
]
coro_step n_files files ended = none

-- The states that the coroutines come to from files that nobody has taken.
pub data Run (n_files n_coro : ℕ) (numbers : ℕ → List ℤ)
    : (ℕ → FileData) → (ℕ → Coro) → Type 0 where
  start :
      Run n_files n_coro numbers
        (λ j. record { is_taken = false; numbers = numbers j; result = none })
        (λ k. searching 0)
  goes_on :
      {files moved : ℕ → FileData} {coros : ℕ → Coro} {c : Coro} (k : ℕ)
      → k < n_coro
      → Run n_files n_coro numbers files coros
      → coro_step n_files files (coros k) ≡ some (moved, c)
      → Run n_files n_coro numbers moved (write_at coros k c)
