-- ===== src/Sort/Tests.antt =====
-- The theorem on 1/mine/main.c at a sample list.
use sysprog_exercises.Prelude.{
  occurrences, ◌≡◌, refl, none, some, List, [], ◌∷◌, arith, ℕ, ◌<◌, false,
}
use sysprog_exercises.Prelude.Int.{ℤ, pos, negsuc}
use sysprog_exercises.Sort.Merge.{merge, order_two, merge_sort}
use sysprog_exercises.Sort.Results.{int_max, merge_results}
use sysprog_exercises.Sort.Picks.{count_all}
use sysprog_exercises.Sort.Merged.{merge_results-max}
use sysprog_exercises.Sort.Files.{sort_files, sort_files-IsSorted}
use sysprog_exercises.Sort.Coroutines.{
  FileData, Coro, ended, first_free, coro_step, Run, start, goes_on, took, loaded, sorting,
  read_numbers, input_file, write_at, searching,
}
use sysprog_exercises.Sort.Plan.{merge_at, writes, write}
use sysprog_exercises.Sort.Shared.{Sorted, at_place}
use sysprog_exercises.Sort.Schedules.{Run-Sorted}
use sysprog_exercises.Sort.Loop.{Nodes, Loop, loop_init, loop_start}
use sysprog_exercises.Sort.RoundRobin.{round_robin, turns, AllFreed}
use sysprog_exercises.Sort.Created.{create_all}
use sysprog_exercises.Sort.Shares.{share, loop_start-round_robin}
use sysprog_exercises.Sort.Ordered.{IsSorted, count, merge_sort-IsSorted}

-- 3, -1, 2, -1, 0
abbrev numbers : List ℤ
numbers = pos 3 ∷ negsuc 0 ∷ pos 2 ∷ negsuc 0 ∷ pos 0 ∷ []

sorted_numbers : merge_sort 5 numbers ≡ negsuc 0 ∷ negsuc 0 ∷ pos 0 ∷ pos 2 ∷ pos 3 ∷ []
unfolding merge_sort merge order_two
sorted_numbers = refl

merge_sort-IsSorted_example :
    IsSorted (merge_sort 5 numbers) × ((a : ℤ) → count a (merge_sort 5 numbers) ≡ count a numbers)
merge_sort-IsSorted_example = merge_sort-IsSorted 5 numbers (omega arith)

-- Files of 3, -1, 2 and of nothing and of 2.
abbrev sample_files : List (List ℤ)
sample_files = (pos 3 ∷ negsuc 0 ∷ pos 2 ∷ []) ∷ [] ∷ (pos 2 ∷ []) ∷ []

printed : sort_files sample_files ≡ some (negsuc 0 ∷ pos 2 ∷ pos 2 ∷ pos 3 ∷ [])
unfolding sort_files merge_results merge_sort merge order_two
printed = refl

sort_files-IsSorted_example :
    (merged : List ℤ) × (sort_files sample_files ≡ some merged)
    × IsSorted merged
    × ((a : ℤ) → count a merged ≡ count_all a sample_files)
sort_files-IsSorted_example =
    sort_files-IsSorted sample_files ((refl, (refl, (refl, tt))), (tt, ((refl, tt), tt)))

merge_results-max_example : merge_results 1 ((int_max ∷ []) ∷ []) ≡ none
merge_results-max_example = merge_results-max 0 ((int_max ∷ []) ∷ []) (refl, tt)

-- One coroutine and one file.
abbrev sample_numbers : ℕ → List ℤ
sample_numbers j = pos 3 ∷ pos 1 ∷ pos 2 ∷ []

abbrev places : ℕ → Coro
places =
    write_at
      (write_at
        (write_at (write_at (write_at (λ k. searching 0) 0 (took 0)) 0 (loaded 0)) 0
          (sorting 0 (merge_at 0 3 ∷ [])))
        0 (sorting 0 []))
      0 (searching 0)

abbrev one_run :
    (files : ℕ → FileData) × (coros : ℕ → Coro) × Run 1 1 sample_numbers files coros
    × ((k : ℕ) → k < 1 → coros k ≡ ended)
unfolding coro_step first_free input_file read_numbers writes write order_two merge
one_run = (
  _,
  _,
  goes_on 0 (omega arith)
      (goes_on 0 (omega arith)
        (goes_on 0 (omega arith)
          (goes_on 0 (omega arith)
            (goes_on 0 (omega arith) (goes_on 0 (omega arith) start refl) refl) refl)
          refl)
        refl)
      refl,
  λ k lt. at_place (λ c. c ≡ ended) places 0 k ended (λ e. refl) (λ ne. absurd (ne (omega arith))),
)

Run-Sorted_example : Sorted (sample_numbers 0) (one_run.0 0)
Run-Sorted_example = Run-Sorted 1 1 sample_numbers one_run.2 (omega arith) one_run.3 0 (omega arith)

-- Three coroutines that yield twice, never and once.
abbrev no_nodes : Nodes
no_nodes = record { next = λ a. 0; prev = λ a. 0; is_live = λ a. false }

abbrev sample_yields : ℕ → ℕ
sample_yields = write_at (write_at (λ a. 0) 1 2) 3 1

abbrev three : List ℕ
three = 1 ∷ 2 ∷ 3 ∷ []

taken_in_turn : round_robin 6 sample_yields three ≡ 1 ∷ 2 ∷ 3 ∷ 1 ∷ 3 ∷ 1 ∷ []
taken_in_turn = refl

loop_start-round_robin_example :
    (l : Loop) × (log : List ℕ) × (end : Nodes) × (create_all (loop_init no_nodes 9 0) three
      ≡ some l)
    × (loop_start (turns sample_yields three) sample_yields l ≡ some (log, end))
    × (log ≡ round_robin (turns sample_yields three) sample_yields three)
    × ((a : ℕ) → occurrences a log ≡ share a sample_yields three)
    × AllFreed end.is_live (9 ∷ three)
loop_start-round_robin_example =
    loop_start-round_robin no_nodes 9 0 three sample_yields (refl, (refl, (refl, tt)))
      ((refl, (refl, tt)), ((refl, tt), (tt, tt)))
