-- ===== src/Shell/Cut.antt =====
-- The entries of 2/evaluator.c out of the tokens of a whole line.
use mathlib.Core.List.{append_assoc, append-nil}
use sysprog_exercises.Prelude.{
  ℕ, zero, suc, ◌+◌, ◌<◌, ◌≡◌, ◌≢◌, refl, ap, ◌∙◌, sym, subst, Bool, false, some, List, [], ◌∷◌,
  ◌++◌, arith, length, length-append, get_elem?, map,
}
use sysprog_exercises.Shell.Run.{Run, ok}
use sysprog_exercises.Shell.Utils.{GrowingList, item, list_add, add_all}
use sysprog_exercises.Shell.Token.{Token, logical_operator_and, logical_operator_or}
use sysprog_exercises.Shell.Grammar.{double}
use sysprog_exercises.Shell.Command.{NextOperator, entry_null, entry_and, entry_or}
use sysprog_exercises.Shell.AndOr.{AndOr, pipeline, and_then, or_else, entries}
use sysprog_exercises.Shell.Evaluator.{Program, item_at, Entry, entries_from}
use sysprog_exercises.Shell.Items.{At, At-right}
use sysprog_exercises.Shell.Pipes.{pipe_tokens, IsPipeline, pipe_tokens-pos, built}
use sysprog_exercises.Shell.Operators.{
  LineEntry, operator_tokens, line_tokens, IsLine, background_tokens, build,
}
use sysprog_exercises.Shell.Entries.{last_entry, middle_entry}

-- A list that was trimmed holds its items from the start on.
At-items :
    {A : Type 0} (l : GrowingList A) (i : ℕ) (xs : List A)
    → ((j : ℕ) (x : A) → get_elem? xs j ≡ some x → item_at l (i + j) ≡ ok x)
    → At l i xs
At-items l i [] h = tt
At-items l i (x ∷ xs) h = (
  subst (λ j. item_at l j ≡ ok x) (omega arith) (h 0 x refl),
  At-items l (i + 1) xs
      (λ j y e. subst (λ k. item_at l k ≡ ok y) {x = i + suc j} (omega arith) (h (suc j) y e)),
)

get_elem?-items :
    {A : Type 0} (xs : List A) (j : ℕ) (x : A)
    → get_elem? xs j ≡ some x
    → get_elem? (map item xs) j ≡ some (item x)
get_elem?-items [] j x e = cc
get_elem?-items (y ∷ xs) zero x e = cc
get_elem?-items (y ∷ xs) (suc j) x e = get_elem?-items xs j x e

abbrev pub whole : {A : Type 0} → List A → GrowingList A
whole xs = record { size = length xs; capacity = length xs; items = map item xs }

pub whole-At : {A : Type 0} (xs : List A) → At (whole xs) 0 xs
unfolding item_at
whole-At {A} xs = At-items (whole xs) 0 xs (λ j x e.
    ap (λ k. item_at (whole xs) k) {x = 0 + j} {y = j} (omega arith)
    ∙ rw (get_elem?-items xs j x e) refl)

module _ (tokens : GrowingList Token) where
  -- An entry with its operator, in front of the tokens of the rest.
  one_entry :
      (left : ℕ) (command : GrowingList Entry) (ps : List Program) (next : NextOperator)
      (ts : List Token) (r : Run (GrowingList Entry × Bool))
      → IsPipeline ps
      → next ≢ entry_null
      → At tokens left (pipe_tokens ps ++ (operator_tokens next ++ ts))
      → left + length (pipe_tokens ps ++ (operator_tokens next ++ ts)) ≡ tokens.size
      → ((i : ℕ)
          → At tokens i ts
          → i + length ts ≡ tokens.size
          → entries_from tokens i i
              (length ts)
              (list_add command (record { pipe_list = built ps; next_operator_type = next }))
              false
            ≡ r)
      → entries_from tokens left left
          (length (pipe_tokens ps ++ (operator_tokens next ++ ts)))
          command
          false
        ≡ r
  one_entry left command ps entry_null ts r g ne h e rest = absurd (ne refl)
  one_entry left command ps entry_and ts r g ne h e rest =
      let t = double b'&' logical_operator_and in
      middle_entry tokens left command ps t entry_and ts g h refl refl e
      ∙ rest (left + length (pipe_tokens ps) + 1)
          (At-right tokens left (pipe_tokens ps) (t ∷ ts) h).1
          (omega (arith, length-append (pipe_tokens ps) (t ∷ ts)))
  one_entry left command ps entry_or ts r g ne h e rest =
      let t = double b'|' logical_operator_or in
      middle_entry tokens left command ps t entry_or ts g h refl refl e
      ∙ rest (left + length (pipe_tokens ps) + 1)
          (At-right tokens left (pipe_tokens ps) (t ∷ ts) h).1
          (omega (arith, length-append (pipe_tokens ps) (t ∷ ts)))

  -- The entry that ends the line.
  end_entry :
      (left : ℕ) (command : GrowingList Entry) (ps : List Program) (next : NextOperator)
      (background : Bool)
      → IsPipeline ps
      → next ≡ entry_null
      → At tokens left
          ((pipe_tokens ps ++ (operator_tokens next ++ [])) ++ background_tokens background)
      → left
          + length
              ((pipe_tokens ps ++ (operator_tokens next ++ [])) ++ background_tokens background)
        ≡ tokens.size
      → entries_from tokens left left
          (length
            ((pipe_tokens ps ++ (operator_tokens next ++ [])) ++ background_tokens background))
          command
          false
        ≡ ok (
          list_add command (record { pipe_list = built ps; next_operator_type = next }),
          background,
        )
  end_entry left command ps entry_and background g n h e = cc
  end_entry left command ps entry_or background g n h e = cc
  end_entry left command ps entry_null background g n h e =
      let same = append-nil (pipe_tokens ps) in
      ap
        (λ ts.
          entries_from tokens left left (length (ts ++ background_tokens background)) command false)
        same
      ∙ last_entry tokens left command ps background g
          (subst (λ ts. At tokens left (ts ++ background_tokens background)) same h)
          (ap (λ ts. left + length (ts ++ background_tokens background)) (sym same) ∙ e)

  pub entries_from-At :
      (left : ℕ) (command : GrowingList Entry) (es : List LineEntry) (background : Bool)
      → IsLine es
      → At tokens left (line_tokens es ++ background_tokens background)
      → left + length (line_tokens es ++ background_tokens background) ≡ tokens.size
      → entries_from tokens left left
          (length (line_tokens es ++ background_tokens background))
          command
          false
        ≡ ok (add_all command (map build es), background)
  unfolding add_all
  entries_from-At left command [] background g h e = absurd g
  entries_from-At left command (x ∷ []) background (g, n) h e =
      end_entry left command x.pipe_list x.next_operator_type background g n h e
  entries_from-At left command (x ∷ y ∷ es) background (g, n, gs) h e =
      let rest = line_tokens (y ∷ es) in
      let ops = operator_tokens x.next_operator_type in
      let same =
        append_assoc (pipe_tokens x.pipe_list) (ops ++ rest) (background_tokens background)
        ∙ ap (λ ts. pipe_tokens x.pipe_list ++ ts)
            (append_assoc ops rest (background_tokens background)) in
      ap (λ ts. entries_from tokens left left (length ts) command false) same
      ∙ one_entry left command x.pipe_list x.next_operator_type
          (rest ++ background_tokens background)
          (ok (add_all command (map build (x ∷ y ∷ es)), background)) g n
          (subst (At tokens left) same h) (ap (λ ts. left + length ts) (sym same) ∙ e)
          (λ i at size.
            entries_from-At i (list_add command (build x)) (y ∷ es) background gs at size)

-- Every pipeline of the line has a program.
abbrev pub Pipelines : AndOr (List Program) → Type 0
Pipelines (pipeline ps) = IsPipeline ps
Pipelines (and_then c ps) = Pipelines c × IsPipeline ps
Pipelines (or_else c ps) = Pipelines c × IsPipeline ps

IsLine-before :
    (c : AndOr (List Program)) (next : NextOperator) (f : LineEntry) (es : List LineEntry)
    → Pipelines c
    → next ≢ entry_null
    → IsLine (f ∷ es)
    → IsLine (entries c next ++ (f ∷ es))
IsLine-before (pipeline ps) next f es g ne h = (g, ne, h)
IsLine-before (and_then c ps) next f es (g, k) ne h =
    let x : LineEntry = record { pipe_list = ps; next_operator_type = next } in
    subst IsLine (sym (append_assoc (entries c entry_and) (x ∷ []) (f ∷ es)))
      (IsLine-before c entry_and x (f ∷ es) g (λ e. cc) (k, ne, h))
IsLine-before (or_else c ps) next f es (g, k) ne h =
    let x : LineEntry = record { pipe_list = ps; next_operator_type = next } in
    subst IsLine (sym (append_assoc (entries c entry_or) (x ∷ []) (f ∷ es)))
      (IsLine-before c entry_or x (f ∷ es) g (λ e. cc) (k, ne, h))

pub IsLine-entries : (c : AndOr (List Program)) → Pipelines c → IsLine (entries c entry_null)
IsLine-entries (pipeline ps) g = (g, refl)
IsLine-entries (and_then c ps) (g, k) =
    IsLine-before c entry_and (record { pipe_list = ps; next_operator_type = entry_null }) [] g
      (λ e. cc) (k, refl)
IsLine-entries (or_else c ps) (g, k) =
    IsLine-before c entry_or (record { pipe_list = ps; next_operator_type = entry_null }) [] g
      (λ e. cc) (k, refl)

pub IsLine-pos : (es : List LineEntry) → IsLine es → (0 < length es) × (0 < length (line_tokens es))
IsLine-pos [] g = absurd g
IsLine-pos (x ∷ []) (g, n) = (
  omega arith,
  omega (
    arith,
    length-append (pipe_tokens x.pipe_list) (operator_tokens x.next_operator_type ++ []),
    pipe_tokens-pos x.pipe_list g,
  ),
)
IsLine-pos (x ∷ y ∷ es) (g, n, h) = (
  omega arith,
  omega (
    arith,
    length-append (pipe_tokens x.pipe_list)
        (operator_tokens x.next_operator_type ++ line_tokens (y ∷ es)),
    pipe_tokens-pos x.pipe_list g,
  ),
)

pub length-map-build : (es : List LineEntry) → length (map build es) ≡ length es
length-map-build [] = refl
length-map-build (x ∷ es) = ap suc (length-map-build es)
