-- ===== src/Shell/Pipes.antt =====
-- `init_pipe_list` of 2/evaluator.c on the tokens of a pipeline.
use sysprog_exercises.Prelude.{
  ℕ, suc, ◌+◌, ◌<◌, ◌≡◌, refl, ap, ◌∙◌, sym, Bool, true, false, List, [], ◌∷◌, ◌++◌, arith, length,
  length-append, ◌==◌,
}
use sysprog_exercises.Shell.Run.{Run, ok, ◌>>=◌}
use sysprog_exercises.Shell.Utils.{GrowingList, list_init, list_add, list_trim, add_all}
use sysprog_exercises.Shell.Token.{Token, is_pipeline, pipeline}
use sysprog_exercises.Shell.Grammar.{single}
use sysprog_exercises.Shell.Evaluator.{Program, item_at, init_program, pipes_from, init_pipe_list}
use sysprog_exercises.Shell.Items.{At, At-left, At-right, program_tokens, IsProgram}
use sysprog_exercises.Shell.Slices.{IsProgram-pos, init_program-At, Without, Without-program}

abbrev pub pipe_token : Token
pipe_token = single b'|' pipeline

-- The tokens of a pipeline.
abbrev pub pipe_tokens : List Program → List Token
pipe_tokens [] = []
pipe_tokens (p ∷ []) = program_tokens p
pipe_tokens (p ∷ q ∷ ps) = program_tokens p ++ (pipe_token ∷ pipe_tokens (q ∷ ps))

-- A pipeline has a program.
abbrev pub IsPipeline : List Program → Type 0
IsPipeline [] = ⊥
IsPipeline (p ∷ []) = IsProgram p
IsPipeline (p ∷ q ∷ ps) = IsProgram p × IsPipeline (q ∷ ps)

abbrev is_pipe : Token → Bool
is_pipe t = is_pipeline t.type

Without-pipe : (p : Program) → Without is_pipe (program_tokens p)
Without-pipe p = Without-program is_pipe p (λ w. refl) refl refl

pub pipe_tokens-pos : (ps : List Program) → IsPipeline ps → 0 < length (pipe_tokens ps)
pipe_tokens-pos [] g = absurd g
pipe_tokens-pos (p ∷ []) g = IsProgram-pos p g
pipe_tokens-pos (p ∷ q ∷ ps) g =
    omega (arith, length-append (program_tokens p) (pipe_token ∷ pipe_tokens (q ∷ ps)))

module _ (tokens : GrowingList Token) (end : ℕ) where
  -- A round at a token that is no pipe, and at one that is.
  abbrev at_other : ℕ → ℕ → ℕ → GrowingList Program → Bool → Run (GrowingList Program)
  at_other left i n l last = elim last [
    | true ↦
        init_program tokens left (i + 1)
        >>= (λ p. pipes_from tokens end left (i + 1) n (list_add l p))
    | false ↦ pipes_from tokens end left (i + 1) n l
  ]

  abbrev at_token : ℕ → ℕ → ℕ → GrowingList Program → Bool → Run (GrowingList Program)
  at_token left i n l pipe = elim pipe [
    | true ↦
        init_program tokens left i >>= (λ p. pipes_from tokens end (i + 1) (i + 1) n (list_add l p))
    | false ↦ at_other left i n l (i + 1 == end)
  ]

  pipes_from-suc :
      (left i n : ℕ) (l : GrowingList Program) (t : Token) (b : Bool)
      → item_at tokens i ≡ ok t
      → is_pipe t ≡ b
      → pipes_from tokens end left i (suc n) l ≡ at_token left i n l b
  unfolding pipes_from
  pipes_from-suc left i n l t b h e =
      ap (λ r. r >>= (λ (t : Token). at_token left i n l (is_pipe t))) h
      ∙ ap (at_token left i n l) e

  passed :
      (left i n : ℕ) (l : GrowingList Program) (xs : List Token)
      → At tokens i xs
      → Without is_pipe xs
      → i + length xs < end
      → pipes_from tokens end left i (length xs + n) l
        ≡ pipes_from tokens end left (i + length xs) n l
  passed left i n l [] h w lt =
      ap (λ m. pipes_from tokens end left i m l) {y = n} (omega arith)
      ∙ ap (λ j. pipes_from tokens end left j n l) (omega arith)
  passed left i n l (t ∷ xs) (h, hs) (w, ws) lt =
      let more : (i + 1 == end) ≡ false = ground arith in
      ap (λ m. pipes_from tokens end left i m l) {y = suc (length xs + n)} (omega arith)
      ∙ pipes_from-suc left i (length xs + n) l t false h w
      ∙ ap (at_other left i (length xs + n) l) more
      ∙ passed left (i + 1) n l xs hs ws (omega arith)
      ∙ ap (λ j. pipes_from tokens end left j n l) (omega arith)

  last_one :
      (left i : ℕ) (l : GrowingList Program) (xs : List Token)
      → At tokens i xs
      → Without is_pipe xs
      → 0 < length xs
      → i + length xs ≡ end
      → pipes_from tokens end left i (length xs) l
        ≡ (init_program tokens left end >>= (λ p. ok (list_add l p)))
  unfolding pipes_from
  last_one left i l [] h w pos e = absurd (omega arith)
  last_one left i l (t ∷ []) (h, hs) (w, ws) pos e =
      let now : (i + 1 == end) ≡ true = ground arith in
      pipes_from-suc left i 0 l t false h w
      ∙ ap (at_other left i 0 l) now
      ∙ ap (λ j. init_program tokens left j >>= (λ p. ok (list_add l p))) {y = end} (omega arith)
  last_one left i l (t ∷ u ∷ xs) (h, hs) (w, ws) pos e =
      let more : (i + 1 == end) ≡ false = ground arith in
      pipes_from-suc left i (length (u ∷ xs)) l t false h w
      ∙ ap (at_other left i (length (u ∷ xs)) l) more
      ∙ last_one left (i + 1) l (u ∷ xs) hs ws (omega arith) (omega arith)

  pipes_from-At :
      (left : ℕ) (l : GrowingList Program) (ps : List Program)
      → IsPipeline ps
      → At tokens left (pipe_tokens ps)
      → end ≡ left + length (pipe_tokens ps)
      → pipes_from tokens end left left (length (pipe_tokens ps)) l ≡ ok (add_all l ps)
  unfolding add_all
  pipes_from-At left l [] g h e = absurd g
  pipes_from-At left l (p ∷ []) g h e =
      last_one left left l (program_tokens p) h (Without-pipe p) (IsProgram-pos p g) (sym e)
      ∙ ap (λ r. r >>= (λ p. ok (list_add l p))) (init_program-At tokens left end p g h e)
  pipes_from-At left l (p ∷ q ∷ ps) (g, gs) h e =
      let xs = program_tokens p in
      let ys = pipe_tokens (q ∷ ps) in
      let size = length-append xs (pipe_token ∷ ys) in
      let here = At-left tokens left xs (pipe_token ∷ ys) h in
      let rest = At-right tokens left xs (pipe_token ∷ ys) h in
      let i = left + length xs in
      ap (λ n. pipes_from tokens end left left n l) {y = length xs + suc (length ys)}
        (omega (arith, size))
      ∙ passed left left (suc (length ys)) l xs here (Without-pipe p) (omega (arith, size, e))
      ∙ pipes_from-suc left i (length ys) l pipe_token true rest.0 refl
      ∙ ap (λ r. r >>= (λ p. pipes_from tokens end (i + 1) (i + 1) (length ys) (list_add l p)))
          (init_program-At tokens left i p g here refl)
      ∙ pipes_from-At (i + 1) (list_add l p) (q ∷ ps) gs rest.1 (omega (arith, size, e))

-- The pipeline that the entry of a command holds.
abbrev pub built : List Program → GrowingList Program
built ps = list_trim (add_all list_init ps)

pub init_pipe_list-At :
    (tokens : GrowingList Token) (left end : ℕ) (ps : List Program)
    → IsPipeline ps
    → At tokens left (pipe_tokens ps)
    → end ≡ left + length (pipe_tokens ps)
    → init_pipe_list tokens left end ≡ ok (built ps)
unfolding init_pipe_list
init_pipe_list-At tokens left end ps g h e =
    let n : (end == 0) ≡ false = ground (arith, pipe_tokens-pos ps g) in
    rw n (
      ap (λ n. pipes_from tokens end left left n list_init >>= (λ pipes. ok (list_trim pipes)))
        {y = length (pipe_tokens ps)} (omega arith)
      ∙ ap (λ r. r >>= (λ pipes. ok (list_trim pipes)))
          (pipes_from-At tokens end left list_init ps g h e))
