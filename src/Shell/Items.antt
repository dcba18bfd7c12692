-- ===== src/Shell/Items.antt =====
-- The lists of tokens and their programs in 2/evaluator.c.
use sysprog_exercises.Prelude.{
  ℕ, suc, ◌+◌, ◌<◌, ◌≡◌, refl, ap, ◌∙◌, subst, Bool, true, false, Option, none, some, List, [], ◌∷◌,
  ◌++◌, arith, length, map, ◌==◌,
}
use sysprog_exercises.Shell.Run.{Run, ok, ◌>>=◌}
use sysprog_exercises.Shell.Utils.{GrowingList}
use sysprog_exercises.Shell.Token.{
  Token, word, is_redirection, is_redirection_append, output_redirection_append,
  output_redirection_write,
}
use sysprog_exercises.Shell.Grammar.{single, double}
use sysprog_exercises.Shell.Evaluator.{
  Program, item_at, items_from, argv_from, init_argv, program_from,
}

-- From position `i` on the list holds these items.
abbrev pub At : {A : Type 0} → GrowingList A → ℕ → List A → Type 0
At {A} l i [] = Unit {0}
At {A} l i (x ∷ xs) = (item_at l i ≡ ok x) × At l (i + 1) xs

module _ {A : Type 0} (l : GrowingList A) where
  pub At-left : (i : ℕ) (xs ys : List A) → At l i (xs ++ ys) → At l i xs
  At-left i [] ys h = tt
  At-left i (x ∷ xs) ys (h, hs) = (h, At-left (i + 1) xs ys hs)

  pub At-right : (i : ℕ) (xs ys : List A) → At l i (xs ++ ys) → At l (i + length xs) ys
  At-right i [] ys h = subst (λ j. At l j ys) (omega arith) h
  At-right i (x ∷ xs) ys (h, hs) = subst (λ j. At l j ys) (omega arith) (At-right (i + 1) xs ys hs)

  pub items_from-At : (i : ℕ) (xs : List A) → At l i xs → items_from l i (length xs) ≡ ok xs
  unfolding items_from
  items_from-At i [] h = refl
  items_from-At i (x ∷ xs) (h, hs) =
      ap (λ r. r >>= (λ y. items_from l (i + 1) (length xs) >>= (λ rest. ok (y ∷ rest)))) h
      ∙ ap (λ r. r >>= (λ rest. ok (x ∷ rest))) (items_from-At (i + 1) xs hs)

abbrev pub a_word : List ℕ → Token
a_word v = record { value = v; type = word }

module _ (tokens : GrowingList Token) where
  argv_from-At :
      (i : ℕ) (ws : List (List ℕ))
      → At tokens i (map a_word ws)
      → argv_from tokens i (length ws) ≡ ok ws
  unfolding argv_from
  argv_from-At i [] h = refl
  argv_from-At i (w ∷ ws) (h, hs) =
      ap
        (λ r. r >>= (λ (t : Token).
          argv_from tokens (i + 1) (length ws) >>= (λ rest. ok (t.value ∷ rest))))
        h
      ∙ ap (λ r. r >>= (λ rest. ok (w ∷ rest))) (argv_from-At (i + 1) ws hs)

  init_argv-At :
      (left end : ℕ) (ws : List (List ℕ))
      → At tokens left (map a_word ws)
      → end ≡ left + length ws
      → 0 < length ws
      → init_argv tokens left end ≡ ok ws
  unfolding init_argv
  init_argv-At left end ws h e pos =
      let n : (end == 0) ≡ false = ground arith in
      rw n (ap (argv_from tokens left) {y = length ws} (omega arith) ∙ argv_from-At left ws h)

  -- The loop of `init_program` passes over words.
  step_word :
      (left end i n : ℕ) (w : List ℕ)
      → item_at tokens i ≡ ok (a_word w)
      → program_from tokens left end i (suc n) ≡ program_from tokens left end (i + 1) n
  unfolding program_from
  step_word left end i n w h = rw (h, program_from) refl

  pub program_from_words :
      (left end i n : ℕ) (ws : List (List ℕ))
      → At tokens i (map a_word ws)
      → program_from tokens left end i (length ws + n)
        ≡ program_from tokens left end (i + length ws) n
  program_from_words left end i n [] h =
      ap (program_from tokens left end i) (omega arith)
      ∙ ap (λ j. program_from tokens left end j n) (omega arith)
  program_from_words left end i n (w ∷ ws) (h, hs) =
      ap (program_from tokens left end i) {y = suc (length ws + n)} (omega arith)
      ∙ step_word left end i (length ws + n) w h
      ∙ program_from_words left end (i + 1) n ws hs
      ∙ ap (λ j. program_from tokens left end j n) (omega arith)

  pub program_from_end :
      (left end i : ℕ) (ws : List (List ℕ))
      → At tokens left (map a_word ws)
      → end ≡ left + length ws
      → 0 < length ws
      → program_from tokens left end i 0
        ≡ ok (record { argv = ws; is_appending_output = false; output_file_name = none })
  unfolding program_from
  program_from_end left end i ws h e pos = rw (init_argv-At left end ws h e pos) refl

  pub program_from_redirect :
      (left end i n : ℕ) (ws : List (List ℕ)) (t f : Token)
      → At tokens left (map a_word ws)
      → i ≡ left + length ws
      → 0 < length ws
      → is_redirection t.type ≡ true
      → item_at tokens i ≡ ok t
      → item_at tokens (i + 1) ≡ ok f
      → program_from tokens left end i (suc n)
        ≡ ok (record {
          argv = ws;
          is_appending_output = is_redirection_append t.type;
          output_file_name = some f.value;
        })
  unfolding program_from
  program_from_redirect left end i n ws t f h e pos r here next =
      ap (λ q. q >>= branch) here
      ∙ ap
          (λ b. elim b [
            | true ↦ redirected (init_argv tokens left i) (item_at tokens (i + 1))
            | false ↦ program_from tokens left end (i + 1) n
          ])
          r
      ∙ ap (λ q. redirected q (item_at tokens (i + 1))) (init_argv-At left i ws h e pos)
      ∙ ap (redirected (ok ws)) next
    where
      redirected : Run (List (List ℕ)) → Run Token → Run Program
      redirected argv file = argv >>= (λ argv. file >>= (λ (f : Token). ok (record {
        argv = argv;
        is_appending_output = is_redirection_append t.type;
        output_file_name = some f.value;
      })))

      branch : Token → Run Program
      branch t = elim (is_redirection t.type) [
        | true ↦ init_argv tokens left i >>= (λ argv. item_at tokens (i + 1) >>= (λ (f : Token).
            ok (record {
              argv = argv;
              is_appending_output = is_redirection_append t.type;
              output_file_name = some f.value;
            })))
        | false ↦ program_from tokens left end (i + 1) n
      ]

-- The tokens of a redirection, and of a program.
abbrev pub redirect_tokens : Bool → Option (List ℕ) → List Token
redirect_tokens appends none = []
redirect_tokens true (some f) = double b'>' output_redirection_append ∷ a_word f ∷ []
redirect_tokens false (some f) = single b'>' output_redirection_write ∷ a_word f ∷ []

abbrev pub program_tokens : Program → List Token
program_tokens p = map a_word p.argv ++ redirect_tokens p.is_appending_output p.output_file_name

-- A program has a word, and appends only where it has a file.
pub record IsProgram (p : Program) : Type 0 where
  pub named : 0 < length p.argv
  pub plain : p.output_file_name ≡ none → p.is_appending_output ≡ false

pub length-words : (ws : List (List ℕ)) → length (map a_word ws) ≡ length ws
length-words [] = refl
length-words (w ∷ ws) = ap suc (length-words ws)
