-- ===== src/Shell/Slices.antt =====
-- The loops of 2/evaluator.c on tokens that lie in a list from a position on.
use sysprog_exercises.Prelude.{
  ℕ, ◌+◌, ◌<◌, ◌≡◌, refl, ap, ◌∙◌, sym, subst, Bool, true, false, Option, none, some, List, [], ◌∷◌,
  ◌++◌, arith, length, length-append, map, ◌==◌,
}
use sysprog_exercises.Shell.Run.{ok}
use sysprog_exercises.Shell.Utils.{GrowingList}
use sysprog_exercises.Shell.Token.{
  Token, is_redirection, is_redirection_append, output_redirection_append, output_redirection_write,
}
use sysprog_exercises.Shell.Grammar.{single, double}
use sysprog_exercises.Shell.Evaluator.{Program, program_from, init_program}
use sysprog_exercises.Shell.Items.{
  At, At-left, At-right, a_word, program_from_words, program_from_end, program_from_redirect,
  redirect_tokens, program_tokens, IsProgram, length-words,
}

module _ (tokens : GrowingList Token) where
  init_program-file :
      (left end : ℕ) (ws : List (List ℕ)) (t : Token) (f : List ℕ)
      → 0 < length ws
      → is_redirection t.type ≡ true
      → At tokens left (map a_word ws ++ (t ∷ a_word f ∷ []))
      → end ≡ left + length (map a_word ws ++ (t ∷ a_word f ∷ []))
      → init_program tokens left end
        ≡ ok (record {
          argv = ws;
          is_appending_output = is_redirection_append t.type;
          output_file_name = some f;
        })
  unfolding init_program
  init_program-file left end ws t f pos r h e =
      let size = length-append (map a_word ws) (t ∷ a_word f ∷ []) in
      let n : (end == 0) ≡ false = ground (arith, size, length-words ws) in
      let at = At-left tokens left (map a_word ws) (t ∷ a_word f ∷ []) h in
      let rest =
        subst (λ j. At tokens j (t ∷ a_word f ∷ [])) {x = left + length (map a_word ws)}
          {y = left + length ws} (omega (arith, length-words ws))
          (At-right tokens left (map a_word ws) (t ∷ a_word f ∷ []) h) in
      rw n (
        ap (program_from tokens left end left) {y = length ws + 2}
          (omega (arith, size, length-words ws))
        ∙ program_from_words tokens left end left 2 ws at
        ∙ program_from_redirect tokens left end (left + length ws) 1 ws t (a_word f) at refl pos r
            rest.0 rest.1.0)

  init_program-by :
      (left end : ℕ) (ws : List (List ℕ)) (appends : Bool) (file : Option (List ℕ))
      → 0 < length ws
      → (file ≡ none → appends ≡ false)
      → At tokens left (map a_word ws ++ redirect_tokens appends file)
      → end ≡ left + length (map a_word ws ++ redirect_tokens appends file)
      → init_program tokens left end
        ≡ ok (record { argv = ws; is_appending_output = appends; output_file_name = file })
  unfolding init_program
  init_program-by left end ws appends none pos none_false h e =
      let n : (end == 0) ≡ false =
        ground (arith, length-append (map a_word ws) [], length-words ws) in
      let at = At-left tokens left (map a_word ws) [] h in
      rw n (
        ap (program_from tokens left end left) {y = length ws + 0}
          (omega (arith, length-append (map a_word ws) [], length-words ws))
        ∙ program_from_words tokens left end left 0 ws at
        ∙ program_from_end tokens left end (left + length ws) ws at
            (omega (arith, length-append (map a_word ws) [], length-words ws)) pos
        ∙ ap (λ b. ok (record { argv = ws; is_appending_output = b; output_file_name = none }))
            (sym (none_false refl)))
  init_program-by left end ws true (some f) pos none_false h e =
      init_program-file left end ws (double b'>' output_redirection_append) f pos refl h e
  init_program-by left end ws false (some f) pos none_false h e =
      init_program-file left end ws (single b'>' output_redirection_write) f pos refl h e

  pub init_program-At :
      (left end : ℕ) (p : Program)
      → IsProgram p
      → At tokens left (program_tokens p)
      → end ≡ left + length (program_tokens p)
      → init_program tokens left end ≡ ok p
  init_program-At left end p g h e =
      init_program-by left end p.argv p.is_appending_output p.output_file_name g.named g.plain h e

-- No token of the list is of a kind.
abbrev pub Without : (Token → Bool) → List Token → Type 0
Without test [] = Unit {0}
Without test (t ∷ ts) = (test t ≡ false) × Without test ts

pub Without-append :
    (test : Token → Bool) (xs ys : List Token)
    → Without test xs
    → Without test ys
    → Without test (xs ++ ys)
Without-append test [] ys h k = k
Without-append test (x ∷ xs) ys (h, hs) k = (h, Without-append test xs ys hs k)

Without-words :
    (test : Token → Bool) (ws : List (List ℕ))
    → ((w : List ℕ) → test (a_word w) ≡ false)
    → Without test (map a_word ws)
Without-words test [] h = tt
Without-words test (w ∷ ws) h = (h w, Without-words test ws h)

Without-redirect :
    (test : Token → Bool) (appends : Bool) (file : Option (List ℕ))
    → ((w : List ℕ) → test (a_word w) ≡ false)
    → test (double b'>' output_redirection_append) ≡ false
    → test (single b'>' output_redirection_write) ≡ false
    → Without test (redirect_tokens appends file)
Without-redirect test appends none h k l = tt
Without-redirect test true (some f) h k l = (k, (h f, tt))
Without-redirect test false (some f) h k l = (l, (h f, tt))

-- A program's tokens are no operators between programs.
pub Without-program :
    (test : Token → Bool) (p : Program)
    → ((w : List ℕ) → test (a_word w) ≡ false)
    → test (double b'>' output_redirection_append) ≡ false
    → test (single b'>' output_redirection_write) ≡ false
    → Without test (program_tokens p)
Without-program test p h k l =
    Without-append test (map a_word p.argv)
      (redirect_tokens p.is_appending_output p.output_file_name) (Without-words test p.argv h)
      (Without-redirect test p.is_appending_output p.output_file_name h k l)

pub IsProgram-pos : (p : Program) → IsProgram p → 0 < length (program_tokens p)
IsProgram-pos p g = omega (
  arith,
  length-append (map a_word p.argv) (redirect_tokens p.is_appending_output p.output_file_name),
  length-words p.argv,
  g.named,
)
