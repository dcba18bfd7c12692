-- ===== src/Shell/Tests/Sessions.antt =====
-- The shell of 2/ from its text on, at sample sessions.
use sysprog_exercises.Prelude.{ℕ, ◌≡◌, refl, arith, none, true, false, List, [], ◌∷◌, ◌++◌, inl}
use sysprog_exercises.Prelude.Int.{pos}
use sysprog_exercises.Shell.Run.{ok, crash, out_of_fuel}
use sysprog_exercises.Shell.Utils.{GrowingList, list_init, list_trim, add_all}
use sysprog_exercises.Shell.Grammar.{word_end, plain, Line, newline, background, pipe, a_word}
use sysprog_exercises.Shell.Command.{ExitContext}
use sysprog_exercises.Shell.AndOr.{AndOr, pipeline}
use sysprog_exercises.Shell.Tokenizer.{tokenize_command, word_loop}
use sysprog_exercises.Shell.Words.{input, start}
use sysprog_exercises.Shell.Lines.{tokenize_command-Line}
use sysprog_exercises.Shell.Evaluator.{Program, evaluate}
use sysprog_exercises.Shell.Items.{IsProgram}
use sysprog_exercises.Shell.Main.{main_loop}
use sysprog_exercises.Shell.Cut.{Pipelines}
use sysprog_exercises.Shell.Meaning.{command_tokens, run_command, evaluate-run_command}
use sysprog_exercises.Shell.Session.{
  Session, session_end, blank, command, run_session, main_loop-Session,
}
use sysprog_exercises.Shell.Builder.{string_builder_init, string_builder_append, append_all}
use sysprog_exercises.Shell.Defects.{
  tokenize_command-comment, tokenize_command-tab, word_loop-quotes,
}

-- Pipelines are only logged, with the number of their programs as the status; a child does not change
-- the world of the shell.
abbrev log_pipes : List ℕ → GrowingList Program → List ℕ × ExitContext
log_pipes log pipes =
    (pipes.size ∷ log, record { exit_code = pos pipes.size; is_terminate = false })

abbrev sample_fork : List ℕ → (List ℕ → List ℕ × ExitContext) → List ℕ
sample_fork w child = w

abbrev program : List ℕ → Program
program name = record { argv = name ∷ []; is_appending_output = false; output_file_name = none }

-- ls|wc
abbrev ls_wc : AndOr (List Program)
ls_wc = pipeline (program (b'l' ∷ b's' ∷ []) ∷ program (b'w' ∷ b'c' ∷ []) ∷ [])

-- x
abbrev x_alone : AndOr (List Program)
x_alone = pipeline (program (b'x' ∷ []) ∷ [])

abbrev ls_wc_text : List ℕ
ls_wc_text = b'l' ∷ b's' ∷ b'|' ∷ b'w' ∷ b'c' ∷ b'\n' ∷ b'x' ∷ b'&' ∷ b'\n' ∷ []

abbrev x_text : List ℕ
x_text = b'x' ∷ b'&' ∷ b'\n' ∷ []

abbrev two : (a b : ℕ) → List ℕ
two a b = a ∷ b ∷ []

ls_wc_line : Line ls_wc_text (command_tokens ls_wc false) x_text
ls_wc_line =
    a_word {cs = two b'l' b's'} (plain b'l' refl (plain b's' refl word_end)) (refl, refl) (λ e. cc)
      (refl, (refl, tt)) (refl, refl)
      (pipe (refl, refl)
        (a_word {cs = two b'w' b'c'} (plain b'w' refl (plain b'c' refl word_end)) (refl, refl)
          (λ e. cc) (refl, (refl, tt)) (refl, refl) newline))

x_line : Line x_text (command_tokens x_alone true) (b'\n' ∷ [])
x_line =
    a_word {cs = b'x' ∷ []} (plain b'x' refl word_end) (refl, refl) (λ e. cc) (refl, tt)
      (refl, refl) (background (refl, refl))

program-IsProgram : (name : List ℕ) → IsProgram (program name)
program-IsProgram name = record { named = omega arith; plain = λ e. refl }

ls_wc-Pipelines : Pipelines ls_wc
ls_wc-Pipelines = (program-IsProgram (two b'l' b's'), program-IsProgram (two b'w' b'c'))

sample-Session : Session ls_wc_text ((ls_wc, false) ∷ (x_alone, true) ∷ [])
sample-Session =
    command ls_wc false ls_wc-Pipelines ls_wc_line
      (command x_alone true (program-IsProgram (b'x' ∷ [])) x_line (blank newline session_end))

-- The session, run: two programs are a status of 2, and the line in the background has none.
sample_run :
    run_session log_pipes sample_fork [] ((ls_wc, false) ∷ (x_alone, true) ∷ []) (pos 0)
    ≡ (2 ∷ [], pos 2)
unfolding list_trim add_all
sample_run = refl

main_loop-Session_example :
    main_loop log_pipes sample_fork 11 11 [] (input ls_wc_text) (pos 0)
    ≡ ok (run_session log_pipes sample_fork [] ((ls_wc, false) ∷ (x_alone, true) ∷ []) (pos 0))
main_loop-Session_example =
    main_loop-Session log_pipes sample_fork {text = ls_wc_text} 11 11 [] (pos 0) sample-Session
      (omega arith) (omega arith)

tokenize_command-Line_example :
    tokenize_command 10 (input ls_wc_text)
    ≡ ok (list_trim (add_all list_init (command_tokens ls_wc false)), input x_text)
tokenize_command-Line_example = tokenize_command-Line 10 ls_wc_line (omega arith)

evaluate-run_command_example :
    evaluate log_pipes sample_fork [] (list_trim (add_all list_init (command_tokens ls_wc false)))
    ≡ ok (run_command log_pipes sample_fork [] ls_wc false)
evaluate-run_command_example =
    evaluate-run_command log_pipes sample_fork [] ls_wc false ls_wc-Pipelines

-- # without a newline behind it
tokenize_command-comment_example : tokenize_command 50 (input (b'#' ∷ b'a' ∷ [])) ≡ out_of_fuel
tokenize_command-comment_example = tokenize_command-comment 50 (b'a' ∷ []) (refl, tt)

tokenize_command-tab_example : tokenize_command 7 (input (b'\t' ∷ ls_wc_text)) ≡ crash
tokenize_command-tab_example = tokenize_command-tab 5 b'\t' ls_wc_text (inl refl)

-- 'a''b'
word_loop-quotes_example :
    word_loop 9 (start (39 ∷ (b'a' ∷ []) ++ (39 ∷ 39 ∷ b'b' ∷ 39 ∷ b'\n' ∷ [])) string_builder_init)
    ≡ word_loop 8 (
        start
          (b'b' ∷ 39 ∷ b'\n' ∷ [])
          (string_builder_append (append_all string_builder_init (b'a' ∷ [])) 39))
word_loop-quotes_example =
    word_loop-quotes 8 (b'a' ∷ []) (b'b' ∷ 39 ∷ b'\n' ∷ []) string_builder_init (refl, tt)
      (omega arith)
