-- ===== src/Shell/Session.antt =====
-- The shell of 2/ on the text of a whole session.
use sysprog_exercises.Prelude.{
  ℕ, zero, suc, ◌+◌, ◌<◌, ◌≡◌, refl, ap, ◌∙◌, Bool, true, false, none, some, List, [], ◌∷◌, arith,
  length, length-append, if◌then◌else◌,
}
use sysprog_exercises.Prelude.Int.{ℤ}
use sysprog_exercises.Shell.Run.{Run, ok, crash, ◌>>=◌}
use sysprog_exercises.Shell.Stdin.{Stdin, next_char}
use sysprog_exercises.Shell.Utils.{GrowingList, list_init, list_trim, list_free, cleaned, add_all}
use sysprog_exercises.Shell.Lists.{list_free-list_trim}
use sysprog_exercises.Shell.Token.{Token}
use sysprog_exercises.Shell.Grammar.{
  Line, newline, comment, background, space, both, either, append, pipe, write, a_word,
}
use sysprog_exercises.Shell.Command.{ExitContext}
use sysprog_exercises.Shell.AndOr.{AndOr}
use sysprog_exercises.Shell.Tokenizer.{skip_spaces, tokens_loop, tokenize_command}
use sysprog_exercises.Shell.Words.{input}
use sysprog_exercises.Shell.Lines.{tokenize_command-Line}
use sysprog_exercises.Shell.Evaluator.{Program, no_exit_code, evaluate}
use sysprog_exercises.Shell.Main.{new_code, free_tokens, main_round, main_loop}
use sysprog_exercises.Shell.Cut.{Pipelines}
use sysprog_exercises.Shell.Meaning.{command_tokens, run_command, evaluate-run_command}

Line-rest : {text rest : List ℕ} {ts : List Token} → Line text ts rest → length rest < length text
Line-rest newline = omega arith
Line-rest (comment {rest} cs l) = omega (arith, length-append cs (b'\n' ∷ rest))
Line-rest (background l) = omega arith
Line-rest (space l) = omega (arith, Line-rest l)
Line-rest (both l) = omega (arith, Line-rest l)
Line-rest (either l) = omega (arith, Line-rest l)
Line-rest (append l) = omega (arith, Line-rest l)
Line-rest (pipe x l) = omega (arith, Line-rest l)
Line-rest (write x l) = omega (arith, Line-rest l)
Line-rest (a_word {cs} {vs} {text} w s ne z e l) = omega (arith, length-append cs text, Line-rest l)

free_tokens-trimmed :
    {A : Type 0} (ts : List Token) (a : A) → free_tokens (list_trim (add_all list_init ts)) a ≡ ok a
unfolding free_tokens
free_tokens-trimmed ts a =
    ap (λ o. elim o [ none ↦ crash | some freed ↦ ok a ]) (list_free-list_trim ts)

-- A command of a session, and whether it goes to the behind.
abbrev pub LineCommand : Type 0
LineCommand = AndOr (List Program) × Bool

-- The text of a session: commands, and lines without one.
pub data Session : List ℕ → List LineCommand → Type 0 where
  session_end : Session [] []
  blank :
      {text rest : List ℕ} {cs : List LineCommand}
      → Line text [] rest
      → Session rest cs
      → Session text cs
  command :
      {text rest : List ℕ} {cs : List LineCommand} (c : AndOr (List Program)) (behind : Bool)
      → Pipelines c
      → Line text (command_tokens c behind) rest
      → Session rest cs
      → Session text ((c, behind) ∷ cs)

module _ {W : Type 0} (pipe_list_exec : W → GrowingList Program → W × ExitContext)
    (fork : W → (W → W × ExitContext) → W) where
  -- What a session does: its commands in turn, up to one that exits, and the last exit code.
  abbrev pub run_session : W → List LineCommand → ℤ → W × ℤ
  run_session w [] exit_code = (w, exit_code)
  run_session w (c ∷ cs) exit_code =
      let r = run_command pipe_list_exec fork w c.0 c.1 in
      let code = new_code r.1 exit_code in
      let rest = run_session r.0 cs code in if r.1.is_terminate then (r.0, code) else rest

  -- What the loop does behind a round.
  abbrev continue : ℕ → ℕ → ℤ → (W × ExitContext) × Stdin → Run (W × ℤ)
  continue j k exit_code r = elim r.0.1.is_terminate [
    | true ↦ ok (r.0.0, new_code r.0.1 exit_code)
    | false ↦ main_loop pipe_list_exec fork j k r.0.0 r.1 (new_code r.0.1 exit_code)
  ]

  main_round-command :
      {text rest : List ℕ} (k : ℕ) (w : W) (c : AndOr (List Program)) (behind : Bool)
      → Pipelines c
      → Line text (command_tokens c behind) rest
      → length text < k
      → main_round pipe_list_exec fork k w (input text)
        ≡ ok (run_command pipe_list_exec fork w c behind, input rest)
  unfolding main_round
  main_round-command {text} {rest} k w c behind g l h =
      rw (tokenize_command-Line k l h, evaluate-run_command pipe_list_exec fork w c behind g)
        (free_tokens-trimmed (command_tokens c behind)
          (run_command pipe_list_exec fork w c behind, input rest))

  main_round-blank :
      {text rest : List ℕ} (k : ℕ) (w : W)
      → Line text [] rest
      → length text < k
      → main_round pipe_list_exec fork k w (input text) ≡ ok ((w, no_exit_code), input rest)
  unfolding main_round free_tokens evaluate add_all list_trim list_free cleaned
  main_round-blank {text} {rest} k w l h = rw (tokenize_command-Line k l h) refl

  main_round-end :
      (k : ℕ) (w : W)
      → main_round pipe_list_exec fork (suc (suc k)) w (input [])
        ≡ ok ((w, no_exit_code), record { bytes = []; at_end = true })
  unfolding main_round free_tokens evaluate tokenize_command tokens_loop skip_spaces next_char
      list_free cleaned
  main_round-end k w = refl

  -- Every session of lines that the grammar reads is run to its end: with more fuel than characters the
  -- shell never crashes and never waits, runs the commands in turn, each as && and || mean it, stops
  -- behind one that exits, and returns the last exit code.
  pub main_loop-Session :
      {text : List ℕ} {cs : List LineCommand} (j k : ℕ) (w : W) (exit_code : ℤ)
      → Session text cs
      → length text + 1 < j
      → length text + 1 < k
      → main_loop pipe_list_exec fork j k w (input text) exit_code ≡ ok (run_session w cs exit_code)
  unfolding main_loop
  main_loop-Session zero k w exit_code s h i = absurd (omega arith)
  main_loop-Session (suc zero) k w exit_code s h i = absurd (omega arith)
  main_loop-Session (suc (suc j)) zero w exit_code s h i = absurd (omega arith)
  main_loop-Session (suc (suc j)) (suc zero) w exit_code s h i = absurd (omega arith)
  main_loop-Session (suc (suc j)) (suc (suc k)) w exit_code session_end h i =
      ap (λ r. r >>= continue (suc j) (suc (suc k)) exit_code) (main_round-end k w)
  main_loop-Session (suc (suc j)) (suc (suc k)) w exit_code (blank l s) h i =
      ap (λ r. r >>= continue (suc j) (suc (suc k)) exit_code)
        (main_round-blank (suc (suc k)) w l (omega arith))
      ∙ main_loop-Session (suc j) (suc (suc k)) w exit_code s (omega (arith, Line-rest l))
          (omega (arith, Line-rest l))
  main_loop-Session (suc (suc j)) (suc (suc k)) w exit_code
        (command {text} {rest} {cs} c behind g l s) h i =
      let r = run_command pipe_list_exec fork w c behind in
      let code = new_code r.1 exit_code in
      ap (λ r. r >>= continue (suc j) (suc (suc k)) exit_code)
        (main_round-command (suc (suc k)) w c behind g l (omega arith))
      ∙ by_exit r.1.is_terminate (r.0, code) (run_session r.0 cs code)
          (main_loop pipe_list_exec fork (suc j) (suc (suc k)) r.0 (input rest) code)
          (main_loop-Session (suc j) (suc (suc k)) r.0 code s (omega (arith, Line-rest l))
            (omega (arith, Line-rest l)))
    where
      by_exit :
          (b : Bool) (now later : W × ℤ) (loop : Run (W × ℤ))
          → loop ≡ ok later
          → (elim b [ true ↦ ok now | false ↦ loop ]) ≡ ok (if b then now else later)
      by_exit true now later loop e = refl
      by_exit false now later loop e = e
