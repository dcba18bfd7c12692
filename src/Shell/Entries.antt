-- ===== src/Shell/Entries.antt =====
-- `evaluate` of 2/evaluator.c on the tokens of a line of pipelines.
use sysprog_exercises.Prelude.{
  ℕ, suc, ◌+◌, ◌-◌, ◌<◌, ◌≡◌, refl, ap, ◌∙◌, Bool, true, false, List, [], ◌∷◌, ◌++◌, arith, length,
  length-append, if◌then◌else◌, ◌==◌,
}
use sysprog_exercises.Shell.Run.{Run, ok, ◌>>=◌}
use sysprog_exercises.Shell.Utils.{GrowingList, list_add}
use sysprog_exercises.Shell.Token.{Token, is_logical_and}
use sysprog_exercises.Shell.Command.{NextOperator, entry_null, entry_and, entry_or}
use sysprog_exercises.Shell.Evaluator.{
  Program, item_at, init_pipe_list, Entry, init_command_entry, entries_from,
}
use sysprog_exercises.Shell.Items.{At, At-left, At-right, program_tokens}
use sysprog_exercises.Shell.Slices.{Without, Without-append, Without-program}
use sysprog_exercises.Shell.Pipes.{
  pipe_token, pipe_tokens, IsPipeline, pipe_tokens-pos, built, init_pipe_list-At,
}
use sysprog_exercises.Shell.Operators.{background_token, background_tokens, logical, in_background}

Without-pipes :
    (test : Token → Bool) (ps : List Program)
    → ((p : Program) → Without test (program_tokens p))
    → test pipe_token ≡ false
    → Without test (pipe_tokens ps)
Without-pipes test [] h k = tt
Without-pipes test (p ∷ []) h k = h p
Without-pipes test (p ∷ q ∷ ps) h k =
    Without-append test (program_tokens p) (pipe_token ∷ pipe_tokens (q ∷ ps)) (h p)
      (k, Without-pipes test (q ∷ ps) h k)

Without-logical : (ps : List Program) → Without logical (pipe_tokens ps)
Without-logical ps =
    Without-pipes logical ps (λ p. Without-program logical p (λ w. refl) refl refl) refl

Without-background : (ps : List Program) → Without in_background (pipe_tokens ps)
Without-background ps =
    Without-pipes in_background ps (λ p. Without-program in_background p (λ w. refl) refl refl) refl

module _ (tokens : GrowingList Token) where
  entry_last :
      (left end : ℕ) (ps : List Program)
      → IsPipeline ps
      → At tokens left (pipe_tokens ps)
      → end ≡ left + length (pipe_tokens ps)
      → init_command_entry tokens left end true
        ≡ ok (record { pipe_list = built ps; next_operator_type = entry_null })
  unfolding init_command_entry
  entry_last left end ps g h e = rw (init_pipe_list-At tokens left end ps g h e) refl

  entry_before :
      (left : ℕ) (ps : List Program) (t : Token) (next : NextOperator)
      → IsPipeline ps
      → At tokens left (pipe_tokens ps)
      → item_at tokens (left + length (pipe_tokens ps)) ≡ ok t
      → (if is_logical_and t.type then entry_and else entry_or) ≡ next
      → init_command_entry tokens left (left + length (pipe_tokens ps) + 1) false
        ≡ ok (record { pipe_list = built ps; next_operator_type = next })
  unfolding init_command_entry
  entry_before left ps t next g h here e =
      let i = left + length (pipe_tokens ps) in
      ap
        (λ n. init_pipe_list tokens left n >>= (λ pipes. item_at tokens n >>= (λ (t : Token).
          ok (record {
            pipe_list = pipes;
            next_operator_type = if is_logical_and t.type then entry_and else entry_or;
          }))))
        {x = i + 1 - 1} {y = i} (omega arith)
      ∙ rw (init_pipe_list-At tokens left i ps g h refl, here, e) refl

  abbrev at_end : ℕ → ℕ → ℕ → GrowingList Entry → Bool → Bool → Run (GrowingList Entry × Bool)
  at_end left i n command background behind = elim behind [
    | true ↦
        init_command_entry tokens left i true
        >>= (λ e. entries_from tokens left (i + 1) n (list_add command e) true)
    | false ↦
        init_command_entry tokens left (i + 1) true
        >>= (λ e. entries_from tokens left (i + 1) n (list_add command e) background)
  ]

  abbrev at_other :
      ℕ → ℕ → ℕ → GrowingList Entry → Bool → Bool → Bool → Run (GrowingList Entry × Bool)
  at_other left i n command background behind last = elim last [
    | true ↦ at_end left i n command background behind
    | false ↦ entries_from tokens left (i + 1) n command background
  ]

  abbrev at_token :
      ℕ → ℕ → ℕ → GrowingList Entry → Bool → Bool → Bool → Bool → Run (GrowingList Entry × Bool)
  at_token left i n command background behind last operator = elim operator [
    | true ↦
        init_command_entry tokens left (i + 1) false
        >>= (λ e. entries_from tokens (i + 1) (i + 1) n (list_add command e) background)
    | false ↦ at_other left i n command background behind last
  ]

  entries_from-suc :
      (left i n : ℕ) (command : GrowingList Entry) (background last behind operator : Bool)
      (t : Token)
      → item_at tokens i ≡ ok t
      → logical t ≡ operator
      → (i + 1 == tokens.size) ≡ last
      → in_background t ≡ behind
      → entries_from tokens left i (suc n) command background
        ≡ at_token left i n command background behind last operator
  unfolding entries_from
  entries_from-suc left i n command background last behind operator t h l e b =
      ap
        (λ r. r >>= (λ (t : Token).
          at_token left i n command background (in_background t) (i + 1 == tokens.size)
            (logical t)))
        h
      ∙ ap (at_token left i n command background (in_background t) (i + 1 == tokens.size)) l
      ∙ ap (λ c. at_token left i n command background (in_background t) c operator) e
      ∙ ap (λ c. at_token left i n command background c last operator) b

  -- The loop passes over tokens that are no operators.
  passed :
      (left i n : ℕ) (command : GrowingList Entry) (background : Bool) (xs : List Token)
      → At tokens i xs
      → Without logical xs
      → i + length xs < tokens.size
      → entries_from tokens left i (length xs + n) command background
        ≡ entries_from tokens left (i + length xs) n command background
  passed left i n command background [] h w lt =
      ap (λ m. entries_from tokens left i m command background) {y = n} (omega arith)
      ∙ ap (λ j. entries_from tokens left j n command background) (omega arith)
  passed left i n command background (t ∷ xs) (h, hs) (w, ws) lt =
      let more : (i + 1 == tokens.size) ≡ false = ground arith in
      ap (λ m. entries_from tokens left i m command background) {y = suc (length xs + n)}
        (omega arith)
      ∙ entries_from-suc left i (length xs + n) command background false (in_background t) false t h
          w more refl
      ∙ passed left (i + 1) n command background xs hs ws (omega arith)
      ∙ ap (λ j. entries_from tokens left j n command background) (omega arith)

  -- The last tokens of a line in the foreground.
  last_ones :
      (left i : ℕ) (command : GrowingList Entry) (xs : List Token)
      → At tokens i xs
      → Without logical xs
      → Without in_background xs
      → 0 < length xs
      → i + length xs ≡ tokens.size
      → entries_from tokens left i (length xs) command false ≡ (
          init_command_entry tokens left tokens.size true >>= (λ e. ok (list_add command e, false)))
  unfolding entries_from
  last_ones left i command [] h w b pos e = absurd (omega arith)
  last_ones left i command (t ∷ []) (h, hs) (w, ws) (b, bs) pos e =
      let now : (i + 1 == tokens.size) ≡ true = ground arith in
      entries_from-suc left i 0 command false true false false t h w now b
      ∙ ap (λ j. init_command_entry tokens left j true >>= (λ e. ok (list_add command e, false)))
          (omega arith)
  last_ones left i command (t ∷ u ∷ xs) (h, hs) (w, ws) (b, bs) pos e =
      let more : (i + 1 == tokens.size) ≡ false = ground arith in
      entries_from-suc left i (length (u ∷ xs)) command false false false false t h w more b
      ∙ last_ones left (i + 1) command (u ∷ xs) hs ws bs (omega arith) (omega arith)

  -- The last pipeline of a line, with the token for the background behind it or without.
  pub last_entry :
      (left : ℕ) (command : GrowingList Entry) (ps : List Program) (background : Bool)
      → IsPipeline ps
      → At tokens left (pipe_tokens ps ++ background_tokens background)
      → left + length (pipe_tokens ps ++ background_tokens background) ≡ tokens.size
      → entries_from tokens left left
          (length (pipe_tokens ps ++ background_tokens background))
          command
          false
        ≡ ok (
          list_add command (record { pipe_list = built ps; next_operator_type = entry_null }),
          background,
        )
  unfolding entries_from
  last_entry left command ps false g h e =
      let size = length-append (pipe_tokens ps) [] in
      let here = At-left tokens left (pipe_tokens ps) [] h in
      ap (λ n. entries_from tokens left left n command false) {y = length (pipe_tokens ps)}
        (omega (arith, size))
      ∙ last_ones left left command (pipe_tokens ps) here (Without-logical ps)
          (Without-background ps) (pipe_tokens-pos ps g) (omega (arith, size))
      ∙ ap (λ r. r >>= (λ e. ok (list_add command e, false)))
          (entry_last left tokens.size ps g here (omega (arith, size)))
  last_entry left command ps true g h e =
      let size = length-append (pipe_tokens ps) (background_token ∷ []) in
      let here = At-left tokens left (pipe_tokens ps) (background_token ∷ []) h in
      let rest = At-right tokens left (pipe_tokens ps) (background_token ∷ []) h in
      let i = left + length (pipe_tokens ps) in
      let now : (i + 1 == tokens.size) ≡ true = ground (arith, size) in
      ap (λ n. entries_from tokens left left n command false) {y = length (pipe_tokens ps) + 1}
        (omega (arith, size))
      ∙ passed left left 1 command false (pipe_tokens ps) here (Without-logical ps)
          (omega (arith, size))
      ∙ entries_from-suc left i 0 command false true true false background_token rest.0 refl now
          refl
      ∙ ap (λ r. r >>= (λ e. ok (list_add command e, true))) (entry_last left i ps g here refl)

  -- A pipeline with an operator behind it.
  entry_step :
      (left n : ℕ) (command : GrowingList Entry) (ps : List Program) (t : Token)
      (next : NextOperator)
      → IsPipeline ps
      → At tokens left (pipe_tokens ps)
      → item_at tokens (left + length (pipe_tokens ps)) ≡ ok t
      → logical t ≡ true
      → (if is_logical_and t.type then entry_and else entry_or) ≡ next
      → left + length (pipe_tokens ps) < tokens.size
      → entries_from tokens left left (length (pipe_tokens ps) + suc n) command false
        ≡ entries_from tokens
            (left + length (pipe_tokens ps) + 1)
            (left + length (pipe_tokens ps) + 1)
            n
            (list_add command (record { pipe_list = built ps; next_operator_type = next }))
            false
  entry_step left n command ps t next g h here l e lt =
      let i = left + length (pipe_tokens ps) in
      passed left left (suc n) command false (pipe_tokens ps) h (Without-logical ps) lt
      ∙ entries_from-suc left i n command false (i + 1 == tokens.size) (in_background t) true t here
          l refl refl
      ∙ ap (λ r. r >>= (λ e. entries_from tokens (i + 1) (i + 1) n (list_add command e) false))
          (entry_before left ps t next g h here e)

  -- The same in front of the rest of a line.
  pub middle_entry :
      (left : ℕ) (command : GrowingList Entry) (ps : List Program) (t : Token) (next : NextOperator)
      (ts : List Token)
      → IsPipeline ps
      → At tokens left (pipe_tokens ps ++ (t ∷ ts))
      → logical t ≡ true
      → (if is_logical_and t.type then entry_and else entry_or) ≡ next
      → left + length (pipe_tokens ps ++ (t ∷ ts)) ≡ tokens.size
      → entries_from tokens left left (length (pipe_tokens ps ++ (t ∷ ts))) command false
        ≡ entries_from tokens
            (left + length (pipe_tokens ps) + 1)
            (left + length (pipe_tokens ps) + 1)
            (length ts)
            (list_add command (record { pipe_list = built ps; next_operator_type = next }))
            false
  middle_entry left command ps t next ts g h l n e =
      let size = length-append (pipe_tokens ps) (t ∷ ts) in
      ap (λ n. entries_from tokens left left n command false)
        {y = length (pipe_tokens ps) + suc (length ts)} (omega (arith, size))
      ∙ entry_step left (length ts) command ps t next g
          (At-left tokens left (pipe_tokens ps) (t ∷ ts) h)
          (At-right tokens left (pipe_tokens ps) (t ∷ ts) h).0 l n (omega (arith, size))
