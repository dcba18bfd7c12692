-- ===== src/Shell/AndOr.antt =====
-- `command_exec` of 2/command.c against the meaning of && and || in a shell: both bind to the left, and
-- the right side runs if the left one has the status for it.
use Prim.Native.Nat.{bit_or}
use sysprog_exercises.Prelude.{
  ℕ, ◌≢◌, ◌≡◌, refl, ap, ◌∙◌, sym, Bool, true, false, List, [], ◌∷◌, ◌++◌, if◌then◌else◌, ◌==◌, not,
  ◌||◌, inl, inr, Bool-cases,
}
use sysprog_exercises.Shell.Command.{
  ExitContext, NextOperator, entry_null, entry_and, entry_or, CommandEntry, is_success, no_context,
  onward, out, run_and_chain, and_chain_failed, caught_or_only, exec_after_or, after_entry,
  run_pipe_list, exec_entry, command_loop, command_exec,
}
use mathlib.Core.List.{append_assoc, append-nil}

-- A line of pipelines as a shell reads it.
pub data AndOr (P : Type 0) : Type 0 where
  pipeline : P → AndOr P
  and_then : AndOr P → P → AndOr P
  or_else : AndOr P → P → AndOr P

-- The entries of the line, the last one with the operator that follows.
abbrev pub entries : {P : Type 0} → AndOr P → NextOperator → List (CommandEntry P)
entries (pipeline p) next = record { pipe_list = p; next_operator_type = next } ∷ []
entries (and_then c p) next =
    entries c entry_and ++ (record { pipe_list = p; next_operator_type = next } ∷ [])
entries (or_else c p) next =
    entries c entry_or ++ (record { pipe_list = p; next_operator_type = next } ∷ [])

if_true : {A : Type 0} {b : Bool} (x y : A) → b ≡ true → (if b then x else y) ≡ x
if_true x y e = ap (λ c. if c then x else y) e

if_false : {A : Type 0} {b : Bool} (x y : A) → b ≡ false → (if b then x else y) ≡ y
if_false x y e = ap (λ c. if c then x else y) e

-- The mode for the entry after an operator.
abbrev mode_after : NextOperator → Bool → ℕ
mode_after entry_or true = caught_or_only
mode_after entry_or false = exec_after_or
mode_after next true = run_and_chain
mode_after next false = and_chain_failed

module _ {W P : Type 0} (pipe_list_exec : W → P → W × ExitContext) where
  -- What the line comes to.
  abbrev pub run_line : W → AndOr P → W × ExitContext
  run_line w (pipeline p) = pipe_list_exec w p
  run_line w (and_then c p) =
      let r = run_line w c in
      if r.1.is_terminate || not (is_success r.1.exit_code) then r else pipe_list_exec r.0 p
  run_line w (or_else c p) =
      let r = run_line w c in
      if r.1.is_terminate || is_success r.1.exit_code then r else pipe_list_exec r.0 p

  -- The loop behind a line that came to `r`, with the entries that are left.
  abbrev settle : NextOperator → List (CommandEntry P) → W × ExitContext → W × ExitContext
  settle entry_null rest r = r
  settle entry_and rest r =
      if r.1.is_terminate
      then r
      else command_loop pipe_list_exec rest r.0 r.1
          (mode_after entry_and (is_success r.1.exit_code))
  settle entry_or rest r =
      if r.1.is_terminate
      then r
      else command_loop pipe_list_exec rest r.0 r.1 (mode_after entry_or (is_success r.1.exit_code))

  stop :
      (next : NextOperator) (rest : List (CommandEntry P)) (r : W × ExitContext)
      → r.1.is_terminate ≡ true
      → settle next rest r ≡ r
  stop entry_null rest r t = refl
  stop entry_and rest r t = if_true r _ t
  stop entry_or rest r t = if_true r _ t

  go_on :
      (next : NextOperator) (rest : List (CommandEntry P)) (r : W × ExitContext) (good : Bool)
      → next ≢ entry_null
      → r.1.is_terminate ≡ false
      → is_success r.1.exit_code ≡ good
      → settle next rest r ≡ command_loop pipe_list_exec rest r.0 r.1 (mode_after next good)
  go_on entry_null rest r good some_next t e = absurd (some_next refl)
  go_on entry_and rest r good some_next t e =
      if_false r _ t ∙ ap (λ b. command_loop pipe_list_exec rest r.0 r.1 (mode_after entry_and b)) e
  go_on entry_or rest r good some_next t e =
      if_false r _ t ∙ ap (λ b. command_loop pipe_list_exec rest r.0 r.1 (mode_after entry_or b)) e

  -- What follows a pipeline that returned `r` in the first mode.
  abbrev follow : Bool → W × ExitContext → NextOperator → List (CommandEntry P) → W × ExitContext
  follow terminated r next rest =
      elim (if terminated then out r.0 r.1 else onward r.0 r.1 run_and_chain) [
        | out v y ↦ (v, y)
        | onward v y mode ↦ elim (after_entry v y mode next) [
          | out u z ↦ (u, z)
          | onward u z next_mode ↦ command_loop pipe_list_exec rest u z next_mode
        ]
      ]

  follow-false :
      (r : W × ExitContext) (next : NextOperator) (rest : List (CommandEntry P))
      → r.1.is_terminate ≡ false
      → follow false r next rest ≡ settle next rest r
  unfolding after_entry
  follow-false r entry_null rest t = refl
  follow-false r entry_and rest t =
      ap (command_loop pipe_list_exec rest r.0 r.1) (and_mode (is_success r.1.exit_code))
      ∙ sym (if_false r _ t)
    where
      and_mode :
          (b : Bool)
          → (if (if b then run_and_chain else and_chain_failed) == caught_or_only
              then run_and_chain
              else (if b then run_and_chain else and_chain_failed))
            ≡ mode_after entry_and b
      and_mode true = refl
      and_mode false = refl
  follow-false r entry_or rest t =
      ap (command_loop pipe_list_exec rest r.0 r.1) (or_mode (is_success r.1.exit_code))
      ∙ sym (if_false r _ t)
    where
      or_mode :
          (b : Bool)
          → bit_or (if b then run_and_chain else and_chain_failed) caught_or_only
            ≡ mode_after entry_or b
      or_mode true = refl
      or_mode false = refl

  by_reply :
      (r : W × ExitContext) (next : NextOperator) (rest : List (CommandEntry P))
      → follow r.1.is_terminate r next rest ≡ settle next rest r
  by_reply r next rest = elim (Bool-cases r.1.is_terminate) [
    | inl t ↦ ap (λ b. follow b r next rest) t ∙ sym (stop next rest r t)
    | inr t ↦ ap (λ b. follow b r next rest) t ∙ follow-false r next rest t
  ]

  -- One entry that runs, and one that is passed over.
  runs :
      (w : W) (x : ExitContext) (p : P) (next : NextOperator) (rest : List (CommandEntry P))
      (mode : ℕ)
      → exec_entry pipe_list_exec w x mode p ≡ run_pipe_list pipe_list_exec w p run_and_chain
      → command_loop pipe_list_exec
          (record { pipe_list = p; next_operator_type = next } ∷ rest)
          w
          x
          mode
        ≡ settle next rest (pipe_list_exec w p)
  unfolding command_loop after_entry
  runs w x p entry_null rest mode e =
      rw (e, command_loop) (by_reply (pipe_list_exec w p) entry_null rest)
  runs w x p entry_and rest mode e =
      rw (e, command_loop) (by_reply (pipe_list_exec w p) entry_and rest)
  runs w x p entry_or rest mode e =
      rw (e, command_loop) (by_reply (pipe_list_exec w p) entry_or rest)

  passes_failed :
      (w : W) (x : ExitContext) (p : P) (next : NextOperator) (rest : List (CommandEntry P))
      → x.is_terminate ≡ false
      → is_success x.exit_code ≡ false
      → command_loop pipe_list_exec
          (record { pipe_list = p; next_operator_type = next } ∷ rest)
          w
          x
          and_chain_failed
        ≡ settle next rest (w, x)
  unfolding command_loop after_entry exec_entry
  passes_failed w x p entry_null rest goes_on bad = refl
  passes_failed w x p entry_and rest goes_on bad = rw (bad, goes_on, command_loop) refl
  passes_failed w x p entry_or rest goes_on bad = rw (bad, goes_on, command_loop) refl

  passes_caught :
      (w : W) (x : ExitContext) (p : P) (next : NextOperator) (rest : List (CommandEntry P))
      → x.is_terminate ≡ false
      → is_success x.exit_code ≡ true
      → command_loop pipe_list_exec
          (record { pipe_list = p; next_operator_type = next } ∷ rest)
          w
          x
          caught_or_only
        ≡ settle next rest (w, x)
  unfolding command_loop after_entry exec_entry
  passes_caught w x p entry_null rest goes_on good = refl
  passes_caught w x p entry_and rest goes_on good = rw (good, goes_on, command_loop) refl
  passes_caught w x p entry_or rest goes_on good = rw (good, goes_on, command_loop) refl

  -- The entry behind && and the one behind ||.
  settle_and :
      (r : W × ExitContext) (p : P) (next : NextOperator) (rest : List (CommandEntry P))
      → settle entry_and (record { pipe_list = p; next_operator_type = next } ∷ rest) r
        ≡ settle next rest
            (if r.1.is_terminate || not (is_success r.1.exit_code) then r else pipe_list_exec r.0 p)
  unfolding exec_entry
  settle_and r p next rest = elim (Bool-cases r.1.is_terminate) [
    | inl t ↦
        stop entry_and (record { pipe_list = p; next_operator_type = next } ∷ rest) r t
        ∙ sym (stop next rest r t)
        ∙ ap (settle next rest)
            (sym (if_true r _ (ap (λ b. b || not (is_success r.1.exit_code)) t)))
    | inr t ↦ elim (Bool-cases (is_success r.1.exit_code)) [
      | inl good ↦
          go_on entry_and _ r true (λ e. cc) t good
          ∙ runs r.0 r.1 p next rest run_and_chain refl
          ∙ ap (settle next rest)
              (sym (if_false r _ (ap (λ b. b || not (is_success r.1.exit_code)) t ∙ ap not good)))
      | inr bad ↦
          go_on entry_and _ r false (λ e. cc) t bad
          ∙ passes_failed r.0 r.1 p next rest t bad
          ∙ ap (settle next rest)
              (sym (if_true r _ (ap (λ b. b || not (is_success r.1.exit_code)) t ∙ ap not bad)))
    ]
  ]

  settle_or :
      (r : W × ExitContext) (p : P) (next : NextOperator) (rest : List (CommandEntry P))
      → settle entry_or (record { pipe_list = p; next_operator_type = next } ∷ rest) r
        ≡ settle next rest
            (if r.1.is_terminate || is_success r.1.exit_code then r else pipe_list_exec r.0 p)
  unfolding exec_entry
  settle_or r p next rest = elim (Bool-cases r.1.is_terminate) [
    | inl t ↦
        stop entry_or (record { pipe_list = p; next_operator_type = next } ∷ rest) r t
        ∙ sym (stop next rest r t)
        ∙ ap (settle next rest) (sym (if_true r _ (ap (λ b. b || is_success r.1.exit_code) t)))
    | inr t ↦ elim (Bool-cases (is_success r.1.exit_code)) [
      | inl good ↦
          go_on entry_or _ r true (λ e. cc) t good
          ∙ passes_caught r.0 r.1 p next rest t good
          ∙ ap (settle next rest)
              (sym (if_true r _ (ap (λ b. b || is_success r.1.exit_code) t ∙ good)))
      | inr bad ↦
          go_on entry_or _ r false (λ e. cc) t bad
          ∙ runs r.0 r.1 p next rest exec_after_or refl
          ∙ ap (settle next rest)
              (sym (if_false r _ (ap (λ b. b || is_success r.1.exit_code) t ∙ bad)))
    ]
  ]

  loop-settle :
      (w : W) (c : AndOr P) (next : NextOperator) (rest : List (CommandEntry P))
      → command_loop pipe_list_exec (entries c next ++ rest) w no_context run_and_chain
        ≡ settle next rest (run_line w c)
  unfolding exec_entry
  loop-settle w (pipeline p) next rest = runs w no_context p next rest run_and_chain refl
  loop-settle w (and_then c p) next rest =
      ap (λ l. command_loop pipe_list_exec l w no_context run_and_chain)
        (append_assoc (entries c entry_and) _ rest)
      ∙ loop-settle w c entry_and (record { pipe_list = p; next_operator_type = next } ∷ rest)
      ∙ settle_and (run_line w c) p next rest
  loop-settle w (or_else c p) next rest =
      ap (λ l. command_loop pipe_list_exec l w no_context run_and_chain)
        (append_assoc (entries c entry_or) _ rest)
      ∙ loop-settle w c entry_or (record { pipe_list = p; next_operator_type = next } ∷ rest)
      ∙ settle_or (run_line w c) p next rest

  -- For every line of pipelines joined by && and ||, `command_exec` on the line's entries runs the
  -- same pipelines in the same order and returns the same context as the line does when each operator
  -- binds to the left and runs its right side on success or on failure of the left one, and an `exit`
  -- ends it; whatever a pipeline does.
  pub command_exec-run_line :
      (w : W) (c : AndOr P) → command_exec pipe_list_exec w (entries c entry_null) ≡ run_line w c
  unfolding command_exec
  command_exec-run_line w c =
      ap (λ l. command_loop pipe_list_exec l w no_context run_and_chain)
        (sym (append-nil (entries c entry_null)))
      ∙ loop-settle w c entry_null []
