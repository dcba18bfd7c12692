-- ===== src/Shell/Rounds.antt =====
-- The rounds of `tokenize_command` of 2/parser.c.
use sysprog_exercises.Prelude.{
  ℕ, zero, suc, ◌≤◌, ◌<◌, ◌≡◌, ◌≢◌, refl, ap, ◌∙◌, true, false, none, some, List, [], ◌∷◌, ◌++◌,
  ◌==◌, arith, length, length-append,
}
use sysprog_exercises.Shell.Run.{Run, ok, crash, ◌>>=◌}
use sysprog_exercises.Shell.Stdin.{Stdin, eof, next_char, unget}
use sysprog_exercises.Shell.Builder.{
  string_builder_init, append_all, before_zero, to_string-append_all,
}
use sysprog_exercises.Shell.Utils.{GrowingList, list_add, list_trim}
use sysprog_exercises.Shell.Token.{Token, TokenType, word, init_token}
use sysprog_exercises.Shell.Tokenizer.{
  skip_spaces, skip_comment, Round, go_on, command_end, add_token, operator_round, token_round,
  tokens_loop,
}
use sysprog_exercises.Shell.Grammar.{
  Lacks, anywhere, Word, StartsWord, EndsWord, GoesOnWithout, single, double,
}
use sysprog_exercises.Shell.Words.{input, start, proceed, proceed_lem}

pub skip_comment_lem :
    (k : ℕ) (cs rest : List ℕ)
    → Lacks b'\n' cs
    → length cs < k
    → skip_comment k (input (cs ++ (b'\n' ∷ rest))) ≡ ok (input rest)
unfolding skip_comment next_char
skip_comment_lem zero cs rest l h = absurd (omega arith)
skip_comment_lem (suc k) [] rest l h = refl
skip_comment_lem (suc k) (c ∷ cs) rest (ne, l) h =
    rw (ne, skip_comment) (skip_comment_lem k cs rest l (omega arith))

before_zero_lem : (vs : List ℕ) → Lacks 0 vs → before_zero vs ≡ vs
before_zero_lem [] l = refl
before_zero_lem (v ∷ vs) (ne, l) = rw (ne, before_zero) (ap (λ t. v ∷ t) (before_zero_lem vs l))

add_chars :
    (g : GrowingList Token) (vs : List ℕ) (type : TokenType)
    → vs ≢ []
    → Lacks 0 vs
    → add_token g (append_all string_builder_init vs) type
      ≡ ok (list_add g (record { value = vs; type = type }))
unfolding init_token
add_chars g [] type ne l = absurd (ne refl)
add_chars g (v ∷ vs) type ne l =
    ap
      (λ o.
        (elim o [ none ↦ crash | some value ↦ ok (record { value = value; type = type }) ])
        >>= (λ (t : Token). ok (list_add g t)))
      (to_string-append_all (v ∷ vs) ∙ ap some (before_zero_lem (v ∷ vs) l))

abbrev pub after_round : ℕ → Run Round → Run (GrowingList Token × Stdin)
after_round k r = r >>= (λ r. elim r [
  | go_on u more ↦ tokens_loop k u more
  | command_end u more ↦ ok (list_trim more, u)
])

abbrev after_spaces : ℕ → GrowingList Token → ℕ × Stdin → Run (GrowingList Token × Stdin)
after_spaces k g (c, t) = elim (c == eof) [
  | true ↦ ok (g, t)
  | false ↦ after_round k (token_round k c t g)
]

-- A round of the outer loop with fuel of its own for the spaces in front.
abbrev pub round_from : ℕ → ℕ → Stdin → GrowingList Token → Run (GrowingList Token × Stdin)
round_from j k s g = skip_spaces j s >>= after_spaces k g

tokens_loop-suc :
    (k : ℕ) (s : Stdin) (g : GrowingList Token) → tokens_loop (suc k) s g ≡ round_from k k s g
unfolding tokens_loop
tokens_loop-suc k s g = refl

skip_spaces_none :
    (j c : ℕ) (cs : List ℕ)
    → (c == b' ') ≡ false
    → skip_spaces (suc j) (input (c ∷ cs)) ≡ ok (c, input cs)
unfolding skip_spaces next_char
skip_spaces_none j c cs n = rw (n, skip_spaces) refl

-- A round that begins with a character other than a space.
pub round_at :
    (j k c : ℕ) (cs : List ℕ) (g : GrowingList Token)
    → (c == b' ') ≡ false
    → (c == eof) ≡ false
    → round_from (suc j) k (input (c ∷ cs)) g ≡ after_round k (token_round k c (input cs) g)
round_at j k c cs g n e =
    ap (λ r. r >>= after_spaces k g) (skip_spaces_none j c cs n)
    ∙ ap
        (λ b. elim b [
          | true ↦ ok (g, input cs)
          | false ↦ after_round k (token_round k c (input cs) g)
        ])
        e

-- An operator of one character that does not go on, and of two.
pub single_round :
    (text : List ℕ) (g : GrowingList Token) (c : ℕ) (t u : TokenType)
    (next : Stdin → GrowingList Token → Round)
    → (c == 0) ≡ false
    → GoesOnWithout c text
    → operator_round (input text) g c t next u ≡ ok (next (input text) (list_add g (single c t)))
unfolding operator_round next_char unget append_all
single_round [] g c t u next z l = absurd l
single_round (x ∷ text) g c t u next z (ne, n) =
    rw (ne, n)
      (ap (λ r. r >>= (λ more. ok (next (input (x ∷ text)) more)))
        (add_chars g (c ∷ []) t (λ e. cc) (z, tt)))

pub double_round :
    (text : List ℕ) (g : GrowingList Token) (c : ℕ) (t u : TokenType)
    (next : Stdin → GrowingList Token → Round)
    → (c == 0) ≡ false
    → operator_round (input (c ∷ text)) g c t next u
      ≡ ok (go_on (input text) (list_add g (double c u)))
unfolding operator_round next_char unget append_all
double_round text g c t u next z =
    let same : (c == c) ≡ true = ground arith in
    rw same (
      ap (λ r. r >>= (λ more. ok (go_on (input text) more)))
        (add_chars g (c ∷ c ∷ []) u (λ e. cc) (z, (z, tt))))

-- A round of a word.
pub word_round :
    (k : ℕ) (cs vs text : List ℕ) (g : GrowingList Token)
    → Word anywhere cs vs
    → StartsWord cs
    → vs ≢ []
    → Lacks 0 vs
    → EndsWord text
    → length (cs ++ text) ≤ suc k
    → (j : ℕ)
    → round_from (suc j) (suc k) (input (cs ++ text)) g
      ≡ tokens_loop (suc k) (input text) (list_add g (record { value = vs; type = word }))
unfolding token_round next_char
word_round k cs vs [] g w s ne l e h j = absurd e
word_round k [] vs (x ∷ text) g w s ne l e h j = absurd s
word_round k (c ∷ cs) vs (x ∷ text) g w (n, m) ne l (e, o) h j =
    round_at j (suc k) c (cs ++ (x ∷ text)) g (ground arith) (ground arith)
    ∙ ap (after_round (suc k)) (branches ∙ read)
  where
    branches : token_round (suc k) c (input (cs ++ (x ∷ text))) g ≡ (
        (proceed anywhere k (start (c ∷ cs ++ (x ∷ text)) string_builder_init))
        >>= (λ r. add_token g r.0 word >>= (λ more. ok (go_on r.1 more))))
    branches =
        let p : (c == b'&') ≡ false = ground arith in
        let q : (c == b'|') ≡ false = ground arith in
        let r : (c == b'>') ≡ false = ground arith in
        let t : (c == b'\n') ≡ false = ground arith in rw (p, q, r, m, t) refl

    read :
        ((proceed anywhere k (start (c ∷ cs ++ (x ∷ text)) string_builder_init))
          >>= (λ r. add_token g r.0 word >>= (λ more. ok (go_on r.1 more))))
        ≡ ok (go_on (input (x ∷ text)) (list_add g (record { value = vs; type = word })))
    read =
        ap (λ r. r >>= (λ r. add_token g r.0 word >>= (λ more. ok (go_on r.1 more))))
          (proceed_lem anywhere k x text string_builder_init w
            (omega (arith, length-append (c ∷ cs) (x ∷ text))) e o)
        ∙ ap (λ r. r >>= (λ more. ok (go_on (input (x ∷ text)) more))) (add_chars g vs word ne l)
