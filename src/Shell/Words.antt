-- ===== src/Shell/Words.antt =====
-- The loop of 2/parser.c over a word against the relation `Word`.
use mathlib.Core.List.{append_assoc}
use sysprog_exercises.Prelude.{
  ℕ, zero, suc, ◌≤◌, ◌<◌, ◌≡◌, refl, ap, ◌∙◌, sym, true, false, List, [], ◌∷◌, ◌++◌, ◌==◌, arith,
  length, length-append, if◌then◌else◌,
}
use sysprog_exercises.Shell.Run.{Run, ok, ◌>>=◌}
use sysprog_exercises.Shell.Stdin.{Stdin, eof, next_char, unget}
use sysprog_exercises.Shell.Builder.{StringBuilder, string_builder_append, append_all}
use sysprog_exercises.Shell.Tokenizer.{
  is_word_end, single_quoted, quoted_escape, double_quoted, WordState, after_quote, single_part,
  double_part, WordStep, word_done, word_more, word_rest, word_loop,
}
use sysprog_exercises.Shell.Grammar.{
  is_plain, Lacks, Quoted, none_left, itself, escape, backslash, line_join, Place, anywhere,
  behind_single, behind_double, double_allowed, Word, word_end, plain, escaped, joined, in_single,
  in_double,
}

-- Input that is not at its end.
abbrev pub input : List ℕ → Stdin
input cs = record { bytes = cs; at_end = false }

pub append_all-append :
    (b : StringBuilder) (cs ds : List ℕ) → append_all b (cs ++ ds) ≡ append_all (append_all b cs) ds
unfolding append_all
append_all-append b [] ds = refl
append_all-append b (c ∷ cs) ds = append_all-append (string_builder_append b c) cs ds

single_quoted_lem :
    (k : ℕ) (qs rest : List ℕ) (b : StringBuilder)
    → Lacks 39 qs
    → length qs < k
    → single_quoted k (input (qs ++ (39 ∷ rest))) b ≡ ok (append_all b qs, input rest)
unfolding single_quoted next_char append_all
single_quoted_lem zero qs rest b l h = absurd (omega arith)
single_quoted_lem (suc k) [] rest b l h = refl
single_quoted_lem (suc k) (q ∷ qs) rest b (ne, l) h =
    rw (ne, single_quoted) (single_quoted_lem k qs rest (string_builder_append b q) l (omega arith))

double_quoted_lem :
    {qs ms : List ℕ} (k : ℕ) (rest : List ℕ) (b : StringBuilder)
    → Quoted qs ms
    → length qs < k
    → double_quoted k (input (qs ++ (34 ∷ rest))) b ≡ ok (append_all b ms, input rest)
unfolding double_quoted next_char append_all quoted_escape
double_quoted_lem zero rest b q h = absurd (omega arith)
double_quoted_lem (suc k) rest b none_left h = refl
double_quoted_lem (suc k) rest b (itself c e q) h =
    let n : (c == 34) ≡ false = ground arith in
    let m : (c == 92) ≡ false = ground arith in
    rw (n, m, double_quoted) (double_quoted_lem k rest (string_builder_append b c) q (omega arith))
double_quoted_lem (suc k) rest b (escape c e q) h =
    rw e (double_quoted_lem k rest (string_builder_append b c) q (omega arith))
double_quoted_lem (suc k) rest b (backslash c e n q) h =
    rw (e, n)
      (double_quoted_lem k rest (string_builder_append (string_builder_append b 92) c) q
        (omega arith))
double_quoted_lem (suc k) rest b (line_join q) h = double_quoted_lem k rest b q (omega arith)

-- The state in front of a text.
abbrev pub start : List ℕ → StringBuilder → WordState
start cs b = let r = next_char (input cs) in record { char = r.0; input = r.1; chars = b }

-- The rest of a round from a place on, and the rounds behind it.
abbrev step_on : ℕ → WordStep → Run (StringBuilder × Stdin)
step_on k (word_done b s) = ok (b, s)
step_on k (word_more x) = word_loop k x

abbrev finish : ℕ → WordState → Run (StringBuilder × Stdin)
finish k w = step_on k (word_rest w)

abbrev pub proceed : Place → ℕ → WordState → Run (StringBuilder × Stdin)
proceed anywhere k w = word_loop (suc k) w
proceed behind_single k w = double_part k w >>= finish k
proceed behind_double k w = finish k w

-- Where the character in hand is no quote, all places are the same.
proceed_on :
    (p : Place) (k : ℕ) (w : WordState)
    → (w.char == 39) ≡ false
    → (w.char == 34) ≡ false
    → proceed p k w ≡ finish k w
unfolding word_loop single_part double_part
proceed_on anywhere k w n m =
    ap (λ u. u >>= (λ v. double_part k v >>= finish k)) (single n) ∙ double m
  where
    single : (w.char == 39) ≡ false → single_part k w ≡ ok w
    single e = ap (λ t. if t then (single_quoted k w.input w.chars >>= after_quote) else ok w) e

    double : (w.char == 34) ≡ false → (double_part k w >>= finish k) ≡ finish k w
    double e =
        ap
          (λ t.
            (if t then (double_quoted k w.input w.chars >>= after_quote) else ok w) >>= finish k)
          e
proceed_on behind_single k w n m =
    ap (λ t. (if t then (double_quoted k w.input w.chars >>= after_quote) else ok w) >>= finish k) m
proceed_on behind_double k w n m = refl

-- A round of a plain character, of a backslash, and of one that ends the word.
word_rest_plain :
    (c : ℕ) (cs : List ℕ) (b : StringBuilder)
    → is_plain c ≡ true
    → word_rest (start (c ∷ cs) b) ≡ word_more (start cs (string_builder_append b c))
unfolding word_rest next_char
word_rest_plain c cs b e =
    let n : is_word_end c ≡ false = ground arith in
    let m : (c == 92) ≡ false = ground arith in rw (n, m) refl

word_rest_escaped :
    (c : ℕ) (cs : List ℕ) (b : StringBuilder)
    → (c == b'\n') ≡ false
    → word_rest (start (92 ∷ c ∷ cs) b) ≡ word_more (start cs (string_builder_append b c))
unfolding word_rest next_char
word_rest_escaped c cs b e = rw e refl

word_rest_joined :
    (cs : List ℕ) (b : StringBuilder)
    → word_rest (start (92 ∷ b'\n' ∷ cs) b) ≡ word_more (start cs b)
unfolding word_rest next_char
word_rest_joined cs b = refl

word_rest_end :
    (c : ℕ) (cs : List ℕ) (b : StringBuilder)
    → is_word_end c ≡ true
    → (c == eof) ≡ false
    → word_rest (start (c ∷ cs) b) ≡ word_done b (input (c ∷ cs))
unfolding word_rest next_char unget
word_rest_end c cs b e n = rw e (rw n refl)

-- A quoted part.
pub single_lem :
    (k : ℕ) (qs rest : List ℕ) (b : StringBuilder)
    → Lacks 39 qs
    → length qs < k
    → word_loop (suc k) (start (39 ∷ qs ++ (39 ∷ rest)) b)
      ≡ proceed behind_single k (start rest (append_all b qs))
unfolding word_loop single_part next_char
single_lem k qs rest b l h =
    ap (λ r. (r >>= after_quote) >>= (λ v. double_part k v >>= finish k))
      (single_quoted_lem k qs rest b l h)

double_lem :
    {qs ms : List ℕ} (k : ℕ) (rest : List ℕ) (b : StringBuilder)
    → Quoted qs ms
    → length qs < k
    → (double_part k (start (34 ∷ qs ++ (34 ∷ rest)) b) >>= finish k)
      ≡ finish k (start rest (append_all b ms))
unfolding double_part next_char
double_lem k rest b q h =
    ap (λ r. (r >>= after_quote) >>= finish k) (double_quoted_lem k rest b q h)

double_at :
    (p : Place) (k : ℕ) (text : List ℕ) (b : StringBuilder)
    → double_allowed p ≡ true
    → proceed p k (start (34 ∷ text) b) ≡ (double_part k (start (34 ∷ text) b) >>= finish k)
unfolding word_loop single_part next_char
double_at anywhere k text b h = refl
double_at behind_single k text b h = refl
double_at behind_double k text b h = cc

-- What the loop makes of the text of a word, up to the character that ends it.
pub proceed_lem :
    (p : Place) {cs vs : List ℕ} (k x : ℕ) (rest : List ℕ) (b : StringBuilder)
    → Word p cs vs
    → length cs ≤ k
    → is_word_end x ≡ true
    → (x == eof) ≡ false
    → proceed p k (start (cs ++ (x ∷ rest)) b) ≡ ok (append_all b vs, input (x ∷ rest))
unfolding append_all next_char
proceed_lem p k x rest b word_end h e n =
    proceed_on p k (start (x ∷ rest) b) (ground arith) (ground arith)
    ∙ ap (step_on k) (word_rest_end x rest b e n)
proceed_lem p zero x rest b (plain c ok_c w) h e n = absurd (omega arith)
proceed_lem p (suc k) x rest b (plain {cs} c ok_c w) h e n =
    proceed_on p (suc k) (start (c ∷ cs ++ (x ∷ rest)) b) (ground arith) (ground arith)
    ∙ ap (step_on (suc k)) (word_rest_plain c (cs ++ (x ∷ rest)) b ok_c)
    ∙ proceed_lem anywhere k x rest (string_builder_append b c) w (omega arith) e n
proceed_lem p zero x rest b (escaped c ne w) h e n = absurd (omega arith)
proceed_lem p (suc k) x rest b (escaped {cs} c ne w) h e n =
    proceed_on p (suc k) (start (92 ∷ c ∷ cs ++ (x ∷ rest)) b) refl refl
    ∙ ap (step_on (suc k)) (word_rest_escaped c (cs ++ (x ∷ rest)) b ne)
    ∙ proceed_lem anywhere k x rest (string_builder_append b c) w (omega arith) e n
proceed_lem p zero x rest b (joined w) h e n = absurd (omega arith)
proceed_lem p (suc k) x rest b (joined {cs} w) h e n =
    proceed_on p (suc k) (start (92 ∷ b'\n' ∷ cs ++ (x ∷ rest)) b) refl refl
    ∙ ap (step_on (suc k)) (word_rest_joined (cs ++ (x ∷ rest)) b)
    ∙ proceed_lem anywhere k x rest b w (omega arith) e n
proceed_lem anywhere k x rest b (in_single {cs} {vs} qs l w) h e n =
    ap (λ t. word_loop (suc k) (start (39 ∷ t) b)) (append_assoc qs (39 ∷ cs) (x ∷ rest))
    ∙ single_lem k qs (cs ++ (x ∷ rest)) b l (omega (arith, length-append qs (39 ∷ cs)))
    ∙ proceed_lem behind_single k x rest (append_all b qs) w
        (omega (arith, length-append qs (39 ∷ cs))) e n
    ∙ ap (λ t. ok (t, input (x ∷ rest))) (sym (append_all-append b qs vs))
proceed_lem p k x rest b (in_double {cs} {vs} {qs} {ms} may q w) h e n =
    ap (λ t. proceed p k (start (34 ∷ t) b)) (append_assoc qs (34 ∷ cs) (x ∷ rest))
    ∙ double_at p k (qs ++ (34 ∷ cs ++ (x ∷ rest))) b may
    ∙ double_lem k (cs ++ (x ∷ rest)) b q (omega (arith, length-append qs (34 ∷ cs)))
    ∙ proceed_lem behind_double k x rest (append_all b ms) w
        (omega (arith, length-append qs (34 ∷ cs))) e n
    ∙ ap (λ t. ok (t, input (x ∷ rest))) (sym (append_all-append b ms vs))
