-- ===== src/Shell/Builder.antt =====
-- The string builder of 2/utils.c.
--
-- `content` is the memory that was written, the terminating zero with it: an append writes two bytes,
-- and each `malloc` or `realloc` before it asks for room for more than those.
use mathlib.Core.List.{append_assoc, append-nil}
use sysprog_exercises.Prelude.{
  ℕ, ◌+◌, ◌≡◌, refl, ap, ◌∙◌, sym, subst, Option, none, some, List, [], ◌∷◌, ◌++◌, arith, length,
  take, length-append, if◌then◌else◌, ◌==◌,
}

-- `string_builder`
pub record StringBuilder : Type 0 where
  pub size : ℕ
  pub content : Option (List ℕ)

abbrev pub string_builder_init : StringBuilder
string_builder_init = record { size = 0; content = none }

-- The memory with two bytes written from `content[size]` on.
abbrev written_at : ℕ → Option (List ℕ) → ℕ → List ℕ
written_at size none c = c ∷ 0 ∷ []
written_at size (some memory) c = take size memory ++ (c ∷ 0 ∷ [])

unfoldable pub string_builder_append : StringBuilder → ℕ → StringBuilder
string_builder_append b c = record {
  size = b.size + 1;
  content = some (written_at b.size b.content c);
}

-- `strdup`: the bytes before the first zero; `none` runs over the end of the memory.
unfoldable pub strdup : List ℕ → Option (List ℕ)
strdup [] = none
strdup (c ∷ cs) =
    let rest = strdup cs in
    if c == 0 then some [] else (elim rest [ none ↦ none | some s ↦ some (c ∷ s) ])

-- `none` is `strdup` of `NULL`, or of memory without an end.
unfoldable pub to_string : StringBuilder → Option (List ℕ)
unfolding strdup
to_string b = elim b.content [ none ↦ none | some memory ↦ strdup memory ]

-- An append for each of the characters.
unfoldable pub append_all : StringBuilder → List ℕ → StringBuilder
unfolding string_builder_append
append_all b [] = b
append_all b (c ∷ cs) = append_all (string_builder_append b c) cs

-- The characters in front of the first zero.
abbrev pub before_zero : List ℕ → List ℕ
before_zero [] = []
before_zero (c ∷ cs) = if c == 0 then [] else c ∷ before_zero cs

-- The builder holds these characters, at least one, and the zero behind them.
record Holding (b : StringBuilder) (cs : List ℕ) : Type 0 where
  counted : b.size ≡ length cs
  memory : b.content ≡ some (cs ++ (0 ∷ []))

take-front : (cs ds : List ℕ) → take (length cs) (cs ++ ds) ≡ cs
take-front [] [] = refl
take-front [] (d ∷ ds) = refl
take-front (c ∷ cs) ds = ap (λ l. c ∷ l) (take-front cs ds)

append-Holding :
    (b : StringBuilder) (cs : List ℕ) (c : ℕ)
    → Holding b cs
    → Holding (string_builder_append b c) (cs ++ (c ∷ []))
unfolding string_builder_append
append-Holding b cs c h = record {
  counted = omega (arith, h.counted, length-append cs (c ∷ []));
  memory =
      ap (λ m. some (written_at b.size m c)) h.memory
      ∙ ap (λ n. some (take n (cs ++ (0 ∷ [])) ++ (c ∷ 0 ∷ []))) h.counted
      ∙ ap (λ l. some (l ++ (c ∷ 0 ∷ []))) (take-front cs (0 ∷ []))
      ∙ ap some (sym (append_assoc cs (c ∷ []) (0 ∷ [])));
}

append_all-Holding :
    (b : StringBuilder) (cs ds : List ℕ) → Holding b cs → Holding (append_all b ds) (cs ++ ds)
unfolding append_all
append_all-Holding b cs [] h = subst (Holding b) (sym (append-nil cs)) h
append_all-Holding b cs (d ∷ ds) h =
    subst (Holding (append_all (string_builder_append b d) ds)) (append_assoc cs (d ∷ []) ds)
      (append_all-Holding (string_builder_append b d) (cs ++ (d ∷ [])) ds (append-Holding b cs d h))

strdup-before_zero : (cs : List ℕ) → strdup (cs ++ (0 ∷ [])) ≡ some (before_zero cs)
unfolding strdup
strdup-before_zero [] = refl
strdup-before_zero (c ∷ cs) = rw (strdup-before_zero cs, strdup) (ground arith)

-- What the appends of some characters make is their string up to the first zero among them; of no
-- characters, `to_string` hands `NULL` to `strdup`.
pub to_string-append_all :
    (cs : List ℕ)
    → to_string (append_all string_builder_init cs)
      ≡ (elim cs [ [] ↦ none | c ∷ rest ↦ some (before_zero (c ∷ rest)) ])
unfolding to_string append_all string_builder_append
to_string-append_all [] = refl
to_string-append_all (c ∷ cs) =
    let h = append_all-Holding (string_builder_append string_builder_init c) (c ∷ []) cs first in
    ap (λ m. elim m [ none ↦ none | some memory ↦ strdup memory ]) h.memory
    ∙ strdup-before_zero (c ∷ cs)
  where
    first : Holding (string_builder_append string_builder_init c) (c ∷ [])
    first = record { counted = refl; memory = refl }
