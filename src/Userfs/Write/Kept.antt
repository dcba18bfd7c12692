-- ===== src/Userfs/Write/Kept.antt =====
-- What the loop of `ufs_write` in 3/userfs.c keeps of a file and its descriptors.
use native.Mathlib.Decide.{ℕ_discrete}
use sysprog_exercises.Prelude.{
  ℕ, zero, suc, ◌/◌, ◌≤◌, ◌≡◌, refl, ap, subst, ◌∙◌, sym, some, List, [], ◌∷◌, ◌++◌, arith, length,
  get_elem?, set, get_elem?-lt, get_elem?-set_self, get_elem?-set_ne, get_elem?-append_left,
  eq_of_some,
}
use sysprog_exercises.Userfs.Types.{block_size, max_file_size, Block, File, Filedesc}
use sysprog_exercises.Userfs.Chain.{empty_block, AllSized}
use sysprog_exercises.Userfs.Ahead.{CursorOk, unset, inside, SameOwner}
use sysprog_exercises.Userfs.Position.{SameFile}
use sysprog_exercises.Userfs.Write.{SameFile-trans, SameOwner-trans}

-- A file whose blocks have their memory, with their right number, which is within the limit.
pub record FileFits (f : File) : Type 0 where
  pub sized : AllSized f.block_list
  pub counted : f.blocks_count ≡ length f.block_list
  pub bounded : f.blocks_count ≤ max_file_size / block_size

-- Every block of `f` is in `g`, at the same position, and holds at least as much there.
abbrev pub Grows : List Block → List Block → Type 0
Grows bs cs =
    (p : ℕ) (b : Block)
    → get_elem? bs p ≡ some b
    → (c : Block) × (get_elem? cs p ≡ some c) × (b.occupied ≤ c.occupied)

pub CursorOk-Grows :
    {f g : File} {d : Filedesc} → Grows f.block_list g.block_list → CursorOk f d → CursorOk g d
CursorOk-Grows grow (unset e z) = unset e z
CursorOk-Grows grow (inside p b cur here off idx) =
    let (c, there, le) = grow p b here in inside p c cur there (omega arith) idx

pub Grows-refl : (bs : List Block) → Grows bs bs
Grows-refl bs p b e = (b, e, omega arith)

pub Grows-trans : (bs cs ds : List Block) → Grows bs cs → Grows cs ds → Grows bs ds
Grows-trans bs cs ds g h p b e =
    let (c, e', le) = g p b e in let (d, e'', le') = h p c e' in (d, e'', omega arith)

pub Grows-append : (bs cs : List Block) → Grows bs (bs ++ cs)
Grows-append bs cs p b e = (b, get_elem?-append_left bs cs p (get_elem?-lt bs p e) ∙ e, omega arith)

pub AllSized-append_empty : (bs : List Block) → AllSized bs → AllSized (bs ++ (empty_block ∷ []))
AllSized-append_empty [] s = (refl, omega arith, tt)
AllSized-append_empty (b ∷ bs) s = (s.0, s.1, AllSized-append_empty bs s.2)

pub AllSized-set :
    (bs : List Block) (p : ℕ) (b : Block)
    → AllSized bs
    → length b.memory ≡ block_size
    → b.occupied ≤ block_size
    → AllSized (set bs p b)
AllSized-set [] p b s m o = tt
AllSized-set (c ∷ bs) zero b s m o = (m, o, s.2)
AllSized-set (c ∷ bs) (suc p) b s m o = (s.0, s.1, AllSized-set bs p b s.2 m o)

pub Grows-set :
    (bs : List Block) (p : ℕ) (b c : Block)
    → get_elem? bs p ≡ some b
    → b.occupied ≤ c.occupied
    → Grows bs (set bs p c)
Grows-set bs p b c here le q b' e = elim (ℕ_discrete p q) [
  | yes h ↦
      let same : b ≡ b' = eq_of_some (sym here ∙ ap (get_elem? bs) h ∙ e) in
      (
        c,
        ap (get_elem? (set bs p c)) (sym h) ∙ get_elem?-set_self bs p c (get_elem?-lt bs p here),
        subst (λ x. x.occupied ≤ c.occupied) same le,
      )
  | no h ↦ (b', get_elem?-set_ne bs p q c h ∙ e, omega arith)
]

-- What a round, and the loop, keep.
pub record Kept (f : File) (d : Filedesc) (g : File) (e : Filedesc) : Type 0 where
  pub fits : FileFits g
  pub grows : Grows f.block_list g.block_list
  pub cursor : CursorOk g e
  pub same_file : SameFile f g
  pub same_owner : SameOwner d e

pub Kept-trans : {f g h : File} {d e i : Filedesc} → Kept f d g e → Kept g e h i → Kept f d h i
Kept-trans {f} {g} {h} k l = record {
  fits = l.fits;
  grows = Grows-trans f.block_list g.block_list h.block_list k.grows l.grows;
  cursor = l.cursor;
  same_file = SameFile-trans k.same_file l.same_file;
  same_owner = SameOwner-trans k.same_owner l.same_owner;
}
