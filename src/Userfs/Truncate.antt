-- ===== src/Userfs/Truncate.antt =====
-- `ufs_resize` of 3/userfs.c on one file: what a cut leaves.
pub mod Moves
use native.Mathlib.Decide.{ℕ_discrete, dec_lt}
use sysprog_exercises.Prelude.{
  ℕ, zero, suc, ◌+◌, ◌-◌, ◌/◌, ◌≤◌, ◌<◌, ◌≡◌, ◌≢◌, refl, ap, subst, ◌∙◌, sym, true, false, Option,
  none, some, List, [], ◌∷◌, arith, length, get_elem?, inl, inr, Bool-cases, ltb, if◌then◌else◌,
  ◌==◌, eq_of_some, get_elem?-lt,
}
use sysprog_exercises.Userfs.Types.{block_size, max_file_size, Block, File, Filedesc}
use sysprog_exercises.Userfs.Chain.{AllSized, empty_block, add_block}
use sysprog_exercises.Userfs.Ahead.{CursorOk, unset, inside}
use sysprog_exercises.Userfs.Position.{SameFile}
use sysprog_exercises.Userfs.Write.{SameFile-trans}
use sysprog_exercises.Userfs.Write.Kept.{FileFits, Grows, Grows-refl, Grows-trans, Grows-append}
use sysprog_exercises.Userfs.Write.Safe.{FileFits-add_block}
use sysprog_exercises.Userfs.Resize.{
  blocks_for, add_blocks, drop_last, drop_block, drop_blocks, last_occupied, set_last, last_block,
  end_offset, pull_back, truncate,
}

-- Blocks below `n` are the same in both lists.
abbrev pub SameBelow : ℕ → List Block → List Block → Type 0
SameBelow n bs cs = (p : ℕ) (b : Block) → p < n → get_elem? bs p ≡ some b → get_elem? cs p ≡ some b

length-drop_last : (b : Block) (bs : List Block) → length (drop_last (b ∷ bs)) ≡ length bs
length-drop_last b [] = refl
length-drop_last b (c ∷ bs) = ap suc (length-drop_last c bs)

AllSized-drop_last : (bs : List Block) → AllSized bs → AllSized (drop_last bs)
AllSized-drop_last [] s = tt
AllSized-drop_last (b ∷ []) s = tt
AllSized-drop_last (b ∷ c ∷ bs) s = (s.0, s.1, AllSized-drop_last (c ∷ bs) s.2)

SameBelow-drop_last :
    (b : Block) (bs : List Block) → SameBelow (length bs) (b ∷ bs) (drop_last (b ∷ bs))
SameBelow-drop_last b [] p x lt e = absurd (omega arith)
SameBelow-drop_last b (c ∷ bs) zero x lt e = e
SameBelow-drop_last b (c ∷ bs) (suc p) x lt e = SameBelow-drop_last c bs p x (omega arith) e

-- What the loop that frees blocks leaves: at least one block, and those that stay are as they were.
pub record Dropped (f g : File) : Type 0 where
  pub sized : AllSized g.block_list
  pub counted : g.blocks_count ≡ length g.block_list
  pub remaining : 0 < g.blocks_count
  pub fewer : g.blocks_count ≤ f.blocks_count
  pub same_below : SameBelow g.blocks_count f.block_list g.block_list
  pub same_file : SameFile f g

pub SameFile-refl : (f : File) → SameFile f f
SameFile-refl f = record { same_refs = refl; same_name = refl; same_is_removed = refl }

Dropped-trans : {f g h : File} → Dropped f g → Dropped g h → Dropped f h
Dropped-trans k l = record {
  sized = l.sized;
  counted = l.counted;
  remaining = l.remaining;
  fewer = omega (arith, k.fewer, l.fewer);
  same_below = λ p b lt e. l.same_below p b lt (k.same_below p b (omega (arith, l.fewer)) e);
  same_file = SameFile-trans k.same_file l.same_file;
}

-- One round of the loop, for a file with blocks.
drop_block-Dropped :
    (f : File)
    → AllSized f.block_list
    → f.blocks_count ≡ length f.block_list
    → 0 < f.blocks_count
    → (g : File) × (drop_block f ≡ some g)
      × Dropped f g
      × (g.blocks_count ≡ (if ltb 1 f.blocks_count then f.blocks_count - 1 else 1))
unfolding drop_block
drop_block-Dropped f sized counted pos = by_blocks f.block_list refl
  where
    by_blocks :
        (bs : List Block)
        → f.block_list ≡ bs
        → (g : File) × (drop_block f ≡ some g)
          × Dropped f g
          × (g.blocks_count ≡ (if ltb 1 f.blocks_count then f.blocks_count - 1 else 1))
    by_blocks [] e = absurd (omega (arith, ap length e))
    by_blocks (b ∷ []) e = (
      f,
      ground arith,
      record {
        sized = sized;
        counted = counted;
        remaining = pos;
        fewer = omega arith;
        same_below = λ p x lt h. h;
        same_file = SameFile-refl f;
      },
      ground (arith, ap length e),
    )
    by_blocks (b ∷ c ∷ bs) e = (
      record f { block_list = b ∷ drop_last (c ∷ bs); blocks_count = f.blocks_count - 1 },
      ground arith,
      record {
        sized = AllSized-drop_last (b ∷ c ∷ bs) (subst AllSized e sized);
        counted = omega (arith, ap length e, length-drop_last c bs);
        remaining = omega (arith, ap length e);
        fewer = omega arith;
        same_below = λ p x lt h.
            SameBelow-drop_last b (c ∷ bs) p x (omega (arith, ap length e))
              (ap (λ l. get_elem? l p) (sym e) ∙ h);
        same_file = record { same_refs = refl; same_name = refl; same_is_removed = refl };
      },
      ground (arith, ap length e),
    )

-- The whole loop.
drop_blocks-Dropped :
    (k : ℕ) (f : File)
    → AllSized f.block_list
    → f.blocks_count ≡ length f.block_list
    → 0 < f.blocks_count
    → (g : File) × (drop_blocks k f ≡ some g)
      × Dropped f g
      × (g.blocks_count ≡ (if ltb k f.blocks_count then f.blocks_count - k else 1))
unfolding drop_blocks
drop_blocks-Dropped zero f sized counted pos = (
  f,
  refl,
  record {
    sized = sized;
    counted = counted;
    remaining = pos;
    fewer = omega arith;
    same_below = λ p b lt e. e;
    same_file = SameFile-refl f;
  },
  ground arith,
)
drop_blocks-Dropped (suc k) f sized counted pos =
    let (g, e, one, n) = drop_block-Dropped f sized counted pos in
    let (h, e', rest, m) = drop_blocks-Dropped k g one.sized one.counted one.remaining in
    (h, rw (e, drop_blocks) e', Dropped-trans one rest, ground arith)

AllSized-set_last :
    (bs : List Block) (n : ℕ) → AllSized bs → n ≤ block_size → AllSized (set_last bs n)
AllSized-set_last [] n s h = tt
AllSized-set_last (b ∷ []) n s h = (s.0, h, tt)
AllSized-set_last (b ∷ c ∷ bs) n s h = (s.0, s.1, AllSized-set_last (c ∷ bs) n s.2 h)

length-set_last : (bs : List Block) (n : ℕ) → length (set_last bs n) ≡ length bs
length-set_last [] n = refl
length-set_last (b ∷ []) n = refl
length-set_last (b ∷ c ∷ bs) n = ap suc (length-set_last (c ∷ bs) n)

get_elem?-set_last :
    (bs : List Block) (n p : ℕ) (b : Block)
    → p + 1 < length bs
    → get_elem? bs p ≡ some b
    → get_elem? (set_last bs n) p ≡ some b
get_elem?-set_last [] n p b h e = cc
get_elem?-set_last (x ∷ []) n p b h e = absurd (omega arith)
get_elem?-set_last (x ∷ y ∷ bs) n zero b h e = e
get_elem?-set_last (x ∷ y ∷ bs) n (suc p) b h e = get_elem?-set_last (y ∷ bs) n p b (omega arith) e

-- The last block is the one at `last_block`, and holds `end_offset` bytes.
pub get_elem?-last :
    (bs : List Block) (p : ℕ)
    → length bs ≡ suc p
    → (b : Block) × (get_elem? bs p ≡ some b) × (b.occupied ≡ end_offset bs)
get_elem?-last [] p h = absurd (omega arith)
get_elem?-last (b ∷ []) zero h = (b, refl, refl)
get_elem?-last (b ∷ []) (suc p) h = absurd (omega arith)
get_elem?-last (b ∷ c ∷ bs) zero h = absurd (omega arith)
get_elem?-last (b ∷ c ∷ bs) (suc p) h = get_elem?-last (c ∷ bs) p (omega arith)

pub last_block-eq : (bs : List Block) (p : ℕ) → length bs ≡ suc p → last_block bs ≡ some p
last_block-eq [] p h = absurd (omega arith)
last_block-eq (b ∷ bs) p h = ap (λ n. some n) (omega arith)

end_offset-set_last : (bs : List Block) (n : ℕ) → 0 < length bs → end_offset (set_last bs n) ≡ n
end_offset-set_last [] n h = absurd (omega arith)
end_offset-set_last (b ∷ []) n h = refl
end_offset-set_last (b ∷ c ∷ []) n h = refl
end_offset-set_last (b ∷ c ∷ d ∷ bs) n h = end_offset-set_last (c ∷ d ∷ bs) n (omega arith)

last_occupied-le : (n : ℕ) → last_occupied n ≤ block_size
unfolding last_occupied
last_occupied-le n = ground arith

-- What a cut leaves: the blocks that `new_size` bytes take, one at least, all but the last unchanged.
pub record Cut (f : File) (new_size : ℕ) (g : File) : Type 0 where
  pub fits : FileFits g
  pub remaining : 0 < g.blocks_count
  pub blocks : g.blocks_count ≡ (if blocks_for new_size == 0 then 1 else blocks_for new_size)
  pub same_below :
      (p : ℕ) (b : Block)
      → p + 1 < g.blocks_count
      → get_elem? f.block_list p ≡ some b
      → get_elem? g.block_list p ≡ some b
  pub ends_at : end_offset g.block_list ≡ last_occupied new_size
  pub same_file : SameFile f g

pub truncate-Cut :
    (f : File) (new_size : ℕ)
    → FileFits f
    → blocks_for new_size < f.blocks_count
    → (g : File) × (truncate f new_size ≡ some g) × Cut f new_size g
unfolding truncate
truncate-Cut f new_size w h =
    let (g, e, k, n) =
      drop_blocks-Dropped (f.blocks_count - blocks_for new_size) f w.sized w.counted
        (omega arith) in
    (
      record g { block_list = set_last g.block_list (last_occupied new_size) },
      rw (e, truncate),
      record {
        fits = record {
          sized =
              AllSized-set_last g.block_list (last_occupied new_size) k.sized
                (last_occupied-le new_size);
          counted = omega (arith, k.counted, length-set_last g.block_list (last_occupied new_size));
          bounded = omega (arith, k.fewer, w.bounded);
        };
        remaining = k.remaining;
        blocks = ground arith;
        same_below = λ p b lt here.
            get_elem?-set_last g.block_list (last_occupied new_size) p b (omega (arith, k.counted))
              (k.same_below p b (omega arith) here);
        ends_at =
            end_offset-set_last g.block_list (last_occupied new_size)
              (omega (arith, k.counted, k.remaining));
        same_file = record {
          same_refs = k.same_file.same_refs;
          same_name = k.same_file.same_name;
          same_is_removed = k.same_file.same_is_removed;
        };
      },
    )
