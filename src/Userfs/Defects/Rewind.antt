-- ===== src/Userfs/Defects/Rewind.antt =====
-- A reader of 3/userfs.c at the end of a file that ends with a full block.
use sysprog_exercises.Prelude.{
  ℕ, zero, suc, ◌+◌, ◌*◌, drop, ◌≤◌, ◌<◌, ◌≡◌, refl, ap, ◌∙◌, true, none, some, List, [], arith,
  length, get_elem?, take, get_elem?-set_self, get_elem?-lt,
}
use sysprog_exercises.Prelude.Int.{pos}
use sysprog_exercises.Userfs.Types.{
  block_size, Block, File, Filedesc, Ufs, file_at, no_err, ufs_read_write, ufs_read_only,
}
use sysprog_exercises.Userfs.Chain.{content, IsDense}
use sysprog_exercises.Userfs.Transfer.{
  init_current_block, advance, more, done, read_round, read_loop,
}
use sysprog_exercises.Userfs.Table.{returns, permits, set_error, put_desc}
use sysprog_exercises.Userfs.Api.{ufs_read, read_file}
use sysprog_exercises.Userfs.Valid.{IsValid}
use sysprog_exercises.Userfs.Safety.Slots.{find_slot-found, Ends-returns}
use sysprog_exercises.Userfs.Safety.Transfer.{ReadReply, ufs_read-IsValid, permits-init}
use sysprog_exercises.Userfs.Content.Read.{ufs_read-drop}
use sysprog_exercises.Userfs.Content.Write.{position}
use sysprog_exercises.Userfs.Content.RoundTrip.{pos-injective}

module _ (f : File) (d : Filedesc) (p : ℕ) (b : Block) (cur : d.current_block ≡ some p)
    (here : get_elem? f.block_list p ≡ some b) (off : d.offset ≡ block_size)
    (last : length f.block_list ≡ p + 1) where
  round_over : (n : ℕ) (out : List ℕ) → read_round f d n out ≡ more (advance f p d) n out
  unfolding read_round
  round_over n out = ground arith

  round_at_end :
      (n : ℕ) (out : List ℕ) → read_round f (advance f p d) n out ≡ done (advance f p d) out
  unfolding read_round
  round_at_end n out = ground arith

  loop_at_end : (k n : ℕ) → 2 ≤ k → 0 < n → read_loop k f d n [] ≡ some (done (advance f p d) [])
  unfolding read_loop
  loop_at_end zero n h pos_n = absurd (omega arith)
  loop_at_end (suc zero) n h pos_n = absurd (omega arith)
  loop_at_end (suc (suc k)) zero h pos_n = absurd (omega arith)
  loop_at_end (suc (suc k)) (suc n) h pos_n = rw (round_over (suc n) [], round_at_end (suc n) [])

  init-here : init_current_block f d ≡ d
  unfolding init_current_block
  init-here = ground arith

  unset_there : (advance f p d).current_block ≡ none
  unfolding advance
  unset_there = ground arith

  start_over : position (advance f p d) ≡ 0
  start_over =
      ap (λ c. elim c [ none ↦ 0 | some q ↦ q * block_size + (advance f p d).offset ]) unset_there

file-advance : (f : File) (p : ℕ) (d : Filedesc) → (advance f p d).file ≡ d.file
unfolding advance
file-advance f p d = refl

permits-advance :
    (f : File) (p : ℕ) (d : Filedesc) (x y : ℕ) → permits (advance f p d) x y ≡ permits d x y
unfolding advance permits
permits-advance f p d x y = refl

-- In a state that is in order, a descriptor with the right to read stands at the end of a dense file whose
-- last block is full. A read of some bytes hands over none, as at the end of a file; the next read hands over
-- the first bytes of the file again.
pub ufs_read-rewinds :
    (s : Ufs) (i n p : ℕ) (d : Filedesc) (f : File) (b : Block)
    → IsValid s
    → get_elem? s.file_descriptors i ≡ some (some d)
    → file_at s d.file ≡ some f
    → permits d ufs_read_write ufs_read_only ≡ true
    → IsDense f.block_list
    → d.current_block ≡ some p
    → get_elem? f.block_list p ≡ some b
    → d.offset ≡ block_size
    → length f.block_list ≡ p + 1
    → 0 < n
    → (t : Ufs) × (u : Ufs) × (ufs_read s (pos i) n ≡ returns (pos 0, []) t)
      × (let bytes = take n (content f.block_list) in
          ufs_read t (pos i) n ≡ returns (pos (length bytes), bytes) u)
unfolding ufs_read read_file
ufs_read-rewinds s i n p d f b v slot live may w cur here off last pos_n =
    let t = set_error (put_desc s i (some (advance f p d))) no_err in
    let first : ufs_read s (pos i) n ≡ returns (pos 0, []) t =
      rw
        (
          find_slot-found s i d v slot,
          live,
          permits-init f d ufs_read_write ufs_read_only,
          may,
          ufs_read,
        )
        (rw (
          init-here f d p b cur here off last,
          loop_at_end f d p b cur here off last (n + n + 2) n (omega arith) pos_n,
          read_file,
        )) in
    let valid =
      (Ends-returns {P = ReadReply n}
        (ufs_read-IsValid s (pos i) v
          (λ q.
            absurd
              (omega (arith, v.table, pos-injective q, get_elem?-lt s.file_descriptors i slot)))
          n)
        first).0 in
    let slot_there : get_elem? t.file_descriptors i ≡ some (some (advance f p d)) =
      get_elem?-set_self s.file_descriptors i (some (advance f p d))
        (get_elem?-lt s.file_descriptors i slot) in
    let (u, second, clean, heap, files) =
      ufs_read-drop t i (advance f p d) f valid slot_there
        (ap (file_at s) (file-advance f p d) ∙ live)
        (permits-advance f p d ufs_read_write ufs_read_only ∙ may) n w in
    (
      t,
      u,
      first,
      second
          ∙ ap
              (λ a.
                let bytes = take n (drop a (content f.block_list)) in
                returns (pos (length bytes), bytes) u)
              (start_over f d p b cur here off last),
    )
