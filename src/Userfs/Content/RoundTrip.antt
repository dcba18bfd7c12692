-- ===== src/Userfs/Content/RoundTrip.antt =====
-- A write through one descriptor of 3/userfs.c and a read through another.
use sysprog_exercises.Prelude.{
  ℕ, ◌+◌, ◌≤◌, ◌≡◌, ◌≢◌, ap, ◌∙◌, sym, true, some, List, arith, length, get_elem?, take, drop,
  overwrite, drop-overwrite, get_elem?-lt,
}
use sysprog_exercises.Prelude.Int.{pos}
use sysprog_exercises.Userfs.Types.{
  max_file_size, File, Filedesc, Ufs, file_at, ufs_read_write, ufs_read_only, ufs_write_only,
}
use sysprog_exercises.Userfs.Chain.{content}
use sysprog_exercises.Userfs.Position.{IsDenseFile, StandsAt-le}
use sysprog_exercises.Userfs.Table.{returns, permits}
use sysprog_exercises.Userfs.Api.{ufs_write, ufs_read}
use sysprog_exercises.Userfs.Valid.{IsValid}
use sysprog_exercises.Userfs.Safety.Slots.{Ends-returns, cursor_of}
use sysprog_exercises.Userfs.Safety.Transfer.{WriteReply, ufs_write-IsValid}
use sysprog_exercises.Userfs.Content.Write.{position, StandsAt-init, ufs_write-overwrite}
use sysprog_exercises.Userfs.Content.Read.{ufs_read-drop}

pub pos-injective : {m n : ℕ} → pos m ≡ pos n → m ≡ n
pos-injective e = cc

-- In a state that is in order, two descriptors of one dense file stand at the same position, the one with
-- the right to write and the other with the right to read. What is written through the one, within the
-- largest file size, is then read through the other, byte for byte.
pub ufs_read-ufs_write :
    (s : Ufs) (i j : ℕ) (d e : Filedesc) (f : File) (buf : List ℕ)
    → IsValid s
    → get_elem? s.file_descriptors i ≡ some (some d)
    → get_elem? s.file_descriptors j ≡ some (some e)
    → i ≢ j
    → file_at s d.file ≡ some f
    → e.file ≡ d.file
    → IsDenseFile f
    → permits d ufs_read_write ufs_write_only ≡ true
    → permits e ufs_read_write ufs_read_only ≡ true
    → position e ≡ position d
    → position d + length buf ≤ max_file_size
    → (t : Ufs) × (u : Ufs) × (ufs_write s (pos i) buf ≡ returns (pos (length buf)) t)
      × (ufs_read t (pos j) (length buf) ≡ returns (pos (length buf), buf) u)
ufs_read-ufs_write s i j d e f buf v at_i at_j ne live same w may_write may_read eq room =
    let (t, wrote, clean, r) = ufs_write-overwrite s i d f v at_i live w may_write buf room in
    let lt = get_elem?-lt s.file_descriptors i at_i in
    let valid =
      (Ends-returns {P = WriteReply buf}
        (ufs_write-IsValid s (pos i) v (λ q. absurd (omega (arith, v.table, pos-injective q))) buf)
        wrote).0 in
    let le : position e ≤ length (content f.block_list) =
      omega (arith, StandsAt-le w (StandsAt-init f d (cursor_of s i d f v at_i live))) in
    let bytes : take (length buf) (drop (position e) (content r.file.block_list)) ≡ buf =
      ap (λ c. take (length buf) (drop (position e) c))
        (r.image ∙ ap (λ a. overwrite (content f.block_list) a buf) (sym eq))
      ∙ drop-overwrite (content f.block_list) (position e) buf le in
    let (u, read, clean_too, heap, files) =
      ufs_read-drop t j e r.file valid (r.slots j ne ∙ at_j) (ap (file_at t) same ∙ r.live) may_read
        (length buf) r.dense.dense in
    (t, u, wrote, read ∙ ap (λ b. returns (pos (length b), b) u) bytes)
