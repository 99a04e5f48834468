-- ===== src/Image/Fs.antt =====
-- pkg/image/resize.go: the ext4 commands, and the block size that a superblock records.
use fileblock_csi.Base.{
  ℕ, ◌+◌, ◌*◌, ◌^◌, ◌==◌, ltb, if◌then◌else◌, none, some, get_elem?, Result, ok, err, List, [], ◌∷◌,
  length,
}
use fileblock_csi.Base.Int.{pos, eqb_ℤ}
use fileblock_csi.Base.Text.{Text, lit}
use fileblock_csi.Host.{Host, Error, exec}
use fileblock_csi.Machine.{M, Done, pure, lift, attempt, ◌>>=◌, ◌>>◌, run, read_at}

-- The 16-bit and 32-bit little-endian numbers at the head of a byte list.
abbrev pub byte_at : List ℕ → ℕ → ℕ
byte_at bs i = elim (get_elem? bs i) [ none ↦ 0 | some b ↦ b ]

abbrev pub le_16 : List ℕ → ℕ → ℕ
le_16 bs i = byte_at bs i + 256 * byte_at bs (i + 1)

abbrev pub le_32 : List ℕ → ℕ → ℕ
le_32 bs i = le_16 bs i + 65536 * le_16 bs (i + 2)

abbrev pub ext4_superblock_offset : ℕ
ext4_superblock_offset = 1024

abbrev pub ext4_magic : ℕ
ext4_magic = 0xEF53

-- The block size in 64 bytes of a superblock, 0 when it is none. ReadAt answers a short read with
-- io.EOF, here a list of fewer bytes.
unfoldable pub block_size_of : List ℕ → ℕ
block_size_of sb =
    if ltb (length sb) 64
    then 0
    else if le_16 sb 56 == ext4_magic
    then (if ltb 6 (le_32 sb 24) then 0 else 1024 * 2 ^ le_32 sb 24)
    else 0

module _ (h : Host) where
  unfoldable pub fs_block_size : Text → M h ℕ
  unfolding block_size_of
  fs_block_size path = do sb ← read_at h path ext4_superblock_offset 64; pure (block_size_of sb)

  unfoldable pub mkfs : Text → M h Done
  mkfs target = do
    run h (lit "mkfs.ext4") (
        lit "-q"
        ∷ lit "-F"
        ∷ lit "-b"
        ∷ lit "4096"
        ∷ lit "-m"
        ∷ lit "0"
        ∷ lit "-E"
        ∷ lit "lazy_itable_init=1,lazy_journal_init=1"
        ∷ target
        ∷ [])
    pure tt

  -- e2fsck's exit code 1 says that it corrected errors.
  abbrev pub fsck_verdict : Result Error Text → Result Error Done
  fsck_verdict (ok out) = ok tt
  fsck_verdict (err (exec e)) = if eqb_ℤ e.exit_code (pos 1) then ok tt else err (exec e)
  fsck_verdict (err e) = err e

  abbrev pub fsck_command : Text → List Text
  fsck_command dev = lit "-p" ∷ lit "-f" ∷ dev ∷ []

  unfoldable pub fsck : Text → M h Done
  fsck dev = do out ← attempt (run h (lit "e2fsck") (fsck_command dev)); lift (fsck_verdict out)

  unfoldable pub resize_2fs : Text → M h Done
  resize_2fs dev = do run h (lit "resize2fs") (dev ∷ []); pure tt
