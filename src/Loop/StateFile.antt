-- ===== src/Loop/StateFile.antt =====
-- pkg/loop/state.go: LoadState, and flushLocked with its temporary file. A file is its bytes; a crash
-- may come between any two calls.
use fileblock_csi.Base.{
  ℕ, Option, none, some, Result, ok, err, List, [], ◌∷◌, ◌++◌, if◌then◌else◌, take,
}
use fileblock_csi.Base.Text.{Text, lit, is_empty}
use fileblock_csi.Base.Dict.{Dict, lookup, insert, erase}
use fileblock_csi.Host.{Error, absent, io, other}
use fileblock_csi.Machine.{Mapping, Done}

-- The calls of a flush that change files: O_TRUNC of the temporary file, a write of some of the
-- bytes, and the rename.
pub data FileOp : Type 0 where
  emptied : Text → FileOp
  written : Text → Text → FileOp
  renamed : Text → Text → FileOp

abbrev Files : Type 0
Files = Dict Text

abbrev pub moved : Option Text → Text → Files → Files
moved none to fs = fs
moved (some bytes) to fs = insert to bytes fs

unfoldable pub effect : FileOp → Dict Text → Dict Text
unfolding insert erase lookup
effect (emptied path) fs = insert path [] fs
effect (written path bytes) fs = insert path bytes fs
effect (renamed from to) fs = moved (lookup from fs) to (erase from fs)

unfoldable pub after : List FileOp → Dict Text → Dict Text
unfolding effect
after [] fs = fs
after (op ∷ ops) fs = after ops (effect op fs)

-- The first step of a flush that fails; a write that fails has written so many bytes.
pub data Fault : Type 0 where
  no_fault at_encode at_open at_lock at_sync at_close at_rename : Fault
  at_write : ℕ → Fault

abbrev pub tmp_of : Text → Text
tmp_of path = path ++ lit ".tmp"

-- flushLocked: what it did to files, in order, and its result. The bytes are those of json.Marshal.
unfoldable pub flush_ops : Text → Text → Fault → List FileOp × Result Error Done
flush_ops path b at_encode = ([], err other)
flush_ops path b at_open = ([], err io)
flush_ops path b at_lock = (emptied (tmp_of path) ∷ [], err io)
flush_ops path b (at_write n) =
    (emptied (tmp_of path) ∷ written (tmp_of path) (take n b) ∷ [], err io)
flush_ops path b at_sync = (emptied (tmp_of path) ∷ written (tmp_of path) b ∷ [], err io)
flush_ops path b at_close = (emptied (tmp_of path) ∷ written (tmp_of path) b ∷ [], err io)
flush_ops path b at_rename = (emptied (tmp_of path) ∷ written (tmp_of path) b ∷ [], err io)
flush_ops path b no_fault =
    (emptied (tmp_of path) ∷ written (tmp_of path) b ∷ renamed (tmp_of path) path ∷ [], ok tt)

abbrev decode_or : Option (Dict Mapping) → Result Error (Dict Mapping)
decode_or none = err other
decode_or (some m) = ok m

-- An absent or empty file is an empty state.
unfoldable pub loaded :
    (Text → Option (Dict Mapping)) → Result Error Text → Result Error (Dict Mapping)
loaded decode (err absent) = ok []
loaded decode (err e) = err e
loaded decode (ok b) = if is_empty b then ok [] else decode_or (decode b)

abbrev or_absent : Option Text → Result Error Text
or_absent none = err absent
or_absent (some b) = ok b

-- os.ReadFile
abbrev pub read_file : Text → Dict Text → Result Error Text
read_file path fs = or_absent (lookup path fs)

-- LoadState: the directory is made first.
abbrev pub load_state :
    (Text → Option (Dict Mapping)) → Option Error → Text → Dict Text → Result Error (Dict Mapping)
load_state decode (some e) path fs = err e
load_state decode none path fs = loaded decode (read_file path fs)
