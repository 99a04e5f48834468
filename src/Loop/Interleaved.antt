-- ===== src/Loop/Interleaved.antt =====
-- pkg/loop/state.go: two processes that write one state file. The lock of the temporary file is taken
-- behind the O_TRUNC of its open, so it does not keep a second process from emptying the file.
use fileblock_csi.Base.{◌≡◌, refl, Option, none, ok, List, [], ◌∷◌, ◌++◌, take, drop}
use fileblock_csi.Base.Text.{Text}
use fileblock_csi.Base.Dict.{Dict}
use fileblock_csi.Machine.{Mapping}
use fileblock_csi.Loop.StateFile.{
  FileOp, emptied, written, effect, after, no_fault, flush_ops, tmp_of, load_state, loaded,
}
use fileblock_csi.Loop.Durable.{renamed-replaces, read_file-some}

-- A first process has written its temporary file, a second one opens it, and the first goes on.
abbrev pub interleaved : Text → Text → Text → List FileOp
interleaved path b c =
    let first = (flush_ops path b no_fault).0 in
    take 2 first ++ (take 1 (flush_ops path c no_fault).0 ++ drop 2 first)

-- When a second process opens the temporary file after the first has written it and before the
-- first renames it, the state file is empty when the first is done, and it loads without an error,
-- as a state with no entry.
pub flush_interleaved :
    (decode : Text → Option (Dict Mapping)) (path b c : Text) (fs : Dict Text)
    → load_state decode none path (after (interleaved path b c) fs) ≡ ok []
unfolding flush_ops after loaded effect
flush_interleaved decode path b c fs =
    rw
      (read_file-some path [] (after (interleaved path b c) fs) (
        renamed-replaces path [] (after (emptied (tmp_of path) ∷ written (tmp_of path) b ∷ []) fs)))
      refl
