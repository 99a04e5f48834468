-- ===== src/Loop/Entries.antt =====
-- pkg/loop/state.go: the state file, as the process sees it. The map changes before the file is
-- written, so a failed write leaves the new map in memory.
use fileblock_csi.Base.{Option, List}
use fileblock_csi.Base.Text.{Text, lit}
use fileblock_csi.Base.Dict.{lookup, insert, erase, values}
use fileblock_csi.Host.{Host}
use fileblock_csi.Machine.{M, Done, Mapping, gets, ◌>>◌, modify, write_file}

module _ (h : Host) where
  unfoldable pub all : M h (List Mapping)
  all = gets (λ s. values s.entries)

  unfoldable pub get : Text → M h (Option Mapping)
  get id = gets (λ s. lookup id s.entries)

  -- flushLocked: the temporary file, its lock, write and sync, and the rename over the state file.
  unfoldable pub flush : M h Done
  flush = write_file h (lit "loop-mappings.json")

  unfoldable pub put : Mapping → M h Done
  unfolding flush
  put m = do modify h (λ s. record s { entries = insert m.volume_id m s.entries }); flush

  unfoldable pub delete : Text → M h Done
  unfolding flush
  delete id = do modify h (λ s. record s { entries = erase id s.entries }); flush
