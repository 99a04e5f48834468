-- ===== src/Loop/Reconcile.antt =====
-- pkg/loop/reconcile.go: the pass at plugin start. Devices are visited in the order losetup lists
-- them; the code ranges over a map, in no order.
use fileblock_csi.Base.{
  Bool, true, false, not, ◌&&◌, ◌||◌, Option, none, some, List, [], ◌∷◌, ◌++◌, any, map, keep,
  if◌then◌else◌,
}
use fileblock_csi.Base.Text.{Text, is_empty, text_eq, has_prefix}
use fileblock_csi.Base.Path.{slash, base, clean}
use fileblock_csi.Host.{Host}
use fileblock_csi.Machine.{M, Done, Mapping, pure, attempt, ◌>>=◌, ◌>>◌}
use fileblock_csi.Crypt.Luks
use fileblock_csi.Crypt.Sysfs
use fileblock_csi.Crypt.Sysfs.{CryptMapping}
use fileblock_csi.Loop.Backing.{backs, disconnected_image}
use fileblock_csi.Loop.Losetup
use fileblock_csi.Loop.Losetup.{Attachment}
use fileblock_csi.Loop.Entries

-- The back-file of a device, and the backing of a mapping: the last row wins, as in the Go maps.
unfoldable pub back_file_of : List Attachment → Text → Option Text
unfolding text_eq
back_file_of [] dev = none
back_file_of (a ∷ live) dev = elim (back_file_of live dev) [
  | some b ↦ some b
  | none ↦ if text_eq a.device dev then some a.back_file else none
]

unfoldable pub backing_of : List CryptMapping → Text → Option Text
unfolding text_eq
backing_of [] name = none
backing_of (m ∷ ms) name = elim (backing_of ms name) [
  | some b ↦ some b
  | none ↦ if text_eq m.name name then some m.backing else none
]

abbrev loop_gone : Option Text → Text → Bool
loop_gone none image = true
loop_gone (some back) image = not (backs back image)

abbrev mapping_gone : Option Text → Text → Bool
mapping_gone none dev = true
mapping_gone (some b) dev = not (text_eq b dev)

unfoldable pub is_stale : List Attachment → List CryptMapping → Mapping → Bool
unfolding back_file_of backing_of base backs text_eq
is_stale live ms m =
    loop_gone (back_file_of live m.loop_dev) m.image_path
    || (not (is_empty m.crypt_dev) && mapping_gone (backing_of ms (base m.crypt_dev)) m.loop_dev)

unfoldable pub tracks_loop : List Mapping → Text → Bool
unfolding text_eq
tracks_loop entries dev = any (λ m. text_eq m.loop_dev dev) entries

unfoldable pub tracks_crypt : List Mapping → Text → Bool
unfolding text_eq base
tracks_crypt entries name =
    any (λ m. not (is_empty m.crypt_dev) && text_eq (base m.crypt_dev) name) entries

abbrev ours_back : Text → Option Text → Bool
ours_back root none = false
ours_back root (some back) =
    has_prefix (clean back) (clean root ++ (slash ∷ [])) || disconnected_image back

-- A loop over one of our images.
unfoldable pub is_ours : Text → List Attachment → Text → Bool
unfolding back_file_of clean has_prefix disconnected_image
is_ours root live dev = ours_back root (back_file_of live dev)

unfoldable pub orphan_mappings :
    Text → List Attachment → List CryptMapping → List Mapping → List Text
unfolding tracks_crypt is_ours
orphan_mappings root live ms entries =
    map (λ m. m.name)
      (keep (λ m. not (tracks_crypt entries m.name) && is_ours root live m.backing) ms)

unfoldable pub orphan_loops : Text → List Attachment → List Mapping → List Text
unfolding tracks_loop is_ours
orphan_loops root live entries =
    map (λ a. a.device)
      (keep (λ a. not (tracks_loop entries a.device) && is_ours root live a.device) live)

module _ (h : Host) where
  unfoldable pub drop_stale : List Attachment → List CryptMapping → List Mapping → M h Done
  unfolding is_stale Entries.delete
  drop_stale live ms [] = pure tt
  drop_stale live ms (m ∷ entries) = do
    attempt (if is_stale live ms m then Entries.delete h m.volume_id else pure tt)
    drop_stale live ms entries

  unfoldable pub close_all : List Text → M h Done
  unfolding Luks.close
  close_all [] = pure tt
  close_all (name ∷ names) = do attempt (Luks.close h name); close_all names

  unfoldable pub detach_each : List Text → M h Done
  unfolding Losetup.detach
  detach_each [] = pure tt
  detach_each (dev ∷ devs) = do attempt (Losetup.detach h dev); detach_each devs

  -- What the pass does once it has read the kernel's tables.
  unfoldable pub reconcile_tables : Text → List Attachment → List CryptMapping → M h Done
  unfolding Entries.all drop_stale close_all detach_each orphan_mappings orphan_loops
  reconcile_tables root live ms = do
    before ← Entries.all h
    drop_stale live ms before
    after ← Entries.all h
    close_all (orphan_mappings root live ms after)
    detach_each (orphan_loops root live after)

  unfoldable pub reconcile : Text → M h Done
  unfolding Losetup.list Sysfs.list reconcile_tables
  reconcile root = do live ← Losetup.list h; ms ← Sysfs.list h; reconcile_tables root live ms
