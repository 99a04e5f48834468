-- ===== src/Tests/Store.antt =====
-- The theorems on configurations, sizes, sectors and names, each on one run.
use mathlib.Core.List.{Permᴰ}
use fileblock_csi.Base.{ℕ, ◌*◌, ◌^◌, ◌%◌, ◌≤◌, ◌↔◌, ◌⊎◌, false, ◌≡◌, refl, ok, [], ◌∷◌, arith}
use fileblock_csi.Base.Int.{pos, negsuc}
use fileblock_csi.Base.Text.{lit}
use fileblock_csi.Store.Config.{Config, option_list, mount_id, store_id}
use fileblock_csi.Store.Parse.{
  resolve_sub_dir, Params, config_from_params, config_from_volume_context, to_volume_context,
}
use fileblock_csi.Store.SubDir.{IsConfined, resolve_sub_dir-IsConfined}
use fileblock_csi.Store.RoundTrip.{config_from_volume_context-to_volume_context}
use fileblock_csi.Store.Ids.{mount_id-perm}
use fileblock_csi.Controller.Capacity.{
  range, aligned_capacity, Decides, aligned_capacity-Decides, aligned_capacity_wraps,
}
use fileblock_csi.Loop.Sector.{sector_size_for, sector_size_for_power}
use fileblock_csi.Tests.Hosts.{zero_hash}

abbrev nfs_config : Config
nfs_config = record {
  type = lit "nfs";
  nfs_server = lit "srv";
  nfs_path = lit "/export";
  nfs_mount_options = lit "hard,vers=4";
  nfs_sub_dir = lit "team/a";
  local_path = [];
  local_shared = false;
}

resolve_sub_dir-IsConfined_example : (lit "a/b" ≡ []) × (lit "a/b" ≡ []) ⊎ IsConfined (lit "a/b")
unfolding resolve_sub_dir
resolve_sub_dir-IsConfined_example = resolve_sub_dir-IsConfined (lit "a/b") [] refl

abbrev nfs_params : Params
nfs_params =
    (lit "backingStore.type", lit "nfs")
    ∷ (lit "backingStore.nfs.server", lit "srv")
    ∷ (lit "backingStore.nfs.path", lit "/export")
    ∷ (lit "backingStore.nfs.mountOptions", lit "hard,vers=4")
    ∷ (lit "backingStore.nfs.subDir", lit "team/a")
    ∷ []

config_from_volume_context-to_volume_context_example :
    config_from_volume_context (to_volume_context zero_hash nfs_config) ≡ ok nfs_config
unfolding config_from_params
config_from_volume_context-to_volume_context_example =
    config_from_volume_context-to_volume_context zero_hash nfs_params refl

mount_id-perm_example :
    (mount_id zero_hash (record nfs_config { nfs_mount_options = lit "vers=4, hard" })
      ≡ mount_id zero_hash nfs_config)
    × (store_id zero_hash (record nfs_config { nfs_mount_options = lit "vers=4, hard" })
        ≡ store_id zero_hash nfs_config)
unfolding option_list
mount_id-perm_example =
    mount_id-perm zero_hash nfs_config (lit "vers=4, hard") ∣ Permᴰ.swap refl refl ∣₁

aligned_capacity-Decides_example : Decides 5000 9000 (aligned_capacity (range 5000 9000))
aligned_capacity-Decides_example = aligned_capacity-Decides 5000 9000 (omega arith) (omega arith)

aligned_capacity_wraps_example :
    (n : ℕ) × (aligned_capacity (range 9223372036854775807 0) ≡ ok (negsuc n))
aligned_capacity_wraps_example =
    aligned_capacity_wraps 9223372036854775807 (omega arith) (omega arith)

sector_size_for_power_example :
    ((i : ℕ) × (i ≤ 3) × (sector_size_for 4096 (pos 4096) (pos 1536) ≡ 512 * 2 ^ i))
    × ((1536 % sector_size_for 4096 (pos 4096) (pos 1536) ≡ 0) ↔ (1536 % 512 ≡ 0))
sector_size_for_power_example = sector_size_for_power 4096 3 1536 (omega arith)
