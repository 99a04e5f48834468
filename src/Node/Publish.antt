-- ===== src/Node/Publish.antt =====
-- pkg/driver/node.go: NodePublishVolume, restageFailed, NodeGetVolumeStats and NodeExpandVolume.
use fileblock_csi.Base.{
  ◌+◌, ◌*◌, Bool, true, false, not, ◌||◌, Option, none, some, Result, ok, err, List, [], ◌∷◌,
  if◌then◌else◌,
}
use fileblock_csi.Base.Int.{ℤ, sub_ℕ, pos_part, neg_part, wrap64}
use fileblock_csi.Base.Text.{Text, lit, is_empty, text_eq}
use fileblock_csi.Base.Dict.{lookup, has_key}
use fileblock_csi.Base.Path.{base}
use fileblock_csi.Host.{
  Host, Error, status, internal, invalid_argument, unavailable, not_found, absent, FsStat,
}
use fileblock_csi.Machine.{
  M, Done, Mapping, Keys, pure, fail, lift, gets, attempt, wrap_err, ◌>>=◌, ◌>>◌, make_dirs, stat,
  stat_fs, send_event,
}
use fileblock_csi.Store.Parse.{Params, get}
use fileblock_csi.Mount.Commands.{is_mount_point, bind_mount}
use fileblock_csi.Mount.Info.{MountInfo, read_mount_info, last_at, publish_targets}
use fileblock_csi.Image.Fs.{resize_2fs}
use fileblock_csi.Loop.Losetup
use fileblock_csi.Loop.Entries
use fileblock_csi.Crypt.Luks
use fileblock_csi.Controller.Capacity.{CapacityRange, required_of}
use fileblock_csi.Driver.Capability.{Capability, mount, single_node_writer, validate_capability}
use fileblock_csi.Driver.Encryption.{param_encrypted, secret_key, secret_previous_key}
use fileblock_csi.Driver.Failures
use fileblock_csi.Node.Checks.{to_internal, pop_stage_mounts}
use fileblock_csi.Node.Stage.{node_stage_volume}

pub record PublishRequest : Type 0 where
  pub volume_id : Text
  pub staging_path : Text
  pub target_path : Text
  pub capability : Option Capability
  pub read_only : Bool
  pub context : Params

-- Whether something publishes the device mounted at the staging path.
unfoldable pub still_published : List MountInfo → Text → Bool
unfolding last_at publish_targets
still_published entries path = elim (last_at entries path) [
  | none ↦ false
  | some e ↦ elim (publish_targets entries e.major_minor) [ [] ↦ false | t ∷ ts ↦ true ]
]

-- The secrets of a re-stage, from the key in memory.
abbrev secrets_of : Keys → Params
secrets_of k =
    (secret_key, k.current)
    ∷ (if is_empty k.previous then [] else (secret_previous_key, k.previous) ∷ [])

-- csi.NodeGetVolumeStatsResponse: bytes, inodes and the condition.
pub record VolumeStats : Type 0 where
  pub total : ℤ
  pub available : ℤ
  pub used : ℤ
  pub inodes : ℤ
  pub inodes_free : ℤ
  pub inodes_used : ℤ
  pub abnormal : Bool

-- Products and differences of int64 values.
abbrev times64 : ℤ → ℤ → ℤ
times64 a b = wrap64 (
    sub_ℕ (pos_part a * pos_part b + neg_part a * neg_part b)
      (pos_part a * neg_part b + neg_part a * pos_part b))

abbrev minus64 : ℤ → ℤ → ℤ
minus64 a b = wrap64 (sub_ℕ (pos_part a + neg_part b) (neg_part a + pos_part b))

unfoldable pub stats_of : FsStat → Bool → VolumeStats
stats_of st failed =
    let total = times64 st.blocks st.block_size in
    let free = times64 st.available st.block_size in
    record {
      total = total;
      available = free;
      used = minus64 total free;
      inodes = st.files;
      inodes_free = st.files_free;
      inodes_used = minus64 st.files st.files_free;
      abnormal = failed;
    }

module _ (h : Host) where
  -- publishEvent: with no API client, or no pod named in the context, nothing is sent.
  unfoldable pub publish_event : PublishRequest → M h Done
  unfolding get
  publish_event req =
      let name = get req.context (lit "csi.storage.k8s.io/pod.name") in
      let namespace = get req.context (lit "csi.storage.k8s.io/pod.namespace") in
      let uid = get req.context (lit "csi.storage.k8s.io/pod.uid") in
      if not h.has_api || is_empty name || is_empty namespace || is_empty uid
      then pure tt
      else (do attempt (send_event h uid); pure tt)

  abbrev give_up : PublishRequest → M h Params
  give_up req = do publish_event req; fail (status unavailable)

  -- What the re-stage of an encrypted volume needs and only the memory of this process has.
  unfoldable pub restage_secrets : PublishRequest → Params → M h Params
  unfolding get lookup publish_event text_eq
  restage_secrets req context =
      if not (text_eq (get context param_encrypted) (lit "true")) then pure [] else (do
        k ← gets (λ s. lookup req.volume_id s.keys)
        elim k [ none ↦ give_up req | some k ↦ pure (secrets_of k) ])

  abbrev close_crypt : Mapping → M h Done
  close_crypt m =
      if is_empty m.crypt_dev
      then pure tt
      else wrap_err (Luks.close h (base m.crypt_dev)) (to_internal h)

  -- The devices of the entry, unless an earlier re-stage released them already.
  unfoldable pub tear_down : Mapping → M h Done
  unfolding Luks.close Losetup.detach Entries.put base
  tear_down m = if is_empty m.loop_dev then pure tt else (do
    close_crypt m
    wrap_err (Losetup.detach h m.loop_dev) (to_internal h)
    wrap_err (Entries.put h (record m { loop_dev = []; crypt_dev = [] })) (to_internal h))

  abbrev writer : List Text → Option Capability
  writer flags = some (record {
    access = mount (record { fs_type = []; mount_flags = flags });
    mode = single_node_writer;
  })

  unfoldable pub restage_entry : PublishRequest → Mapping → Params → M h Done
  unfolding restage_secrets pop_stage_mounts tear_down node_stage_volume
  restage_entry req m context = do
    secrets ← restage_secrets req context
    wrap_err (pop_stage_mounts h m.stage_path) (to_internal h)
    tear_down m
    wrap_err
        (node_stage_volume h (record {
          volume_id = req.volume_id;
          staging_path = m.stage_path;
          context = context;
          secrets = secrets;
          capability = writer m.mount_flags;
        }))
        (to_internal h)

  abbrev pub old_entry : PublishRequest → M h Done
  old_entry req = do publish_event req; fail (status unavailable)

  unfoldable pub restage_from : PublishRequest → Option Mapping → M h Done
  unfolding read_mount_info still_published publish_event restage_entry
  restage_from req none = fail (status unavailable)
  restage_from req (some m) = do
    entries ← wrap_err (read_mount_info h) (to_internal h)
    if still_published entries m.stage_path
        then fail (status unavailable)
        else elim m.stage_context [
          | none ↦ old_entry req
          | some context ↦ restage_entry req m context
        ]

  -- The failure is looked at again under the volume's lock.
  unfoldable pub restage_failed : PublishRequest → M h Done
  unfolding Failures.get Entries.get restage_from
  restage_failed req = do
    failed ← gets (λ s. Failures.get req.volume_id s.failures)
    elim failed [
      | none ↦ pure tt
      | some at ↦ (do m ← Entries.get h req.volume_id; restage_from req m)
    ]

  abbrev mounted_for_sure : Result Error Bool → Bool
  mounted_for_sure (ok b) = b
  mounted_for_sure (err e) = false

  unfoldable pub bind_target : PublishRequest → M h Done
  unfolding is_mount_point bind_mount
  bind_target req = do
    wrap_err (make_dirs h req.target_path) (to_internal h)
    mounted ← attempt (is_mount_point h req.target_path)
    if mounted_for_sure mounted
        then pure tt
        else wrap_err (bind_mount h req.staging_path req.target_path req.read_only) (to_internal h)

  unfoldable pub node_publish_volume : PublishRequest → M h Done
  unfolding validate_capability restage_failed bind_target
  node_publish_volume req =
      if is_empty req.volume_id || is_empty req.staging_path || is_empty req.target_path
      then fail (status invalid_argument)
      else (do lift (validate_capability req.capability); restage_failed req; bind_target req)

  abbrev is_known : Option Mapping → Result Error Mapping
  is_known none = err (status not_found)
  is_known (some m) = ok m

  abbrev stat_error : Error → Error
  stat_error absent = status not_found
  stat_error e = status internal

  unfoldable pub node_get_volume_stats : Text → Text → M h VolumeStats
  unfolding Entries.get stats_of lookup
  node_get_volume_stats id path =
      if is_empty id || is_empty path then fail (status invalid_argument) else (do
        m ← Entries.get h id
        lift (is_known m)
        wrap_err (stat h path) stat_error
        st ← wrap_err (stat_fs h path) (to_internal h)
        failed ← gets (λ s. has_key id s.failures.failed)
        pure (stats_of st failed))

  -- The device that carries the filesystem, the mapping resized first.
  unfoldable pub grown_target : Mapping → M h Text
  unfolding Luks.resize base
  grown_target m =
      if is_empty m.crypt_dev
      then pure m.loop_dev
      else (do wrap_err (Luks.resize h (base m.crypt_dev)) (to_internal h); pure m.crypt_dev)

  -- The answer is the number of bytes that was asked for.
  unfoldable pub node_expand_volume : Text → Text → Option CapacityRange → M h ℤ
  unfolding Entries.get Losetup.set_capacity grown_target resize_2fs
  node_expand_volume id path range =
      if is_empty id || is_empty path then fail (status invalid_argument) else (do
        found ← Entries.get h id
        m ← lift (is_known found)
        wrap_err (Losetup.set_capacity h m.loop_dev) (to_internal h)
        target ← grown_target m
        wrap_err (resize_2fs h target) (to_internal h)
        pure (required_of range))
