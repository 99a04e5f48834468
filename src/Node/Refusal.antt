-- ===== src/Node/Refusal.antt =====
-- pkg/driver/node.go, NodePublishVolume: a failed volume that is still published is not bound again.
use fileblock_csi.Base.{
  true, false, ◌||◌, ◌≡◌, refl, ◌∙◌, ◌↔◌, ◌⊎◌, sym, ap, if◌then◌else◌, arith, Bool, Bool-cases, inl,
  inr, Option, none, some, ok, err, List, ℕ,
}
use fileblock_csi.Base.Text.{is_empty}
use fileblock_csi.Host.{Host, Error, status, unavailable}
use fileblock_csi.Machine.{M, Machine, Mapping, Done, fail, ◌>>=◌, wrap_err}
use fileblock_csi.Mount.Info.{MountInfo, read_mount_info}
use fileblock_csi.Driver.Capability.{validate_capability}
use fileblock_csi.Driver.Failures
use fileblock_csi.Loop.Entries
use fileblock_csi.Base.Dict.{lookup}
use fileblock_csi.Node.Checks.{to_internal}
use fileblock_csi.Node.Published.{Published, still_published-Published}
use fileblock_csi.Store.Parse.{Params}
use fileblock_csi.Node.Publish.{
  PublishRequest, old_entry, restage_entry, bind_target, still_published, restage_from,
  restage_failed, node_publish_volume,
}

wrapped-then :
    {h : Host} {A B : Type 0} (m : M h A) (g : Error → Error) (f : A → M h B) (s : Machine h)
    (a : A)
    → (m s).0 ≡ ok a
    → (wrap_err m g >>= f) s ≡ f a (m s).1
unfolding ◌>>=◌
wrapped-then m g f s a e = rw e refl

restage_from-refuses :
    (h : Host) (req : PublishRequest) (s : Machine h) (m : Mapping) (rows : List MountInfo)
    → (read_mount_info h s).0 ≡ ok rows
    → still_published rows m.stage_path ≡ true
    → restage_from h req (some m) s ≡ (err (status unavailable), (read_mount_info h s).1)
unfolding restage_from ◌>>=◌
restage_from-refuses h req s m rows r p =
    wrapped-then (read_mount_info h) (to_internal h) _ s rows r ∙ rw p refl

restage_failed-refuses :
    (h : Host) (req : PublishRequest) (s : Machine h) (at : ℕ) (m : Mapping) (rows : List MountInfo)
    → Failures.get req.volume_id s.failures ≡ some at
    → lookup req.volume_id s.entries ≡ some m
    → (read_mount_info h s).0 ≡ ok rows
    → still_published rows m.stage_path ≡ true
    → restage_failed h req s ≡ (err (status unavailable), (read_mount_info h s).1)
unfolding restage_failed Entries.get ◌>>=◌
restage_failed-refuses h req s at m rows f l r p =
    rw (f, l, restage_from-refuses h req s m rows r p) refl

-- What a re-stage does when nothing publishes the volume any more, by the context of its entry.
abbrev pub restaged : (h : Host) → PublishRequest → Mapping → Option Params → M h Done
restaged h req m none = old_entry h req
restaged h req m (some context) = restage_entry h req m context

restaged-branch :
    (h : Host) (req : PublishRequest) (m : Mapping) (b : Bool) (o : Option Params)
    → b ≡ false
    → (if b
        then fail (status unavailable)
        else elim o [ none ↦ old_entry h req | some context ↦ restage_entry h req m context ])
      ≡ restaged h req m o
restaged-branch h req m true o e = absurd (ground (arith, e))
restaged-branch h req m false none e = refl
restaged-branch h req m false (some context) e = refl

restage_from-goes :
    (h : Host) (req : PublishRequest) (s : Machine h) (m : Mapping) (rows : List MountInfo)
    → (read_mount_info h s).0 ≡ ok rows
    → still_published rows m.stage_path ≡ false
    → restage_from h req (some m) s ≡ restaged h req m m.stage_context (read_mount_info h s).1
unfolding restage_from
restage_from-goes h req s m rows r p =
    wrapped-then (read_mount_info h) (to_internal h) _ s rows r
    ∙ ap (λ (f : M h Done). f (read_mount_info h s).1)
        (restaged-branch h req m (still_published rows m.stage_path) m.stage_context p)

restage_failed-goes :
    (h : Host) (req : PublishRequest) (s : Machine h) (at : ℕ) (m : Mapping) (rows : List MountInfo)
    → Failures.get req.volume_id s.failures ≡ some at
    → lookup req.volume_id s.entries ≡ some m
    → (read_mount_info h s).0 ≡ ok rows
    → still_published rows m.stage_path ≡ false
    → restage_failed h req s ≡ restaged h req m m.stage_context (read_mount_info h s).1
unfolding restage_failed Entries.get ◌>>=◌
restage_failed-goes h req s at m rows f l r p = rw (f, l) (restage_from-goes h req s m rows r p)

-- A valid publish of a volume that is marked failed and has a state entry reads the mount table. Then
-- the device on top at the staging path is also mounted at the volume directory of a pod, and the
-- publish returns Unavailable and does nothing else; or it is not, and the publish goes on, from the
-- state after the read, to stage the volume again with the context of its entry and to bind the
-- target, or to refuse an entry that has no context.
pub publish-refuses :
    (h : Host) (req : PublishRequest) (s : Machine h) (at : ℕ) (m : Mapping) (rows : List MountInfo)
    → (is_empty req.volume_id || is_empty req.staging_path || is_empty req.target_path) ≡ false
    → validate_capability req.capability ≡ ok tt
    → Failures.get req.volume_id s.failures ≡ some at
    → lookup req.volume_id s.entries ≡ some m
    → (read_mount_info h s).0 ≡ ok rows
    → (Published rows m.stage_path
        × (node_publish_volume h req s ≡ (err (status unavailable), (read_mount_info h s).1)))
      ⊎ ((¬ Published rows m.stage_path)
          × (node_publish_volume h req s
              ≡ (restaged h req m m.stage_context >>= λ _. bind_target h req)
                  (read_mount_info h s).1))
unfolding node_publish_volume ◌>>=◌
publish-refuses h req s at m rows c v f l r =
    elim (Bool-cases (still_published rows m.stage_path)) [
      | inl y ↦
          inl (published.0 y, rw (c, v, restage_failed-refuses h req s at m rows f l r y) refl)
      | inr n ↦ inr (
        λ p. differ (sym (published.1 p) ∙ n),
        rw (c, v, restage_failed-goes h req s at m rows f l r n) refl,
      )
    ]
  where
    published : (still_published rows m.stage_path ≡ true) ↔ Published rows m.stage_path
    published = still_published-Published rows m.stage_path

    differ : ◌≡◌ {A = Bool} true false → ⊥
    differ e = cc
