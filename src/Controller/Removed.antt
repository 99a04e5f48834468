-- ===== src/Controller/Removed.antt =====
-- pkg/driver/controller.go, DeleteVolume, with pkg/image and pkg/store: what becomes of the image of a
-- volume.
use fileblock_csi.Base.{
  ◌≡◌, ◌≢◌, refl, sym, ◌∙◌, ◌⊎◌, inl, inr, Bool-cases, none, Result, ok, err, arith,
}
use fileblock_csi.Base.Text.{Text, is_empty}
use fileblock_csi.Host.{Host, Error, internal, not_found, invalid_argument, status, other}
use fileblock_csi.Machine.{Machine, Done, fail, attempt, wrap_err, ◌>>=◌}
use fileblock_csi.Machine.Success.{wrap_err-ok}
use fileblock_csi.Image.Makes.{delete-Quiet}
use fileblock_csi.Image.Manager
use fileblock_csi.Image.Manager.{Metadata, is_valid_id}
use fileblock_csi.Image.Disk.{Disk, shown}
use fileblock_csi.Image.Calls.{goes, breaks}
use fileblock_csi.Image.Changes.{delete-Ends}
use fileblock_csi.Controller.Server.{to_status, store_for_volume_id, delete_from, delete_volume}
use fileblock_csi.Controller.Resolved.{StoreOf, Unresolved, store_for-StoreOf, store_for-Unresolved}

module _ {h : Host} (disks : (root : Text) → Disk h root) (id : Text) where
  -- What a volume is after it was deleted: the store that its ID names, by what was on record before,
  -- has no image for it.
  pub record Removed (s t : Machine h) : Type 0 where
    pub root : Text
    pub store_of : StoreOf id s root t
    pub gone : shown (disks root) t id ≡ none

  delete-gone :
      (root : Text) (s : Machine h) (u : Done)
      → (Manager.delete h root id s).0 ≡ ok u
      → shown (disks root) (Manager.delete h root id s).1 id ≡ none
  unfolding Manager.delete fail
  delete-gone root s u e = elim (Bool-cases (is_valid_id id)) [
    | inr bad ↦ absurd (failed other (sym (rw (bad, Manager.delete) refl) ∙ e))
    | inl v ↦ elim (delete-Ends (disks root) id v s) [
      | breaks y x k f own ↦ absurd (failed y (sym k ∙ e))
      | goes k f o ↦ o
    ]
  ]
    where
      failed : (y : Error) → ◌≡◌ {A = Result Error Done} (err y) (ok u) → ⊥
      failed y k = absurd (ground (arith, k))

  delete_from-Removed :
      (r : Result Error Text) (s t : Machine h) (u : Done)
      → ((root : Text) → r ≡ ok root → StoreOf id s root t)
      → (delete_from h id r t).0 ≡ ok u
      → (r ≡ err (status not_found)) ⊎ Removed s (delete_from h id r t).1
  unfolding delete_from wrap_err fail
  delete_from-Removed (ok root) s t u k e =
      let x = wrap_err-ok (Manager.delete h root id) (to_status h internal) t u e in
      let q = (delete-Quiet h root id).at t in
      let r = k root refl in
      inr (record {
        root = root;
        store_of = record {
          store = r.store;
          named = r.named;
          config = r.config;
          configured = r.configured;
          stored = rw q.registry r.stored;
        };
        gone = delete-gone root t u x;
      })
  delete_from-Removed (err (status not_found)) s t u k e = inl refl
  delete_from-Removed (err x) s t u k e = absurd (ground (arith, e))

  -- When the directories of the stores are as the system documents them, and os.Stat returns no gRPC
  -- status: after a DeleteVolume that succeeds, the store that the volume's ID names, by the
  -- configuration on record for it before the call, has no image for the ID; or the ID names no
  -- store, or one with no configuration on record.
  pub delete_volume-Removed :
      ((path : Text) (x : h.State) → (h.stat path x).0 ≢ err (status not_found))
      → (u : Done) (s : Machine h) → (delete_volume h id s).0 ≡ ok u
      → Unresolved id s ⊎ Removed s (delete_volume h id s).1
  unfolding delete_volume ◌>>=◌ attempt fail
  delete_volume-Removed stat_errors u s e = elim (Bool-cases (is_empty id)) [
    | inl a ↦ absurd (refused (sym (rw (a, delete_volume) refl) ∙ e))
    | inr a ↦
        rw (a, delete_volume)
          (either (
            delete_from-Removed (store_for_volume_id h id s).0 s (store_for_volume_id h id s).1 u
              (λ root k. store_for-StoreOf id s root k) (rw (a, delete_volume) at e)))
  ]
    where
      refused : ◌≡◌ {A = Result Error Done} (err (status invalid_argument)) (ok u) → ⊥
      refused k = absurd (ground (arith, k))

      either :
          {X : Type 0}
          → ((store_for_volume_id h id s).0 ≡ err (status not_found)) ⊎ X
          → Unresolved id s ⊎ X
      either (inl k) = inl (store_for-Unresolved stat_errors id s k)
      either (inr x) = inr x
