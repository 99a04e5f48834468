-- ===== src/Controller/Lands.antt =====
-- pkg/driver/controller.go, CreateVolume, with pkg/image and pkg/store: the image of a created volume.
use fileblock_csi.Base.{ℕ, ◌+◌, ◌≤◌, Bool, ◌≡◌, some, ok}
use fileblock_csi.Base.Int.{pos, max_int64}
use fileblock_csi.Base.Dict.{lookup}
use fileblock_csi.Base.Text.{Text, is_empty}
use fileblock_csi.Host.{Host, internal}
use fileblock_csi.Machine.{Machine, wrap_err}
use fileblock_csi.Machine.Success.{
  bind-Both, wrap_err-ok, Ensures, Ensures-bind, Ensures-fail, Ensures-if, Ensures-lift,
  Ensures-wrap_err, Ensures-map,
}
use fileblock_csi.Machine.Yields.{Yields-wrap_err, Ensures-Yields}
use fileblock_csi.Image.Makes.{open_store-Yields}
use fileblock_csi.Image.Disk.{Disk, shown}
use fileblock_csi.Store.Config.{Config, store_id}
use fileblock_csi.Store.Parse.{config_from_params}
use fileblock_csi.Store.Registry
use fileblock_csi.Store.Registry.Records.{get-Knows}
use fileblock_csi.Controller.Capacity.{Fits, range}
use fileblock_csi.Controller.Server.{
  CreateRequest, Volume, checked_params, checked_capacity, to_status, provision, create_volume,
}
use fileblock_csi.Controller.Created.{tail, tail-Quiet, checked_params-config}
use fileblock_csi.Controller.Adopts.{Made, create-Made}
use fileblock_csi.Controller.Sized.{checked_capacity-Sized}

-- Where the image of a volume is: in the store of the request's parameters, whose root the registry
-- has on record. Its size is the capacity of the volume, and it fits the range.
pub record Lands {h : Host} (disks : (root : Text) → Disk h root) (req : CreateRequest)
    (required limit : ℕ) (v : Volume) (s : Machine h) : Type 0 where
  pub config : Config
  pub parsed : config_from_params req.parameters ≡ ok config
  pub root : Text
  pub on_record : lookup (store_id h.sha256 config) s.registry.stores ≡ some root
  pub size : ℕ
  pub capacity : v.capacity_bytes ≡ pos size
  pub image : shown (disks root) s v.volume_id ≡ some (pos size)
  pub fits : Fits required limit size

module _ {h : Host} (disks : (root : Text) → Disk h root) (req : CreateRequest) (required limit : ℕ)
    (room : required + 4095 ≤ max_int64) (low : limit + 4095 ≤ max_int64)
    (asked : req.capacity_range ≡ range required limit) where
  -- The image that stands behind a volume in the store at a path.
  record Placed (path : Text) (v : Volume) (s : Machine h) : Type 0 where
    pub size : ℕ
    pub capacity : v.capacity_bytes ≡ pos size
    pub image : shown (disks path) s v.volume_id ≡ some (pos size)
    pub fits : Fits required limit size

  tail-Placed :
      (c : Config) (encrypted : Bool) (path : Text)
      → Ensures (Placed path) (tail h req c encrypted path)
  unfolding tail
  tail-Placed c encrypted path =
      Ensures-Yields (λ r. r ≡ path) _ _ _ (Yields-wrap_err _ _ _ (open_store-Yields h path))
        (λ root same. Ensures-lift _ (checked_capacity req.capacity_range encrypted) _ (λ n e.
          let sized = checked_capacity-Sized required limit encrypted n room low (rw asked at e) in
          Ensures-bind _ _ (λ id.
            Ensures-map (Made (disks path) id sized.size) _ _ _
              (Ensures-wrap_err _ _ _ (
                rw (same, sized.is_size)
                  (create-Made (disks path) id sized.size encrypted sized.fits.aligned
                    sized.fits.positive sized.small)))
              (λ m s made. record {
                size = sized.size;
                capacity = made.size;
                image = rw made.named made.there;
                fits = sized.fits;
              }))))

  provision-Lands :
      (c : Config) (b : Bool)
      → config_from_params req.parameters ≡ ok c
      → Ensures (Lands disks req required limit) (provision h req c b)
  unfolding provision tail wrap_err
  provision-Lands c b p = record {
    at = λ s v e.
        let get = wrap_err (Registry.get h c) (to_status h internal) in
        let d = bind-Both get (tail h req c b) s v e in
        let known =
          get-Knows h c s d.value
            (wrap_err-ok (Registry.get h c) (to_status h internal) s d.value d.first) in
        let placed = (tail-Placed c b d.value).at (Registry.get h c s).1 v d.rest in
        let same = (tail-Quiet h req c b d.value).at (Registry.get h c s).1 in
        rw (d.ends) (record {
          config = c;
          parsed = p;
          root = d.value;
          on_record = rw (same.registry) known.path_of;
          size = placed.size;
          capacity = placed.capacity;
          image = placed.image;
          fits = placed.fits;
        });
  }

  create_volume-Ensures : Ensures (Lands disks req required limit) (create_volume h req)
  unfolding create_volume
  create_volume-Ensures = Ensures-if _ (is_empty req.name) _ _ (Ensures-fail _ _) (
      Ensures-bind _ _ (λ d. Ensures-lift _ (checked_params req.parameters) _ (λ checked q.
        provision-Lands checked.0 checked.1
          (checked_params-config req.parameters checked.0 checked.1 q))))

  -- When the directories of the stores are as the system documents them, and the capacity range
  -- leaves room to round up in an int64: after a CreateVolume that succeeds, the store at the path
  -- that the registry has on record for the request's parameters has an image for the volume's ID,
  -- whose size is the capacity in the answer: a positive multiple of 4096 between the required bytes
  -- and the limit.
  pub create_volume-Lands :
      (v : Volume) (s : Machine h)
      → (create_volume h req s).0 ≡ ok v
      → Lands disks req required limit v (create_volume h req s).1
  create_volume-Lands v s e = create_volume-Ensures.at s v e
