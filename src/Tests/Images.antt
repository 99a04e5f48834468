-- ===== src/Tests/Images.antt =====
-- pkg/image, and pkg/driver/controller.go on it: runs on a directory of files.
use fileblock_csi.Base.{
  ◌↔◌, ℕ, true, false, ◌≡◌, refl, none, some, ok, err, List, [], ◌∷◌, All, arith,
}
use fileblock_csi.Base.Int.{ℤ, pos}
use fileblock_csi.Base.Text.{Text, lit}
use fileblock_csi.Base.Dict.{lookup, insert, erase}
use fileblock_csi.Host.{absent, other}
use fileblock_csi.Machine.{read_dir, Machine, ◌>>=◌, make_dirs, modify, stat, truncate, run, remove}
use fileblock_csi.Image.Disk.{shown}
use fileblock_csi.Image.Align.{align_up}
use fileblock_csi.Image.Manager.{is_valid_id}
use fileblock_csi.Image.Volumes.{
  Request, create_of, delete_of, get_of, resize_of, Fits, Answer, answers, after_all, serve,
  serve_all,
}
use fileblock_csi.Image.Refines.{Refined, serve-Refined}
use fileblock_csi.Image.Sequences.{serve_all-answers}
use fileblock_csi.Controller.Capacity.{range}
use fileblock_csi.Controller.Server.{CreateRequest, Volume, create_volume}
use fileblock_csi.Controller.Lands.{Lands, create_volume-Lands}
use fileblock_csi.Program.Call.{mount_cap}
use mathlib.Core.List.{Memᴰ}
use fileblock_csi.Image.Manager.{Metadata, list}
use fileblock_csi.Image.Entries.{volume_of, file_of}
use fileblock_csi.Image.Lists.{list-volumes}
use fileblock_csi.Tests.Files.{entries, files, files_disk, files_work}

abbrev root : Text
root = lit "/stores/a"

abbrev start : Machine files
start = record {
  sys = [];
  log = [];
  registry = record {
    root = lit "/stores";
    mounted = [];
    stores = [];
    configs = [];
    checking = [];
  };
  entries = [];
  failures = record { failed = []; held = [] };
  keys = [];
}

abbrev sized_some : ℕ → Answer
sized_some n = ok (some (record { volume_id = lit "v"; capacity_bytes = pos n }))

-- A volume that is made, asked for again, grown, shrunk, removed and asked for.
abbrev requests : List Request
requests =
    create_of (lit "v") (pos 5000) false
    ∷ create_of (lit "v") (pos 8192) true
    ∷ resize_of (lit "v") (pos 9000)
    ∷ resize_of (lit "v") (pos 5000)
    ∷ create_of (lit "a/b") (pos 1) false
    ∷ delete_of (lit "v")
    ∷ get_of (lit "v")
    ∷ []

served_requests :
    (serve_all files root requests start).0
    ≡ sized_some 8192
      ∷ sized_some 8192
      ∷ sized_some 12288
      ∷ err other
      ∷ err other
      ∷ ok none
      ∷ err absent
      ∷ []
unfolding serve_all ◌>>=◌ stat lookup truncate run insert remove erase
served_requests = refl

abbrev first : Request
first = create_of (lit "v") (pos 5000) false

requests-Fits : All Fits requests
unfolding align_up
requests-Fits =
    ((8192, refl), ((8192, refl), ((12288, refl), ((8192, refl), ((4096, refl), (tt, (tt, tt)))))))

serve-Refined_example :
    Refined files first
      (shown (files_disk root) start)
      (serve files root first start).0
      (shown (files_disk root) (serve files root first start).1)
serve-Refined_example = serve-Refined (files_disk root) first (requests-Fits.0) start

serve_all-answers_example :
    ((serve_all files root requests start).0 ≡ answers requests (shown (files_disk root) start))
    × ((j : Text)
        → is_valid_id j ≡ true
        → shown (files_disk root) (serve_all files root requests start).1 j
          ≡ after_all requests (shown (files_disk root) start) j)
serve_all-answers_example =
    serve_all-answers (files_disk root) files_work requests start requests-Fits

abbrev with_image : Machine files
with_image = record start {
  sys = (lit "/stores/a/w.img", record { size = pos 4096; is_dir = false }) ∷ [];
}

abbrev pub with_store : Machine files
with_store = record start {
  sys = (lit "/stores/000000000000", record { size = pos 0; is_dir = true }) ∷ [];
}

abbrev pub request : CreateRequest
request = record {
  name = lit "pvc-1";
  capabilities = mount_cap ∷ [];
  parameters =
      (lit "backingStore.type", lit "local") ∷ (lit "backingStore.local.path", lit "/data") ∷ [];
  capacity_range = range 5000 9000;
  accessibility = none;
}

abbrev volume : Volume
volume = record {
  volume_id = lit "fb-000000000000-pvc-1";
  capacity_bytes = pos 8192;
  context =
      (lit "backingStore.type", lit "local")
      ∷ (lit "storeID", lit "000000000000")
      ∷ (lit "backingStore.local.path", lit "/data")
      ∷ [];
  topology = [];
}

create_volume-Lands_example :
    Lands files_disk request 5000 9000 volume (create_volume files request with_store).1
unfolding create_volume ◌>>=◌ make_dirs run modify stat truncate
create_volume-Lands_example =
    create_volume-Lands files_disk request 5000 9000 (omega arith) (omega arith) refl volume
      with_store refl

list-volumes_example :
    (ms : List Metadata) × ((list files root with_image).0 ≡ ok ms)
    × ((id : Text) (n : ℤ)
        → Memᴰ (volume_of id n) ms
          ↔ (Memᴰ (file_of id) entries × (shown (files_disk root) with_image id ≡ some n)))
list-volumes_example = list-volumes (files_disk root) files_work with_image entries refl

-- An entry that is gone is skipped.
listed_images : (list files root with_image).0 ≡ ok (volume_of (lit "w") (pos 4096) ∷ [])
unfolding list ◌>>=◌ stat lookup read_dir
listed_images = refl
