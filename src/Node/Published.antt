-- ===== src/Node/Published.antt =====
-- pkg/driver/node.go, restageFailed, with pkg/mount: when a volume is still published, in words of the
-- mount table.
use mathlib.Core.List.{Memᴰ}
use mathlib.Core.List.Memᴰ.{head, tail}
use fileblock_csi.Base.{
  Bool, true, false, ◌≡◌, ◌≢◌, ◌↔◌, refl, inl, inr, none, some, List, [], ◌∷◌, ◌++◌, All,
  Bool-cases, Option-cases, arith,
}
use fileblock_csi.Base.Text.{Text, text_eq, text_eq_iff}
use fileblock_csi.Mount.Info.{MountInfo, PublishTarget, last_at, publish_targets, pod_volume_uid}
use fileblock_csi.Node.Publish.{still_published}

-- A row that is mounted at a path, with no later row over it.
pub record TopAt (path : Text) (rows : List MountInfo) (top : MountInfo) : Type 0 where
  pub before : List MountInfo
  pub after : List MountInfo
  pub splits : rows ≡ before ++ (top ∷ after)
  pub there : top.mount_point ≡ path
  pub uncovered : All (λ r. r.mount_point ≢ path) after

-- The device on top at the staging path is also mounted at the volume directory of some pod.
pub record Published (rows : List MountInfo) (path : Text) : Type 0 where
  pub top : MountInfo
  pub staged : TopAt path rows top
  pub row : MountInfo
  pub among : Memᴰ row rows
  pub same_device : row.major_minor ≡ top.major_minor
  pub pod : Text
  pub of_pod : pod_volume_uid row.mount_point ≡ some pod

differs : (a b : Text) → text_eq a b ≡ false → a ≢ b
differs a b n e = let y = (text_eq_iff a b).1 e in absurd (ground (arith, n, y))

differs_back : (a b : Text) → a ≢ b → text_eq a b ≡ false
differs_back a b n = elim (Bool-cases (text_eq a b)) [
  | inl y ↦ absurd (n ((text_eq_iff a b).0 y))
  | inr f ↦ f
]

last_at-none :
    (rows : List MountInfo) (path : Text)
    → last_at rows path ≡ none
    → All (λ r. r.mount_point ≢ path) rows
unfolding last_at
last_at-none [] path e = tt
last_at-none (r ∷ rows) path e = elim (Option-cases (last_at rows path)) [
  | inl n ↦ elim (Bool-cases (text_eq r.mount_point path)) [
    | inl y ↦ absurd (ground (arith, n, y, e))
    | inr d ↦ (differs r.mount_point path d, last_at-none rows path n)
  ]
  | inr (top, y) ↦ absurd (ground (arith, y, e))
]

last_at-some :
    (rows : List MountInfo) (path : Text) (top : MountInfo)
    → last_at rows path ≡ some top
    → TopAt path rows top
unfolding last_at
last_at-some [] path top e = absurd (ground arith)
last_at-some (r ∷ rows) path top e = elim (Option-cases (last_at rows path)) [
  | inl n ↦ elim (Bool-cases (text_eq r.mount_point path)) [
    | inl y ↦
        let same : r ≡ top = ground (arith, n, y, e) in
        rw (← same) (record {
          before = [];
          after = rows;
          splits = refl;
          there = (text_eq_iff r.mount_point path).0 y;
          uncovered = last_at-none rows path n;
        })
    | inr d ↦ absurd (ground (arith, n, d, e))
  ]
  | inr (q, y) ↦
      let rest = last_at-some rows path top (ground (arith, y, e)) in
      record {
        before = r ∷ rest.before;
        after = rest.after;
        splits = rw rest.splits refl;
        there = rest.there;
        uncovered = rest.uncovered;
      }
]

uncovered-last_at :
    (rows : List MountInfo) (path : Text)
    → All (λ r. r.mount_point ≢ path) rows
    → last_at rows path ≡ none
unfolding last_at
uncovered-last_at [] path k = refl
uncovered-last_at (r ∷ rows) path k =
    rw (uncovered-last_at rows path k.1, differs_back r.mount_point path k.0) refl

split-last_at :
    (before after : List MountInfo) (path : Text) (top : MountInfo)
    → top.mount_point ≡ path
    → All (λ r. r.mount_point ≢ path) after
    → last_at (before ++ (top ∷ after)) path ≡ some top
unfolding last_at
split-last_at [] after path top e k =
    rw (uncovered-last_at after path k, (text_eq_iff top.mount_point path).1 e) refl
split-last_at (r ∷ before) after path top e k = rw (split-last_at before after path top e k) refl

pub TopAt-last_at :
    {rows : List MountInfo} {path : Text} {top : MountInfo}
    → TopAt path rows top
    → last_at rows path ≡ some top
TopAt-last_at {path = path} {top = top} t =
    rw t.splits (split-last_at t.before t.after path top t.there t.uncovered)

-- A row of a device at the volume directory of a pod.
record Target (rows : List MountInfo) (dev : Text) : Type 0 where
  pub row : MountInfo
  pub among : Memᴰ row rows
  pub device : row.major_minor ≡ dev
  pub pod : Text
  pub of_pod : pod_volume_uid row.mount_point ≡ some pod

tail-Target :
    {r : MountInfo} {rows : List MountInfo} {dev : Text} → Target rows dev → Target (r ∷ rows) dev
tail-Target t = record {
  row = t.row;
  among = tail t.among;
  device = t.device;
  pod = t.pod;
  of_pod = t.of_pod;
}

publish_targets-Target :
    (rows : List MountInfo) (dev : Text) (t : PublishTarget) (ts : List PublishTarget)
    → publish_targets rows dev ≡ t ∷ ts
    → Target rows dev
unfolding publish_targets
publish_targets-Target [] dev t ts e = absurd (ground arith)
publish_targets-Target (r ∷ rows) dev t ts e = elim (Bool-cases (text_eq r.major_minor dev)) [
  | inl y ↦ elim (Option-cases (pod_volume_uid r.mount_point)) [
    | inl n ↦ tail-Target (publish_targets-Target rows dev t ts (ground (arith, y, n, e)))
    | inr (pod, p) ↦ record {
      row = r;
      among = head refl;
      device = (text_eq_iff r.major_minor dev).0 y;
      pod = pod;
      of_pod = p;
    }
  ]
  | inr d ↦ tail-Target (publish_targets-Target rows dev t ts (ground (arith, d, e)))
]

abbrev is_some_target : List PublishTarget → Bool
is_some_target [] = false
is_some_target (t ∷ ts) = true

publish_targets-some :
    (row : MountInfo) (dev pod : Text) (rows : List MountInfo)
    → Memᴰ row rows
    → text_eq row.major_minor dev ≡ true
    → pod_volume_uid row.mount_point ≡ some pod
    → is_some_target (publish_targets rows dev) ≡ true
unfolding publish_targets
publish_targets-some row dev pod [] m d p = elim m [ ]
publish_targets-some row dev pod (r ∷ rows) (head e) d p = rw (← e, d, p) refl
publish_targets-some row dev pod (r ∷ rows) (tail m) d p =
    let rest = publish_targets-some row dev pod rows m d p in
    elim (Bool-cases (text_eq r.major_minor dev)) [
      | inl y ↦ elim (Option-cases (pod_volume_uid r.mount_point)) [
        | inl n ↦ rw (y, n) rest
        | inr (q, n) ↦ rw (y, n) refl
      ]
      | inr n ↦ rw n rest
    ]

any_target :
    (ts : List PublishTarget)
    → is_some_target ts ≡ true
    → elim ts [ [] ↦ false | t ∷ us ↦ true ] ≡ true
any_target [] e = e
any_target (t ∷ ts) e = refl

pub still_published-Published :
    (rows : List MountInfo) (path : Text) → (still_published rows path ≡ true) ↔ Published rows path
unfolding still_published
still_published-Published rows path = (there, back)
  where
    there : still_published rows path ≡ true → Published rows path
    there e = elim (Option-cases (last_at rows path)) [
      | inl n ↦ absurd (ground (arith, n, e))
      | inr (top, y) ↦
          at (publish_targets rows top.major_minor) refl (rw (y, still_published) at e)
            (last_at-some rows path top y)
    ]
      where
        at :
            {top : MountInfo} (ts : List PublishTarget)
            → publish_targets rows top.major_minor ≡ ts
            → elim ts [ [] ↦ false | t ∷ us ↦ true ] ≡ true
            → TopAt path rows top
            → Published rows path
        at [] q k t = absurd (ground (arith, k))
        at {top} (u ∷ us) q k t =
            let f = publish_targets-Target rows top.major_minor u us q in
            record {
              top = top;
              staged = t;
              row = f.row;
              among = f.among;
              same_device = f.device;
              pod = f.pod;
              of_pod = f.of_pod;
            }

    back : Published rows path → still_published rows path ≡ true
    back p =
        rw (TopAt-last_at p.staged, still_published)
          (any_target (publish_targets rows p.top.major_minor) (
            publish_targets-some p.row p.top.major_minor p.pod rows p.among
              ((text_eq_iff p.row.major_minor p.top.major_minor).1 p.same_device) p.of_pod))
