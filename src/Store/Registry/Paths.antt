-- ===== src/Store/Registry/Paths.antt =====
-- pkg/store/registry.go, MountedPaths: each path once.
use fileblock_csi.Base.{
  Bool, false, ◌||◌, ◌≡◌, refl, List, [], ◌∷◌, ◌++◌, any, arith, Bool-cases, inl, inr,
}
use fileblock_csi.Base.Text.{Text, text_eq, text_eq_iff}
use fileblock_csi.Base.Dict.{values}
use fileblock_csi.Machine.{Registry}
use fileblock_csi.Store.Registry.{add_paths, mounted_paths}

abbrev pub holds : List Text → Text → Bool
holds ps p = any (λ q. text_eq q p) ps

abbrev pub AllDistinct : List Text → Type 0
AllDistinct [] = Unit
AllDistinct (p ∷ ps) = (holds ps p ≡ false) × AllDistinct ps

holds-append :
    (ps : List Text) (p q : Text) → holds (ps ++ (p ∷ [])) q ≡ (holds ps q || text_eq p q)
holds-append [] p q = ground arith
holds-append (r ∷ ps) p q = ground (arith, holds-append ps p q)

append-AllDistinct :
    (ps : List Text) (p : Text) → AllDistinct ps → holds ps p ≡ false → AllDistinct (ps ++ (p ∷ []))
append-AllDistinct [] p d e = (refl, tt)
append-AllDistinct (q ∷ ps) p d e = (
  rw (holds-append ps p q) (ground (arith, d.0, e, text_eq_iff p q, text_eq_iff q p)),
  append-AllDistinct ps p d.1 (ground (arith, e)),
)

-- What adding paths keeps: the paths differ, and those that are held are those of both lists.
record Added (ps out result : List Text) : Type 0 where
  pub distinct : AllDistinct result
  pub held : (p : Text) → holds result p ≡ (holds out p || holds ps p)

add_paths-Added : (ps out : List Text) → AllDistinct out → Added ps out (add_paths ps out)
unfolding add_paths
add_paths-Added [] out d = record { distinct = d; held = λ p. ground arith }
add_paths-Added (p ∷ ps) out d = elim (Bool-cases (holds out p)) [
  | inl e ↦
      let a = add_paths-Added ps out d in
      rw (e, add_paths)
        (record { distinct = a.distinct; held = λ q. ground (arith, a.held q, e, text_eq_iff p q) })
  | inr e ↦
      let a = add_paths-Added ps (out ++ (p ∷ [])) (append-AllDistinct out p d e) in
      rw (e, add_paths)
        (record {
          distinct = a.distinct;
          held = λ q. ground (arith, a.held q, holds-append out p q);
        })
]

-- MountedPaths lists each path once, and a path stands in it exactly when it is a mount or a store.
mounted_paths-AllDistinct :
    (r : Registry) (p : Text)
    → AllDistinct (mounted_paths r)
      × (holds (mounted_paths r) p ≡ (holds (values r.stores) p || holds (values r.mounted) p))
unfolding mounted_paths
mounted_paths-AllDistinct r p =
    let a = add_paths-Added (values r.stores) [] tt in
    let b = add_paths-Added (values r.mounted) (add_paths (values r.stores) []) a.distinct in
    (b.distinct, rw (b.held p) (rw (a.held p) refl))
