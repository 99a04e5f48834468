-- ===== src/Image/Sequences.antt =====
-- pkg/image/image.go: sequences of calls, where no system call fails.
use mathlib.Core.Bool.{false≢true}
use fileblock_csi.Base.{
  true, false, ◌≡◌, refl, sym, ◌∙◌, inl, inr, ap, List, [], ◌∷◌, All, Bool-cases,
}
use fileblock_csi.Base.Text.{Text, text_eq, text_eq→eq}
use fileblock_csi.Host.{Host, Error}
use fileblock_csi.Machine.{Machine}
use fileblock_csi.Image.Manager.{is_valid_id}
use fileblock_csi.Image.Volumes.{
  Volumes, Request, id_of, Fits, outcome, answer, after, answers, after_all, serve, serve_all,
}
use fileblock_csi.Image.Disk.{Disk, Fault, shown}
use fileblock_csi.Image.Refines.{served, failed, serve-Refined}

-- Two stores have the same volumes, of the same sizes.
abbrev Agree : Volumes → Volumes → Type 0
Agree v w = (j : Text) → is_valid_id j ≡ true → v j ≡ w j

valid-ne : (i j : Text) → is_valid_id i ≡ false → is_valid_id j ≡ true → text_eq i j ≡ false
valid-ne i j a b = elim (Bool-cases (text_eq i j)) [
  | inl e ↦ absurd (false≢true (sym a ∙ rw (text_eq→eq i j e) b))
  | inr e ↦ e
]

answer-Agree : (q : Request) (v w : Volumes) → Agree v w → answer q v ≡ answer q w
answer-Agree q v w a = elim (Bool-cases (is_valid_id (id_of q))) [
  | inl e ↦ ap (λ o. (outcome q o).0) (a (id_of q) e)
  | inr e ↦ rw (e, answer) refl
]

after-Agree : (q : Request) (v w : Volumes) → Agree v w → Agree (after q v) (after q w)
after-Agree q v w a j valid = elim (Bool-cases (is_valid_id (id_of q))) [
  | inl e ↦ rw (a (id_of q) e, a j valid) refl
  | inr e ↦ rw (valid-ne (id_of q) j e valid) (a j valid)
]

answers-Agree :
    (qs : List Request) (v w : Volumes)
    → Agree v w
    → (answers qs v ≡ answers qs w) × Agree (after_all qs v) (after_all qs w)
answers-Agree [] v w a = (refl, a)
answers-Agree (q ∷ qs) v w a =
    let (r, e) = answers-Agree qs (after q v) (after q w) (after-Agree q v w a) in
    (rw (answer-Agree q v w a, r) refl, e)

module _ {h : Host} {root : Text} (d : Disk h root) (works : (e : Error) → ¬ Fault h e) where
  served_all :
      (q : Request) (s : Machine h)
      → Fits q
      → (answer q (shown d s) ≡ (serve h root q s).0)
        × Agree (after q (shown d s)) (shown d (serve h root q s).1)
  served_all q s f = elim (serve-Refined d q f s) [
    | served k a ↦ (sym k, λ j v. sym (a j v))
    | failed e x k o own ↦ absurd (works e x)
  ]

  -- Where no system call fails, any sequence of calls of the image manager, whose capacities leave
  -- room for the rounding, gets the answers of a map from volume IDs to sizes, refusals included, and
  -- the files of the volumes are at the end as that map.
  pub serve_all-answers :
      (qs : List Request) (s : Machine h)
      → All Fits qs
      → ((serve_all h root qs s).0 ≡ answers qs (shown d s))
        × ((j : Text)
            → is_valid_id j ≡ true
            → shown d (serve_all h root qs s).1 j ≡ after_all qs (shown d s) j)
  unfolding serve_all
  serve_all-answers [] s f = (refl, λ j v. refl)
  serve_all-answers (q ∷ qs) s (f, fs) =
      let (k, a) = served_all q s f in
      let (r, e) = serve_all-answers qs (serve h root q s).1 fs in
      let (x, y) = answers-Agree qs (after q (shown d s)) (shown d (serve h root q s).1) a in
      (rw (k, x) (rw r refl), λ j v. e j v ∙ sym (y j v))
