-- ===== src/Loop/Backing.antt =====
-- pkg/loop/reconcile.go: which backing files are a volume's image.
use fileblock_csi.Base.{
  ℕ, Bool, false, ◌&&◌, ◌||◌, not, List, [], ◌∷◌, take, drop, length, every, leb, ltb,
}
use fileblock_csi.Base.Text.{Text, lit, is_empty, has_prefix, has_suffix, text_eq, split}
use fileblock_csi.Base.Path.{slash, base}

abbrev pub is_hex_digit : ℕ → Bool
is_hex_digit c = (leb b'0' c && leb c b'9') || (leb b'a' c && leb c b'f')

-- The regular expression ^\.nfs[0-9a-f]+$ on the last element of a path.
unfoldable pub silly_renamed : Text → Bool
unfolding has_prefix base
silly_renamed back =
    let name = base back in
    has_prefix name (lit ".nfs") && ltb 4 (length name) && every is_hex_digit (drop 4 name)

unfoldable pub backs : Text → Text → Bool
unfolding text_eq has_prefix has_suffix base
backs back image_path =
    text_eq back image_path
    || (has_prefix back (slash ∷ [])
        && has_suffix image_path back
        && text_eq (base back) (base image_path))

-- fb-[0-9a-f]{12}-[^/]+\.img for one path element.
unfoldable pub is_image_name : Text → Bool
unfolding has_prefix has_suffix
is_image_name p =
    has_prefix p (lit "fb-")
    && every is_hex_digit (take 12 (drop 3 p))
    && has_prefix (drop 15 p) (b'-' ∷ [])
    && ltb 20 (length p)
    && has_suffix p (lit ".img")

abbrev image_below : List Text → Bool
image_below [] = false
image_below (p ∷ []) = is_image_name p
image_below (p ∷ q ∷ ps) = not (is_empty p) && image_below (q ∷ ps)

abbrev after_root : List Text → Bool
after_root [] = false
after_root (p ∷ ps) = is_empty p && image_below ps

-- ^/([^/]+/)*fb-[0-9a-f]{12}-[^/]+\.img$
unfoldable pub disconnected_image : Text → Bool
unfolding split is_image_name
disconnected_image back = after_root (split slash back)
