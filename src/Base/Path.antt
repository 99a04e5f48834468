-- ===== src/Base/Path.antt =====
-- Packages path and path/filepath on slash-separated paths: Clean, Join, Base, IsAbs.
pub mod Relative
pub mod Entry
use fileblock_csi.Base.Tests.{◌==◌, if◌then◌else◌}
use fileblock_csi.Base.Text.{Text, lit, text_eq, is_empty, split, join, has_prefix}
use Prim.Native.Nat.{ℕ}
use mathlib.Core.Bool.{Bool, true, false, ◌||◌}
use mathlib.Core.List.{List, [], ◌∷◌, ◌++◌, reverse}

abbrev pub slash : ℕ
slash = b'/'

unfoldable pub is_abs : Text → Bool
unfolding has_prefix
is_abs s = has_prefix s (slash ∷ [])

abbrev pub dot : Text
dot = b'.' ∷ []

abbrev pub dot_dot : Text
dot_dot = b'.' ∷ b'.' ∷ []

-- A segment that Clean drops: empty, or ".".
abbrev pub is_skipped : Text → Bool
is_skipped p = is_empty p || text_eq p dot

-- What ".." does to the segments read so far, the last of them first.
abbrev pub step_up : Bool → List Text → List Text
step_up rooted [] = if rooted then [] else dot_dot ∷ []
step_up rooted (p ∷ back) = if text_eq p dot_dot then dot_dot ∷ p ∷ back else back

abbrev pub clean_step : Bool → Text → List Text → List Text
clean_step rooted p back =
    if is_skipped p then back else if text_eq p dot_dot then step_up rooted back else p ∷ back

unfoldable pub clean_segments : Bool → List Text → List Text → List Text
unfolding text_eq
clean_segments rooted [] back = reverse back
clean_segments rooted (p ∷ ps) back = clean_segments rooted ps (clean_step rooted p back)

abbrev pub or_dot : Text → Text
or_dot [] = dot
or_dot (c ∷ s) = c ∷ s

-- path.Clean
unfoldable pub clean : Text → Text
unfolding clean_segments split join is_abs
clean s =
    let rooted = is_abs s in
    let path = join slash (clean_segments rooted (split slash s) []) in
    if rooted then slash ∷ path else or_dot path

-- filepath.Join of two elements, empty ones ignored.
unfoldable pub join_path : Text → Text → Text
unfolding clean
join_path [] [] = []
join_path [] (c ∷ t) = clean (c ∷ t)
join_path (c ∷ s) [] = clean (c ∷ s)
join_path (c ∷ s) (d ∷ t) = clean ((c ∷ s) ++ (slash ∷ d ∷ t))

-- The last non-empty segment.
abbrev pub last_segment : List Text → Text → Text
last_segment [] last = last
last_segment (p ∷ ps) last = last_segment ps (if is_empty p then last else p)

-- filepath.Base
unfoldable pub base : Text → Text
unfolding split
base [] = dot
base (c ∷ s) = last_segment (split slash (c ∷ s)) (slash ∷ [])
