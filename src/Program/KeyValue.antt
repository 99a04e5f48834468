-- ===== src/Program/KeyValue.antt =====
-- hack/csi-call/main.go: the lines that create prints are what the flags of stage read.
use fileblock_csi.Base.{
  Bool, true, false, ◌||◌, ◌≡◌, refl, ap, Option, none, some, Result, ok, err, List, [], ◌∷◌, ◌++◌,
  map, any, All, if◌then◌else◌, arith, Bool-cases, inl, inr,
}
use fileblock_csi.Base.Text.{Text, text_eq, text_eq_iff, is_empty, has_byte, text_le}
use fileblock_csi.Base.Dict.{Dict, lookup, insert, lookup-insert}
use fileblock_csi.Host.{Error}
use fileblock_csi.Store.Config.{insert_sorted, sort_strings}
use fileblock_csi.Program.Call.{equals, cut, set, set_all, keys, line, or_empty, context_lines}

-- The first "=" of a line is the one behind its key.
cut-append : (k v : Text) → has_byte equals k ≡ false → cut (k ++ (equals ∷ v)) ≡ (k, v, true)
unfolding cut
cut-append [] v e = refl
cut-append (c ∷ k) v e = rw (cut-append k v (ground arith), cut) (ground arith)

-- A key that a flag takes.
abbrev pub IsKey : Text → Type 0
IsKey k = (is_empty k ≡ false) × (has_byte equals k ≡ false)

set-line : (k v : Text) (m : Dict Text) → IsKey k → set (k ++ (equals ∷ v)) m ≡ ok (insert k v m)
unfolding set
set-line k v m e = rw (cut-append k v e.1, e.0) refl

abbrev mem : Text → List Text → Bool
mem j ks = any (λ k. text_eq k j) ks

-- What a map read from flags has at a key.
abbrev pub found : Text → Result Error (Dict Text) → Result Error (Option Text)
found j (err e) = err e
found j (ok m) = ok (lookup j m)

set_all-lines :
    (m : Dict Text) (j : Text) (ks : List Text) (r : Dict Text)
    → All IsKey ks
    → found j (set_all (map (line m) ks) r)
      ≡ ok (if mem j ks then some (or_empty (lookup j m)) else lookup j r)
unfolding set_all line
set_all-lines m j [] r h = refl
set_all-lines m j (k ∷ ks) r h = rw (set-line k (or_empty (lookup k m)) r h.0) (
    rw (set_all-lines m j ks (insert k (or_empty (lookup k m)) r) h.1)
      (rw (lookup-insert k j (or_empty (lookup k m)) r) (ground (arith, text_eq_iff k j))))

mem-insert_sorted :
    (j p : Text) (ps : List Text) → mem j (insert_sorted p ps) ≡ (text_eq p j || mem j ps)
unfolding insert_sorted
mem-insert_sorted j p [] = refl
mem-insert_sorted j p (q ∷ ps) = ground (arith, mem-insert_sorted j p ps)

mem-sort_strings : (j : Text) (ps : List Text) → mem j (sort_strings ps) ≡ mem j ps
unfolding sort_strings
mem-sort_strings j [] = refl
mem-sort_strings j (p ∷ ps) =
    rw (mem-insert_sorted j p (sort_strings ps), mem-sort_strings j ps) refl

All-insert_sorted :
    (p : Text) (ps : List Text) → IsKey p → All IsKey ps → All IsKey (insert_sorted p ps)
unfolding insert_sorted
All-insert_sorted p [] e h = (e, tt)
All-insert_sorted p (q ∷ ps) e h = elim (Bool-cases (text_le p q)) [
  | inl b ↦ rw (b, insert_sorted) (e, h)
  | inr b ↦ rw (b, insert_sorted) (h.0, All-insert_sorted p ps e h.1)
]

All-sort_strings : (ps : List Text) → All IsKey ps → All IsKey (sort_strings ps)
unfolding sort_strings
All-sort_strings [] h = tt
All-sort_strings (p ∷ ps) h = All-insert_sorted p (sort_strings ps) h.0 (All-sort_strings ps h.1)

lookup-keys :
    (j : Text) (m : Dict Text)
    → (if mem j (keys m) then some (or_empty (lookup j m)) else none) ≡ lookup j m
unfolding lookup
lookup-keys j [] = refl
lookup-keys j ((k, v) ∷ m) = ground (arith, lookup-keys j m)

-- The context lines that create prints, each given to a flag of stage, are read as the same map, when
-- no key is empty or holds a "=".
pub set_all-context_lines :
    (m : Dict Text) (j : Text)
    → All IsKey (keys m)
    → found j (set_all (context_lines m) []) ≡ ok (lookup j m)
unfolding context_lines lookup
set_all-context_lines m j h =
    rw (set_all-lines m j (sort_strings (keys m)) [] (All-sort_strings (keys m) h))
      (rw (mem-sort_strings j (keys m)) (ap ok (lookup-keys j m)))
