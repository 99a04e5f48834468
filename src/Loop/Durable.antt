-- ===== src/Loop/Durable.antt =====
-- pkg/loop/state.go: at every moment the state file is the old one or the new one, whole.
use fileblock_csi.Base.{
  ℕ, zero, suc, false, ◌≡◌, refl, ◌∙◌, take-nil, ◌⊎◌, Bool-cases, inl, inr, Option, none, some, ok,
  [], ◌∷◌, take, arith, length, length-append, ap,
}
use fileblock_csi.Base.Text.{Text, lit, is_empty, text_eq, text_eq_iff, text_eq_refl}
use fileblock_csi.Base.Dict.{Dict, lookup, insert, erase, lookup-insert}
use fileblock_csi.Machine.{Mapping}
use fileblock_csi.Loop.StateFile.{
  FileOp, emptied, written, renamed, effect, after, Fault, no_fault, at_encode, at_open, at_lock,
  at_sync, at_close, at_rename, at_write, tmp_of, flush_ops, loaded, read_file, load_state,
}

tmp_of-ne : (path : Text) → text_eq (tmp_of path) path ≡ false
tmp_of-ne path = elim (Bool-cases (text_eq (tmp_of path) path)) [
  | inr e ↦ e
  | inl e ↦ absurd (
      omega
        (arith, ap length ((text_eq_iff (tmp_of path) path).0 e), length-append path (lit ".tmp")))
]

module _ (path : Text) where
  emptied-keeps :
      (fs : Dict Text) → lookup path (effect (emptied (tmp_of path)) fs) ≡ lookup path fs
  unfolding effect
  emptied-keeps fs = rw (lookup-insert (tmp_of path) path [] fs, tmp_of-ne path) refl

  written-keeps :
      (bytes : Text) (fs : Dict Text)
      → lookup path (effect (written (tmp_of path) bytes) fs) ≡ lookup path fs
  unfolding effect
  written-keeps bytes fs = rw (lookup-insert (tmp_of path) path bytes fs, tmp_of-ne path) refl

  pub renamed-replaces :
      (bytes : Text) (fs : Dict Text)
      → lookup path (effect (renamed (tmp_of path) path) (effect (written (tmp_of path) bytes) fs))
        ≡ some bytes
  unfolding effect
  renamed-replaces bytes fs =
      rw (lookup-insert (tmp_of path) (tmp_of path) bytes fs, text_eq_refl (tmp_of path))
        (rw
          (
            lookup-insert path path bytes (erase (tmp_of path) (insert (tmp_of path) bytes fs)),
            text_eq_refl path,
          )
          refl)

  -- The two files that a flush may leave.
  OldOrNew : Text → Dict Text → Dict Text → Type 0
  OldOrNew b fs gs = (lookup path gs ≡ lookup path fs) ⊎ (lookup path gs ≡ some b)

  emptied_written-keeps :
      (bytes : Text) (fs : Dict Text)
      → lookup path (after (emptied (tmp_of path) ∷ written (tmp_of path) bytes ∷ []) fs)
        ≡ lookup path fs
  unfolding after
  emptied_written-keeps bytes fs =
      written-keeps bytes (effect (emptied (tmp_of path)) fs) ∙ emptied-keeps fs

  cut_short :
      (bytes b : Text) (n : ℕ) (fs : Dict Text)
      → OldOrNew b fs (after (take n (emptied (tmp_of path) ∷ written (tmp_of path) bytes ∷ [])) fs)
  unfolding OldOrNew after
  cut_short bytes b zero fs = inl refl
  cut_short bytes b (suc zero) fs = inl (emptied-keeps fs)
  cut_short bytes b (suc (suc n)) fs =
      rw (take-nil {A = FileOp} n) (inl (emptied_written-keeps bytes fs))

  cut_short_all :
      (b : Text) (n : ℕ) (fs : Dict Text)
      → OldOrNew b fs (
          after
            (take n
              (emptied (tmp_of path) ∷ written (tmp_of path) b ∷ renamed (tmp_of path) path ∷ []))
            fs)
  unfolding OldOrNew after
  cut_short_all b zero fs = inl refl
  cut_short_all b (suc zero) fs = inl (emptied-keeps fs)
  cut_short_all b (suc (suc zero)) fs = inl (emptied_written-keeps b fs)
  cut_short_all b (suc (suc (suc n))) fs =
      rw (take-nil {A = FileOp} n) (inr (renamed-replaces b (effect (emptied (tmp_of path)) fs)))

-- A flush that stops anywhere (at a fault, or at a crash after any of its calls) leaves a state file
-- that is the old one, or all the bytes of the new one.
pub flush_atomic :
    (path b : Text) (fault : Fault) (n : ℕ) (fs : Dict Text)
    → (lookup path (after (take n (flush_ops path b fault).0) fs) ≡ lookup path fs)
      ⊎ (lookup path (after (take n (flush_ops path b fault).0) fs) ≡ some b)
unfolding flush_ops OldOrNew after
flush_atomic path b no_fault n fs = cut_short_all path b n fs
flush_atomic path b at_encode n fs = rw (take-nil {A = FileOp} n) (inl refl)
flush_atomic path b at_open n fs = rw (take-nil {A = FileOp} n) (inl refl)
flush_atomic path b at_lock zero fs = inl refl
flush_atomic path b at_lock (suc n) fs = rw (take-nil {A = FileOp} n) (inl (emptied-keeps path fs))
flush_atomic path b (at_write k) n fs = cut_short path (take k b) b n fs
flush_atomic path b at_sync n fs = cut_short path b b n fs
flush_atomic path b at_close n fs = cut_short path b b n fs
flush_atomic path b at_rename n fs = cut_short path b b n fs

pub read_file-some :
    (path b : Text) (gs : Dict Text) → lookup path gs ≡ some b → read_file path gs ≡ ok b
read_file-some path b gs e = rw e refl

-- After a flush that succeeds, a load reads back the state that was flushed, if the encoding decodes
-- to it and is not empty.
pub loaded-flush_ops :
    (decode : Text → Option (Dict Mapping)) (path b : Text) (m : Dict Mapping) (fault : Fault)
    (fs : Dict Text)
    → is_empty b ≡ false
    → decode b ≡ some m
    → (flush_ops path b fault).1 ≡ ok tt
    → load_state decode none path (after (flush_ops path b fault).0 fs) ≡ ok m
unfolding flush_ops after loaded
loaded-flush_ops decode path b m no_fault fs e d q =
    rw
      (
        read_file-some path b
            (after
              (emptied (tmp_of path) ∷ written (tmp_of path) b ∷ renamed (tmp_of path) path ∷ [])
              fs)
            (renamed-replaces path b (effect (emptied (tmp_of path)) fs)),
        e,
        d,
      )
      refl
loaded-flush_ops decode path b m at_encode fs e d q = absurd (ground arith)
loaded-flush_ops decode path b m at_open fs e d q = absurd (ground arith)
loaded-flush_ops decode path b m at_lock fs e d q = absurd (ground arith)
loaded-flush_ops decode path b m (at_write k) fs e d q = absurd (ground arith)
loaded-flush_ops decode path b m at_sync fs e d q = absurd (ground arith)
loaded-flush_ops decode path b m at_close fs e d q = absurd (ground arith)
loaded-flush_ops decode path b m at_rename fs e d q = absurd (ground arith)
