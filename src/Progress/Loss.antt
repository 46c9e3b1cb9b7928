-- ===== src/Progress/Loss.antt =====
-- The errors that `Put` loses.
use zth_sre.Prelude.{◌≡◌, refl, true, false, some, ◌∙◌}
use zth_sre.Files.{Storage, save}

module _ {A : Type 0} (s : Storage A) where
  open s use {
    encode, contents, temporary, mkdir_all, create_temp, chmod, close, rename, remove,
    contents-rename, contents-remove, temporary-close,
  }

  -- With the error of Chmod lost, as in `Put`: where Chmod fails, nothing is written, and yet, if every
  -- other call succeeds, the save reports success and what was in the unwritten temporary file
  -- replaces the content of the file.
  pub save_unnoticed :
      (a : A) (d : s.Disk) {b : s.Bytes}
      → encode a ≡ some b
      → (mkdir_all d).1 ≡ true
      → (create_temp (mkdir_all d).0).1 ≡ true
      → (chmod (create_temp (mkdir_all d).0).0).1 ≡ false
      → (close (chmod (create_temp (mkdir_all d).0).0).0).1 ≡ true
      → (rename (close (chmod (create_temp (mkdir_all d).0).0).0).0).1 ≡ true
      → ((save s false a d).1 ≡ true)
        × (contents (save s false a d).0 ≡ temporary (chmod (create_temp (mkdir_all d).0).0).0)
  unfolding save
  save_unnoticed a d e m c p l r =
      let d1 = (chmod (create_temp (mkdir_all d).0).0).0 in
      let d2 = (close d1).0 in
      rw (e, m, c, p, l, r)
        (refl, contents-remove (rename d2).0 ∙ contents-rename d2 r ∙ temporary-close d1)
