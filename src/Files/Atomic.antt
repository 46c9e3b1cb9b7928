-- ===== src/Files/Atomic.antt =====
-- What a save leaves in the file.
use zth_sre.Prelude.{
  ◌||◌, ◌≡◌, refl, Bool, true, false, some, ◌⊎◌, Bool-cases, arith, Option-cases, inl, inr,
}
use zth_sre.Files.{
  Storage, loaded, decoded, read_from, load, wrote, fill_temp, replace_file, through_temp,
  persist_bytes, save, persist, wrote_bytes, written_whole, Holds,
}

module _ {A : Type 0} (s : Storage A) where
  open s use {
    Disk, Bytes, encode, decode, contents, temporary, readable, mkdir_all, create_temp, chmod,
    write, close, rename, remove, decode-encode, contents-mkdir_all, contents-create_temp,
    contents-chmod, contents-write, contents-close, contents-remove, temporary-write,
    temporary-close, contents-rename, contents-rename_fails,
  }

  -- What a file holds after a call: the old content, or all of the new one where `whole`.
  abbrev Replaced : Bool → Bytes → Disk → Disk × Bool → Type 0
  Replaced whole b d r =
      (r.1 ≡ true → whole ≡ true → contents r.0 ≡ some b)
      × (r.1 ≡ false → contents r.0 ≡ contents d)

  fill_temp_lem :
      (checked : Bool) (b : Bytes) (d : Disk)
      → (contents (fill_temp s checked b d).0 ≡ contents d)
        × ((fill_temp s checked b d).1 ≡ true
            → (checked || wrote s b d) ≡ true
            → temporary (fill_temp s checked b d).0 ≡ some b)
  unfolding fill_temp wrote
  fill_temp_lem checked b d =
      let d1 = (chmod d).0 in
      let d2 = (write b d1).0 in
      ground (
        arith,
        contents-chmod d,
        contents-write b d1,
        contents-close d2,
        contents-close d1,
        temporary-write b d1,
        temporary-close d2,
      )

  replace_file_lem :
      (checked : Bool) (b : Bytes) (d : Disk)
      → Replaced (checked || wrote s b d) b d (replace_file s checked b d)
  unfolding replace_file
  replace_file_lem checked b d =
      let d1 = (fill_temp s checked b d).0 in
      ground (arith, fill_temp_lem checked b d, contents-rename d1, contents-rename_fails d1)

  through_temp_lem :
      (checked : Bool) (b : Bytes) (d : Disk)
      → Replaced (checked || wrote s b (create_temp d).0) b d (through_temp s checked b d)
  unfolding through_temp
  through_temp_lem checked b d =
      let d1 = (create_temp d).0 in
      let d2 = (replace_file s checked b d1).0 in
      ground (arith, contents-create_temp d, replace_file_lem checked b d1, contents-remove d2)

  persist_bytes_lem :
      (checked : Bool) (b : Bytes) (d : Disk)
      → Replaced (checked || wrote_bytes s (some b) d) b d (persist_bytes s checked (some b) d)
  unfolding persist_bytes wrote_bytes
  persist_bytes_lem checked b d =
      let d1 = (mkdir_all d).0 in
      ground (arith, contents-mkdir_all d, through_temp_lem checked b d1)

  save_cases :
      (checked : Bool) (a : A) (d : Disk)
      → (checked || written_whole s a d) ≡ true
      → (((save s checked a d).1 ≡ true) × Holds s (save s checked a d).0 a)
        ⊎ (((save s checked a d).1 ≡ false) × (contents (save s checked a d).0 ≡ contents d))
  unfolding save written_whole
  save_cases checked a d w = elim (Option-cases (encode a)) [
    | inl e ↦ rw (e, persist_bytes) (inr (refl, refl))
    | inr (b, e) ↦
        let whole : (checked || wrote_bytes s (some b) d) ≡ true = rw e at w in
        rw e (elim (Bool-cases (persist_bytes s checked (some b) d).1) [
          | inl h ↦ inl (h, (b, (persist_bytes_lem checked b d).0 h whole, decode-encode a b e))
          | inr h ↦ inr (h, (persist_bytes_lem checked b d).1 h)
        ])
  ]

  -- Saving a value with `persist`, whichever call in between fails: either success is reported and
  -- the file holds the whole of the value, or an error is reported and the file holds what it held.
  pub persist_atomic :
      (a : A) (d : Disk)
      → (((persist s a d).1 ≡ true) × Holds s (persist s a d).0 a)
        ⊎ (((persist s a d).1 ≡ false) × (contents (persist s a d).0 ≡ contents d))
  unfolding persist
  persist_atomic a d = save_cases true a d refl

  pub save-Holds :
      (checked : Bool) (a : A) (d : Disk)
      → (checked || written_whole s a d) ≡ true
      → (save s checked a d).1 ≡ true
      → Holds s (save s checked a d).0 a
  save-Holds checked a d w h = elim (save_cases checked a d w) [
    | inl (ok, held) ↦ held
    | inr (failed, same) ↦ cc
  ]

  pub save_fails :
      (checked : Bool) (a : A) (d : Disk)
      → (save s checked a d).1 ≡ false
      → contents (save s checked a d).0 ≡ contents d
  unfolding save
  save_fails checked a d h = elim (Option-cases (encode a)) [
    | inl e ↦ rw (e, persist_bytes) refl
    | inr (b, e) ↦ rw e ((persist_bytes_lem checked b d).1 (rw e at h))
  ]

  pub persist-Holds : (a : A) (d : Disk) → (persist s a d).1 ≡ true → Holds s (persist s a d).0 a
  unfolding persist
  persist-Holds a d h = save-Holds true a d refl h

  pub persist_fails :
      (a : A) (d : Disk) → (persist s a d).1 ≡ false → contents (persist s a d).0 ≡ contents d
  unfolding persist
  persist_fails a d h = save_fails true a d h

  -- A store that opens a path which can be read gets the value that the file holds.
  pub load-Holds : (a : A) (d : Disk) → Holds s d a → readable d ≡ true → load s d ≡ loaded a
  unfolding load
  load-Holds a d (b, e, f) r = rw (r, e, read_from, f, decoded) refl
