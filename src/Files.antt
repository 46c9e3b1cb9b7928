-- ===== src/Files.antt =====
-- How the three stores of the server write their files: internal/progression/progression.go
-- (`persist`), the same steps in internal/history/history.go, and those of internal/progress/store.go,
-- which lose two of the errors.
-- Packages os and encoding/json are the interface `Storage`: the state of the directory around one
-- path, the calls that the code makes, and what their documentation promises.
pub mod Atomic
use zth_sre.Prelude.{
  not, ◌||◌, ◌≡◌, refl, Bool, true, false, ◌&&◌, Option, none, some, ◌⊎◌, Bool-cases, arith,
  if◌then◌else◌, Option-cases, inl, inr,
}

-- A call returns the new state of the directory and whether it succeeded.
pub record Storage (A : Type 0) : Type 1 where
  pub Disk : Type 0
  pub Bytes : Type 0
  -- json.Marshal and json.Unmarshal.
  pub encode : A → Option Bytes
  pub decode : Bytes → Option A
  -- The file at the store's path, and the open temporary file.
  pub contents : Disk → Option Bytes
  pub temporary : Disk → Option Bytes
  pub readable : Disk → Bool
  pub mkdir_all : Disk → Disk × Bool
  pub create_temp : Disk → Disk × Bool
  pub chmod : Disk → Disk × Bool
  pub write : Bytes → Disk → Disk × Bool
  pub close : Disk → Disk × Bool
  pub rename : Disk → Disk × Bool
  pub remove : Disk → Disk
  pub decode-encode : (a : A) (b : Bytes) → encode a ≡ some b → decode b ≡ some a
  pub contents-mkdir_all : (d : Disk) → contents (mkdir_all d).0 ≡ contents d
  pub contents-create_temp : (d : Disk) → contents (create_temp d).0 ≡ contents d
  pub contents-chmod : (d : Disk) → contents (chmod d).0 ≡ contents d
  pub contents-write : (b : Bytes) (d : Disk) → contents (write b d).0 ≡ contents d
  pub contents-close : (d : Disk) → contents (close d).0 ≡ contents d
  pub contents-remove : (d : Disk) → contents (remove d) ≡ contents d
  pub temporary-write :
      (b : Bytes) (d : Disk) → (write b d).1 ≡ true → temporary (write b d).0 ≡ some b
  pub temporary-close : (d : Disk) → temporary (close d).0 ≡ temporary d
  pub contents-rename : (d : Disk) → (rename d).1 ≡ true → contents (rename d).0 ≡ temporary d
  pub contents-rename_fails : (d : Disk) → (rename d).1 ≡ false → contents (rename d).0 ≡ contents d

-- What os.ReadFile and json.Unmarshal give a store that opens its path.
pub data Loaded (A : Type 0) : Type 0 where
  missing : Loaded A
  unreadable : Loaded A
  undecodable : Loaded A
  loaded : A → Loaded A

-- A file that is missing or decodes.
abbrev pub Readable : {A : Type 0} → Loaded A → Type 0
Readable missing = Unit {0}
Readable (loaded a) = Unit {0}
Readable _ = ⊥

module _ {A : Type 0} (s : Storage A) where
  open s use {
    Disk, Bytes, encode, decode, contents, temporary, readable, mkdir_all, create_temp, chmod,
    write, close, rename, remove, decode-encode, contents-mkdir_all, contents-create_temp,
    contents-chmod, contents-write, contents-close, contents-remove, temporary-write,
    temporary-close, contents-rename, contents-rename_fails,
  }

  decoded : Option A → Loaded A
  decoded none = undecodable
  decoded (some a) = loaded a

  read_from : Bool → Option Bytes → Loaded A
  unfolding decoded
  read_from true none = missing
  read_from true (some b) = decoded (decode b)
  read_from false none = missing
  read_from false (some b) = unreadable

  unfoldable pub load : Disk → Loaded A
  unfolding read_from
  load d = read_from (readable d) (contents d)

  -- Chmod and Write succeed.
  wrote : Bytes → Disk → Bool
  wrote b d = let (d1, allowed) = chmod d in allowed && (write b d1).1

  -- Chmod, Write and Close. With `checked`, `if err = f.Chmod(0600); err == nil { _, err = f.Write(data) }`
  -- keeps the error of either; without it, as in internal/progress/store.go, `if err := …` declares
  -- another `err`, and only the error of Close is left after the block.
  fill_temp : Bool → Bytes → Disk → Disk × Bool
  fill_temp checked b d =
      let (d1, allowed) = chmod d in
      let (d2, written) = if allowed then write b d1 else (d1, false) in
      let (d3, closed) = close d2 in (d3, (not checked || written) && closed)

  replace_file : Bool → Bytes → Disk → Disk × Bool
  replace_file checked b d =
      let (d1, filled) = fill_temp checked b d in if filled then rename d1 else (d1, false)

  -- The deferred `os.Remove(name)` runs on every return after the temporary file exists.
  through_temp : Bool → Bytes → Disk → Disk × Bool
  through_temp checked b d =
      let (d1, created) = create_temp d in
      let (d2, replaced) = replace_file checked b d1 in
      if created then (remove d2, replaced) else (d1, false)

  persist_bytes : Bool → Option Bytes → Disk → Disk × Bool
  persist_bytes checked none d = (d, false)
  persist_bytes checked (some b) d =
      let (d1, made) = mkdir_all d in if made then through_temp checked b d1 else (d1, false)

  unfoldable pub save : Bool → A → Disk → Disk × Bool
  unfolding persist_bytes through_temp replace_file fill_temp
  save checked a d = persist_bytes checked (encode a) d

  -- `persist`
  unfoldable pub persist : A → Disk → Disk × Bool
  persist a d = save true a d

  wrote_bytes : Option Bytes → Disk → Bool
  unfolding wrote
  wrote_bytes none d = false
  wrote_bytes (some b) d = wrote b (create_temp (mkdir_all d).0).0

  -- In the course of a save, Chmod and Write succeed.
  unfoldable pub written_whole : A → Disk → Bool
  unfolding wrote_bytes
  written_whole a d = wrote_bytes (encode a) d

  -- The file holds all of a value, and decodes to it.
  abbrev pub Holds : Disk → A → Type 0
  Holds d a = (b : Bytes) × (contents d ≡ some b) × (decode b ≡ some a)
