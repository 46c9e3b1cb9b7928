-- ===== src/Server/Files.antt =====
-- The static files of internal/server/server.go: the last case of the handler.
use zth_sre.Prelude.{
  String, Bool, true, false, ◌||◌, not, Option, none, some, if◌then◌else◌, ◌==◌, String_eq,
}
use zth_sre.Prelude.Strings.{trim_prefix, ext}

-- What a Stat finds: a regular file, something else, no file (os.IsNotExist), or another error.
pub data Found : Type 0 where
  regular irregular missing denied : Found

-- The opened root: Stat of a name, and what Open and Stat of "index.html" find.
pub record Root : Type 0 where
  pub stat : String → Found
  pub index : Found

pub data Page : Type 0 where
  -- The file server is asked for the request's path.
  file : String → Page
  index : Page
  no_page : Page

abbrev pub is_regular : Found → Bool
is_regular regular = true
is_regular _ = false

abbrev is_missing : Found → Bool
is_missing missing = true
is_missing _ = false

abbrev name_of : String → String
name_of path = let name = trim_prefix path "/" in if name == "" then "index.html" else name

unfoldable pub page_in : Root → String → Page
page_in root path =
    let found = root.stat (name_of path) in
    if is_regular found
    then file (name_of path)
    else if not (is_missing found) || not (ext (name_of path) == "")
    then no_page
    else if is_regular root.index
    then index
    else no_page

-- `root == nil` where the directory does not exist.
unfoldable pub static_page : Option Root → String → Page
unfolding page_in
static_page none path = no_page
static_page (some root) path = page_in root path
