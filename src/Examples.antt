-- ===== src/Examples.antt =====
-- Concrete inputs: a JSON type, a hash, a directory tree and a host, and each theorem applied to them.
mod Files
mod Reports
mod Hosts
mod Checks
mod Services
mod Snapshots
mod Logs
mod Policies
mod Endpoints
mod Queries
use pantheon_tools_catalog.Prelude.{
  ℕ, ◌+◌, ◌%◌, ◌≡◌, refl, Bool, true, false, Option, none, some, List, [], ◌∷◌, ◌++◌, append-nil,
  append_assoc, foldl, if◌then◌else◌,
}
use pantheon_tools_catalog.Text.{Text, codes, text_eq}
use pantheon_tools_catalog.Serde.{Serde}
use pantheon_tools_catalog.Hash.{Hasher, IsStreaming}
use pantheon_tools_catalog.Fs.{
  Dir, listed, Entries, end, entry, failed, unlisted, DirEntry, Metadata, FileKind, file, dir,
  since_epoch, Read, bytes, text, World,
}

mutual
  pub data Json : Type 0 where
    null : Json
    num : ℕ → Json
    str : Text → Json
    array : Items → Json
    object : Members → Json

  pub data Items : Type 0 where
    no_items : Items
    item : Json → Items → Items

  pub data Members : Type 0 where
    no_members : Members
    member : Text → Json → Members → Members

abbrev items : Items → List Json
items no_items = []
items (item v vs) = v ∷ items vs

abbrev lookup : Text → Members → Option Json
lookup k no_members = none
lookup k (member j v ms) = if text_eq j k then some v else lookup k ms

-- An array of one entry, and the object that names the file `/base.json`.
abbrev pub base_entries : Json
base_entries = array (
    item
      (object (
        member (codes "path") (str (codes "/work/a.txt"))
          (member (codes "sha256") (str (codes "00")) no_members)))
      no_items)

abbrev pub base_file : Json
base_file = object (member (codes "path") (str (codes "/base.json")) no_members)

-- Every text is read as the array.
abbrev pub json : Serde
json = record {
  Value = Json;
  from_str = λ _. some base_entries;
  get = λ v k. elim v [ object ms ↦ lookup k ms | _ ↦ none ];
  as_str = λ v. elim v [ str s ↦ some s | _ ↦ none ];
  as_u64 = λ v. elim v [ num n ↦ some n | _ ↦ none ];
  as_bool = λ _. none;
  as_array = λ v. elim v [ array vs ↦ some (items vs) | _ ↦ none ];
  is_object = λ v. elim v [ object _ ↦ true | _ ↦ false ];
  is_null = λ v. elim v [ null ↦ true | _ ↦ false ];
}

-- The state is the bytes so far, and the digest their sum.
abbrev pub hasher : Hasher
hasher = record {
  State = List ℕ;
  new = [];
  update = λ s b. s ++ b;
  finalize = λ s. foldl (λ a b. (a + b) % 256) 0 s ∷ [];
}

pub hasher-IsStreaming : IsStreaming hasher
hasher-IsStreaming = record {
  update_nil = λ s. append-nil s;
  update_append = λ s a b. append_assoc s a b;
}

abbrev pub meta_of : FileKind → ℕ → Metadata
meta_of k n = record { kind = k; len = n; modified = some (since_epoch 1700000000) }

abbrev pub file_entry : Text → Text → List ℕ → DirEntry
file_entry path name bs = record {
  path = path;
  file_name = name;
  metadata = some (meta_of file 3);
  stat = some (meta_of file 3);
  open_reads = some (bytes bs ∷ bytes (7 ∷ []) ∷ bytes [] ∷ []);
  contents = text bs;
}

abbrev pub a_txt : DirEntry
a_txt = file_entry (codes "/work/a.txt") (codes "a.txt") (1 ∷ 2 ∷ [])

abbrev pub b_txt : DirEntry
b_txt = file_entry (codes "/work/sub/b.txt") (codes "b.txt") (4 ∷ [])

abbrev pub sub_dir : DirEntry
sub_dir = record {
  path = codes "/work/sub";
  file_name = codes "sub";
  metadata = some (meta_of dir 0);
  stat = some (meta_of dir 0);
  open_reads = none;
  contents = text [];
}

-- a directory that holds a directory, and a file
abbrev pub tree : Dir
tree =
    listed (entry sub_dir (listed (entry b_txt unlisted end)) (failed (entry a_txt unlisted end)))

abbrev pub world : World
world = record {
  path_exists = λ _. true;
  path_is_dir = λ _. true;
  read_dir = λ _. tree;
  file_at = λ _. a_txt;
}
