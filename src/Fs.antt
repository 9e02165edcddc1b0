-- ===== src/Fs.antt =====
-- `std::fs` as the tools see it: one snapshot of a directory tree, in the order in which `read_dir`
-- lists it. `DirEntry::metadata` does not follow symbolic links, so the tree is finite.
use pantheon_tools_catalog.Prelude.{ℕ, Bool, true, false, Option, none, some, List, and_then}
use pantheon_tools_catalog.Text.{Text}

pub data FileKind : Type 0 where
  file dir symlink other : FileKind

-- A modification time, before or after the Unix epoch.
pub data SystemTime : Type 0 where
  before_epoch : SystemTime
  since_epoch : ℕ → SystemTime

pub record Metadata : Type 0 where
  pub kind : FileKind
  pub len : ℕ
  pub modified : Option SystemTime

abbrev pub is_dir : Metadata → Bool
is_dir m = elim m.kind [ dir ↦ true | _ ↦ false ]

abbrev pub is_file : Metadata → Bool
is_file m = elim m.kind [ file ↦ true | _ ↦ false ]

-- One `read` on an open file: the bytes it gave, or an error.
pub data Read : Type 0 where
  bytes : List ℕ → Read
  io_error : Read

-- `fs::read` with `str::from_utf8`: an error, bytes that are no UTF-8, or a text.
pub data Contents : Type 0 where
  unreadable binary : Contents
  text : Text → Contents

pub record DirEntry : Type 0 where
  pub path : Text
  pub file_name : Text
  -- `entry.metadata()`
  pub metadata : Option Metadata
  -- `fs::metadata(path)`, a second look at the file
  pub stat : Option Metadata
  -- `File::open(path)` and the results of the reads on it; past them a read gives 0 bytes
  pub open_reads : Option (List Read)
  pub contents : Contents

-- The result of `read_dir`, and its entries. `failed` is an entry that is an `Err`, which
-- `flatten` skips. The directory in an `entry` is what `read_dir` gives for its path.
mutual
  pub data Dir : Type 0 where
    unlisted : Dir
    listed : Entries → Dir

  pub data Entries : Type 0 where
    end : Entries
    failed : Entries → Entries
    entry : DirEntry → Dir → Entries → Entries

since : SystemTime → Option ℕ
since before_epoch = none
since (since_epoch s) = some s

-- `meta.modified().ok().and_then(|t| t.duration_since(UNIX_EPOCH).ok()).map(|d| d.as_secs())`
unfoldable pub mtime_unix : Metadata → Option ℕ
unfolding since
mtime_unix m = and_then m.modified since

-- What a tool can ask of a path that its arguments name.
pub record World : Type 0 where
  pub path_exists : Text → Bool
  pub path_is_dir : Text → Bool
  pub read_dir : Text → Dir
  -- the file at a path, for the tools that read one file
  pub file_at : Text → DirEntry
