-- ===== src/Http/Http3Cache/Global.antt =====
-- src/http/http3_cache.rs: pruning the whole cache. The directory is a tree of what the file system says
-- of each name; what is pruned is the list of the files that `remove_file` is called for, in order.
pub mod Files
pub mod Sorted
pub mod Removed
mod Tests
use fetch.Common.{
  ℕ, ◌+◌, ◌-◌, Bool, true, false, not, ◌&&◌, ◌||◌, Option, none, some, List, [], ◌∷◌, ◌++◌, Bytes,
  length, max, is_empty, take, leb, ◌==◌, if◌then◌else◌,
}
use fetch.Common.Text.{codes}
use fetch.Common.Utf8.{is_utf8}
use fetch.Http.Http3Cache.{StoredCandidate, ShardFile, prune_expired_candidates}

abbrev pub max_shards : ℕ
max_shards = 1024

pub data FileType : Type 0 where
  is_symlink : FileType
  is_dir : FileType
  is_file : FileType
  is_special : FileType

-- An entry of a directory: `file_type` is `none` where asking fails, and `shard` where the file is not
-- read or is not one.
pub record FileEntry : Type 0 where
  pub name : Bytes
  pub file_type : Option FileType
  pub shard : Option ShardFile

-- `entries` is `none` where the directory is not read.
pub record DirEntry : Type 0 where
  pub name : Bytes
  pub file_type : Option FileType
  pub entries : Option (List FileEntry)

pub record CacheDir : Type 0 where
  pub file_type : Option FileType
  pub entries : Option (List DirEntry)

-- The path is the name of the directory and the name of the file.
pub record ShardSummary : Type 0 where
  pub path : Bytes × Bytes
  pub expired : Bool
  pub last_used_at : ℕ

unfoldable pub is_ascii_hexdigit : ℕ → Bool
is_ascii_hexdigit c =
    (leb b'0' c && leb c b'9') || ((leb b'a' c && leb c b'f') || (leb b'A' c && leb c b'F'))

unfoldable pub all_hexdigits : Bytes → Bool
all_hexdigits [] = true
all_hexdigits (c ∷ cs) = is_ascii_hexdigit c && all_hexdigits cs

unfoldable pub is_hex_name : Bytes → ℕ → Bool
is_hex_name name len = is_utf8 name && ((length name == len) && all_hexdigits name)

unfoldable pub starts_with : Bytes → Bytes → Bool
starts_with text [] = true
starts_with [] (p ∷ prefix) = false
starts_with (c ∷ text) (p ∷ prefix) = (c == p) && starts_with text prefix

-- `strip_suffix`
unfoldable pub strip_suffix : Bytes → Bytes → Option Bytes
strip_suffix [] suffix = if is_empty suffix then some [] else none
strip_suffix (c ∷ text) suffix =
    let rest = strip_suffix text suffix in
    if (length (c ∷ text) == length suffix) && starts_with (c ∷ text) suffix
    then some []
    else elim rest [ some before ↦ some (c ∷ before) | none ↦ none ]

unfoldable pub is_shard_file_name : Bytes → Bytes → Bool
is_shard_file_name name prefix =
    (is_utf8 name && is_utf8 prefix) && elim (strip_suffix name (codes ".json")) [
      | some hash ↦ (length hash == 64) && (starts_with hash prefix && all_hexdigits hash)
      | none ↦ false
    ]

unfoldable pub max_last_used : List StoredCandidate → ℕ
max_last_used [] = 0
max_last_used (c ∷ candidates) = max c.last_used_at (max_last_used candidates)

abbrev pub type_is_file : Option FileType → Bool
type_is_file (some is_file) = true
type_is_file (some is_dir) = false
type_is_file (some is_symlink) = false
type_is_file (some is_special) = false
type_is_file none = false

abbrev pub type_is_dir : Option FileType → Bool
type_is_dir (some is_dir) = true
type_is_dir (some is_file) = false
type_is_dir (some is_symlink) = false
type_is_dir (some is_special) = false
type_is_dir none = false

unfoldable pub summary : Bytes → Bytes → ShardFile → ℕ → ShardSummary
summary dir name shard now =
    let candidates = prune_expired_candidates shard.candidates now in
    record {
      path = (dir, name);
      expired = is_empty candidates;
      last_used_at = max_last_used candidates;
    }

unfoldable pub file_summary : Bytes → FileEntry → ℕ → List ShardSummary
file_summary dir entry now =
    if type_is_file entry.file_type && is_shard_file_name entry.name dir
    then elim entry.shard [ some shard ↦ summary dir entry.name shard now ∷ [] | none ↦ [] ]
    else []

unfoldable pub file_summaries : Bytes → List FileEntry → ℕ → List ShardSummary
file_summaries dir [] now = []
file_summaries dir (entry ∷ files) now = file_summary dir entry now ++ file_summaries dir files now

unfoldable pub dir_summaries : DirEntry → ℕ → List ShardSummary
dir_summaries shard_dir now =
    if type_is_dir shard_dir.file_type && is_hex_name shard_dir.name 2
    then elim shard_dir.entries [ some files ↦ file_summaries shard_dir.name files now | none ↦ [] ]
    else []

unfoldable pub all_summaries : List DirEntry → ℕ → List ShardSummary
all_summaries [] now = []
all_summaries (shard_dir ∷ entries) now = dir_summaries shard_dir now ++ all_summaries entries now

unfoldable pub collect_shard_summaries : CacheDir → ℕ → List ShardSummary
collect_shard_summaries dir now =
    if type_is_dir dir.file_type
    then elim dir.entries [ some entries ↦ all_summaries entries now | none ↦ [] ]
    else []

-- `filter` and `retain` by `expired`.
unfoldable pub expired_summaries : Bool → List ShardSummary → List ShardSummary
expired_summaries wanted [] = []
expired_summaries wanted (s ∷ summaries) =
    let rest = expired_summaries wanted summaries in
    if wanted then if s.expired then s ∷ rest else rest else if s.expired then rest else s ∷ rest

-- `sort_by_key`, which keeps the order of equals.
unfoldable pub insert_by_use : ShardSummary → List ShardSummary → List ShardSummary
insert_by_use a [] = a ∷ []
insert_by_use a (b ∷ summaries) =
    let rest = insert_by_use a summaries in
    if leb a.last_used_at b.last_used_at then a ∷ (b ∷ summaries) else b ∷ rest

unfoldable pub sort_by_use : List ShardSummary → List ShardSummary
sort_by_use [] = []
sort_by_use (s ∷ summaries) = insert_by_use s (sort_by_use summaries)

-- The shards that are removed although they are in use: those behind the limit.
unfoldable pub excess : List ShardSummary → List ShardSummary
excess live =
    if leb (length live) max_shards then [] else take (length live - max_shards) (sort_by_use live)

-- The shards whose files are removed.
unfoldable pub prune_global : CacheDir → ℕ → List ShardSummary
prune_global dir now =
    let summaries = collect_shard_summaries dir now in
    expired_summaries true summaries ++ excess (expired_summaries false summaries)
