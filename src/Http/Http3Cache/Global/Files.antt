-- ===== src/Http/Http3Cache/Global/Files.antt =====
-- src/http/http3_cache.rs: pruning the cache touches the files of its layout only.
use fetch.Common.{
  In, ℕ, ◌≡◌, refl, Bool-cases, Option, true, false, ◌&&◌, some, none, inl, inr, List, [], ◌∷◌,
  Bytes, length, leb, ◌-◌,
}
use fetch.Common.Text.{&&-both}
use fetch.Http.Http3Cache.{ShardFile}
use fetch.Http.Http3Cache.Global.{
  FileType, is_dir, is_file, is_symlink, is_special, FileEntry, DirEntry, CacheDir, ShardSummary,
  type_is_dir, type_is_file, is_hex_name, is_shard_file_name, summary, file_summary, file_summaries,
  dir_summaries, all_summaries, collect_shard_summaries, expired_summaries, sort_by_use, excess,
  prune_global, max_shards,
}
use fetch.Http.Http3Cache.Global.Sorted.{
  Every, Every-mono, Every-append, Every-sort_by_use, Every-take, Every-expired_summaries,
}

type-is_dir : (t : Option FileType) → type_is_dir t ≡ true → t ≡ some is_dir
type-is_dir none h = cc
type-is_dir (some is_dir) h = refl
type-is_dir (some is_file) h = cc
type-is_dir (some is_symlink) h = cc
type-is_dir (some is_special) h = cc

type-is_file : (t : Option FileType) → type_is_file t ≡ true → t ≡ some is_file
type-is_file none h = cc
type-is_file (some is_file) h = refl
type-is_file (some is_dir) h = cc
type-is_file (some is_symlink) h = cc
type-is_file (some is_special) h = cc

-- A file that is one of the layout within its directory.
pub record FileOf (dir : Bytes) (files : List FileEntry) (path : Bytes × Bytes) : Type 0 where
  pub entry : FileEntry
  pub member : In entry files
  pub regular : entry.file_type ≡ some is_file
  pub here : path ≡ (dir, entry.name)
  pub named : is_shard_file_name entry.name dir ≡ true

-- A file of a directory whose name is two hexadecimal digits.
pub record ShardOf (entries : List DirEntry) (path : Bytes × Bytes) : Type 0 where
  pub shard_dir : DirEntry
  pub member : In shard_dir entries
  pub directory : shard_dir.file_type ≡ some is_dir
  pub named : is_hex_name shard_dir.name 2 ≡ true
  pub files : List FileEntry
  pub listed : shard_dir.entries ≡ some files
  pub file : FileOf shard_dir.name files path

-- A file that the cache's directory itself holds by way of directories that are no symbolic links.
pub record Stored (dir : CacheDir) (path : Bytes × Bytes) : Type 0 where
  pub directory : dir.file_type ≡ some is_dir
  pub entries : List DirEntry
  pub listed : dir.entries ≡ some entries
  pub shard : ShardOf entries path

file_summary-FileOf :
    (dir : Bytes) (entry : FileEntry) (files : List FileEntry) (now : ℕ)
    → In entry files
    → Every (λ s. FileOf dir files s.path) (file_summary dir entry now)
unfolding file_summary summary
file_summary-FileOf dir entry files now m =
    elim (Bool-cases (type_is_file entry.file_type && is_shard_file_name entry.name dir)) [
      | inr other ↦ rw other tt
      | inl both ↦
          let (t, n) =
            &&-both (type_is_file entry.file_type) (is_shard_file_name entry.name dir) both in
          let found : FileOf dir files (dir, entry.name) = record {
            entry = entry;
            member = m;
            regular = type-is_file entry.file_type t;
            here = refl;
            named = n;
          } in
          rw both (one_summary entry.shard found)
    ]
  where
    one_summary :
        (shard : Option ShardFile)
        → FileOf dir files (dir, entry.name)
        → Every
            (λ s. FileOf dir files s.path)
            (elim shard [ some shard ↦ summary dir entry.name shard now ∷ [] | none ↦ [] ])
    one_summary none found = tt
    one_summary (some shard) found = (found, tt)

file_summaries-FileOf :
    (dir : Bytes) (some_files files : List FileEntry) (now : ℕ)
    → ((entry : FileEntry) → In entry some_files → In entry files)
    → Every (λ s. FileOf dir files s.path) (file_summaries dir some_files now)
unfolding file_summaries
file_summaries-FileOf dir [] files now f = tt
file_summaries-FileOf dir (entry ∷ some_files) files now f =
    Every-append (λ s. FileOf dir files s.path) (file_summary dir entry now) _
      (file_summary-FileOf dir entry files now (f entry (inl refl)))
      (file_summaries-FileOf dir some_files files now (λ other m. f other (inr m)))

dir_summaries-ShardOf :
    (shard_dir : DirEntry) (entries : List DirEntry) (now : ℕ)
    → In shard_dir entries
    → Every (λ s. ShardOf entries s.path) (dir_summaries shard_dir now)
unfolding dir_summaries
dir_summaries-ShardOf shard_dir entries now m =
    elim (Bool-cases (type_is_dir shard_dir.file_type && is_hex_name shard_dir.name 2)) [
      | inr other ↦ rw other tt
      | inl both ↦
          let (t, n) =
            &&-both (type_is_dir shard_dir.file_type) (is_hex_name shard_dir.name 2) both in
          rw both (files_of shard_dir.entries refl (type-is_dir shard_dir.file_type t) n)
    ]
  where
    files_of :
        (listing : Option (List FileEntry))
        → shard_dir.entries ≡ listing
        → shard_dir.file_type ≡ some is_dir
        → is_hex_name shard_dir.name 2 ≡ true
        → Every
            (λ s. ShardOf entries s.path)
            (elim listing [ some files ↦ file_summaries shard_dir.name files now | none ↦ [] ])
    files_of none e t n = tt
    files_of (some files) e t n =
        Every-mono _
          (λ s found. record {
            shard_dir = shard_dir;
            member = m;
            directory = t;
            named = n;
            files = files;
            listed = e;
            file = found;
          })
          (file_summaries-FileOf shard_dir.name files files now (λ entry m. m))

all_summaries-ShardOf :
    (some_entries entries : List DirEntry) (now : ℕ)
    → ((shard_dir : DirEntry) → In shard_dir some_entries → In shard_dir entries)
    → Every (λ s. ShardOf entries s.path) (all_summaries some_entries now)
unfolding all_summaries
all_summaries-ShardOf [] entries now f = tt
all_summaries-ShardOf (shard_dir ∷ some_entries) entries now f =
    Every-append (λ s. ShardOf entries s.path) (dir_summaries shard_dir now) _
      (dir_summaries-ShardOf shard_dir entries now (f shard_dir (inl refl)))
      (all_summaries-ShardOf some_entries entries now (λ other m. f other (inr m)))

collect_shard_summaries-Stored :
    (dir : CacheDir) (now : ℕ) → Every (λ s. Stored dir s.path) (collect_shard_summaries dir now)
unfolding collect_shard_summaries
collect_shard_summaries-Stored dir now = elim (Bool-cases (type_is_dir dir.file_type)) [
  | inr other ↦ rw other tt
  | inl directory ↦ rw directory (entries_of dir.entries refl (type-is_dir dir.file_type directory))
]
  where
    entries_of :
        (listing : Option (List DirEntry))
        → dir.entries ≡ listing
        → dir.file_type ≡ some is_dir
        → Every
            (λ s. Stored dir s.path)
            (elim listing [ some entries ↦ all_summaries entries now | none ↦ [] ])
    entries_of none e t = tt
    entries_of (some entries) e t =
        Every-mono _
          (λ s found. record { directory = t; entries = entries; listed = e; shard = found })
          (all_summaries-ShardOf entries entries now (λ shard_dir m. m))

excess-Every :
    (P : ShardSummary → Type 0) (live : List ShardSummary) → Every P live → Every P (excess live)
unfolding excess
excess-Every P live h = elim (Bool-cases (leb (length live) max_shards)) [
  | inl few ↦ rw few tt
  | inr many ↦
      rw many
        (Every-take P (length live - max_shards) (sort_by_use live) (Every-sort_by_use P live h))
]

-- Only files of the cache's layout are removed: regular files, named by the hash's 64 hexadecimal
-- digits, in the directory of its first two, which no symbolic link leads to.
pub prune_global-Stored :
    (dir : CacheDir) (now : ℕ) → Every (λ s. Stored dir s.path) (prune_global dir now)
unfolding prune_global
prune_global-Stored dir now =
    let P : ShardSummary → Type 0 = λ s. Stored dir s.path in
    let summaries : List ShardSummary = collect_shard_summaries dir now in
    let found = collect_shard_summaries-Stored dir now in
    Every-append P (expired_summaries true summaries) (excess (expired_summaries false summaries))
      (Every-expired_summaries P true summaries found)
      (excess-Every P (expired_summaries false summaries)
        (Every-expired_summaries P false summaries found))
