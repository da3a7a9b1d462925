-- ===== src/Http/Http3Cache/Global/Tests.antt =====
-- src/http/http3_cache.rs: a cache with a shard in use, an expired one and files of others.
use fetch.Common.{ℕ, ◌≡◌, refl, true, some, List, [], ◌∷◌, ◌++◌, Bytes, replicate}
use fetch.Common.Text.{codes}
use fetch.Common.Utf8.{is_utf8}
use fetch.Http.Http3Cache.{ShardFile, prune_expired_candidates, retain}
use fetch.Http.Http3Cache.Global.{
  FileType, is_dir, is_file, is_symlink, FileEntry, DirEntry, CacheDir, ShardSummary,
  is_ascii_hexdigit, all_hexdigits, is_hex_name, starts_with, strip_suffix, is_shard_file_name,
  max_last_used, summary, file_summary, file_summaries, dir_summaries, all_summaries,
  collect_shard_summaries, expired_summaries, insert_by_use, sort_by_use, excess, prune_global,
}
use fetch.Http.Http3Cache.Global.Sorted.{Every}
use fetch.Http.Http3Cache.Global.Removed.{Pruned, prune_global-Pruned}
use fetch.Http.Http3Cache.Global.Files.{Stored, prune_global-Stored}

abbrev until : ℕ → ShardFile
until expires_at = record {
  version = 1;
  origin = codes "o";
  resolver_key = codes "r";
  candidates =
      record {
        source = codes "https";
        alt_host = codes "a";
        alt_port = 443;
        priority = some 1;
        expires_at = expires_at;
        learned_at = 10;
        last_used_at = 20;
      }
      ∷ [];
}

abbrev named : ℕ → Bytes
named digit = codes "a7" ++ replicate 62 digit ++ codes ".json"

abbrev file : Bytes → FileType → ℕ → FileEntry
file name file_type expires_at = record {
  name = name;
  file_type = some file_type;
  shard = some (until expires_at);
}

abbrev shard_dir : FileType → DirEntry
shard_dir file_type = record {
  name = codes "a7";
  file_type = some file_type;
  entries = some (
      file (named b'0') is_file 100
      ∷ (file (named b'1') is_file 900
          ∷ (file (named b'2') is_symlink 100 ∷ (file (codes "other.json") is_file 100 ∷ []))));
}

abbrev dir : CacheDir
dir = record {
  file_type = some is_dir;
  entries = some (shard_dir is_dir ∷ (shard_dir is_symlink ∷ []));
}

abbrev gone : ShardSummary
gone = record { path = (codes "a7", named b'0'); expired = true; last_used_at = 0 }

only_expired : prune_global dir 500 ≡ gone ∷ []
unfolding prune_global excess sort_by_use insert_by_use expired_summaries collect_shard_summaries
    all_summaries dir_summaries file_summaries file_summary summary max_last_used is_shard_file_name
    strip_suffix starts_with is_hex_name all_hexdigits is_ascii_hexdigit is_utf8
    prune_expired_candidates retain
only_expired = refl

prune_global-Pruned_example :
    (kept : List ShardSummary) × Pruned
      (collect_shard_summaries dir 500)
      (prune_global dir 500)
      kept
prune_global-Pruned_example = prune_global-Pruned dir 500

prune_global-Stored_example : Every (λ s. Stored dir s.path) (prune_global dir 500)
prune_global-Stored_example = prune_global-Stored dir 500
