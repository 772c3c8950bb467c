-- ===== src/Registry.antt =====
-- internal/registry/registry.go: how a reference is taken apart. The client is in Client.
pub mod Refs
pub mod Configured
pub mod Client
pub mod Tests
use orascout.Base.{
  ◌>>◌, ◌-◌, ltb, ◌==◌, if◌then◌else◌, take, drop, Result, reject_if, ok, Bytes, codes, is_empty,
}
use orascout.Strings.{trim_space, index_suc, last_index_suc}

pub data RefError : Type 0 where
  empty_ref no_repository : RefError

pub record Ref : Type 0 where
  pub host : Bytes
  pub path : Bytes
  pub tag : Bytes

-- The last lines of `splitRef`, from `at` and `tag`.
split_host : Bytes → Bytes → Result RefError Ref
split_host at tag = do
  reject_if (index_suc at b'/' == 0) no_repository
  ok (record {
    host = take (index_suc at b'/' - 1) at;
    path = drop (index_suc at b'/') at;
    tag = tag;
  })

-- `splitRef` behind its first line. Positions are counted from 1, so that 0 stands for Go's -1.
split_trimmed : Bytes → Result RefError Ref
split_trimmed r = do
  reject_if (is_empty r) empty_ref
  let sep = last_index_suc r b':'
  if ltb (index_suc r b'/') sep
      then split_host (take (sep - 1) r) (drop sep r)
      else split_host r (codes "latest")

-- `splitRef(ref)`
unfoldable pub split_ref : Bytes → Result RefError Ref
unfolding split_host split_trimmed
split_ref ref = split_trimmed (trim_space ref)
