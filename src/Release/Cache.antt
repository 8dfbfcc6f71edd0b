-- ===== src/Release/Cache.antt =====
-- internal/release/cache.go: the file of signed releases. encoding/json at `cacheFile` is the
-- parameter `CacheCodec`; the file is replaced by the steps of AtomicFile.
use dappnode_nexus_sdk.Prelude.{
  arith, ℕ, ◌*◌, ◌^◌, ◌≤◌, Bool, false, not, Option, none, some, List, [], ◌∷◌, ltb, ◌==◌,
  if◌then◌else◌, length, ◌≡◌, refl, inl, inr, Bool-cases, passed_ltb,
}
use mathlib.Core.Path.{subst}
use dappnode_nexus_sdk.Prelude.Bytes.{Bytes}
use dappnode_nexus_sdk.Prelude.Result.{Result, ok, err, reject}
use dappnode_nexus_sdk.Prelude.Time.{pos}
use dappnode_nexus_sdk.Jsonutil.{Reader, ReadLimitError, read_all_limited, read_all_limited_iff}
use dappnode_nexus_sdk.AtomicFile.{
  File, Files, Step, Faults, Outcome, replace_file, cache_steps, IsAtomic, EndsAs,
  cache_file-IsAtomic,
}
use dappnode_nexus_sdk.Release.{SignedRelease}

abbrev cache_schema_version : ℕ
cache_schema_version = 1

abbrev max_cache_bytes : ℕ
max_cache_bytes = 8 * 2 ^ 20

pub record CacheFile : Type 0 where
  pub schema_version : ℕ
  pub releases : List SignedRelease

pub record CacheCodec : Type 0 where
  pub marshal : CacheFile → Option Bytes
  pub unmarshal : Bytes → Option CacheFile

pub data LoadError : Type 0 where
  open_failed decode_failed bad_schema : LoadError
  read_failed : ReadLimitError → LoadError

pub data StoreError : Type 0 where
  empty_set encode_failed too_large no_directory : StoreError
  write_failed : Step → StoreError

-- What os.Open gives: no file, another failure, or the file.
pub data Opened : Type 0 where
  missing failing : Opened
  opened : Reader → Opened

abbrev decoded : Option CacheFile → Result LoadError (List SignedRelease)
decoded none = err decode_failed
decoded (some f) =
    reject (not (f.schema_version == cache_schema_version)) bad_schema (ok f.releases)

abbrev load_data : CacheCodec → Result ReadLimitError Bytes → Result LoadError (List SignedRelease)
load_data c (err e) = err (read_failed e)
load_data c (ok b) = decoded (c.unmarshal b)

-- Load
unfoldable pub load : CacheCodec → Opened → Result LoadError (List SignedRelease)
load c missing = ok []
load c failing = err open_failed
load c (opened r) = load_data c (read_all_limited r (pos max_cache_bytes))

abbrev stored : Result Step Unit → Result StoreError Unit
stored (ok u) = ok u
stored (err s) = err (write_failed s)

abbrev written : Outcome → Files × Result StoreError Unit
written o = (o.files, stored o.result)

abbrev store_data : Faults → Bool → Option Bytes → Files → Files × Result StoreError Unit
store_data x made none f = (f, err encode_failed)
store_data x made (some b) f =
    if ltb max_cache_bytes (length b)
    then (f, err too_large)
    else if not made
    then (f, err no_directory)
    else written (replace_file x (cache_steps b) f)

abbrev cache_file : List SignedRelease → CacheFile
cache_file entries = record { schema_version = cache_schema_version; releases = entries }

-- Store: `made` says whether os.MkdirAll succeeded.
unfoldable pub store :
    CacheCodec → Faults → Bool → List SignedRelease → Files → Files × Result StoreError Unit
store c x made [] f = (f, err empty_set)
store c x made (e ∷ es) f = store_data x made (c.marshal (cache_file (e ∷ es))) f

-- What os.Open gives of a file that can be read.
abbrev pub opened_of : Option File → Opened
opened_of none = missing
opened_of (some f) = opened (record { bytes = f.contents; failure = false })

-- What the cache relies on of encoding/json: a text that Marshal made reads back.
pub record IsCacheJson (c : CacheCodec) : Type 0 where
  pub decodes : (f : CacheFile) (b : Bytes) → c.marshal f ≡ some b → c.unmarshal b ≡ some f

-- After Store, the file holds the entries if it succeeded, and is as it was if it failed.
abbrev pub Kept :
    CacheCodec → List SignedRelease → Option File → Files × Result StoreError Unit → Type 0
Kept c entries before (f, ok u) = load c (opened_of f.target) ≡ ok entries
Kept c entries before (f, err e) = f.target ≡ before

module _ (c : CacheCodec) (json : IsCacheJson c) where
  load-stored :
      (entries : List SignedRelease) (b : Bytes) (o : Option File)
      → c.marshal (cache_file entries) ≡ some b
      → length b ≤ max_cache_bytes
      → o ≡ some (record { contents = b; mode = 0o644 })
      → load c (opened_of o) ≡ ok entries
  unfolding load
  load-stored entries b o m l e =
      let r : Reader = record { bytes = b; failure = false } in
      let read = (read_all_limited_iff r max_cache_bytes b (omega arith)).1 (refl, l, refl) in
      rw (e, read, json.decodes (cache_file entries) b m) refl

  written-Kept :
      (entries : List SignedRelease) (b : Bytes) (f : Files) (o : Outcome) (r : Result Step Unit)
      → c.marshal (cache_file entries) ≡ some b
      → length b ≤ max_cache_bytes
      → o.result ≡ r
      → IsAtomic f (record { contents = b; mode = 0o644 }) o
      → Kept c entries f.target (o.files, stored r)
  written-Kept entries b f o (ok u) m l e a = load-stored entries b o.files.target m l (
      subst (λ q. EndsAs f.target (record { contents = b; mode = 0o644 }) q o.files.target) e
        a.on_end)
  written-Kept entries b f o (err s) m l e a =
      subst (λ q. EndsAs f.target (record { contents = b; mode = 0o644 }) q o.files.target) e
        a.on_end

  store_data-Kept :
      (x : Faults) (made : Bool) (entries : List SignedRelease) (o : Option Bytes) (f : Files)
      → c.marshal (cache_file entries) ≡ o
      → Kept c entries f.target (store_data x made o f)
  store_data-Kept x made entries none f m = refl
  store_data-Kept x made entries (some b) f m = elim (Bool-cases (ltb max_cache_bytes (length b))) [
    | inl t ↦ rw t refl
    | inr t ↦ rw t (elim (Bool-cases made) [
      | inl u ↦
          let o = replace_file x (cache_steps b) f in
          rw u (
            written-Kept entries b f o o.result m (passed_ltb _ _ t) refl
              (cache_file-IsAtomic x b f))
      | inr u ↦ rw u refl
    ])
  ]

  -- Store writes a file from which Load gives the entries back, or fails and leaves the file that
  -- was there, whichever step fails.
  pub store-Kept :
      (x : Faults) (made : Bool) (entries : List SignedRelease) (f : Files)
      → Kept c entries f.target (store c x made entries f)
  unfolding store
  store-Kept x made [] f = refl
  store-Kept x made (e ∷ es) f =
      store_data-Kept x made (e ∷ es) (c.marshal (cache_file (e ∷ es))) f refl
