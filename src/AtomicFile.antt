-- ===== src/AtomicFile.antt =====
-- The write-to-a-temporary-file-and-rename sequence of internal/ledger/store.go (writeFileAtomic)
-- and of internal/release/cache.go (FileCache.Store), as a list of system calls each of which may
-- fail. A crash is a stop of the process at any of the states that the sequence passes through. It
-- loses nothing that was written, so that Sync changes nothing; a loss of power is not modelled.
use native.Mathlib.Omega.{arith}
use dappnode_nexus_sdk.Prelude.{
  ℕ, Bool, List, [], ◌∷◌, ◌++◌, Option, none, some, ◌≡◌, ◌⊎◌, if◌then◌else◌, take, All,
}
use dappnode_nexus_sdk.Prelude.Bytes.{Bytes}
use dappnode_nexus_sdk.Prelude.Result.{Result, ok, err}

pub record File : Type 0 where
  pub contents : Bytes
  pub mode : ℕ

-- The two files of the directory that matter: the path to replace, and the temporary file.
pub record Files : Type 0 where
  pub target : Option File
  pub temporary : Option File

-- One system call on the temporary file. `write` is given all the bytes; a failed write may have
-- written some of them.
pub data Step : Type 0 where
  create : Step
  chmod : ℕ → Step
  write : Bytes → Step
  sync : Step
  close : Step
  rename : Step

abbrev pub on_temporary : (File → File) → Option File → Option File
on_temporary f none = none
on_temporary f (some t) = some (f t)

pub move_over : Option File → Files → Files
move_over none f = f
move_over (some t) f = record { target = some t; temporary = none }

-- What a system call that succeeds does to the directory.
unfoldable pub apply : Step → Files → Files
unfolding move_over
apply create f = record f { temporary = some (record { contents = []; mode = 0o600 }) }
apply (chmod m) f = record f { temporary = on_temporary (λ t. record t { mode = m }) f.temporary }
apply (write b) f = record f {
  temporary = on_temporary (λ t. record t { contents = b }) f.temporary;
}
apply sync f = f
apply close f = f
apply rename f = move_over f.temporary f

-- What a call that fails leaves: only a write can have had a part of its effect.
unfoldable pub spoil : ℕ → Step → Files → Files
spoil n (write b) f = record f {
  temporary = on_temporary (λ t. record t { contents = take n b }) f.temporary;
}
spoil n create f = f
spoil n (chmod m) f = f
spoil n sync f = f
spoil n close f = f
spoil n rename f = f

-- The deferred os.Remove of the temporary name.
abbrev pub remove_temporary : Files → Files
remove_temporary f = record f { temporary = none }

pub record Outcome : Type 0 where
  pub result : Result Step (Unit {0})
  pub files : Files
  -- The states between the calls, in order.
  pub passed : List Files

-- Faults decide which call fails, and how much of a failed write reached the disk.
pub record Faults : Type 0 where
  pub fails : Step → Bool
  pub written : ℕ

-- `if err := call(); err != nil { return err }` for each call, under the deferred removal.
unfoldable pub run_steps : Faults → List Step → Files → List Files → Outcome
unfolding apply spoil
run_steps x [] f seen = record {
  result = ok tt;
  files = remove_temporary f;
  passed = seen ++ f ∷ [];
}
run_steps x (s ∷ ss) f seen =
    let rest = run_steps x ss (apply s f) (seen ++ f ∷ []) in
    if x.fails s
    then record {
      result = err s;
      files = remove_temporary (spoil x.written s f);
      passed = seen ++ f ∷ spoil x.written s f ∷ [];
    }
    else rest

-- os.CreateTemp is made before the removal is deferred.
unfoldable pub replace_file : Faults → List Step → Files → Outcome
unfolding run_steps
replace_file x steps f =
    if x.fails create
    then record { result = err create; files = f; passed = f ∷ [] }
    else run_steps x steps (apply create f) (f ∷ [])

-- writeFileAtomic(path, data)
abbrev pub state_steps : Bytes → List Step
state_steps b = chmod 0o600 ∷ write b ∷ sync ∷ close ∷ rename ∷ []

-- The part of FileCache.Store behind the encoding.
abbrev pub cache_steps : Bytes → List Step
cache_steps b = write b ∷ sync ∷ close ∷ chmod 0o644 ∷ rename ∷ []

-- The target is the old file or the whole new one.
abbrev pub OldOrNew : Option File → File → Files → Type 0
OldOrNew old t f = (f.target ≡ old) ⊎ (f.target ≡ some t)

-- What the target is in the end: the new file after a success, and untouched after a failure.
abbrev pub EndsAs : Option File → File → Result Step Unit → Option File → Type 0
EndsAs old t (ok u) target = target ≡ some t
EndsAs old t (err s) target = target ≡ old

-- What the caller is promised of the sequence that starts in `f` and is to leave the file `t`:
-- on success the new file is there; on failure the old one is untouched; every state on the way
-- has one of the two; and the temporary file is gone, or as it was.
pub record IsAtomic (f : Files) (t : File) (o : Outcome) : Type 0 where
  pub on_end : EndsAs f.target t o.result o.files.target
  pub on_crash : All (OldOrNew f.target t) o.passed
  pub cleaned : (o.files.temporary ≡ none) ⊎ (o.files.temporary ≡ f.temporary)

-- The steps of writeFileAtomic, whichever of them fails, and stopped anywhere, replace the file by
-- the whole new one or leave the old one, and remove the temporary file unless it could not be made.
pub state_file-IsAtomic :
    (x : Faults) (b : Bytes) (f : Files)
    → IsAtomic f (record { contents = b; mode = 0o600 }) (replace_file x (state_steps b) f)
unfolding replace_file
state_file-IsAtomic x b f = record {
  on_end = ground arith;
  on_crash = ground arith;
  cleaned = ground arith;
}

-- The steps of FileCache.Store do the same with the cache file.
pub cache_file-IsAtomic :
    (x : Faults) (b : Bytes) (f : Files)
    → IsAtomic f (record { contents = b; mode = 0o644 }) (replace_file x (cache_steps b) f)
unfolding replace_file
cache_file-IsAtomic x b f = record {
  on_end = ground arith;
  on_crash = ground arith;
  cleaned = ground arith;
}
