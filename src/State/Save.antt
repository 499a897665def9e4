-- ===== src/State/Save.antt =====
-- `Policies`, `save_policies` and `apply_and_save` of src/state.rs. The serializer is a parameter,
-- and what each system call does is an argument.
pub mod Laws
use v6proxy.Prelude.{
  ℕ, ◌+◌, ◌%◌, ◌^◌, Bool, true, false, [], Option, none, some, Result, ok, err, if◌then◌else◌,
}
use v6proxy.Prelude.Map.{Map}
use v6proxy.Text.{Text}
use v6proxy.Addr.{IpAddr}
use v6proxy.State.Delta.{AclDelta, empty_delta}
use v6proxy.State.Policy.{Binding}

pub record Policies : Type 0 where
  pub version : ℕ
  pub updated_at : ℕ
  pub bindings : Map IpAddr Binding
  pub domain_acl : AclDelta
  pub egress_acl : AclDelta

-- `Policies::default`, at the given time
abbrev pub default_policies : ℕ → Policies
default_policies now = record {
  version = 0;
  updated_at = now;
  bindings = [];
  domain_acl = empty_delta;
  egress_acl = empty_delta;
}

-- The state file and the temporary file beside it.
pub record Disk : Type 0 where
  pub file : Option Text
  pub tmp : Option Text

-- How `std::fs::write` ended: a failure leaves the temporary file in any condition.
pub data WriteResult : Type 0 where
  written : WriteResult
  write_failed : Option Text → WriteResult

-- What the system answers to the calls of one save.
pub record SaveIo : Type 0 where
  pub write : WriteResult
  pub open_ok : Bool
  pub sync_ok : Bool
  pub rename_ok : Bool

pub data SaveError : Type 0 where
  serialize_error write_error open_error sync_error rename_error : SaveError

-- From the written temporary file on: open, fsync, rename. Syncing the directory cannot fail the
-- save and changes neither file.
unfoldable pub finish_save : SaveIo → Disk → Result SaveError (Unit {0}) × Disk
finish_save io d =
    if io.open_ok
    then (if io.sync_ok
        then (if io.rename_ok
            then (ok tt, record { file = d.tmp; tmp = none })
            else (err rename_error, d))
        else (err sync_error, d))
    else (err open_error, d)

unfoldable pub write_tmp : SaveIo → Text → WriteResult → Disk → Result SaveError (Unit {0}) × Disk
unfolding finish_save
write_tmp io content written d = finish_save io (record d { tmp = some content })
write_tmp io content (write_failed left) d = (err write_error, record d { tmp = left })

-- A store: the policies that the proxy serves from, and the disk.
pub record Store : Type 0 where
  pub policies : Policies
  pub disk : Disk

unfoldable pub publish :
    Policies → Store → Result SaveError (Unit {0}) × Disk → Result SaveError Policies × Store
publish p s (ok done, d) = (ok p, record { policies = p; disk = d })
publish p s (err e, d) = (err e, record s { disk = d })

module _ (serialize : Policies → Option Text) where
  unfoldable pub save_policies : SaveIo → Disk → Policies → Result SaveError (Unit {0}) × Disk
  unfolding write_tmp
  save_policies io d p = elim (serialize p) [
    | none ↦ (err serialize_error, d)
    | some content ↦ write_tmp io content io.write d
  ]

  -- `version += 1` wraps at 64 bits; `now` is the time that the clock gives for `updated_at`.
  unfoldable pub apply_and_save :
      SaveIo → ℕ → (Policies → Policies) → Store → Result SaveError Policies × Store
  unfolding publish
  apply_and_save io now mutator s =
      let mutated = mutator s.policies in
      let p = record mutated { version = (mutated.version + 1) % 2 ^ 64; updated_at = now } in
      publish p s (save_policies io s.disk p)

-- `load_policies`: a missing file is the default, a file that does not parse is an error (`none`).
unfoldable pub load_policies : (Text → Option Policies) → ℕ → Disk → Option Policies
load_policies deserialize now d = elim d.file [
  | none ↦ some (default_policies now)
  | some content ↦ deserialize content
]
