-- ===== src/Tests/Save.antt =====
-- Saving, of src/state.rs, with system calls that fail and that succeed.
use v6proxy.Prelude.{true, false, Option, none, some, [], ◌∷◌}
use v6proxy.Text.{Text}
use v6proxy.State.Save.{Policies, default_policies, SaveIo, written, Store, apply_and_save}
use v6proxy.State.Save.Laws.{Committed, apply_and_save_commits}

abbrev serialize : Policies → Option Text
serialize p = some (p.version ∷ p.updated_at ∷ [])

abbrev no_rename : SaveIo
no_rename = record { write = written; open_ok = true; sync_ok = true; rename_ok = false }

abbrev store : Store
store = record {
  policies = default_policies 5;
  disk = record { file = some (0 ∷ 5 ∷ []); tmp = none };
}

abbrev unchanged : Policies → Policies
unchanged p = p

apply_and_save_commits_example :
    Committed serialize 7 unchanged store
      (apply_and_save serialize no_rename 7 unchanged store).0
      (apply_and_save serialize no_rename 7 unchanged store).1
apply_and_save_commits_example = apply_and_save_commits serialize no_rename 7 unchanged store
