-- ===== src/State/Save/Laws.antt =====
-- Saving is all or nothing, and the state file always holds what the proxy serves from.
use v6proxy.Prelude.{
  ℕ, ◌+◌, ◌%◌, ◌^◌, ◌≡◌, refl, ◌∙◌, sym, Option, some, Result, ok, err, Option-cases, Bool-cases,
  inl, inr,
}
use v6proxy.Text.{Text}
use v6proxy.State.Save.{
  Policies, Disk, WriteResult, written, write_failed, SaveIo, SaveError, Store, save_policies,
  apply_and_save, load_policies, publish, write_tmp, finish_save,
}

-- The state file holds the serialized policies that are served.
abbrev pub IsPersisted : (Policies → Option Text) → Store → Type 0
IsPersisted serialize s = serialize s.policies ≡ s.disk.file

-- What a save may do, by its result: the content is in the file, or the file is untouched.
abbrev Saved : Text → Disk → Result SaveError (Unit {0}) → Disk → Type 0
Saved content d (ok done) d' = d'.file ≡ some content
Saved content d (err e) d' = d'.file ≡ d.file

finish_save_saves :
    (io : SaveIo) (content : Text) (d : Disk)
    → d.tmp ≡ some content
    → Saved content d (finish_save io d).0 (finish_save io d).1
unfolding finish_save
finish_save_saves io content d in_tmp = elim (Bool-cases io.open_ok) [
  | inr e ↦ rw e refl
  | inl e ↦ elim (Bool-cases io.sync_ok) [
    | inr f ↦ rw (e, f) refl
    | inl f ↦ elim (Bool-cases io.rename_ok) [
      | inr g ↦ rw (e, f, g) refl
      | inl g ↦ rw (e, f, g) in_tmp
    ]
  ]
]

write_tmp_saves :
    (io : SaveIo) (content : Text) (w : WriteResult) (d : Disk)
    → Saved content d (write_tmp io content w d).0 (write_tmp io content w d).1
unfolding write_tmp
write_tmp_saves io content written d =
    finish_save_saves io content (record d { tmp = some content }) refl
write_tmp_saves io content (write_failed left) d = refl

-- What `apply_and_save` may do, by its result.
abbrev pub Committed :
    (Policies → Option Text)
    → ℕ
    → (Policies → Policies)
    → Store
    → Result SaveError Policies
    → Store
    → Type 0
Committed serialize now mutator s (ok p) s' =
    (s'.policies ≡ p)
    × (serialize p ≡ s'.disk.file)
    × (p ≡ record (mutator s.policies) {
      version = ((mutator s.policies).version + 1) % 2 ^ 64;
      updated_at = now;
    })
Committed serialize now mutator s (err e) s' =
    (s'.policies ≡ s.policies) × (s'.disk.file ≡ s.disk.file)

-- The mutated policies with their next version and time.
abbrev pub next_policies : (Policies → Policies) → ℕ → Store → Policies
next_policies mutator now s = record (mutator s.policies) {
  version = ((mutator s.policies).version + 1) % 2 ^ 64;
  updated_at = now;
}

module _ (serialize : Policies → Option Text) (io : SaveIo) where
  abbrev Kept : Policies → Disk → Result SaveError (Unit {0}) → Disk → Type 0
  Kept p d (ok done) d' = serialize p ≡ d'.file
  Kept p d (err e) d' = d'.file ≡ d.file

  Kept-of_Saved :
      (p : Policies) (content : Text) (d : Disk) (r : Result SaveError (Unit {0})) (d' : Disk)
      → serialize p ≡ some content
      → Saved content d r d'
      → Kept p d r d'
  Kept-of_Saved p content d (ok done) d' e saved = e ∙ sym saved
  Kept-of_Saved p content d (err x) d' e saved = saved

  save_policies_keeps :
      (p : Policies) (d : Disk)
      → Kept p d (save_policies serialize io d p).0 (save_policies serialize io d p).1
  unfolding save_policies
  save_policies_keeps p d = elim (Option-cases (serialize p)) [
    | inl e ↦ rw (save_policies, e) refl
    | inr (content, e) ↦
        rw (save_policies, e)
          (Kept-of_Saved p content d (write_tmp io content io.write d).0
            (write_tmp io content io.write d).1 e (write_tmp_saves io content io.write d))
  ]

  module _ (now : ℕ) (mutator : Policies → Policies) (s : Store) where
    publish_commits :
        (r : Result SaveError (Unit {0}) × Disk)
        → Kept (next_policies mutator now s) s.disk r.0 r.1
        → Committed serialize now mutator s
            (publish (next_policies mutator now s) s r).0
            (publish (next_policies mutator now s) s r).1
    unfolding publish
    publish_commits (ok done, d) kept = (refl, kept, refl)
    publish_commits (err e, d) kept = (refl, kept)

    -- Whichever system call fails: on success the new policies, with the next version and the time,
    -- are served and are in the state file; on failure the served policies and the state file are
    -- what they were.
    pub apply_and_save_commits :
        Committed serialize now mutator s
          (apply_and_save serialize io now mutator s).0
          (apply_and_save serialize io now mutator s).1
    unfolding apply_and_save
    apply_and_save_commits =
        publish_commits (save_policies serialize io s.disk (next_policies mutator now s))
          (save_policies_keeps (next_policies mutator now s) s.disk)

    IsPersisted-of_Committed :
        (r : Result SaveError Policies) (s' : Store)
        → IsPersisted serialize s
        → Committed serialize now mutator s r s'
        → IsPersisted serialize s'
    IsPersisted-of_Committed (ok p) s' h (e, f, g) = rw e f
    IsPersisted-of_Committed (err x) s' h (e, f) = rw (e, f) h

    -- If the state file holds the served policies, it holds them after `apply_and_save`, whichever
    -- system call fails.
    pub apply_and_save-IsPersisted :
        IsPersisted serialize s
        → IsPersisted serialize (apply_and_save serialize io now mutator s).1
    apply_and_save-IsPersisted h =
        IsPersisted-of_Committed (apply_and_save serialize io now mutator s).0
          (apply_and_save serialize io now mutator s).1 h apply_and_save_commits

-- When the state file holds the served policies, and their serialized form reads back as them, a
-- restart loads the policies that were served.
pub load_policies_served :
    (serialize : Policies → Option Text) (deserialize : Text → Option Policies) (now : ℕ)
    (s : Store) (content : Text)
    → serialize s.policies ≡ some content
    → deserialize content ≡ some s.policies
    → IsPersisted serialize s
    → load_policies deserialize now s.disk ≡ some s.policies
unfolding load_policies
load_policies_served serialize deserialize now s content e round_trip h = rw (sym h, e) round_trip
