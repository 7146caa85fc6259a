-- ===== src/Maintenance/Colour.antt =====
-- cmd/plakar/subcommands/maintenance/maintenance.go: what `colourPass` marks.
use plakar.Prelude.{
  ℕ, ◌+◌, ◌≡◌, refl, ◌∙◌, inl, inr, Bool, true, false, List, [], ◌∷◌, ltb, if◌then◌else◌,
  Bool-cases, All, Result, ok, err, panic, stuck,
}
use plakar.Wire.{Bytes}
use plakar.Resources.{rt_packfile}
use plakar.Caching.Database.{LevelDb}
use plakar.Caching.StateCache.{StateCache}
use plakar.Caching.Maintenance
use plakar.Maintenance.{among, Repository, colour, colour_pass, with_orphans, set_of}
use plakar.State.Exec.{Exec, pure, ◌>>=◌, ◌>>◌, continue}
use plakar.State.Local.{LocalState}
use plakar.State.Updates.{delete_resource}
use plakar.State.Stream.{serialize_to_stream}

module _ {S A B : Type 0} where
  -- Steps that only read leave the state as it is.
  reads-continue :
      (r : Result A) (f : A → Exec S B) (s : S) → ((a : A) → (f a s).0 ≡ s) → (continue r f s).0 ≡ s
  reads-continue (ok a) f s h = h a
  reads-continue (err e) f s h = refl
  reads-continue panic f s h = refl
  reads-continue stuck f s h = refl

reads-if :
    {S A : Type 0} (b : Bool) (m n : Exec S A) (s : S)
    → (m s).0 ≡ s
    → (n s).0 ≡ s
    → ((if b then m else n) s).0 ≡ s
reads-if true m n s h k = h
reads-if false m n s h k = k

with_orphans-reads :
    {S : Type 0} (repo : Repository) (cutoff : ℕ) (ps set : List Bytes) (s : S)
    → (with_orphans repo cutoff ps set s).0 ≡ s
unfolding with_orphans
with_orphans-reads repo cutoff [] set s = refl
with_orphans-reads repo cutoff (p ∷ more) set s =
    let go = λ (set : List Bytes). with_orphans-reads repo cutoff more set s in
    reads-if (among p set) _ _ s (go set) (
      reads-continue (repo.has_deleted_packfile p) _ s λ deleted. reads-if deleted _ _ s (go set) (
        reads-continue (repo.packfile_before cutoff p) _ s
          λ orphan. reads-if orphan _ _ s (go (p ∷ set)) (go set)))

-- `DeleteResource` of one packfile after the other.
unfoldable pub delete_all :
    {C : Type 0} → StateCache C → ℕ → List Bytes → Exec (LocalState C) (Unit {0})
delete_all i now [] = pure tt
delete_all i now (p ∷ ps) = do delete_resource i now rt_packfile p; delete_all i now ps

module _ {D C : Type 0} (db : LevelDb D) (repo : Repository) (i : StateCache C) (now : ℕ)
    (d : D) where
  -- A packfile that no snapshot in the cache uses and that is not marked yet.
  pub record Unused (p : Bytes) : Type 0 where
    pub no_user : Maintenance.has_packfile db p d ≡ false
    pub not_marked : repo.has_deleted_packfile p ≡ ok false

  abbrev pub Marks : LocalState C → LocalState C → Type 0
  Marks ls ls' = (ps : List Bytes) × All Unused ps × (ls' ≡ (delete_all i now ps ls).0)

  counted : {S : Type 0} (r : Result ℕ) (s : S) → (continue r (λ n. pure (n + 1)) s).0 ≡ s
  counted (ok n) s = refl
  counted (err e) s = refl
  counted panic s = refl
  counted stuck s = refl

  colour-Marks : (ps : List Bytes) (ls : LocalState C) → Marks ls (colour db repo i now d ps ls).0
  unfolding colour delete_all
  colour-Marks [] ls = ([], tt, refl)
  colour-Marks (p ∷ more) ls = elim (Bool-cases (Maintenance.has_packfile db p d)) [
    | inl used ↦ rw used (colour-Marks more ls)
    | inr unused ↦
        rw unused (asked (λ s. colour-Marks more s) unused (repo.has_deleted_packfile p) refl)
  ]
    where
      -- What is left to do for `p` and the rest, and what it does, by the result of `DeleteResource`.
      rest : LocalState C × Result (Unit {0}) → LocalState C
      rest r = (continue r.1 (λ _. colour db repo i now d more >>= λ n. pure (n + 1)) r.0).0

      marked :
          ((s : LocalState C) → Marks s (colour db repo i now d more s).0)
          → (r : LocalState C × Result (Unit {0}))
          → (ps : List Bytes) × All Unused ps
            × (rest r ≡ (continue r.1 (λ _. delete_all i now ps) r.0).0)
      marked go (s, ok u) =
          let (ps, a, e) = go s in
          (ps, a, counted (colour db repo i now d more s).1 (colour db repo i now d more s).0 ∙ e)
      marked go (s, err e) = ([], tt, refl)
      marked go (s, panic) = ([], tt, refl)
      marked go (s, stuck) = ([], tt, refl)

      asked :
          ((s : LocalState C) → Marks s (colour db repo i now d more s).0)
          → Maintenance.has_packfile db p d ≡ false
          → (r : Result Bool) → repo.has_deleted_packfile p ≡ r
          → Marks ls
              (continue r
                (λ deleted.
                  if deleted
                  then colour db repo i now d more
                  else (delete_resource i now rt_packfile p
                      >> (colour db repo i now d more >>= λ n. pure (n + 1))))
                ls).0
      asked go unused (ok true) e = go ls
      asked go unused (ok false) e =
          let (ps, a, m) = marked go (delete_resource i now rt_packfile p ls) in
          (p ∷ ps, (record { no_user = unused; not_marked = e }, a), m)
      asked go unused (err x) e = ([], tt, refl)
      asked go unused panic e = ([], tt, refl)
      asked go unused stuck e = ([], tt, refl)

  Marks-continue :
      {A B : Type 0} (r : Result A) (f : A → Exec (LocalState C) B) (ls : LocalState C)
      → ((a : A) → Marks ls (f a ls).0)
      → Marks ls (continue r f ls).0
  unfolding delete_all
  Marks-continue (ok a) f ls h = h a
  Marks-continue (err e) f ls h = ([], tt, refl)
  Marks-continue panic f ls h = ([], tt, refl)
  Marks-continue stuck f ls h = ([], tt, refl)

  -- What `colourPass` does once it knows how many packfiles it marked: it only reads the state.
  finish : (Bytes → Result (Unit {0})) → ℕ → Exec (LocalState C) (Unit {0})
  finish put_state n =
      if ltb 0 n then (λ ls. (ls, put_state (serialize_to_stream i ls))) else pure tt

  finish-reads :
      (put_state : Bytes → Result (Unit {0})) (n : ℕ) (ls : LocalState C)
      → (finish put_state n ls).0 ≡ ls
  unfolding finish
  finish-reads put_state n ls =
      reads-if (ltb 0 n) (λ s. (s, put_state (serialize_to_stream i s))) (pure tt) ls refl refl

  colour-finish-Marks :
      (put_state : Bytes → Result (Unit {0})) (ps : List Bytes) (ls : LocalState C)
      → Marks ls ((colour db repo i now d ps >>= finish put_state) ls).0
  colour-finish-Marks put_state ps ls =
      let (qs, a, e) = colour-Marks ps ls in
      let done = colour db repo i now d ps ls in
      (
        qs,
        a,
        reads-continue done.1 (finish put_state) done.0 (λ n. finish-reads put_state n done.0) ∙ e,
      )

  -- `colourPass` changes the state that it marks packfiles in only by calls of `DeleteResource`, each for a
  -- packfile that no snapshot in the cache uses and that is not marked yet, whatever fails on the way.
  pub colour_pass-Marks :
      (cutoff : ℕ) (order : List Bytes → List Bytes) (put_state : Bytes → Result (Unit {0}))
      (ls : LocalState C)
      → Marks ls (colour_pass db repo i now cutoff order put_state d ls).0
  unfolding colour_pass finish
  colour_pass-Marks cutoff order put_state ls =
      let after =
        λ (packfiles : List Bytes). colour db repo i now d (order packfiles) >>= finish put_state in
      Marks-continue repo.stored_packfiles
        (λ stored. with_orphans repo cutoff stored (set_of repo.list_packfiles) >>= after) ls
        λ stored.
          let found = with_orphans repo cutoff stored (set_of repo.list_packfiles) ls in
          rw (with_orphans-reads repo cutoff stored (set_of repo.list_packfiles) ls) (
            Marks-continue found.1 after ls
              λ packfiles. colour-finish-Marks put_state (order packfiles) ls)
