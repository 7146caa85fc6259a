-- ===== src/Caching/Scan/Paths.antt =====
-- caching/scan.go: what is stored under a path.
use plakar.Prelude.{◌≡◌, refl, ap, ◌∙◌, [], ◌∷◌, ◌++◌, if◌then◌else◌, ok}
use plakar.Text.{codes}
use plakar.Wire.{Bytes, beq_bytes, beq_bytes_refl}
use plakar.Caching.Database.{LevelDb, Works}
use plakar.Caching.Keys.{get-put}
use plakar.Caching.Scan.{
  trim_slash, summary_key, put_file, get_file, put_xattr, get_xattr, put_directory, get_directory,
  put_summary, get_summary,
}

trim_slash-append : (s : Bytes) → trim_slash (s ++ b'/' ∷ []) ≡ s
unfolding trim_slash
trim_slash-append [] = refl
trim_slash-append (x ∷ []) = refl
trim_slash-append (x ∷ y ∷ s) = ap (λ t. x ∷ t) (trim_slash-append (y ∷ s))

summary_key-append : (p : Bytes) → trim_slash p ≡ p → summary_key (p ++ b'/' ∷ []) ≡ summary_key p
unfolding summary_key
summary_key-append p h = rw (trim_slash-append p, h)

module _ {D : Type 0} (db : LevelDb D) (w : Works db) where
  -- After a write under a path the four kinds of path read what was written under that path, and what was
  -- there before under any other and of any other kind.
  pub get_path-put :
      (p q v : Bytes) (d : D)
      → (get_file db q (put_file db p v d).0 ≡ (if beq_bytes q p then ok v else get_file db q d))
        × (get_xattr db q (put_xattr db p v d).0
            ≡ (if beq_bytes q p then ok v else get_xattr db q d))
        × (get_directory db q (put_directory db p v d).0
            ≡ (if beq_bytes q p then ok v else get_directory db q d))
        × (get_file db q (put_directory db p v d).0 ≡ get_file db q d)
        × (get_directory db q (put_summary db p v d).0 ≡ get_directory db q d)
        × (get_summary db q (put_file db p v d).0 ≡ get_summary db q d)
  unfolding get_file put_file get_xattr put_xattr get_directory put_directory get_summary
      put_summary beq_bytes
  get_path-put p q v d = (
    get-put db w (codes "__file__") q (codes "__file__") p v d,
    get-put db w (codes "__xattr__") q (codes "__xattr__") p v d,
    get-put db w (codes "__directory__") q (codes "__directory__") p v d,
    get-put db w (codes "__file__") q (codes "__directory__") p v d,
    get-put db w (codes "__directory__") q (codes "__summary__") (summary_key p) v d,
    get-put db w (codes "__summary__") (summary_key q) (codes "__file__") p v d,
  )

  summary-put :
      (p q v : Bytes) (d : D)
      → get_summary db q (put_summary db p v d).0
        ≡ (if beq_bytes (summary_key q) (summary_key p) then ok v else get_summary db q d)
  unfolding get_summary put_summary beq_bytes
  summary-put p q v d =
      get-put db w (codes "__summary__") (summary_key q) (codes "__summary__") (summary_key p) v d

  -- A summary is found under its path with or without a slash behind it: what `PutSummary` wrote under
  -- the one, `GetSummary` reads under the other, for a path that has no slash at its end.
  pub get_summary-put_summary :
      (p v : Bytes) (d : D)
      → trim_slash p ≡ p
      → (get_summary db p (put_summary db (p ++ b'/' ∷ []) v d).0 ≡ ok v)
        × (get_summary db (p ++ b'/' ∷ []) (put_summary db p v d).0 ≡ ok v)
        × (get_summary db p (put_summary db p v d).0 ≡ ok v)
  get_summary-put_summary p v d h =
      let same = summary_key-append p h in
      (
        summary-put (p ++ b'/' ∷ []) p v d ∙ rw (same, beq_bytes_refl (summary_key p)),
        summary-put p (p ++ b'/' ∷ []) v d ∙ rw (same, beq_bytes_refl (summary_key p)),
        summary-put p p v d ∙ rw (beq_bytes_refl (summary_key p)),
      )
