-- ===== src/Db/Queries/Packages/Listed.antt =====
-- What `list_packages` and `get_package_detail` return, without their joins and window queries.
use npm_sentinel.Db.Queries.Packages.Recency.{
  newest_first_asym, newest_first_trans, newest_first_ties,
}
use npm_sentinel.Db.Select.Lookups.{
  holds, outer_join-eq-attach, select_rows-join, some_row-lookup, select_rows-all,
}
use mathlib.Core.Path.{fun_ext}
use npm_sentinel.Base.{
  ℕ, String, ◌≡◌, refl, sym, ap, ◌∙◌, inl, inr, Bool, true, false, ◌&&◌, ◌||◌, Option, none, some,
  List, [], ◌∷◌, arith, is_empty, str_eq, str_eq_iff, Bool-cases, All, or_false, min, ◌-◌,
}
use npm_sentinel.Db.Models.{Db, PackageModel, ScanResultModel}
use npm_sentinel.Db.Table.{select_rows, some_row, Unique}
use npm_sentinel.Db.Select.Order.{Apart}
use npm_sentinel.Db.Select.First.{select_rows-select_rows}
use npm_sentinel.Db.Select.Joins.{attach, as_list}
use npm_sentinel.Db.Select.Listing.{Ranked, Ranked-page}
use npm_sentinel.Db.Packages.{has_package_name}
use npm_sentinel.Db.Reads.{Pagination, PackageListFilters}
use npm_sentinel.Db.Queries.{latest_scan_subquery}
use npm_sentinel.Db.Queries.Windows.{latest_of, latest_scan_subquery-latest_of}
use npm_sentinel.Db.Queries.Listings.{wants_like, if_given-like}
use npm_sentinel.Db.Queries.Packages.{
  scanned_after, of_package, has_level, given, with_level, counts_level, has_name_like,
  to_list_item, list_packages,
}

-- No two packages have the same name.
abbrev pub UniqueNames : List PackageModel → Type 0
UniqueNames [] = Unit
UniqueNames (p ∷ ps) = (some_row (has_package_name p.name) ps ≡ false) × UniqueNames ps

-- A package without a scan of the kind has no level that is asked for.
abbrev pub has_level_of : String → Option ScanResultModel → Bool
has_level_of text none = false
has_level_of text (some r) = str_eq r.risk_level text

abbrev pub wants_level : Option String → Option ScanResultModel → Bool
wants_level none latest = true
wants_level (some text) latest = is_empty text || has_level_of text latest

-- The newest completed scan has the level that is asked for, and the name is like the text.
abbrev pub package_wanted : PackageListFilters → Db → PackageModel → Bool
package_wanted filters db p =
    wants_level filters.risk_level (latest_of true db p.id) && wants_like filters.name_query p.name

abbrev latest_pair : Db → PackageModel → Option (Option ScanResultModel)
latest_pair db p = some (latest_of false db p.id)

-- The conditions of the query on its joined rows.
abbrev row_wanted : PackageListFilters → Db → PackageModel × Option ScanResultModel → Bool
row_wanted filters db row = package_wanted filters db row.0

holds-has_level_of :
    (text : String) (o : Option ScanResultModel) → holds (has_level text) o ≡ has_level_of text o
holds-has_level_of text none = refl
holds-has_level_of text (some r) = refl

and_comm : (a b : Bool) → (a && b) ≡ (b && a)
and_comm a b = ground arith

clash : {b : Bool} → b ≡ true → b ≡ false → ⊥
clash h k = cc (h, k)

module _ (db : Db) (u : Unique (λ r. r.id) db.scan_results) where
  latest :
      (p : PackageModel)
      → select_rows (of_package p.id) (latest_scan_subquery false db)
        ≡ as_list (latest_of false db p.id)
  latest p = latest_scan_subquery-latest_of false p.id db u

  with_level-wants :
      (o : Option String) (rows : List (PackageModel × Option ScanResultModel))
      → with_level (given o) db rows
        ≡ select_rows (λ row. wants_level o (latest_of true db row.0.id)) rows
  unfolding with_level
  with_level-wants none rows = sym (select_rows-all rows)
  with_level-wants (some String.[]) rows = sym (select_rows-all rows)
  with_level-wants (some (String.◌∷◌ c s)) rows =
      select_rows-join (λ row. of_package row.0.id) (λ row. latest_of true db row.0.id)
        (latest_scan_subquery true db) (λ row. latest_scan_subquery-latest_of true row.0.id db u)
        (has_level (String.◌∷◌ c s)) rows
      ∙ ap (λ (q : PackageModel × Option ScanResultModel → Bool). select_rows q rows)
          (fun_ext (λ (row : PackageModel × Option ScanResultModel).
            holds-has_level_of (String.◌∷◌ c s) (latest_of true db row.0.id)))

  counts_level-wants :
      (o : Option String) (p : PackageModel)
      → counts_level (given o) db p ≡ wants_level o (latest_of true db p.id)
  unfolding counts_level
  counts_level-wants none p = refl
  counts_level-wants (some String.[]) p = refl
  counts_level-wants (some (String.◌∷◌ c s)) p =
      some_row-lookup (of_package p.id) (has_level (String.◌∷◌ c s)) (latest_scan_subquery true db)
        (latest_of true db p.id) (latest_scan_subquery-latest_of true p.id db u)
      ∙ holds-has_level_of (String.◌∷◌ c s) (latest_of true db p.id)

-- The conditions of the rows and of the count, as the ones that are asked for.
kept_row :
    (filters : PackageListFilters) (db : Db) (row : PackageModel × Option ScanResultModel)
    → (wants_level filters.risk_level (latest_of true db row.0.id) && has_name_like filters row.0)
      ≡ row_wanted filters db row
kept_row filters db row = rw (if_given-like filters.name_query row.0.name) refl

counted :
    (filters : PackageListFilters) (db : Db)
    → Unique (λ r. r.id) db.scan_results
    → (p : PackageModel)
    → (has_name_like filters p && counts_level (given filters.risk_level) db p)
      ≡ package_wanted filters db p
counted filters db u p =
    rw (if_given-like filters.name_query p.name, counts_level-wants db u filters.risk_level p)
      (and_comm (wants_like filters.name_query p.name)
        (wants_level filters.risk_level (latest_of true db p.id)))

module _ (text_before : String → String → Bool)
    (asym : (a b : String) → text_before a b ≡ true → text_before b a ≡ false)
    (trans : (a b c : String)
      → text_before a b ≡ true
      → text_before b c ≡ true
      → text_before a c ≡ true)
    (separates : (a b : String) → text_before a b ≡ false → text_before b a ≡ false → a ≡ b) where
  scanned_after_asym :
      (a b : PackageModel)
      → scanned_after text_before a b ≡ true
      → scanned_after text_before b a ≡ false
  scanned_after_asym a b h =
      newest_first_asym a.last_scanned_at b.last_scanned_at (text_before a.name b.name)
        (text_before b.name a.name) (asym a.name b.name) h

  scanned_after_trans :
      (a b c : PackageModel)
      → scanned_after text_before a b ≡ true
      → scanned_after text_before b c ≡ true
      → scanned_after text_before a c ≡ true
  scanned_after_trans a b c h k =
      newest_first_trans a.last_scanned_at b.last_scanned_at c.last_scanned_at
        (text_before a.name b.name) (text_before b.name c.name) (text_before a.name c.name)
        (trans a.name b.name c.name) h k

  others_apart :
      (p : PackageModel) (ps : List PackageModel)
      → some_row (has_package_name p.name) ps ≡ false
      → All (λ q. scanned_after text_before q p ≡ false → scanned_after text_before p q ≡ true) ps
  unfolding some_row
  others_apart p [] h = tt
  others_apart p (q ∷ ps) h = (
    λ m. elim (Bool-cases (scanned_after text_before p q)) [
      | inl hit ↦ hit
      | inr miss ↦
          let (t, u) =
            newest_first_ties p.last_scanned_at q.last_scanned_at (text_before p.name q.name)
              (text_before q.name p.name) miss m in
          let same = (str_eq_iff q.name p.name).1 (sym (separates p.name q.name t u)) in
          absurd (
            clash same
              (or_false (str_eq q.name p.name) (some_row (has_package_name p.name) ps) h).0)
    ],
    others_apart p ps (or_false (str_eq q.name p.name) (some_row (has_package_name p.name) ps) h).1,
  )

  Apart-of_UniqueNames :
      (ps : List PackageModel) → UniqueNames ps → Apart (scanned_after text_before) ps
  Apart-of_UniqueNames [] u = tt
  Apart-of_UniqueNames (p ∷ ps) (fresh, u) = (others_apart p ps fresh, Apart-of_UniqueNames ps u)

  -- For any strict total order of texts, if packages have different names and scans different keys: the total is
  -- the number of packages whose newest completed scan has the level that is asked for and whose name is like the
  -- text; the page is as long as the limit and these allow; and such a package stands on the page, with the
  -- level of its newest scan, at the number of such packages that were scanned after it (never scanned ones last,
  -- then by name), less the offset, if that place is on the page.
  pub list_packages-Ranked :
      (filters : PackageListFilters) (pagination : Pagination) (db : Db)
      → UniqueNames db.packages
      → Unique (λ r. r.id) db.scan_results
      → Ranked
          (scanned_after text_before)
          (package_wanted filters db)
          (λ p. some (to_list_item (p, latest_of false db p.id)))
          pagination.limit
          pagination.offset
          db.packages
          (list_packages text_before filters pagination db)
  unfolding list_packages
  list_packages-Ranked filters pagination db u v =
      let rows = attach (latest_pair db) db.packages in
      let level = with_level-wants db v filters.risk_level rows in
      let joined =
        outer_join-eq-attach (λ p. of_package p.id) (λ p. latest_of false db p.id)
          (latest_scan_subquery false db) (latest db v) db.packages in
      let filtered =
        select_rows-select_rows (λ row. has_name_like filters row.0)
          (λ row. wants_level filters.risk_level (latest_of true db row.0.id)) rows in
      let (total, size, placed) =
        Ranked-page (scanned_after text_before) scanned_after_asym scanned_after_trans
          (latest_pair db) (row_wanted filters db) to_list_item pagination.limit pagination.offset
          db.packages (Apart-of_UniqueNames db.packages u) in
      rw (joined, level, filtered, fun_ext (kept_row filters db), fun_ext (counted filters db v))
        (refl, size ∙ ap (λ (n : ℕ). min pagination.limit (n - pagination.offset)) total, placed)
