-- ===== src/Scraper/Search/Records.antt =====
-- What the yielded records have in common, and what one bad result costs.
use assemblage.Prelude.{
  ℕ, zero, suc, ◌-◌, ◌≡◌, ◌≢◌, refl, ap, ltb, List, [], ◌∷◌, ◌++◌, Option, none, some, Text,
  Bool-cases, inl, inr,
}
use assemblage.Db.Query.{All}
use assemblage.Db.Query.Laws.{All-append}
use assemblage.Messages.{RepoRecord}
use assemblage.Build.Detect.{get_build_system}
use assemblage.Scraper.Search.{
  Repo, no_page, tree_page, Item, not_dict, dict, Processed, skipped, raised, kept, paths,
  make_record, with_license, process_repo_message, yielded, item_then, page_items, PageAnswer,
  failed, no_items, items, total_after, records_of, fetch_pages, fetch_window, fetch_from,
  fetch_data, more, asked, add_window, page_fuel,
}

abbrev pub Yield : Type 0
Yield = RepoRecord × List Text

-- It has a license with a name, files, and the build system that is detected from them.
abbrev pub IsUsable : Yield → Type 0
IsUsable y =
    ((c : ℕ) × (name : Text) × (y.0.license ≡ some (c ∷ name)))
    × (y.0.build_system ≡ get_build_system y.1)
    × (y.1 ≢ [])

module _ (strptime : Text → Option Text) where
  AreUsable : Processed → Type 0
  AreUsable (kept r files) = All IsUsable (yielded strptime r files)
  AreUsable _ = Unit

  make_record-AreUsable :
      (repo : Repo) (files : List Text) (c : ℕ) (name : Text) (language sha : Option Text)
      → AreUsable (make_record strptime repo files (c ∷ name) language sha)
  unfolding make_record AreUsable
  make_record-AreUsable repo files c name none sha = tt
  make_record-AreUsable repo files c name (some l) none = tt
  make_record-AreUsable repo [] c name (some l) (some sha) = tt
  make_record-AreUsable repo (f ∷ files) c name (some l) (some sha) =
      (((c, name, refl), refl, λ e. cc), tt)

  with_license-AreUsable :
      (repo : Repo) (files : List Text) (sha : Option Text) (license : Option (Option Text))
      → AreUsable (with_license strptime repo files sha license)
  unfolding with_license AreUsable
  with_license-AreUsable repo files sha none = tt
  with_license-AreUsable repo files sha (some none) = tt
  with_license-AreUsable repo files sha (some (some [])) = tt
  with_license-AreUsable repo files sha (some (some (c ∷ name))) =
      make_record-AreUsable repo files c name repo.language sha

  process-AreUsable : (i : Item) → AreUsable (process_repo_message strptime i)
  unfolding process_repo_message AreUsable
  process-AreUsable not_dict = tt
  process-AreUsable (dict repo no_page) = tt
  process-AreUsable (dict repo (tree_page none sha)) = tt
  process-AreUsable (dict repo (tree_page (some tree) sha)) =
      with_license-AreUsable repo (paths tree) sha repo.license

  page_items-AreUsable : (is : List Item) → All IsUsable (page_items strptime is)
  unfolding page_items item_then AreUsable
  page_items-AreUsable [] = tt
  page_items-AreUsable (i ∷ is) =
      by (process_repo_message strptime i) (process-AreUsable i) (page_items-AreUsable is)
    where
      by :
          (p : Processed)
          → AreUsable p
          → All IsUsable (page_items strptime is)
          → All IsUsable (item_then strptime p (page_items strptime is))
      by skipped h k = k
      by raised h k = tt
      by (kept r files) h k = All-append IsUsable (yielded strptime r files) _ h k

  records_of-AreUsable : (a : PageAnswer) → All IsUsable (records_of strptime a)
  records_of-AreUsable failed = tt
  records_of-AreUsable no_items = tt
  records_of-AreUsable (items count is) = page_items-AreUsable is

  fetch_pages-AreUsable :
      (fuel next total : ℕ) (answer : ℕ → PageAnswer)
      → All IsUsable (fetch_pages strptime fuel next total answer).records
  unfolding fetch_pages asked
  fetch_pages-AreUsable zero next total answer = tt
  fetch_pages-AreUsable (suc fuel) next total answer =
      let rest = fetch_pages-AreUsable fuel (suc next) (total_after (answer next) total) answer in
      elim (Bool-cases (more next total)) [
        | inl e ↦ rw e (
            All-append IsUsable (records_of strptime (answer next)) _
              (records_of-AreUsable (answer next)) rest)
        | inr e ↦ rw e tt
      ]

  fetch_from-AreUsable :
      (fuel k interval : ℕ) (ends : ℕ → ℕ) (answer : ℕ → ℕ → PageAnswer) (current : ℕ)
      → All IsUsable (fetch_from strptime fuel k interval ends answer current).records
  unfolding fetch_from fetch_window add_window
  fetch_from-AreUsable zero k interval ends answer current = tt
  fetch_from-AreUsable (suc fuel) k interval ends answer current =
      let rest = fetch_from-AreUsable fuel (suc k) interval ends answer (current - interval) in
      elim (Bool-cases (ltb (ends k) current)) [
        | inl e ↦
            rw e (All-append IsUsable (fetch_window strptime (answer k)).records _ window rest)
        | inr e ↦ rw e tt
      ]
    where
      window : All IsUsable (fetch_window strptime (answer k)).records
      window = fetch_pages-AreUsable page_fuel 0 999 (answer k)

  -- Whatever GitHub answers, every record that a search yields has a license with a name and at least
  -- one file, and its build system is the one that is detected from its files.
  pub fetch_data-AreUsable :
      (fuel crawl_time_start interval : ℕ) (ends : ℕ → ℕ) (answer : ℕ → ℕ → PageAnswer)
      → All IsUsable (fetch_data strptime fuel crawl_time_start interval ends answer).records
  unfolding fetch_data
  fetch_data-AreUsable fuel start interval ends answer =
      fetch_from-AreUsable fuel 0 interval ends answer start

  no_language-raised :
      (repo : Repo) (tree : List (Option Text)) (sha : Option Text) (c : ℕ) (name : Text)
      → repo.language ≡ none
      → repo.license ≡ some (some (c ∷ name))
      → process_repo_message strptime (dict repo (tree_page (some tree) sha)) ≡ raised
  unfolding process_repo_message with_license make_record
  no_language-raised repo tree sha c name l h = rw (h, l) refl

  -- A result with a license and a tree, but whose language GitHub gives as null, ends its page: none
  -- of the results after it is yielded, whatever they are.
  pub page_items-no_language :
      (before after : List Item) (repo : Repo) (tree : List (Option Text)) (sha : Option Text)
      (c : ℕ) (name : Text)
      → repo.language ≡ none
      → repo.license ≡ some (some (c ∷ name))
      → page_items strptime (before ++ dict repo (tree_page (some tree) sha) ∷ after)
        ≡ page_items strptime before
  unfolding page_items item_then
  page_items-no_language [] after repo tree sha c name l h =
      rw (no_language-raised repo tree sha c name l h) refl
  page_items-no_language (i ∷ before) after repo tree sha c name l h =
      ap (item_then strptime (process_repo_message strptime i))
        (page_items-no_language before after repo tree sha c name l h)
