-- ===== src/Scraper/Search.antt =====
-- `GitHubRepoSearch` of backend/assemblage/scraper/github.py: windows of time, the pages of each, and
-- the record of each result. What GitHub answers is an argument; an exception of the request or of
-- the JSON parser counts as a failed one, since both are logged and the next page follows.
pub mod Windows
pub mod Records
use assemblage.Prelude.{
  ℕ, zero, suc, ◌+◌, ◌-◌, ◌*◌, min, Bool, true, false, not, ltb, leb, if◌then◌else◌, List, [], ◌∷◌,
  ◌++◌, Option, none, some, Text, codes,
}
use assemblage.Str.{lower}
use assemblage.Messages.{RepoRecord}
use assemblage.Build.Detect.{get_build_system}

abbrev pub page_size : ℕ
page_size = 100

-- A result of the search. `language` is none where GitHub has null or no such key; `license` is none
-- where there is none, and its name is none where it is not a dictionary with a name.
pub record Repo : Type 0 where
  pub name : Text
  pub url : Text
  pub language : Option Text
  pub owner_id : ℕ
  pub description : Option Text
  pub created_at : Text
  pub pushed_at : Text
  pub size : ℕ
  pub default_branch : Text
  pub license : Option (Option Text)

-- The answer to the request for the tree: none, or a page that may have a tree and a hash. Each entry
-- of the tree may have a path.
pub data TreeAnswer : Type 0 where
  no_page : TreeAnswer
  tree_page : Option (List (Option Text)) → Option Text → TreeAnswer

-- A result may be no dictionary.
pub data Item : Type 0 where
  not_dict : Item
  dict : Repo → TreeAnswer → Item

-- (None, None), a record with its files, or an exception.
pub data Processed : Type 0 where
  skipped raised : Processed
  kept : RepoRecord → List Text → Processed

unfoldable pub paths : List (Option Text) → List Text
paths [] = []
paths (none ∷ es) = paths es
paths (some p ∷ es) = p ∷ paths es

abbrev or_empty : Option Text → Text
or_empty none = []
or_empty (some s) = s

-- `strptime` stands for reading a time in GitHub's format and printing it in MySQL's.
github_time_to_mysql_time : (Text → Option Text) → Text → Text
github_time_to_mysql_time strptime gtime = elim (strptime gtime) [
  | none ↦ codes "2000-01-01 01:01:01"
  | some t ↦ t
]

-- The answer to the request for a page of results.
pub data PageAnswer : Type 0 where
  failed no_items : PageAnswer
  items : ℕ → List Item → PageAnswer

-- The pages that a window asks for, the records it yields, and whether its test ended it.
pub record Pages : Type 0 where
  pub requests : List ℕ
  pub records : List (RepoRecord × List Text)
  pub done : Bool

-- The test `payload["page"] * SCRAPER_PAGE_SIZE < total` where the page is `next - 1`.
unfoldable pub more : ℕ → ℕ → Bool
more zero total = true
more (suc page) total = ltb (page * page_size) total

abbrev pub total_after : PageAnswer → ℕ → ℕ
total_after (items count is) total = min count total
total_after _ total = total

-- Enough for the pages of a window.
abbrev pub page_fuel : ℕ
page_fuel = 11

-- The times of a window's query.
pub record Query : Type 0 where
  pub from_time : ℕ
  pub to_time : ℕ

-- The windows of a search, the records it yields, `current_crawl_time`, and whether its test ended it.
pub record Fetched : Type 0 where
  pub windows : List Query
  pub records : List (RepoRecord × List Text)
  pub current : ℕ
  pub done : Bool

module _ (strptime : Text → Option Text) where
  -- `repo["language"].lower()` and `repo_page["sha"]` raise where there is no text.
  unfoldable pub make_record : Repo → List Text → Text → Option Text → Option Text → Processed
  unfolding github_time_to_mysql_time lower
  make_record repo files license none sha = raised
  make_record repo files license (some language) none = raised
  make_record repo files license (some language) (some sha) =
      kept
        (record {
          name = repo.name;
          url = repo.url;
          language = lower language;
          owner_id = repo.owner_id;
          description = or_empty repo.description;
          created_at = github_time_to_mysql_time strptime repo.created_at;
          updated_at = github_time_to_mysql_time strptime repo.pushed_at;
          size = repo.size;
          build_system = get_build_system files;
          branch = repo.default_branch;
          commit_hexsha = some sha;
          license = some license;
        })
        files

  -- The filter: no license, or one with no name or an empty one.
  unfoldable pub with_license : Repo → List Text → Option Text → Option (Option Text) → Processed
  unfolding make_record
  with_license repo files sha none = skipped
  with_license repo files sha (some none) = skipped
  with_license repo files sha (some (some [])) = skipped
  with_license repo files sha (some (some (c ∷ name))) =
      make_record repo files (c ∷ name) repo.language sha

  -- `_process_repo_message`
  unfoldable pub process_repo_message : Item → Processed
  unfolding with_license paths
  process_repo_message not_dict = skipped
  process_repo_message (dict repo no_page) = skipped
  process_repo_message (dict repo (tree_page none sha)) = skipped
  process_repo_message (dict repo (tree_page (some tree) sha)) =
      with_license repo (paths tree) sha repo.license

  -- `if record and files: yield record, files`
  abbrev pub yielded : RepoRecord → List Text → List (RepoRecord × List Text)
  yielded r [] = []
  yielded r (f ∷ files) = (r, f ∷ files) ∷ []

  -- The loop over the items of a page, after one of them: an exception ends it.
  unfoldable pub item_then :
      Processed → List (RepoRecord × List Text) → List (RepoRecord × List Text)
  item_then skipped rest = rest
  item_then raised rest = []
  item_then (kept r files) rest = yielded r files ++ rest

  unfoldable pub page_items : List Item → List (RepoRecord × List Text)
  unfolding process_repo_message item_then
  page_items [] = []
  page_items (i ∷ is) = item_then (process_repo_message i) (page_items is)

  abbrev pub records_of : PageAnswer → List (RepoRecord × List Text)
  records_of (items count is) = page_items is
  records_of _ = []

  unfoldable pub asked : ℕ → PageAnswer → Pages → Pages
  asked next answer rest = record {
    requests = next ∷ rest.requests;
    records = records_of answer ++ rest.records;
    done = rest.done;
  }

  unfoldable pub fetch_pages : ℕ → ℕ → ℕ → (ℕ → PageAnswer) → Pages
  unfolding more asked page_items
  fetch_pages zero next total answer = record {
    requests = [];
    records = [];
    done = not (more next total);
  }
  fetch_pages (suc fuel) next total answer =
      let rest = fetch_pages fuel (suc next) (total_after (answer next) total) answer in
      if more next total
      then asked next (answer next) rest
      else record { requests = []; records = []; done = true }

  -- The pages of one window, which begins with a total "big enough to run the while loop once".
  unfoldable pub fetch_window : (ℕ → PageAnswer) → Pages
  unfolding fetch_pages
  fetch_window answer = fetch_pages page_fuel 0 999 answer

  unfoldable pub add_window : Query → Pages → Fetched → Fetched
  add_window q pages rest = record {
    windows = q ∷ rest.windows;
    records = pages.records ++ rest.records;
    current = rest.current;
    done = rest.done;
  }

  -- The loop of `fetch_data` from the `k`-th window on. Another thread may set `crawl_time_end`, so
  -- `ends k` is what the test before that window reads. Times are counted from before every window,
  -- so the difference is not cut off at 0.
  unfoldable pub fetch_from : ℕ → ℕ → ℕ → (ℕ → ℕ) → (ℕ → ℕ → PageAnswer) → ℕ → Fetched
  unfolding fetch_window add_window
  fetch_from zero k interval ends answer current = record {
    windows = [];
    records = [];
    current = current;
    done = leb current (ends k);
  }
  fetch_from (suc fuel) k interval ends answer current =
      let from = current - interval in
      let rest = fetch_from fuel (suc k) interval ends answer from in
      if ltb (ends k) current
      then add_window (record { from_time = from; to_time = from + interval })
          (fetch_window (answer k)) rest
      else record { windows = []; records = []; current = current; done = true }

  unfoldable pub fetch_data : ℕ → ℕ → ℕ → (ℕ → ℕ) → (ℕ → ℕ → PageAnswer) → Fetched
  unfolding fetch_from
  fetch_data fuel crawl_time_start interval ends answer =
      fetch_from fuel 0 interval ends answer crawl_time_start
