-- ===== src/Examples/Scraper.antt =====
-- A scraper with bundles of two, and a client of GitHub.
use assemblage.Prelude.{
  ℕ, zero, suc, ◌≤◌, ◌≡◌, refl, true, false, List, [], ◌∷◌, ◌++◌, Option, none, some, Text, codes,
  length, list_eq, nat_eq, option_eq, arith,
}
use assemblage.Db.Query.{All}
use assemblage.Enums.{continuous, on_request, request_repos}
use assemblage.Messages.{ScraperControlReply}
use assemblage.Prelude.{negsuc}
use assemblage.Mq.Publisher.{delivered, publish_error}
use assemblage.Scraper.Bundler.{add, full, flush}
use assemblage.Scraper.Crawl.{Scraper, Turn, turn, crawl, flush_cache, check_for_update, handle}
use assemblage.Scraper.Crawl.Keeping.{concat, collected, IsCounted, pulled, crawl-collected}
use assemblage.Scraper.Crawl.Bounds.{HasRoom, turn-HasRoom}
use assemblage.Scraper.Search.{
  Repo, Item, dict, not_dict, tree_page, PageAnswer, failed, items, fetch_data, page_items,
}
use assemblage.Scraper.Search.Windows.{Tiles, fetch_data-Tiles}
use assemblage.Scraper.Search.Records.{IsUsable, fetch_data-AreUsable, page_items-no_language}
use assemblage.Scraper.Client.{Client, Parsed, make_client}
use assemblage.Examples.Data.{scraped_repo}

abbrev scraper : Scraper
scraper = record {
  uuid = codes "s1";
  bundler = record { size = 2; cache = []; total_sent = 0 };
  controlled = record {
    control = record {
      ready = true;
      bundle_requested = false;
      policy = continuous;
      last_sent_crawltime = none;
    };
    window = record { crawl_time_start = 500; crawl_time_end = 100; qualifiers = [] };
  };
  bundles = [];
  requests = [];
}

-- The bundle is not confirmed in the second turn, and in the third the crawl is not run any more.
abbrev one_turn : Turn
one_turn = record {
  repo = scraped_repo;
  stopped = false;
  current = 400;
  update_answer = delivered;
  arrived = [];
  flush_answer = delivered;
  polls = [];
}

abbrev lost_turn : Turn
lost_turn = record one_turn { flush_answer = publish_error }

abbrev turns : List Turn
turns = one_turn ∷ lost_turn ∷ one_turn ∷ []

crawl-collected_example :
    (collected (crawl turns scraper).1 ≡ collected scraper ++ pulled turns scraper)
    × IsCounted (crawl turns scraper).1
unfolding concat
crawl-collected_example = crawl-collected turns scraper refl

-- The cache holds two after the failure, and then the next run adds one and sends all three.
resumed : length (crawl (one_turn ∷ []) (crawl turns scraper).1).1.bundles ≡ 1
unfolding crawl turn flush_cache check_for_update handle add full flush option_eq nat_eq
resumed = refl

-- While the second turn waits, the coordinator asks for the bundle.
abbrev asking : Scraper
asking = record scraper {
  bundler = record { size = 1; cache = []; total_sent = 0 };
  controlled = record {
    control = record {
      ready = true;
      bundle_requested = false;
      policy = on_request;
      last_sent_crawltime = some 400;
    };
    window = record { crawl_time_start = 500; crawl_time_end = 100; qualifiers = [] };
  };
}

abbrev bundle_request : ScraperControlReply
bundle_request = record {
  message_type = request_repos;
  start_time = none;
  end_time = none;
  policy = none;
  request_amount = negsuc 0;
  specific_recipient = false;
  qualifiers = none;
}

abbrev asked_turn : Turn
asked_turn = record one_turn {
  polls =
      record { stopped = false; arrived = []; answer = delivered }
      ∷ record { stopped = false; arrived = (none, bundle_request) ∷ []; answer = delivered }
      ∷ [];
}

abbrev search_repo : Repo
search_repo = record {
  name = codes "p";
  url = codes "https://api.github.com/repos/o/p";
  language = some (codes "C");
  owner_id = 7;
  description = none;
  created_at = codes "2020";
  pushed_at = codes "2021";
  size = 12;
  default_branch = codes "main";
  license = some (some (codes "MIT"));
}

abbrev no_language : Repo
no_language = record search_repo { language = none }

abbrev tree : List (Option Text)
tree = some (codes "Makefile") ∷ none ∷ []

abbrev good_item : Item
good_item = dict search_repo (tree_page (some tree) (some (codes "abc")))

abbrev strptime : Text → Option Text
strptime t = none

abbrev answer : ℕ → ℕ → PageAnswer
answer k zero = failed
answer k (suc p) = items 1 (good_item ∷ not_dict ∷ [])

abbrev ends : ℕ → ℕ
ends k = 250

fetch_data-Tiles_example :
    ((fetch_data strptime 500 500 200 ends answer).done ≡ true)
    × Tiles 500
        (fetch_data strptime 500 500 200 ends answer).windows
        (fetch_data strptime 500 500 200 ends answer).current
    × ((fetch_data strptime 500 500 200 ends answer).current
        ≤ ends (length (fetch_data strptime 500 500 200 ends answer).windows))
fetch_data-Tiles_example =
    fetch_data-Tiles strptime 500 500 200 ends answer (omega arith) (λ k. omega arith) (omega arith)

two_windows : length (fetch_data strptime 500 500 200 ends answer).windows ≡ 2
unfolding fetch_data
two_windows = refl

fetch_data-AreUsable_example : All IsUsable (fetch_data strptime 500 500 200 ends answer).records
fetch_data-AreUsable_example = fetch_data-AreUsable strptime 500 500 200 ends answer

page_items-no_language_example :
    page_items strptime (
      (good_item ∷ [])
      ++ dict no_language (tree_page (some tree) (some (codes "abc"))) ∷ good_item ∷ [])
    ≡ page_items strptime (good_item ∷ [])
page_items-no_language_example =
    page_items-no_language strptime (good_item ∷ []) (good_item ∷ []) no_language tree
      (some (codes "abc")) b'M' (codes "IT") refl refl

turn-HasRoom_example : HasRoom (turn asked_turn asking).1
unfolding turn handle check_for_update flush_cache add full flush option_eq nat_eq
turn-HasRoom_example = turn-HasRoom asked_turn asking (omega arith) (refl, (refl, tt)) refl

abbrev client : Client
client = make_client (some (codes "t1")) (codes "t2" ∷ []) 1000

abbrev limited : Parsed
limited = record {
  remaining_rate_limit = 0;
  rate_limit_reset_time = 1300;
  secondary = true;
  retry_after = none;
  ok = false;
  text = [];
}
