-- ===== src/Scraper/Bundler.antt =====
-- `RepoBundler` of backend/assemblage/scraper/app.py: the repositories that are not sent yet.
use assemblage.Prelude.{ℕ, ◌+◌, Bool, List, [], ◌∷◌, ◌++◌, length, leb}
use assemblage.Messages.{RepoRecord}
use assemblage.Mq.Publisher.{Published, delivered, publish_error, other_error}

pub record RepoBundler : Type 0 where
  pub size : ℕ
  pub cache : List RepoRecord
  pub total_sent : ℕ

unfoldable pub add : RepoRecord → RepoBundler → RepoBundler
add repo b = record b { cache = b.cache ++ repo ∷ [] }

unfoldable pub full : RepoBundler → Bool
full b = leb b.size (length b.cache)

-- A flush finds nothing to send, sends one bundle, or raises what the publish raised.
pub data Flushed : Type 0 where
  nothing : Flushed
  sent : List RepoRecord → Flushed
  raised : Published → Flushed

-- What the publish of the whole cache answers decides.
unfoldable pub flush_bundle : RepoBundler → Published → Flushed × RepoBundler
flush_bundle b delivered =
    (sent b.cache, record b { cache = []; total_sent = b.total_sent + length b.cache })
flush_bundle b publish_error = (raised publish_error, b)
flush_bundle b other_error = (raised other_error, b)

unfoldable pub flush_by : List RepoRecord → RepoBundler → Published → Flushed × RepoBundler
unfolding flush_bundle
flush_by [] b answer = (nothing, b)
flush_by (r ∷ rs) b answer = flush_bundle b answer

unfoldable pub flush : RepoBundler → Published → Flushed × RepoBundler
unfolding flush_by
flush b answer = flush_by b.cache b answer
