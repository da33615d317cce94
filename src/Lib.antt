-- ===== src/Lib.antt =====
-- Assemblage: a distributed system that scrapes source repositories and builds them with many
-- compilers. One coordinator owns the database and talks to scrapers and builders over RabbitMQ. A
-- builder registers a build option; the coordinator keeps one status row for each pair of a
-- repository and an option that covers it, a dispatcher for each option publishes unstarted rows as
-- tasks, and the builders' clone, build, binary and IR reports update the rows.
--
-- The parts and their files (paths in backend/assemblage):
--   Enums, Messages      enums.py, messages.py: the enumerations and the typed messages
--   Mq                   mq/topology.py, the settlement of a delivery in mq/consumer.py
--                        (`_on_message`), the retries of mq/publisher.py (`publish`)
--   Db                   db/models.py: a record for each table, a table is a list of rows;
--                        db/engine.py (`session_scope`): a body over the tables that is committed or
--                        rolled back; Db/Query holds the clauses of the queries
--   Store                db/store.py, one function for each method of `CoordinatorStore`
--   Blocklist            blocklist.py: the parsed list, its patterns, the list that follows a file
--   Coordinator          coordinator/dispatch.py, ingest.py, registration.py, scraper_requests.py,
--                        and in Coordinator/System the callbacks of app.py as events over the state
--                        that they share; in Coordinator/Running the loops of the services
--   Scraper              scraper/app.py: the bundles, the crawl and the control messages;
--                        scraper/github.py: in Scraper/Search the windows, pages and records, in
--                        Scraper/Client the tokens and rate limits
--   Runtime              runtime/service.py, runtime/supervisor.py (`_supervise`)
--   Builder              builder/report.py and in builder/pipeline.py `run_task`, whose strategy and
--                        uploads answer by arguments, and `_persist_ir`; builder/source.py (`acquire_source`),
--                        builder/artifacts.py with a bucket, builder/ir.py (`crate_of`,
--                        `discover_ride_along`, `pack`), builder/app.py (the handlers)
--   Storage              storage/layout.py: the keys of the stored objects; storage/s3.py: a bucket
--                        as its objects, with calls that may fail
--   Build                build/detect.py, build/linux.py (`build`), build/discovery.py, and of
--                        build/rust.py the backends, cargo's environment and messages, and `build`
--   Prelude, Str         numbers, lists, equality tests, and Python's methods of `str`
--   Examples             concrete worlds and runs
--
-- State is passed explicitly: a handler takes the world, which is the tables and whether the database
-- accepts each coming commit, and returns its result or failure with the new world. The coordinator's
-- threads meet in the database, in objects behind a lock and on the broker; a run is a list of events
-- in any order, each one whole handler call or one whole iteration of a dispatcher, and a call that
-- comes between two units of work of another is not modelled. A dispatcher's publish is its whole loop
-- of attempts, each of which may leave a copy on the broker that is never confirmed; the reports of a
-- builder and the bundles of a scraper are counted when their publish returns.
--
-- Parameters stand for what is outside the repository: `ilike` (the database's ILIKE), `strftime`
-- (the printed date), `accepts` (the column types take the row), `row` (which row a query without
-- an order returns first), the broker's, GitHub's, git's and the shell's answers, the time, the file
-- system's answers, the floats' power (which may overflow), the random jitter, the strict decoding of
-- bytes (which may raise), urlparse, tarfile and zstandard. Texts are lists of code points; `lower`
-- changes ASCII letters.
--
-- Loops over lists are structural; the publisher's loop recurses on its `max_attempts`, the client's
-- sleep on the seconds, a search on fuel of as many rounds as there are seconds, and the pages of a
-- window on 11 rounds, which are proved to be enough. The crawl, the waits and the retries of a request
-- recurse on the list of what happens to them.
--
-- Not modelled: the connections and channels of pika, threads and signals, logging, settings,
-- migrations, the metadata of a Rust workspace, the extraction of debug information, local mode without a bucket,
-- the dataset tools, and the legacy Windows worker: they are I/O, other programs' work or not part of
-- the running system. Times before the crawl's earliest window and fractions of seconds are left out.
mod Prelude
pub mod Str
pub mod Enums
pub mod Mq
pub mod Messages
pub mod Blocklist
pub mod Store
pub mod Coordinator
pub mod Db
pub mod Runtime
pub mod Storage
pub mod Build
pub mod Builder
pub mod Scraper
pub mod Examples
