-- ===== src/Lib.antt =====
-- glimt, a self-hosted web analytics server: from a page's payload to the dashboard.
--
-- A tracked page sends a payload to internal/ingest/collector.go under the collect token of its
-- website, which internal/sites/sites.go finds in a registry kept beside the table of websites.
-- internal/ingest/enrich.go makes an event of the payload and the request, with the visitor's hash
-- of internal/ingest/visitor.go, the class of the referrer, the buckets of the User-Agent and the
-- place of the address. The event goes through a bounded channel to the one writer of
-- internal/ingest/writer.go, which stores events in batches and stitches them into sessions.
-- internal/rollup/rollup.go counts the recent hours and days again, once a minute, into two tables and
-- prunes old events, and internal/query/query.go reads both for the pages of internal/dashboard.
-- internal/auth/auth.go guards the dashboard, internal/tracker/tracker.go serves the script of a
-- website, internal/store/store.go opens and migrates the database, and internal/config/config.go reads
-- the settings. internal/web/web.go sends each request to its handler, and cmd/glimt/main.go starts all
-- of them, serves, and stops.
--
-- Files:
--   Base and Base/: shared names, Boolean tests, lists, Go strings as bytes, signed integers.
--   Model: internal/model/model.go. Store/Tables: the tables of internal/store/migrations as lists
--     of rows. Store/Sql: statements, each of which may fail, and transactions; Steady, Ensures and
--     Keeps are rules for runs of statements (those that succeed, and those with any outcome).
--   Ingest/Writer: insertEvent (find_open, stitch, insert_event) and flush. Effects compares them
--     with a plain fold over the events; Counts, Owners and Stitching are about their sessions.
--   Ingest/Loop: New, Start, Enqueue, Stop and loop as a step relation; Loop/Drain, its runs.
--   Ingest/Visitor: SaltManager.ensure and Hash; Visitor/Salts, the life of a salt.
--   Ingest/Enrich: build and its helpers; Enrich/Bounds and Enrich/Paths.
--   Ingest/Collector: Handle, HandlePixel, clientIP, trustPeer, country; Collector/Clients and
--     Collector/Replies.
--   Referrer, Ua, Geo: internal/referrer/referrer.go, internal/ua/ua.go, internal/geo/geo.go.
--   Sites: the registry and its writes; Sites/Mirror, Reload; Sites/Writes, what a write leaves.
--   Auth: passwords, accounts, sessions and the middleware; Auth/Passwords, Auth/Admins with
--     Auth/Staffed, and Auth/Sessions.
--   Config: Load and parseTrustedProxies; Config/Layers and Config/Proxies.
--   Rollup: recompute and Run; Rollup/Outcome compares a pass with plain functions of the tables, Exact
--     is about its counts, Retention and Idempotent about passes after one another, Recovery about
--     passes that fail.
--   Query: scope, Summary, Vitals, Realtime; Query/Series, TimeSeries; Query/Funnel, the funnels, with
--     Greedy and Counts; Query/Top, Top and ExportEvents; Query/Fresh, the headline after a pass, and
--     Query/Ingested, from the accepted events on; Query/Scoped, what is read for one website.
--     Store/Reads and Store/Gives are rules for runs of statements that only read, on two databases and
--     where nothing fails.
--   Dashboard/Range: resolveRangeParams; Dashboard/Page: buildDashboard; Dashboard/Handlers: Index,
--     home, Realtime, Share, Export, with Handlers/Shared, Handlers/Totals and Handlers/Reading;
--     Dashboard/Download: the file that Export sends; Dashboard/Admin: the handlers that write, with
--     Admin/Guards and Admin/Staffed; Dashboard/Settings: renderSettings; Dashboard/Templates: New,
--     parseTemplates and render; Dashboard/Chart: chart.go; Dashboard/Format: format.go.
--   Store/Migrate: migrate; Store/Open: Open and Close; Store/Spends: a rule for the faults that a run of
--     statements uses up. Tracker: New, Serve, Render. Sites/Reuse: the ids of websites.
--   Web: Router, with every handler over one state of the server; Web/Open, Web/Gate and Web/Shown, what
--     a request without a session may do and see.
--   Program: run of cmd/glimt/main.go; Program/Shutdown, what it has closed when it returns;
--     Program/Serving, what it serves with; Program/Running, the requests, the writer and the worker as
--     steps of one state; Program/Background, what the writer and the worker keep.
--   Tests: definitions on concrete inputs, and each theorem at one.
--
-- Conventions. A call of the database takes and gives a World: the tables and a list of faults, of
-- which each statement uses one up, so that every statement may fail at every point. Clocks, random
-- bytes and what the program calls of other libraries (net/url, net, encoding/json, crypto, the
-- User-Agent and mmdb readers, Unicode's tables) are arguments. Times of events are milliseconds,
-- those of Auth nanoseconds; days are counted from 1970. A text is the list of its bytes. Ids,
-- times and counters of rows are natural numbers without a bound: at 64 bits they do not run over
-- in practice. The counter of dropped events and the session's duration wrap at 64 bits as in the
-- source. float64 measurements, which the program stores and adds up, are whole numbers,
-- and averages and percentages are fractions. Fuel is used twice: TrimSpace has the length of the
-- text, which is enough since each step cuts a byte, and the loop of TimeSeries has one round more than
-- the buckets of its range, which is enough since each round goes one bucket on; the theorem on the
-- chart's total needs every bucket. All other loops go through a list. Where SQL leaves the order of
-- equal rows or groups open, the order of first appearance is taken.
--
-- Not modelled: the files of the templates, the embedded assets, the log lines, middleware.Recoverer, and
-- fmtPct, which formats floating point. The coordinates of a chart are fractions, and what %.1f makes of
-- them is an argument, as is chi's choice among the routes. A request is handled from start to end before
-- the next step, and main.go's time limit on a request's header is left out. Whether Shutdown comes to
-- its end within its ten seconds is an argument; a handler that is still at work when the writer's
-- channel is closed, whose send panics, has no step. Dates before 1970 are left out. The locks of
-- SaltManager and Registry are left out: under them each operation runs as one step.
pub mod Auth
pub mod Base
pub mod Config
pub mod Dashboard
pub mod Geo
pub mod Ingest
pub mod Model
pub mod Program
pub mod Query
pub mod Referrer
pub mod Rollup
pub mod Sites
pub mod Store
pub mod Tests
pub mod Tracker
pub mod Ua
pub mod Web
