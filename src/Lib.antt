-- ===== src/Lib.antt =====
-- Cryptiq finds cryptographic calls in Python repositories and orders them for a post-quantum
-- migration. A request queues a scan of a repository at a commit; a worker takes the oldest queued
-- job, fetches and parses the snapshot, and runs the engine over it; the rules observe calls, the
-- later stages classify each observation, rank it and give it its evidence and its fingerprint; the
-- findings are stored, reviewed by people, and compared between commits. A rate limiter stands before
-- the whole service.
--
-- Which file models which part (paths from the repository's root):
--   Engine/Parsed               cryptiq/app/engine/parser/base.py
--   Engine/Parser and below     python.py and batch.py of cryptiq/app/engine/parser
--   Engine/Match                cryptiq/app/engine/rules/base.py
--   Engine/Resolution and below cryptiq/app/engine/rules/resolution.py
--   Engine/Rules and below      keypair.py, rsa.py, marker.py, ecdsa.py, ecdh.py, ed25519.py,
--                               x25519.py, aes.py, hashes.py, registry.py and runner.py of
--                               cryptiq/app/engine/rules
--   Triage/Role, Triage/Pqc     cryptiq/app/engine/roles/classifier.py, cryptiq/app/engine/pqc/mapper.py
--   Triage/Impact               models.py and analyzer.py of cryptiq/app/engine/impact
--   Triage/Tables, /Priority    rules.py and scorer.py of cryptiq/app/engine/priority
--   Triage/Candidates           the roles, the review paths and the priorities together
--   Report/Evidence             cryptiq/app/engine/evidence/__init__.py
--   Report/Fingerprint          cryptiq/app/engine/fingerprints/__init__.py
--   Report/Pipeline             cryptiq/app/engine/pipeline.py
--   Report/Persistence          cryptiq/app/services/persistence.py
--   Report/Listing and below    cryptiq/app/services/scans.py
--   Report/Diff and below       cryptiq/app/cli/diff.py
--   Jobs and below              cryptiq/app/services/scan_jobs.py, cryptiq/app/worker.py and the rows of
--                               cryptiq/app/db/models/scan.py, scan_job.py and enums.py
--   Jobs/Queue                  cryptiq/app/services/scans.py, cryptiq/app/services/scan_cache.py
--   Reviews and below           cryptiq/app/services/reviews.py
--   Ingestion/Validation        cryptiq/app/engine/ingestion/validation.py
--   Ingestion/Outcome           cryptiq/app/engine/ingestion/limits.py
--   Ingestion/Paths, /Disk, /Archive, /Extract and below
--                               cryptiq/app/engine/ingestion/archive.py
--   Ingestion/Discovery         cryptiq/app/engine/tree.py, cryptiq/app/engine/discovery/files.py and
--                               cryptiq/app/engine/ingestion/service.py
--   Ingestion/Source            cryptiq/app/engine/ingestion/source.py
--   Github/Validator            cryptiq/app/integrations/github/validator.py
--   RateLimit and below         cryptiq/app/rate_limit.py
--   Advisor/Models, /Profile    cryptiq/app/engine/context/models.py
--   Advisor/Tokens, /Clues, /Extractor
--                               cryptiq/app/engine/context/extractor.py
--   Advisor/Guardrails and below
--                               cryptiq/app/engine/context/guardrails.py
--   Advisor/Heuristics, /Service
--                               cryptiq/app/services/context_advisor.py
--   Shared and below            the methods of str, dict and sorted that these use
--
-- A function has the name of the Python function that it models, without a leading underscore; a part
-- of one, such as the body of a loop, has a name of its own and says which function it belongs to. An
-- exception is a value: none, a constructor of a result type, or the name of the error's class. State
-- that a method changes is an argument and a result. A dict is the list of its entries in the order of
-- their insertion, a database table is such a dict from identifiers to rows, and a query is a filter
-- with a stable sort.
--
-- Bounds and fuel: numbers are natural numbers, since no operation that is modelled wraps around; a
-- difference that the source takes is written so that it does not go below zero, or is zero where the
-- source takes an empty range. Three functions run on fuel. The loop over enclosing scopes gets one
-- more than the size of the scope's name, and each step shortens the name; the walk of the parser gets
-- the number of the nodes of the tree, and each step takes one node off; the digits of a number in a text
-- get one more than the number. Times are counts of clock ticks, or plain numbers for timestamps.
--
-- What is not modelled: the grammar of Python (a syntax tree is given) and of URLs (the parts are
-- given), the download of archives and the ZIP format, HTTP, JSON, the database engine and its
-- transactions beyond one request or one attempt at a time, language models, the knowledge base, the
-- command line and printing, since these are calls of other programs or text. Case mapping and
-- identifiers are those of ASCII texts; the upper-casing of the domain profiles, which may lengthen
-- what a client sends, is an argument. SHA-256, ast.parse, urlsplit, the LIKE of the database, the
-- reading of snapshot files, the parsed files of an analysis and the outcome of a scan's run are
-- arguments of the definitions that use them.
pub mod Shared
pub mod RateLimit
pub mod Engine
pub mod Triage
pub mod Report
pub mod Jobs
pub mod Reviews
pub mod Ingestion
pub mod Advisor
pub mod Github
