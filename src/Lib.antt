-- ===== src/Lib.antt =====
-- npm-sentinel watches npm packages: it downloads the newest version of a package and the one before it,
-- looks for signs of a supply-chain attack, and stores the findings with a score. This library models its
-- logic and proves what makes it correct. The repository's application is the package `app`.
--
-- Parts, and how they interact. The API, the scheduler (`app/application/use_cases/monitor_updates.py`) and the
-- batch (`enqueue_top_packages_batch.py`) enqueue a scan through `enqueue_scan.py`: a row of a scan and a job are
-- stored as queued, and a message is published. A worker takes the message (`app/worker/tasks.py`), marks the
-- job, and runs `scan_package.py`: it claims the scan's row, asks the registry, downloads and extracts two
-- archives, analyses them (`app/infrastructure/scanner`), scores the findings (`app/domain`) and stores all of it
-- through the repository (`app/infrastructure/db`) in three transactions. The API (`app/api/routes.py`) lists
-- packages, versions, scans and findings through the repository's queries.
--
-- Files.
-- - Base, with Base/Lists, Base/Text, Base/Int, Base/Dict, Base/Json and Base/Tests: shared names; native
--   numbers and texts, dictionaries as association lists, JSON values, Python's operations on texts.
-- - Re: the part of Python's `re` that the patterns use, as a backtracking matcher; Re/Meaning: what a pattern
--   matches without the matcher; Re/First: the first match in the order of backtracking, and `finditer`.
-- - Core/Exceptions: app/core/exceptions.py and the classes of Python that the code catches; results.
-- - Domain: app/domain. Domain/Scoring is scoring.py; its children hold the proofs.
-- - Scanner: app/infrastructure/scanner, one file per module: InstallHooks, Size, Files (file_iteration.py and
--   the loops over it), Binary, Obfuscation, Commands, PackageJson, Analyzer, Extractor; Paths is what pathlib
--   computes for the extractor. The children hold the proofs.
-- - Db: app/infrastructure/db. Models are the rows; Table the statements on a list of rows; Packages, Scans and
--   Jobs the operations of repositories.py that change rows; UnitOfWork the transaction; Calls the operations as
--   data, so that a run of them is any interleaving of workers. Lifecycle, Claims, Findings, Holds, Raises and
--   Effects hold the proofs. Select are joins, an order and a page on lists of rows, and ILIKE; Reads are the
--   filters and the rows of app/application/ports/package_repository.py; Queries are the queries at the end of
--   repositories.py, with Queries/Packages for packages and versions. Their children hold the proofs.
-- - UseCases: app/application/use_cases, one file per use case; Lists has the five that only ask the repository.
-- - Npm: app/infrastructure/npm. Registry is registry_client.py, Tarball is tarball_downloader.py.
-- - Worker/Tasks: app/worker/tasks.py, the frame of a task with its job; Scan and Batch there are the two tasks.
--   Worker/Wiring: `_build_scan_use_case`, which fills the ports of the scan use case with the components.
--   Worker/Journey: from the request of a scan to the end of its task.
-- - PackageList: app/infrastructure/package_list/meyond_top_packages_source.py.
-- - Producer: app/infrastructure/queue/producer.py, which is the queue of the use case that enqueues a scan.
-- - Scheduler: app/scheduler/main.py. Api: Schemas is app/api/schemas.py, Routes app/api/routes.py.
--
-- Correspondence. A function has the name of the source's, without the leading underscore; its body follows the
-- source's branches and their order. A method that is awaited in a session takes the tables and returns a result
-- with the tables; what the database supplies (times, new keys, rows that others hold locked) is an argument.
-- `transact` runs a block under `async with`: it commits if the block returns and rolls back if it raises. An
-- exception is a value with its class and its message.
--
-- Bounds. All loops are over lists and texts and are structural recursions, so there is no fuel. Numbers are
-- unbounded; where a column is narrower (32 bits, the length of a text) the operation checks it as the database
-- does. A float is a fraction, and is compared exactly. `suffix` is that of Python 3.14, the version of the
-- project.
--
-- Parameters. `json.loads`, the percentage that floats give and its text, the letters and digits of Unicode
-- beyond ASCII (`str.isalnum`), the names of exception classes, `tarfile`'s reading and
-- extraction of one member, the file system's answers about a path, the ports of the use cases (Worker/Wiring fills
-- those of a scan), the broker, HTTP requests, `unquote`, the database's order of texts, the signals that reach the
-- scheduler, `datetime.fromisoformat`, base64, the hashes and the parsing of URLs.
--
-- Not modelled: the health route and the injection of dependencies; logging, settings, the construction of the
-- other use cases, and migrations. The commit of a transaction is taken not to fail, `resolve` follows no link of
-- the file system, `lower`, `upper` and ILIKE change the letters of ASCII only, the digits of the pattern of links
-- are those of ASCII, and the texts of the exceptions of the
-- extractor, the repository and the database, and of a status of the list's server, are shortened.

pub mod Base
pub mod Re
pub mod Core
pub mod Domain
pub mod Scanner
pub mod Db
pub mod UseCases
pub mod Npm
pub mod PackageList
pub mod Worker
pub mod Producer
pub mod Scheduler
pub mod Api
