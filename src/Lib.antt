-- ===== src/Lib.antt =====
-- The JN Engine contributor gateway: the collaboration services, which are claims on tasks, the
-- opening of pull requests, the status of the protected checks, the audit log under them and the
-- GitHub client beside them; and the exported repository that it serves, with its admission at the
-- start, the content ids and the reads of its files, the search over them and the index of tasks.
--
-- How the program is put together. An MCP server (app/mcp/server.py) hands each call to a service:
-- TaskClaimService (app/core/task_claims.py), OpenPrService (app/core/open_pr.py) and
-- CheckStatusService (app/core/check_status.py). The claim service keeps no state of its own: it
-- decides on the records of an append-only NDJSON file, its ledger, inside AuditLog.transact
-- (app/collaboration/audit.py), which holds the lock of the file, and the decision is one more
-- record. The other services talk to GitHub through a session of app/collaboration/github.py and
-- append one record of each call by AuditLog.append.
--
-- At the start validate_snapshot (app/core/snapshot.py) walks an export of the engine's repository
-- and compares it with its manifest. ContentSearch (app/core/content_search.py) searches the files
-- of that snapshot and fetches them by content ids; each file goes through the checks of
-- app/core/path_safety.py again before it is read. TaskIndex (app/core/task_index.py) reads five of
-- the files, parses them into tasks, and answers list_tasks and get_task, which the claims ask too.
--
-- The files.
--   Base: numbers, lists and texts as the program uses them; Base/Text is Python's str.
--   Python: JSON values, dict by key, UTF-8, base64, and Result, a call that returns or raises,
--   with the exceptions of app/collaboration/errors.py.
--   Audit: app/collaboration/audit.py. `File` is the audit file: its lines, its size and whether it
--   is torn, which is to say that it ends within a record. `append` and `transact` are the methods
--   of AuditLog; `Host` holds what the operating system answers in one call. Audit/Write,
--   Audit/Record and Audit/Transact are about the write loop, one record and one transaction.
--   Claims: app/core/task_claims.py. Claims/Validate has the argument checks, Claims/Ledger
--   `_ledger_claims`, Claims/Body the `try` blocks of the two `decide` functions, and
--   Claims/Operations claim_task and release_task themselves. Claims/Records, Claims/Wellformed and
--   Claims/Inversion carry the lemmas on records, on the claims of a ledger and on calls that
--   return. Claims/Refinement is the abstract view, a registry of claims with its permitted steps,
--   and Claims/Ownership is about sequences of calls.
--   Github: app/collaboration/github.py. Github/Session has the requests and retries; Github/Retry,
--   Github/Emits and Github/Reads have the rules for what a call sends, and Github/Answered those for
--   the replies that a call goes by.
--   OpenPr: app/core/open_pr.py. OpenPr/Validate has the argument checks, OpenPr/Steps the private
--   methods of OpenPrService, OpenPr/Service open_pr. OpenPr/Accepted, OpenPr/Requests,
--   OpenPr/Safety, OpenPr/Order and OpenPr/Mutations are about what is accepted and what is sent,
--   and OpenPr/Trailer about the idempotency key in a commit message.
--   CheckStatus: app/core/check_status.py. CheckStatus/Verdict has `_context_state` and
--   `_overall`, CheckStatus/Steps the argument check and the readers of GitHub's answers,
--   CheckStatus/Service the methods of CheckStatusService. CheckStatus/Gate is about the verdict,
--   CheckStatus/Reads and CheckStatus/Sources about the reports and the runs and jobs that they
--   are of, CheckStatus/Founded and CheckStatus/Green about the contexts and a whole call.
--   Corpus: app/core/snapshot.py and app/core/path_safety.py, with their exceptions, and
--   `Outcome`, a call that returns or raises one. Corpus/Policy has is_admitted_repository_path,
--   Corpus/Scan `_scan_directory` over a tree of nodes, Corpus/Snapshot the manifest, the
--   inventory and validate_snapshot. Corpus/SafePath is validate_relative_path, Corpus/ContentId
--   the encoding and the decoding of ids, Corpus/Reads `_revalidate_file`, resolve_content_id and
--   read_text_bounded, and Corpus/Cite titles, citations and languages. The modules below them
--   are about those: Scan/Clean describes the trees that the walk should accept, with their
--   files, and Scan/Found compares the walk with that; Snapshot/Sealed and Snapshot/Valid are
--   about what a validated snapshot is read from.
--   Search: app/core/content_search.py. Search has the data and classify_file, Search/Engines the
--   line maps of the two engines, and Search/Service search and fetch. Search/Grep is a direct
--   search of a text, and Search/Mapped and Search/Reference compare the engine of Python with
--   it. Search/Sound, Search/Lines, Search/Classified and Search/Fetched are about what is found,
--   the engines, the scopes and fetch.
--   TaskIndex: app/core/task_index.py. TaskIndex/Texts has its text helpers, TaskIndex/Patterns
--   its regular expressions, TaskIndex/Records the rows, `_csv_rows` and `_record`,
--   TaskIndex/Sources `_parse_handoff` and `_parse_qa`, TaskIndex/Tables `_parse_linkage` and
--   `_parse_decomp`, TaskIndex/Catalog `_parse_catalog`, whose two loops are one over the lines,
--   and TaskIndex/Index the constructor, list_tasks and get_task. TaskIndex/Recorded and
--   TaskIndex/Loops are about what the parsers give, and TaskIndex/Unique, TaskIndex/Reads and
--   TaskIndex/Listed about the index and its reads.
--   Samples: concrete calls, and each theorem at work on one.
--
-- How the code is rendered. A call is a function from its arguments and the state to the result and
-- the state after it. An exception is a value; `other_exception` stands for every exception of
-- Python itself or of a library. In a call of a service the state is the file, and in a GitHub call
-- it is `Trail`: the requests, the statuses and the sleeps so far, and the local variables that the
-- audit record reads. A claim decision keeps its local variables in `Locals`, since they are read
-- after a raise. An instant is a number of microseconds.
--
-- Bounds. The write loop runs on fuel, one unit for each byte of the payload, which is enough since
-- each round writes a byte or ends. A read has three attempts, and its loop is recursion on the
-- attempts that are left. A number has at most one decimal digit more than it says. All other loops
-- are over lists, texts or trees.
--
-- What is a parameter. GitHub is any function from the requests so far and the new one to a reply.
-- The operating system's answers are any. `Calendar` is Python's datetime: `format` is
-- `_timestamp`, and `IsFaithful` says that a timestamp has at most 32 characters and is read back
-- as the instant without the fraction of its second. `printable` is str.isprintable of one
-- character; `casefold`, `lower` and `millis` are str.casefold, str.lower and the reading of a
-- Retry-After header; `to_str` and `to_int` are str and int of a JSON value. `encoded` is the
-- length of the line that json.dumps writes of a record, a positive number. `get_task` is the task
-- index's, and `new_id` what the claim ID factory returns.
--
-- `Readers` holds json and pydantic's reading of the manifest's types, and SHA-256; `Node` is what
-- lstat, scandir and read answer for an entry of the export, `Disk` what lstat, resolve and open
-- answer during a request, which may be anything. `Unicode` is str.casefold. `Ripgrep` is a run of
-- rg: whether it is there, its status, its lines as json.loads reads them, the resolution of the
-- paths in them and int of the line numbers. `Library` is str.casefold, str.upper, the digits of
-- `\d` and of str.isdigit, and the rows of a strict csv.DictReader, or where it raises.
--
-- What is taken for granted. The names of the files of an export are Unicode texts, and the tree
-- stays as it is while the program starts. The content root can be resolved. json.loads of a line
-- that json.dumps wrote gives the record back. Nothing else writes to the file while its lock is
-- held. The unlocking and closing in `finally` raise nothing.
--
-- What is not modelled. The MCP and REST servers, the OAuth flows, the configuration and the
-- response models call libraries or declare data for them. The index of symbols and the
-- project context of app/core, app/gateway_repo and the scripts of deploy are parts of their
-- own. The command line of rg is not modelled,
-- nor are the log lines of the task index.
pub mod Base
pub mod Python
pub mod Audit
pub mod TaskIndex
pub mod Claims
pub mod Github
pub mod OpenPr
pub mod CheckStatus
pub mod Corpus
pub mod Search
pub mod Samples
