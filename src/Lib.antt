-- ===== src/Lib.antt =====
-- Knovaryn turns source documents into training datasets. This library models the parts of it that
-- decide: the durable jobs, the plan of a dataset, the chunks of a document, the splits, the reviews, the
-- export gate, the release bundles and their verifier, the artifact store, the intake, the
-- limits on callers, and the license policy. Paths are from the repository's root.
--
-- Base, Dict and Text are shared: tests on numbers, lists, dictionaries in insertion order, and texts
-- as code points.
--
-- Jobs (src/knovaryn/pipeline/jobs and JobRepository of
-- src/knovaryn/infrastructure/database/repositories.py):
--   Jobs.State is state.py; Jobs.State.Graph has the relation that its table describes.
--   Jobs.Store is the job table: create, get, get_by_idempotency, save, claim_eligible, renew_lease and
--   count_in_progress on a list of rows. A `Request` is one of the calls that change it, and
--   `execute_all` runs an interleaving of them. Rows that another transaction has locked are an
--   argument of a claim.
--   Jobs.Events and Jobs.Checkpoints are append_event, get_events, record_checkpoint and
--   completed_checkpoints, and Jobs.Checkpoints.Latest is JobCheckpointRepository; Jobs.Sequence is
--   the numbering that they share.
--   Jobs.Budget is budget.py. Jobs.Retry is retry.py. Jobs.Gateway is generate and judge
--   of src/knovaryn/infrastructure/models/gateway.py, over the cache of the calls, the ledger, which is
--   ModelCallRepository, and the budget; `run_events` of Jobs.Gateway.Paid asks it for both and
--   restarts it.
--   Jobs.Engine is engine.py: `run` takes a job and its stages through the states over the tables
--   above, with the retry loop of each stage. A stage is a function from the state of the run to an
--   `Effect`, and what else happens to the job's row while it runs is a cancel stamp;
--   a checkpoint that a stage writes by itself is left out.
--   Jobs.Worker is the loop of worker.py: heartbeats, a claim, and the run of the engine on it.
--   Jobs.Engine.Context has the state of a run. Jobs.Engine.Resume has the rule for invariants of a run.
-- Split (src/knovaryn/pipeline/split.py): check_split_integrity, assign_splits with its five
--   strategies, evaluate_split_release, plan_small_corpus_splits.
-- Review (src/knovaryn/pipeline/review/review.py, with RevisionRepository, ReviewRepository and
--   ExampleRepository): review_example over the tables.
-- Export.Gate (src/knovaryn/pipeline/export/gate.py). Export.Release and Export.Verify are release.py and
--   verify_release.py beside it: build_release_bundle as far as the archive, and the verifier with its
--   exit code. Export.Release.Items and Export.Release.Order are about tables with distinct keys and their
--   sorting; Export.Verify.Built, Clean, Entries and Rooted about the files of a built release.
-- Planner (src/knovaryn/pipeline/planner.py): plan is `plan`, over the apportionment of Planner.Apportion,
--   and Planner.TopUp is top_up_plan.
-- Chunk (src/knovaryn/infrastructure/chunking/structure_aware.py): the grouping loop of _group_units;
--   Chunk.Units is normalize_blocks, Chunk.Context is chunk_document. Chunk.Rule is the rule for
--   invariants of the loop.
-- Storage (src/knovaryn/infrastructure/artifacts/local.py): the content-addressed store, as the files of
--   its two directories by name. A `Request` of Storage.Refine is one of the calls that change it.
-- Intake.Archive, Intake.Url and Intake.Ingest (archive.py, url.py and intake.py of
--   src/knovaryn/infrastructure/intake): the guards of an archive, _validate_url with safe_fetch, which
--   lists the requests that it sends, and ingest_bytes, which meets the guards of an archive and Storage.
--   Intake.Paths is validate_local_path of paths.py, over what it asks of the file system.
-- Quality (src/knovaryn/pipeline/quality): assemble_decision of validators.py over the AcceptancePolicy of
--   src/knovaryn/domain/policies.py; Quality.Validators has the default validators and _validate of
--   src/knovaryn/application/service.py, and Quality.Semantic the verifiers of semantic.py, which meet the
--   validators in the assessments of Quality.Claims.
-- Abuse (src/knovaryn/interfaces/rest/rate_limit.py, src/knovaryn/application/abuse.py): the sliding
--   windows, over the table of the callers.
-- License (src/knovaryn/pipeline/license.py, the LicensePolicy of
--   src/knovaryn/infrastructure/validation/scanners.py, and classify_text of
--   src/knovaryn/infrastructure/privacy/report.py).
-- The modules called Tests run these at concrete inputs.
--
-- Numbers: costs are micro-dollars, scores are millionths, times are microseconds, milliseconds or ticks,
-- ratios of a split are parts of 2^32 - 1, and the weights of a plan are whole parts of their total, where
-- the code has floats.
-- A multiplier of a retry policy is whole. Bytes and texts that the code looks into are lists of numbers.
--
-- Fuel: the retry loop of a stage has one turn more than the policy's retries, which is enough.
-- Reading the pages of a log takes as many pages as there are events, and one more.
--
-- Parameters: the digests, the fingerprint of a model call, the providers with the price of a result,
-- the name service and the client of a fetch, the scanner for malware, the table of mimetypes, the file system of a local path, the rules on claims, the judge, the artifact heuristics,
-- the shuffle of a seed, random.uniform, the identifiers and tokens, the canonical hash, the lookups of
-- the export gate, the scan for personal data, the JSON of a manifest, and the reading and writing of
-- archives.
--
-- Not modelled: parsing, generation and the model providers, preference pairs and information gain, the
-- exporters, the interfaces but for the request budget, and telemetry. The heartbeat of a run is a renewal of the job table. A ReleaseBundle that has built its
-- archive refuses further files; the model builds the archive once.
pub mod Base
pub mod Dict
pub mod Text
pub mod Jobs
pub mod Split
pub mod Review
pub mod Export
pub mod Abuse
pub mod License
pub mod Chunk
pub mod Planner
pub mod Storage
pub mod Intake
pub mod Quality
