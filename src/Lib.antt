-- ===== src/Lib.antt =====
-- SAIPAL's core: how the evidence of a session is cut into units and reviewed (tools/saipal_engine),
-- and how the unattended analyst decides which unit it works on and whether it may call a paid
-- model (tools/saipal_analyst).
--
-- The engine cuts the events of an indexed session into episodes, the episodes into slices, and
-- offers one slice at a time. A candidate judges the slice, and a submission records its receipt
-- and moves the position of the session; the coverage report is counted from the receipts. The
-- worker asks the fair queue for a session, the budgets and circuits for leave to call, moves the
-- unit's job through the journal's stage table, and an operator gives refused units a fresh
-- attempt by a requeue. A drive takes one unit through the three roles to the engine;
-- `submit_candidate` of Submission is where its candidate arrives.
--
--   Analysis    episodes.py: facts and events (Event), boundary marks, spans and episodes
--               (Episodes; Partition, Marks, Boundaries and Handover prove). carrier.py: slices and
--               windows (Paging), the position of a session and the next unit (Session; Drained,
--               Exhaustion, Reviewed, Seen and Review prove over its life). submit.py: what a
--               receipt does to the position (Advance; Forward proves). coverage.py: the report
--               (Coverage; Count, Covered and Judged prove).
--   Submission  defence.py: the mitigations that a drift must answer (Defence); submit.py: scope,
--               digest and the rebuilt unit (Candidate), one submission with its journal of
--               intentions (Submit; Raised, Address, Send and Retry prove).
--   Gates       capability.py: the two tables of actions (Boundary); disposition.py and
--               donoharm.py: the law of dispositions and the do-no-harm gate (Disposition);
--               poison.py: the quarantine (Poison; Quarantine proves); blockers.py: why a session
--               is not bound to a protocol (Blockers).
--   Jobs        jobs.py: the stage table (Stage), a job and its identity (Job), `advance` (Advance),
--               what a restarted worker does with a stored job (Resume, Restart), and the
--               tombstones of settled jobs (Compaction).
--   Budgets     budgets.py: the ledger file (Ledger), its hourly windows and the clock-rollback
--               freeze (Windows; Usage and Rollback prove), the backend circuit (Circuit;
--               Breaker proves), the transaction around every write (Transaction), and one circuit
--               for each source (Sources; Isolation proves).
--   Fairness    fairness.py: sessions, claims and tickets (Queue), what one session's claim is
--               after an operation (Claims), the invariant of the tickets (Invariant), what
--               reconciling does (Order), and the bound on waiting (Waiting).
--   Requeue     requeue.py: the decision on one job (Decide), the fresh attempt (Apply), the pass
--               over the journal and its report, the dry run and the status (Report, Plan; Passes,
--               Accounts, Forecast and Status prove), and the allowance of one unit over its life
--               (Allowance).
--   Worker      worker.py: what is made of a session before a unit is picked (Choice; Busy and
--               Eligible prove), one guarded model call, from the gates to the accounting (Call),
--               what a transport failure does to its job (Failure), the calls of many runs
--               (Asks); Guard and Hourly prove.
--   Drive       worker.py: one unit through its stages. What a drive carries and the chain of its
--               steps (State), the call, the validation with its one repair and the failures
--               (Steps), the three roles (Roles), the submission and the loop of `_drive_unit`
--               (Unit); output.py: whether the critic is asked (Critic). Settled, Refused, Sound
--               and Bounded prove. Sound goes by the rules for chains (Rules), what a call leaves
--               of a job (Frame, Answered), the jobs that hold what their stage needs (Fit), the
--               endings (Outcome), and one file for each part of the loop (Investigated, Late,
--               Finalized, Handed, Turns); Bounded by what a job lacks (Owed) and what each part
--               pays for (Spent, Validated, Paid, Bought, Billed).
--   Base        equality tests, lists, results with the error codes of saipal_engine/errors.py,
--               and Python dictionaries as association lists in insertion order.
--
-- Times are microseconds in ℕ, an hourly window is keyed by the number of the hour since the epoch
-- (the source keys it by that number's text), and the text that a clock prints is an argument.
-- Digests and the decimal text of a number are arguments (`Hashing`, `Digests`): nothing is assumed
-- of them but what a theorem names, as that a digest is not empty. The payloads that a model
-- answered are read only for being empty or not, as the journal reads them. The facts of an event
-- hold a nested value as its text. The schema check of a candidate is an argument of a submission,
-- and so is what the lifecycle of findings does with a verdict (`Lifecycle`), on a state of its
-- own. An episode has its count of events (the fallback of `episode_slice_count` for a record
-- without one is left out), and a session without a binding status reads UNKNOWN. Time stamps and
-- the texts of provenance that a submission only stores are left out, and of an assessment of the
-- do-no-harm gate the names of the invariants stand for its prose.
--
-- `mutate_ledger` tries 50 times, as the source does, and what each try meets is an argument. The
-- review of a session (offer, judge, offer again) is no loop of the source but the repetition of
-- its commands, and runs on fuel: as many rounds as the session has slices are enough. The loop of
-- `_drive_unit` runs on fuel as well, and two turns are enough. All other definitions are
-- structural recursions without fuel. In a guarded call all operations on the ledger see one wall
-- time, and whether a durable write succeeds is an argument; a request whose charge could not be
-- written is counted apart from those that the windows know. In a drive the parsers, the kernel, the
-- provider at each call and the write of the provenance are arguments (`Env`), all steps see one
-- time, the journal is always written, and the prompts are left out; that its kernel is the
-- `submit_candidate` of Submission is not part of the model. The bands by which the worker ranks
-- sessions before their tickets are not modelled: `queue_rank` orders within a band.
--
-- Not modelled: JSON on disk, locks as operating-system objects, the confinement of paths, the
-- transports, the order in which the worker picks units, the supervisor, the law and the signals
-- that a unit carries beside its events, the detectors, the lifecycle of findings and audits, the
-- adapters, the import of sources and the command line.
pub mod Analysis
pub mod Base
pub mod Budgets
pub mod Drive
pub mod Fairness
pub mod Gates
pub mod Jobs
pub mod Requeue
pub mod Submission
pub mod Worker
