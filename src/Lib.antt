-- ===== src/Lib.antt =====
-- The containment controller of AgentContainment: a controller fences an agent's runtime, revokes
-- what the agent holds, calls external enforcement, keeps durable evidence of it, and releases the
-- runtime only after every boundary has been released.
--
-- The parts, all under src/agent_containment/, and the files that model them:
--
--   runtime.py          Runtime: the lifecycle state, the epoch and the proof of execution leases.
--                       Runtime/Fenced is about containing; Runtime/Trace runs its methods in any
--                       order; Runtime/Leases and
--                       Runtime/Recovery are about such runs and about the guards of recovery.
--   models.py           Models: actions and decisions.
--   policy.py           Policy: denied operations, risk thresholds and forbidden sequences.
--                       Policy/Sequence is about the matching of one rule, Policy/Evaluation about
--                       one evaluation, Policy/History about a run of them.
--   runtime_fence.py    Fences, on Durable, the registry of records that is written to a file before
--                       memory changes; Fences/Restart is about a controller that starts again.
--   incident_state.py   Incidents, on Durable too: Incidents/Changes, Lifecycle, Latest, Restart and
--                       Replies are about it.
--   credentials.py      Credentials: leases of credentials, with and without a runtime;
--                       Credentials/Leases is about runs, Credentials/Revoked about `revoke_all`.
--   egress.py           Egress: the gate and the connections with their terminators.
--   enforcer.py         Enforcement: the boundary to external providers.
--   containment.py      Containment: the controller that calls all of the above. Its reports are in
--                       Containment/Report, its loops over the enforcers in Containment/Enforcers;
--                       Containment/Fencing is about `contain`, Containment/Recovery about
--                       `recover`.
--   control.py          Service: the controller service over all of these. Its state and what its
--                       methods share are in Service; Service/Contain is `contain`,
--                       Service/Admission the guards of a recovery with `reconcile_containment` and
--                       `issue_recovery_authorization`, Service/Recover is `recover`, and
--                       Service/Repair and Service/Register are `register`. Service/Authorize is
--                       `authorize`. Service/Fencing is about containing, Service/Recovery and
--                       Service/Completion about recoveries that raise and that return,
--                       Service/Guards about the guards,
--                       Service/Registered about registration, Service/Authorized about actions
--                       that are allowed. Service/Reviews is authorization with a verifier's
--                       signal and the reviews that it asks for, Service/Verified is about that
--                       authorization, Service/Later, Lifecycle and Escalation are about reviews
--                       and about runs of calls on them. Service/Workloads has the small methods
--                       on identities and workloads, Service/Identities is about identity tokens.
--   agent_tree.py       AgentTree: parents and children, and the containment of a subtree.
--                       AgentTree/Shape is the order of the tree, AgentTree/Visits the order in
--                       which `contain` visits it, AgentTree/Subtree, Order and Growth are about
--                       containing, and about registering and spawning.
--   gateway.py          Gateway: one evaluation and one execution of an action under a lease;
--                       Gateway/Effects is about the executor's side effects.
--   audit.py            AuditLog: the chain of audit lines in a file, which AuditLog/Chain verifies;
--                       AuditLog/Links, Record and Recorded are about verifying and adding to it.
--   evidence_chain.py   EvidenceChain: the chain of incident evidence; EvidenceChain/Append and
--                       EvidenceChain/Tamper are about adding to it and changing it unnoticed.
--   proof_receipt.py    ProofReceipt: signed receipts; ProofReceipt/Replay is about their way through
--                       a document and about replays.
--   cgroup_enforcer.py  CgroupEnforcer: the enforcer of a cgroup, with what it uses of
--                       linux_supervisor.py; CgroupEnforcer/Observed is about what it has observed
--                       when it confirms, CgroupEnforcer/Deadline about its wait.
--   review.py and       Review: requests for review and the signals of a verifier; Review/Signals
--   verification_signal.py   is about reading a signal.
--
-- How the program is rendered. A method is a function from its arguments and its object's state to
-- its result and the new state; one that may raise returns a `Result` beside the state, since what
-- was written stays written when it raises. The private names of the source lose their underscore.
-- `object()` identities are natural numbers that the caller passes as fresh references; `Live` of
-- Runtime/Trace holds the allocator. The outside world of clocks, callbacks and providers is a type
-- `W` that these read and change, of which nothing is assumed. Integers that a caller may pass
-- negative are `ℤ`; epochs, which the source never makes negative, are natural numbers, and so are
-- times, of which only order and difference are used. Sets are lists without a claim about their
-- order, dictionaries are association lists in insertion order. Each loop is structural
-- recursion on the list that it walks, but for three: the decimal numeral of n runs on fuel n + 1,
-- which is enough since each round divides by ten; the loops over the agent tree run on fuel, for
-- which the number of agents in the subtree is enough; and the wait of the cgroup enforcer has 202
-- rounds, of ten milliseconds at least, for its two seconds. SHA-256 over canonical JSON is a parameter,
-- and so are `json.dumps` and `splitlines` with `json.loads` of the audit log, of which nothing is
-- assumed but where a theorem says so: that what follows a newline is read for itself, and that the
-- line at hand is read as its event, which a line with U+2028 is not.
--
-- What is not modelled. The locks: each method is one step, as the lock makes it, and what other
-- threads do while `authorize` is outside of the lock is a parameter of it. The JSON text of
-- the durable files: a file holds the list of records that was dumped into it, or an error of the
-- parser, and a write either replaces the whole file or raises and leaves it, as `os.replace` does.
-- The timestamps of decisions, the metadata of actions, the attributes of governance events, and the
-- signed receipts and evidence records of reports. To the service the audit log and the event sink
-- are operations of the outside world that may raise; the audit log as a file of bytes is AuditLog. Incident
-- evidence, runtime observations, the regression harness, the transport and the other Linux
-- enforcers have no model.
pub mod Base
pub mod Runtime
pub mod Models
pub mod Policy
pub mod Durable
pub mod Fences
pub mod Incidents
pub mod Credentials
pub mod Egress
pub mod Enforcement
pub mod CgroupEnforcer
pub mod Containment
pub mod EvidenceChain
pub mod AuditLog
pub mod AgentTree
pub mod Gateway
pub mod ProofReceipt
pub mod Review
pub mod Service
