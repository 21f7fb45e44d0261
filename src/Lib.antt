-- ===== src/Lib.antt =====
-- A verification library of the xPoker server: the poker rules engine, that is, betting, hand
-- evaluation, side pots with rake, and the showdown; the fair-deal protocol and the coordinator that
-- deals hands by it, with their signed transcripts; the policy for real-value play; and the settlement
-- tree that payouts are claimed from, with the custody of what they are paid from.
--
-- The program's parts and their models:
--
-- * server/poker/betting.js is Betting. A hand is one object there, which `createBettingState` makes and
--   `applyAction`, `applyTimeout`, `dealStreet` and `dealRemainingBoard` change on a clone; here it is
--   the record `BettingState` (Betting/State), and an operation is a function to a state or an error.
--   Betting/Clockwise has `clockwisePlayers` and `nextSeat`; Betting/Chips the payments; Betting/Advance
--   `nextPendingActor` and `finishOrAdvance`; Betting/Create `createBettingState`; Betting/Actions
--   `legalActions`, `applyIncrease`, `applyAction` and `applyTimeout`; Betting/Deal the streets.
--   The other files below Betting prove: Setups, Forced, Blinds, Opening, Creation, Created and Started
--   about new hands, Outcome, Turns, Bankroll, Soundness, Raises, Limits, Progress, Termination, Endings,
--   Ends and Winner about actions, Streets and Board about dealing, Nearest about seats, and Hand about
--   whole hands: `Reach` there is the relation of the states that the operations reach in any order, each
--   as often as they are accepted.
-- * server/poker/evaluator.js is Evaluator: Compare has `compareEvaluations`, Five `evaluateFive`, Best
--   `combinations`, `best`, `evaluateHoldem` and `evaluateOmaha4`. Order, Optimal, Selections, Valid,
--   Hands and Omaha prove.
-- * server/poker/pots.js is Pots: Types has the data and `addAmount`, Build `buildPots`, Rake
--   `applyRake`, Settle `settlePots`. Levels, Conserved, Raked, Awards, Settled, Winners and Fair prove;
--   Refusals says which errors are failed conservation checks.
-- * server/poker/showdown.js is Showdown/Finish, which calls the pots and the evaluator; Paid proves.
-- * fairness/protocol.js is Fairness, over the record `Crypto` of what the code calls of node:crypto and
--   of the language (Fairness/Fields), of which only the lengths of the results are assumed (`Lawful`,
--   in Fairness/Paths). Fields has the hashes, commitments and canonical JSON; Deck `createDeck`,
--   `HmacStream` and `shuffleDeck`; Tree `buildMerkleLayers` and `merkleProof`; Cards `commitDeck`,
--   `revealCard` and `verifyCardReveal`; Plan `runoutPlan` and `dealPlan`; Hand `deriveHandSeed` and
--   `createCommittedHand`; Audit `verifyAuditBundle`. Swaps, Shuffle and Sampling prove about the
--   shuffle, Paths and Reveals about the tree, Positions, Holes and Dealt about the plans, Created,
--   Uniques, Canonical, Audited and Accepted about the audit. The rejection loop of `below` is recursion
--   on a number of tries, an argument of the model, with an error of its own when they run out; the
--   hypothesis `HasLowWords` of the theorem that the shuffle ends says how many are enough. The loops of
--   `bytes` and of the Merkle layers get a round for each byte and each leaf, and end within them.
-- * server/hand-coordinator.js and the local signer and verifier of server/transcript.js are Hands, over
--   the record `Platform` (Hands/Events) of the signer's keys, the beacon's verifier and the JSON forms
--   of objects. Transcript has `eventBase`, `TranscriptSigner.append` and `verifyTranscript`; Stores the
--   two memory stores; State `reduceHand`; Coordinator, Dealing and Ending the operations. An operation
--   takes the stores to an error or to its reply with the stores after it; `commitDeck` and `abortHand`
--   give the stores on an error too. `History` (Hands/History) is what a hand's guards let happen, one
--   event after another, and `Follows` (Hands/Reach) the services after any operations in any order, from
--   given ones on, `Reach` those from empty stores on; Maps, Records, Steps and Served show that each
--   operation makes histories, Verified, Committed, Invariant, Order and Safety what histories are like,
--   and Undone what failed commands do. `carry_out` (Hands/Requests) is any operation, by the request for
--   it; Kept, Replays, Remembered, Known, Repeated and Answers show what becomes of a request that is
--   repeated. Dealer is about what the dealer keeps, and Pinned about what a transcript's head pins.
--   The coordinator calls the protocol: `commitDeck` commits the hand of Fairness/Hand, reveals are those
--   of Fairness/Cards in the order of Fairness/Plan, and `completeHand` runs the audit.
-- * server/compliance/policy.js is Compliance: Policy has `createCompliancePolicy`, Evidence
--   `latestEvidence`, `activeEvidence` and `effectiveEvidenceExpiry`, Reasons and Decide `evaluateCompliance`.
--   Allowlist, Eligible and Expiry prove. A policy's countries come as they are written; a country of
--   evidence is already in the form that `country` gives.
-- * server/settlement/merkle.js is Settlement: Merkle has `buildSettlementTree` and
--   `verifySettlementClaim`, over a parameter for `sha256`, of which only the length of its hashes is
--   assumed. The `while` loop is recursion on fuel, with as many rounds as there are leaves, and the loop
--   is proved to end within them, since a round halves a level. Pushed, Rounds, Kept, Loop and Claims
--   prove.
-- * server/settlement/custody.js is Settlement/Custody, with `validateFinalizedTransfer` and
--   `reconcileCustody`; Transfers proves. The mint profiles of that file are not modelled.
--
-- Conventions. Player ids and seats are numbers, for they are only compared. Amounts are bigints in the
-- source and natural numbers here: the guards of the source refuse negative ones, and where the source
-- subtracts, a guard before it makes the difference exact. Cards are numbers, as in the source, below 52
-- where a check says so. An exception is an error value, one constructor for each message. A test of a
-- value's JavaScript type (`typeof`, `Number.isInteger`, `Array.isArray`) is true of every value of the
-- model's types and left out, except that a bet's target may be missing. `Math.sign` is an ordering; an
-- evaluation's name, which only repeats its category, is left out. A `Map` is a list of pairs in
-- insertion order. Loops are structural recursion on the list that they run through,
-- except those with a number of rounds above. In Fairness and Hands a text is its UTF-8 bytes, a
-- hexadecimal text the bytes that it stands for, so a text that is not hexadecimal is only one of another
-- length; a fresh secret is an argument. An operation of the coordinator is one step: what another one
-- does between two of its awaits is left out.
--
-- Not modelled: the table coordinator and the other services, stores and interfaces around the engine,
-- which are databases, networks and wiring, the remote signer of server/transcript.js, which repeats the
-- local one over a network, the custody service and the chain in the rest of server/settlement and in
-- settlement/programs, and the web client.
pub mod Fairness
pub mod Hands
pub mod Base
pub mod Betting
pub mod Compliance
pub mod Evaluator
pub mod Pots
pub mod Settlement
pub mod Showdown
