-- ===== src/Lib.antt =====
-- The scheduler of the zipp node, with the queues behind it; the ledger's virtual machine, with
-- its outputs and its checks on transactions; the markers, by which the node tells which blocks
-- are in the past of others; and the conflict DAG, which spreads acceptance and rejection over
-- conflicts.
--
-- A block reaches the scheduler of packages/core/mesh_old/scheduler.go by Submit, which files it
-- under its issuer in the buffer of packages/core/mesh_old/schedulerutils. It becomes ready once
-- its parents are scheduled or confirmed, and a ticker then calls schedule, which picks a node by
-- deficit round robin, with quanta from the access mana, and pops that node's earliest ready
-- block. A buffer over its limit drops blocks of the node with the most blocks over mana.
--
-- Schedulerutils/ElementHeap and Schedulerutils/NodeQueue model nodequeue.go: a NodeQueue is a
-- record with the submitted blocks as an association list and the inbox as the array of
-- container/heap, whose up and down loops are written out; they run on fuel of the heap's length,
-- which is enough since each step halves or at least doubles the index. Schedulerutils/BufferQueue
-- models bufferqueue.go: the ring of container/ring is the list of node IDs that starts at the
-- current one, and the NodeQueue behind an element stands once, in the map of active nodes. A
-- round over the ring has fuel of the ring's length, and the drop loop has fuel of the buffer's
-- size plus one; running out is a panic. A round ends at the node where it began, and each round
-- of dropHead drops a block, so this is enough. Schedulerutils/AccessManaCache models
-- accessmanacache.go.
--
-- Scheduler models the state and the methods of scheduler.go, and Scheduler/Schedule its function
-- schedule, the tick of mainLoop and the handler of BlockAccepted; the loops of schedule have fuel
-- of the inbox's length and of the ring's length, each plus one. Scheduler/Handlers models Start,
-- the readers and the handler of BlockProcessed. A method takes the scheduler's state and what it
-- sees of the rest of the node (the clock, the confirmation oracle, the mana, the stored blocks
-- and their children), and returns its reply and the new state, or a panic. Scheduler/Rat holds
-- the exact rationals of math/big.
--
-- Devnetvm/Balances models TransactionBalancesValid of packages/core/ledger/vm/devnetvm/utils.go,
-- with the wrap-around of uint64 written out, and Devnetvm/Alias the check AliasInitialStateValid
-- of the same file, in which the hash behind NewAliasAddress is a parameter. Devnetvm/UnlockGraph
-- models the graph of references between unlock blocks and the search for cycles in it, whose
-- depth has fuel of the number of vertices plus one. Devnetvm/Outputs holds the data of output.go
-- and address.go, Devnetvm/AliasOutput the constructors, setters and transitions of AliasOutput,
-- Devnetvm/AliasOutput/Unlocking its unlocking, and Devnetvm/AliasOutput/Authority describes,
-- apart from the code, who may unlock it; Devnetvm/LockedOutputs the ExtendedLockedOutput and the
-- sig-locked outputs, and Devnetvm/Execution the function executeTransaction of vm.go, which
-- composes these checks; a signature's validity, the hash of an output ID and the time of a
-- transaction are arguments.
--
-- Markers/Collection models the Markers of packages/core/markers/models.go, an index for each
-- sequence with the lowest and the highest of them; Markers/Sequence its ReferencedMarkers,
-- ReferencingMarkers and Sequence, for which a ThresholdMap of the foundation library is a
-- parameter whose law in LowerThresholdMode is the record LowerThreshold of
-- Markers/Sequence/Referenced; and Markers/Manager, of manager.go, the merging of the parents'
-- details, the extension of the highest available sequence, the creation of a sequence and the
-- direct reference between markers. The object storage of the sequences is a map.
--
-- Conflictdag models conflictdag.go, types.go and utils.go of packages/core/conflictdag, and
-- Conflictdag/Members its creation and update of conflicts; Conflictdag/Reachable has its
-- operations as steps. Conflictdag/Rivals and Conflictdag/Membership describe the other members of
-- a conflict's sets and the entry into them, and Conflictdag/Reached the conflicts that
-- SetConflictAccepted may reach, apart from its loops. The two loops of SetConflictAccepted are
-- loops over a walker, Base/Walkers, which is the foundation library's walker as an interface
-- whose laws are the record WalkerLaws. Their fuel is one for the conflict and for each parent,
-- and one for each conflicting conflict and each child; this is enough, since a conflict's
-- parents, children and conflicting conflicts are pushed only when its state changes to the one
-- that the loop spreads.
--
-- Panics are values of Base/Panic, with an index out of range, a nil pointer and an explicit panic
-- as the same value. Floats are a parameter, Base/Floats, whose laws the drop loop relies on are
-- the record Scales of Schedulerutils/BufferQueue/Longest; Base/Fractions is an instance for the
-- tests. Maps are association lists. Go maps are ranged over in no fixed order; a list fixes one
-- order, which is arbitrary. Numbers of blocks, sizes and times do not wrap around, since they are
-- far below 2 ^ 63.
--
-- Not modelled are locks, the ticker and the channel of the main loop, String methods and logging,
-- and the components that scheduler and ledger stand on: the object storage and the booker. Of the
-- markers, normalizeMarkers, laterMarkersReferenceEarlierMarkers and InheritStructureDetails are
-- not modelled, since they rest on the walker of the foundation library.
pub mod Base
pub mod Schedulerutils
pub mod Scheduler
pub mod Devnetvm
pub mod Markers
pub mod Conflictdag
