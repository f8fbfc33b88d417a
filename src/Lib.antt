-- ===== src/Lib.antt =====
-- The progress tracking of timely dataflow.
--
-- Timely dataflow runs a graph of operators on many workers. A message bears a timestamp of a partial
-- order, and operators learn from the progress protocol which timestamps may still arrive. The parts
-- modelled here carry that protocol.
--
-- Order.antt (timely/src/order.rs) has the traits PartialOrder and TotalOrder as records with the laws
-- they document; Order/Product and Order/Tuple have the orders of products and of pairs.
-- Timestamp.antt (timely/src/progress/timestamp.rs) has PathSummary and Refines with the impls for
-- integers, products and pairs.
-- ChangeBatch.antt (timely/src/progress/change_batch.rs) has a batch of changes of counts, that is
-- compacted now and then. Count reads a batch as a map from keys to counts.
-- Antichain.antt and MutableAntichain.antt (timely/src/progress/frontier.rs) have sets of incomparable
-- times, and frontiers that follow the counts of a change batch.
-- Capability.antt (timely/src/dataflow/operators/capability.rs) has the permits that operators hold, each
-- counted in a change batch; Balance, Insert and Sets set the counts beside the permits alive, and Input
-- has the capability that comes with a message.
-- Connectivity.antt (timely/src/progress/operate.rs) has the summaries of an operator's internal paths.
-- Activations.antt (timely/src/scheduling/activate.rs) has the paths of the operators to run, stored as
-- offsets into one vector; Paths reads them as a list of paths.
-- Bytes.antt (bytes/src/lib.rs) has slices of shared allocations, MergeQueue.antt
-- (communication/src/allocator/serializing_allocators/bytes_exchange.rs) the queue of slices between two
-- threads, and Networking.antt (communication/src/networking/mod.rs) the headers of messages between
-- processes; Regions, Sequence, Stream and Headers are about what they read, hold and hand out.
-- Notificator.antt (timely/src/dataflow/operators/generic/notificator.rs) has the requests for
-- notifications and their delivery; View reads them as counts by time, in which Delivery and Next speak.
-- Prelude.antt and Sort.antt have what these share: tests on numbers, lists over the native numbers,
-- `i64` with wrap-around, and the stable sort of std. Examples.antt has tests at concrete inputs.
--
-- An operation that changes `self` returns the new state, first where it also returns a result. An
-- `i64` is its two's complement word, a number below 2^64; additions wrap around, as they do in a
-- release build, as do the lengths of slices, and theorems say where they need that none overflows.
-- Instances of PartialOrder, Eq and Ord stand for what a client's timestamp type provides, with the laws
-- those traits document.
-- Capacities of vectors are not modelled: `reserve` and `with_capacity` change no value.
-- A panic is none. Shared cells stand in a store under the identity of their `Rc`, and a method that
-- drops a capability updates the store. A merge queue's operations hold its lock throughout, so each is
-- one step. Memory is a function from addresses to bytes. The crate byteorder is the record ByteOrder.
-- A heap is the list of its entries in order, a channel the list of what was sent, and the elapsed time
-- of a timer is an argument.
-- Location.antt (timely/src/progress/mod.rs) has the places of a graph, and Reachability.antt
-- (timely/src/progress/reachability.rs) the tracker of a scope: Propagate has propagate_all, with its
-- worklist in the order of the heap, Builder and Summaries the construction of a tracker. Balance has the
-- invariants as sums over all ports; Step, Flow, Spread, Round, Circulate, Announce, Absorb and Drain are
-- about the loops, one inside the other, Correct about the whole and Settled about a tracker with nothing
-- left to do. Wiring says which graphs lead to ports only, Edges is about the edges that are added to one,
-- Backward, Allocate, Empty and Initial about the tracker that is allocated from one, and Acyclic about
-- the rounds of the test for cycles. Its in-degrees are the words of an `i32`.
--
-- Loops are structural recursions over lists, but for three in reachability.rs that run on fuel. The
-- second step of propagate_all and the walk of summarize_outputs need not end on every graph: circulate
-- and walk run so many rounds, and what is said of them holds after any number. The removal in is_acyclic
-- takes one location off in each round, so as many rounds are enough as there are locations.
--
-- Not modelled: the transports, threads, allocation of memory, and the operators built on these parts.
pub mod Prelude
pub mod Sort
pub mod Order
pub mod ChangeBatch
pub mod Timestamp
pub mod Antichain
pub mod MutableAntichain
pub mod Networking
pub mod Bytes
pub mod MergeQueue
pub mod Capability
pub mod Connectivity
pub mod Activations
pub mod Location
pub mod Reachability
pub mod Notificator
pub mod Examples
